-- ===== src/Engine.antt =====
-- backend/app/core/engine.py: `CodenamesDuetEngine`.
mod Monad
pub mod Turns
pub mod Guesses
pub mod Clues
unfoldable pub use Monad.*
unfoldable pub use Turns.{any_pending_words, switch_roles, finish_game, pass_turn}
unfoldable pub use Guesses.{resolve_guess, concede_sudden_death}
unfoldable pub use Clues.{
  new_engine, receive_clue, attach_confidence_ranking, attach_sudden_death_ranking,
}
