-- ===== src/Play.antt =====
-- The calls that drive a game, in any order and with any arguments: backend/app/core/engine.py.
pub mod Keeps
pub mod Left
pub mod Ends
pub mod Outcomes
use codenames_llm_bias.Shared.{ℕ, List, [], ◌∷◌, Text}
use codenames_llm_bias.Shared.Int.{ℤ}
use codenames_llm_bias.Schemas.Card.{Seat}
use codenames_llm_bias.Schemas.State.{ConfidenceRanking}
use codenames_llm_bias.Validator.{IsValidClue}
use codenames_llm_bias.Engine.{
  Engine, receive_clue, resolve_guess, pass_turn, concede_sudden_death, attach_confidence_ranking,
  attach_sudden_death_ranking,
}

pub data Call : Type 0 where
  clue : IsValidClue → Text → ℤ → Seat → List Text → Call
  guess : ℕ → Seat → Call
  pass concede : Seat → Call
  rank : ConfidenceRanking → Call
  rank_sd : ConfidenceRanking → Seat → Call

-- The engine after a call, which may have raised.
unfoldable pub perform : Call → Engine → Engine
perform (clue is_valid word count p targets) e = (receive_clue is_valid word count p targets e).1
perform (guess card_id p) e = (resolve_guess card_id p e).1
perform (pass p) e = (pass_turn p e).1
perform (concede p) e = (concede_sudden_death p e).1
perform (rank r) e = (attach_confidence_ranking r e).1
perform (rank_sd r p) e = (attach_sudden_death_ranking r p e).1

unfoldable pub play : List Call → Engine → Engine
play [] e = e
play (c ∷ cs) e = play cs (perform c e)
