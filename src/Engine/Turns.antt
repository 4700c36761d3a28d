-- ===== src/Engine/Turns.antt =====
-- backend/app/core/engine.py: the end of a turn and of the game.
use codenames_llm_bias.Shared.{
  ◌+◌, Bool, ◌&&◌, ◌||◌, Option, none, some, List, [], ◌∷◌, ◌++◌, ◌==◌, nat_eq, if◌then◌else◌, true,
  leb,
}
use codenames_llm_bias.Shared.Int.{pos, ◌-ℤ◌, leb_ℤ, ltb_ℤ, int_eq}
use codenames_llm_bias.Schemas.Card.{Seat, seat0, seat_eq}
use codenames_llm_bias.Schemas.State.{
  GameState, giving_clue, guessing, game_over, sudden_death_human, sudden_death_llm, phase_eq,
  GameResult, ClueEntry,
}
use codenames_llm_bias.Engine.Monad.{
  Engine, Action, require, gets, modify, ◌>>=◌, ◌>>◌, pending, pass_out_of_phase,
  not_passing_guesser, pass_without_guess,
}

unfoldable pub any_pending_words : GameState → Bool
any_pending_words s =
    ltb_ℤ (pos 0) s.pending_words.pending0 || ltb_ℤ (pos 0) s.pending_words.pending1

-- `_finish_game`
unfoldable pub finish_game : GameResult → GameState → GameState
finish_game r s = record s { is_game_over = true; current_phase = game_over; result = some r }

-- `clue_history.append(current_clue)`, if there is a clue
abbrev pub archive : Option ClueEntry → List ClueEntry → List ClueEntry
archive none history = history
archive (some c) history = history ++ c ∷ []

-- The two parts of `_switch_roles`: the next turn, and the start of sudden death.
unfoldable pub next_turn : GameState → GameState
next_turn s =
    let roles_kept = pending s.clue_giver s == pos 0 in
    record s {
      clue_giver = if roles_kept then s.clue_giver else s.guesser;
      guesser = if roles_kept then s.guesser else s.clue_giver;
      current_phase = giving_clue;
      guesses_made_this_turn = 0;
      turn_number = s.turn_number + 1;
      clue_history = archive s.current_clue s.clue_history;
      current_clue = none;
    }

unfoldable pub start_sudden_death : GameState → GameState
unfolding any_pending_words
start_sudden_death s =
    if leb_ℤ s.timer_tokens (pos 0) && any_pending_words s
    then record s {
      current_phase = if pending seat0 s == pos 0 then sudden_death_human else sudden_death_llm;
      sd_measurement_pending = true;
    }
    else s

unfoldable pub switch_roles : GameState → GameState
switch_roles s = start_sudden_death (next_turn s)

-- A check token is taken from the reserve.
abbrev pub spend_check : GameState → GameState
spend_check s = record s {
  timer_tokens = s.timer_tokens -ℤ pos 1;
  check_tokens = s.check_tokens + 1;
}

unfoldable pub pass_turn : Seat → Action (Unit {0})
pass_turn player_id = do
  s ← gets Engine.state
  require (s.current_phase == guessing) pass_out_of_phase
  require (player_id == s.guesser) not_passing_guesser
  require (leb 1 s.guesses_made_this_turn) pass_without_guess
  modify (λ e. record e { state = switch_roles (spend_check e.state) })
