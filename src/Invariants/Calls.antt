-- ===== src/Invariants/Calls.antt =====
-- backend/app/core/engine.py: the calls other than a guess and the invariant of the engine.
use codenames_llm_bias.Shared.{◌+◌, ◌≡◌, true, false, List, arith, Text, Option, none, some}
use codenames_llm_bias.Shared.Int.{ℤ, pos, ◌-ℤ◌, int_eq}
use codenames_llm_bias.Schemas.Card.{Seat, seat_eq}
use codenames_llm_bias.Schemas.State.{
  GameResult, loss_stopped_sd, phase_eq, ConfidenceRanking, ClueEntry, giving_clue,
}
use codenames_llm_bias.Validator.{IsValidClue}
use codenames_llm_bias.Engine.{
  Engine, pass_turn, finish_game, concede_sudden_death, receive_clue, attach_confidence_ranking,
  attach_sudden_death_ranking,
}
use codenames_llm_bias.Engine.Turns.{spend_check}
use codenames_llm_bias.Engine.Clues.{penalize, store_clue, new_clue}
use codenames_llm_bias.Invariants.Check.{nothing_pending, is_won, is_game_result}
use codenames_llm_bias.Invariants.Sound.{IsRunning, IsSound}
use codenames_llm_bias.Invariants.Turns.{switch_roles-IsSound}

pub pass_turn-IsSound : (p : Seat) (e : Engine) → IsSound e → IsSound (pass_turn p e).1
unfolding pass_turn
pass_turn-IsSound p e h =
    let t = record e { state = spend_check e.state } in ground (arith, switch_roles-IsSound t)

-- A lost game: it is over, with words that are pending.
pub finish_game-IsSound :
    (r : GameResult) (e : Engine)
    → IsSound e
    → is_game_result (some r) ≡ true
    → is_won (some r) ≡ nothing_pending e.state
    → IsSound (record e { state = finish_game r e.state })
unfolding finish_game
finish_game-IsSound r e h g w = ground arith

-- While a game runs, a word is pending.
pub IsRunning-pending : (e : Engine) → IsRunning e.state → nothing_pending e.state ≡ false
IsRunning-pending e h = ground arith

pub concede_sudden_death-IsSound :
    (p : Seat) (e : Engine) → IsSound e → IsSound (concede_sudden_death p e).1
unfolding concede_sudden_death
concede_sudden_death-IsSound p e h =
    ground (arith, finish_game-IsSound loss_stopped_sd e h, IsRunning-pending e)

-- The call of `receive_clue` after its guards.
pub store_clue-IsSound :
    (reason : Option Text) (c : ClueEntry) (e : Engine)
    → IsSound e
    → e.state.current_phase ≡ giving_clue
    → IsSound (record e { state = penalize reason (store_clue c e.state) })
unfolding penalize
store_clue-IsSound none c e h g = ground arith
store_clue-IsSound (some reason) c e h g =
    let s = store_clue c e.state in
    let t = record e {
      state = record s {
        timer_tokens = s.timer_tokens -ℤ pos 1;
        penalty_tokens = s.penalty_tokens + 1;
      };
    } in
    ground (arith, switch_roles-IsSound t)

pub receive_clue-IsSound :
    (is_valid : IsValidClue) (clue : Text) (count : ℤ) (p : Seat) (targets : List Text) (e : Engine)
    → IsSound e
    → IsSound (receive_clue is_valid clue count p targets e).1
unfolding receive_clue
receive_clue-IsSound is_valid clue count p targets e h =
    let c = new_clue clue count p targets e.state in
    let reason = is_valid e.clue_validator c in
    ground (arith, store_clue-IsSound reason (record c { invalid_reason = reason }) e h)

pub attach_confidence_ranking-IsSound :
    (r : ConfidenceRanking) (e : Engine) → IsSound e → IsSound (attach_confidence_ranking r e).1
unfolding attach_confidence_ranking
attach_confidence_ranking-IsSound r e h = ground arith

pub attach_sudden_death_ranking-IsSound :
    (r : ConfidenceRanking) (p : Seat) (e : Engine)
    → IsSound e
    → IsSound (attach_sudden_death_ranking r p e).1
unfolding attach_sudden_death_ranking
attach_sudden_death_ranking-IsSound r p e h = ground arith
