-- ===== src/Game/Runner.antt =====
-- backend/app/core/game_runner.py: the dispatch of a turn, the loop of one game, and how it ends.
-- The checks of the arguments, the run row, the seeds and the clients come before the loop and are
-- not part of the model; the observer `on_dispatch` changes nothing. Storing a game is a parameter.
use codenames_llm_bias.Shared.{
  ℕ, zero, suc, Bool, true, not, ◌||◌, Option, none, some, List, Text, if◌then◌else◌, codes,
}
use codenames_llm_bias.Schemas.Card.{Seat, seat0, seat1}
use codenames_llm_bias.Schemas.Board.{Board}
use codenames_llm_bias.Schemas.State.{
  giving_clue, guessing, game_over, sudden_death_llm, sudden_death_human, GameResult,
}
use codenames_llm_bias.Validator.{IsValidClue}
use codenames_llm_bias.Engine.{new_engine}
use codenames_llm_bias.Recorder.{GameRecorder, new_recorder, set_outcome, set_error}
use codenames_llm_bias.Guard.{Violation, InvariantGuard, new_guard, check, check_final}
use codenames_llm_bias.Game.Table.{
  Table, Raised, Failure, raised_by, unexpected_phase, too_many_dispatches, llm_error,
  invariant_broken, Outcome, done, raised, Act, ◌>>◌,
}
use codenames_llm_bias.Game.Service.{Model}
use codenames_llm_bias.Game.Conductor.{conduct_clue, conduct_guess, conduct_sd_guess, when}

pub data GameStatus : Type 0 where
  completed error : GameStatus

-- _MAX_DISPATCHES
abbrev pub max_dispatches : ℕ
max_dispatches = 2000

pub record GameRunResult : Type 0 where
  pub status : GameStatus
  pub result : Option GameResult
  pub error_code : Option Text
  pub invariant_violations : List Violation

-- `exc.code if isinstance(exc, (LLMError, GameInvariantError)) else None`
abbrev pub error_code_of : Raised → Option Text
error_code_of (llm_error code) = some code
error_code_of (invariant_broken ps) = some (codes "invariant_broken")
error_code_of _ = none

-- `writer.persist_game`: what it raises, if it fails to store the game.
abbrev pub Store : Type 0
Store = GameRecorder → GameStatus → Option Failure

abbrev pub guarded : InvariantGuard × Option (List Violation) → Act (Unit {0})
guarded (g, broken) t =
    let t' = record t { guard = g } in
    elim broken [ none ↦ (done tt, t') | some ps ↦ (raised (invariant_broken ps), t') ]

-- `guard.check(engine)` and `guard.check_final(engine)`
unfoldable pub check_guard : Act (Unit {0})
check_guard t = guarded (check t.engine t.guard) t

unfoldable pub check_guard_final : Act (Unit {0})
check_guard_final t = guarded (check_final t.engine t.guard) t

module _ (store : Store) (persist : Bool) where
  -- The game is stored and the record latched.
  unfoldable pub persist_game : GameStatus → Act (Unit {0})
  persist_game status t = elim (store t.recorder status) [
    | none ↦ (done tt, record t { recorder = record (t.recorder) { flushed = true } })
    | some x ↦ (raised (raised_by x), t)
  ]

  unfoldable pub record_outcome : Act (Unit {0})
  record_outcome t =
      let s = t.engine.state in
      (done tt, record t { recorder = set_outcome s.result s.timer_tokens t.recorder })

  unfoldable pub flush_if_over : Act (Unit {0})
  flush_if_over t =
      let store_it =
        check_guard_final >> (record_outcome >> when persist (persist_game completed)) in
      if not t.engine.state.is_game_over || t.recorder.flushed then (done tt, t) else store_it t

  -- `_error_flush`: it never raises, so a failure to store leaves the record as it is.
  unfoldable pub error_flush : Option Text → Table → Table
  error_flush code t =
      let t' = (record_outcome t).1 in
      let t'' = record t' { recorder = set_error code t'.recorder } in
      if t.recorder.flushed then t else if persist then (persist_game error t'').1 else t''

  module _ (m : Model) (is_valid : IsValidClue) where
    unfoldable pub dispatch_phase : Act (Unit {0})
    dispatch_phase t = elim t.engine.state.current_phase [
      | giving_clue ↦ conduct_clue m is_valid flush_if_over t.engine.state.clue_giver t
      | guessing ↦ conduct_guess m is_valid flush_if_over t.engine.state.guesser t
      | sudden_death_llm ↦ conduct_sd_guess m is_valid flush_if_over seat0 t
      | sudden_death_human ↦ conduct_sd_guess m is_valid flush_if_over seat1 t
      | game_over ↦ (raised unexpected_phase, t)
    ]

    -- The guard reads the state after a dispatch, unless the game has ended.
    unfoldable pub check_running : Act (Unit {0})
    check_running t = if t.engine.state.is_game_over then (done tt, t) else check_guard t

    -- The loop, with the dispatches that the cap still allows.
    unfoldable pub game_loop : ℕ → Act (Unit {0})
    game_loop zero t =
        if t.engine.state.is_game_over then (done tt, t) else (raised too_many_dispatches, t)
    game_loop (suc n) t =
        let rest = ((dispatch_phase >> check_running) >> game_loop n) t in
        if t.engine.state.is_game_over then (done tt, t) else rest

    -- The body of the `try`.
    unfoldable pub play_game : Act (Unit {0})
    play_game = (check_guard >> game_loop max_dispatches) >> flush_if_over

    unfoldable pub finish_run : Outcome (Unit {0}) × Table → GameRunResult × Table
    finish_run (done _, t) = (
      record {
        status = completed;
        result = t.engine.state.result;
        error_code = none;
        invariant_violations = t.guard.violations;
      },
      t,
    )
    finish_run (raised x, t) = (
      record {
        status = error;
        result = t.engine.state.result;
        error_code = error_code_of x;
        invariant_violations = t.guard.violations;
      },
      error_flush (error_code_of x) t,
    )

    -- `run_single_game`, from the engine on.
    unfoldable pub run_single_game : Board → Seat → Text → Bool → GameRunResult × Table
    run_single_game board start_player game_id strict_invariants = finish_run (
        play_game (record {
          engine = new_engine board start_player game_id;
          recorder = new_recorder;
          guard = new_guard strict_invariants;
        }))
