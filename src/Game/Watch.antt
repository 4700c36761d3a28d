-- ===== src/Game/Watch.antt =====
-- backend/app/core/game_runner.py: the guard and the flush in a sound game.
use codenames_llm_bias.Shared.{
  ◌≤◌, ◌≡◌, refl, Bool, inl, inr, true, not, ◌||◌, Option, none, some, [], Bool-cases, arith,
}
use codenames_llm_bias.Engine.{Engine}
use codenames_llm_bias.Guard.{InvariantGuard, problems_of, check, check_final}
use codenames_llm_bias.Invariants.Sound.{IsSound}
use codenames_llm_bias.Invariants.Silent.{check_invariants-nil}
use codenames_llm_bias.Game.Table.{Table, Failure, raised_by, done, raised, ◌>>◌}
use codenames_llm_bias.Game.Runner.{
  GameStatus, completed, Store, check_guard, check_guard_final, persist_game, record_outcome,
  flush_if_over,
}
use codenames_llm_bias.Game.Conductor.{when}
use codenames_llm_bias.Game.Asks.{raised_by_expected}
use codenames_llm_bias.Game.Yields.{Yields, IsQuiet, pure-IsQuiet, >>=-IsQuiet, when-IsQuiet}

problems_of-nil :
    (e : Engine) (g : InvariantGuard)
    → IsSound e
    → g.last_turn ≤ e.state.turn_number
    → problems_of e g ≡ []
unfolding problems_of
problems_of-nil e g h n = rw (check_invariants-nil e h) (ground arith)

check-nil :
    (e : Engine) (g : InvariantGuard)
    → IsSound e
    → g.last_turn ≤ e.state.turn_number
    → g.violations ≡ []
    → check e g ≡ (record g { violations = []; last_turn = e.state.turn_number }, none)
unfolding check
check-nil e g h n v = rw (problems_of-nil e g h n, v) (ground arith)

-- A guard that has read the state of this table.
abbrev watched : Table → InvariantGuard → InvariantGuard
watched t g = record g { violations = []; last_turn = t.engine.state.turn_number }

pub check_guard-IsQuiet : IsQuiet check_guard
unfolding check_guard
check_guard-IsQuiet t g = rw (check-nil t.engine t.guard g.sound g.seen g.silent) (
    (
      record {
        good = record { sound = g.sound; silent = refl; seen = omega arith };
        fewer = omega arith;
        fine = tt;
      },
      refl,
    ))

pub check_guard_final-IsQuiet : IsQuiet check_guard_final
unfolding check_guard_final check_final
check_guard_final-IsQuiet t g = elim (Bool-cases t.guard.final_checked) [
  | inl h ↦ rw h (
      (
        record {
          good = record { sound = g.sound; silent = g.silent; seen = g.seen };
          fewer = omega arith;
          fine = tt;
        },
        refl,
      ))
  | inr h ↦
      rw (h, check-nil t.engine (record (t.guard) { final_checked = true }) g.sound g.seen g.silent)
        ((
          record {
            good = record { sound = g.sound; silent = refl; seen = omega arith };
            fewer = omega arith;
            fine = tt;
          },
          refl,
        ))
]

module _ (store : Store) (persist : Bool) where
  persist_game-IsQuiet : (status : GameStatus) → IsQuiet (persist_game store persist status)
  unfolding persist_game
  persist_game-IsQuiet status t g = by_result (store t.recorder status)
    where
      by_result :
          (o : Option Failure)
          → Yields {A = Unit {0}} t
              (λ _ t'. t'.engine ≡ t.engine)
              (elim o [
                | none ↦ (done tt, record t { recorder = record (t.recorder) { flushed = true } })
                | some x ↦ (raised (raised_by x), t)
              ])
      by_result none = (
        record {
          good = record { sound = g.sound; silent = g.silent; seen = g.seen };
          fewer = omega arith;
          fine = tt;
        },
        refl,
      )
      by_result (some x) =
          (record { good = g; fewer = omega arith; fine = raised_by_expected x }, tt)

  record_outcome-IsQuiet : IsQuiet (record_outcome store persist)
  unfolding record_outcome
  record_outcome-IsQuiet t g = (
    record {
      good = record { sound = g.sound; silent = g.silent; seen = g.seen };
      fewer = omega arith;
      fine = tt;
    },
    refl,
  )

  pub flush_if_over-IsQuiet : IsQuiet (flush_if_over store persist)
  unfolding flush_if_over
  flush_if_over-IsQuiet t g =
      elim (Bool-cases (not t.engine.state.is_game_over || t.recorder.flushed)) [
        | inl h ↦ rw h (pure-IsQuiet tt t g)
        | inr h ↦ rw h (stored t g)
      ]
    where
      stored : IsQuiet (
          check_guard_final
          >> (record_outcome store persist >> when persist (persist_game store persist completed)))
      stored = >>=-IsQuiet _ _ check_guard_final-IsQuiet (λ _.
          >>=-IsQuiet _ _ record_outcome-IsQuiet
            (λ _. when-IsQuiet persist _ (persist_game-IsQuiet completed)))
