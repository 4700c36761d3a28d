-- ===== src/Guard.antt =====
-- backend/app/core/invariants.py: `InvariantGuard`. A problem of the board's state is one of
-- `check_invariants`, or a turn number that went back.
use codenames_llm_bias.Shared.{
  ℕ, Bool, true, false, not, ◌&&◌, Option, none, some, List, [], ◌∷◌, ◌++◌, map, if◌then◌else◌, ltb,
  ◌==◌, nat_eq, length,
}
use codenames_llm_bias.Engine.{Engine}
use codenames_llm_bias.Invariants.{Problem, check_invariants}

pub data Violation : Type 0 where
  broken : Problem → Violation
  turn_went_back : ℕ → ℕ → Violation

pub record InvariantGuard : Type 0 where
  pub strict : Bool
  pub violations : List Violation
  pub last_turn : ℕ
  pub final_checked : Bool

unfoldable pub new_guard : Bool → InvariantGuard
new_guard strict = record { strict = strict; violations = []; last_turn = 0; final_checked = false }

unfoldable pub problems_of : Engine → InvariantGuard → List Violation
problems_of e g =
    let turn = e.state.turn_number in
    map broken (check_invariants e)
    ++ (if ltb turn g.last_turn then turn_went_back g.last_turn turn ∷ [] else [])

-- `check`: the guard after it, and what GameInvariantError carries if it is raised.
unfoldable pub check : Engine → InvariantGuard → InvariantGuard × Option (List Violation)
check e g =
    let problems = problems_of e g in
    let g' = record g { violations = g.violations ++ problems; last_turn = e.state.turn_number } in
    (g', if g.strict && not (length problems == 0) then some problems else none)

unfoldable pub check_final : Engine → InvariantGuard → InvariantGuard × Option (List Violation)
check_final e g = if g.final_checked then (g, none) else check e (record g { final_checked = true })
