-- ===== src/Game/Below.antt =====
-- Actions that leave fewer dispatches, and the tests that a turn ends with.
use codenames_llm_bias.Shared.{
  ℕ, ◌≤◌, ◌<◌, ◌≡◌, ◌≢◌, refl, sym, ap, ◌∙◌, Bool, true, false, not, ◌&&◌, ◌||◌, ◌==◌, arith,
}
use codenames_llm_bias.Schemas.State.{GamePhase, game_over, phase_eq}
use codenames_llm_bias.Engine
use codenames_llm_bias.Engine.{
  Engine, GuessResult, Result, receive_clue, pass_turn, concede_sudden_death,
}
use codenames_llm_bias.Recorder.{ends_turn}
use codenames_llm_bias.Invariants.Sound.{IsSound}
use codenames_llm_bias.Play.Left.{dispatches_left}
use codenames_llm_bias.Play.Ends.{Ends}
use codenames_llm_bias.Game.Table.{Table, Outcome, done, raised, Act, engine_call}
use codenames_llm_bias.Game.Onward.{IsGood, left, called_IsGood}
use codenames_llm_bias.Game.Yields.{Post, Yields, IsQuiet}
use codenames_llm_bias.Game.Words.{Played}

-- Fewer dispatches are left than `n`.
abbrev pub Below : {A : Type 0} → ℕ → A → Table → Type 0
Below n _ t = left t < n

-- A call of the engine that ends the phase.
pub ending_call-Yields :
    {A : Type 0} (m : Engine.Action A) (t : Table) (n : ℕ)
    → IsGood t
    → left t ≤ n
    → IsSound (m t.engine).1
    → Ends t.engine (m t.engine)
    → Yields t (Below n) (engine_call m t)
ending_call-Yields {A} m t n g b = by_result (m t.engine)
  where
    by_result :
        (x : Result A × Engine)
        → IsSound x.1
        → Ends t.engine x
        → Yields t (Below n) (engine_call (λ _. x) t)
    by_result (Engine.ok a, e) s (_, l, later) = (
      record { good = called_IsGood t e g s later; fewer = omega (arith, l); fine = tt },
      omega (arith, l, b),
    )
    by_result (Engine.err y, e) s q = (
      record {
        good = called_IsGood t e g s (rw q (omega arith));
        fewer = rw q (omega arith);
        fine = refl;
      },
      tt,
    )

pub quiet-Below :
    {A : Type 0} (m : Act A) (t : Table) (n : ℕ)
    → IsQuiet m
    → IsGood t
    → left t < n
    → Yields t (Below n) (m t)
quiet-Below {A} m t n h g l = ((h t g).0, by_outcome (m t) (h t g).1)
  where
    by_outcome : (x : Outcome A × Table) → Post (λ _ t'. t'.engine ≡ t.engine) x → Post (Below n) x
    by_outcome (done a, t') q = rw q l
    by_outcome (raised y, t') q = tt

pub same_phase :
    (t t' : Table)
    → t'.engine ≡ t.engine
    → t'.engine.state.current_phase ≡ t.engine.state.current_phase
same_phase t t' e = ap (λ (x : Engine). x.state.current_phase) e

pub same_left : (t t' : Table) → t'.engine ≡ t.engine → left t' ≡ left t
same_left t t' e = ap (λ (x : Engine). dispatches_left x.state) e

pub Played-left :
    (f : GamePhase) (broke : Bool) (t t' : Table)
    → Played t f broke t'
    → broke ≡ true
    → left t' < left t
Played-left f true t t' (n, l) q = l
Played-left f false t t' p q = absurd (ground (arith, q))

pub ends_turn_lem : (r : GuessResult) → r ≢ GuessResult.agent → ends_turn r ≡ true
ends_turn_lem r n = ground arith

pub phase_same : (f : GamePhase) → (f == f) ≡ true
phase_same f = ground arith

pub phase_other : (f f' : GamePhase) → f ≢ f' → (f == f') ≡ false
phase_other f f' n = ground arith

pub and_false : (b : Bool) → (b && false) ≡ false
and_false b = ground arith

pub sd_stops : (r : GuessResult) (f f' : GamePhase) → f' ≢ f → (ends_turn r || not (f' == f)) ≡ true
sd_stops r f f' n = rw (phase_other f' f n) (ground arith)

pub is_running :
    (e : Engine) → IsSound e → e.state.current_phase ≢ game_over → e.state.is_game_over ≡ false
is_running e h n = ground arith

pub still_on :
    (e : Engine) (f : GamePhase)
    → IsSound e
    → f ≢ game_over
    → e.state.current_phase ≡ f
    → (not e.state.is_game_over && (e.state.current_phase == f)) ≡ true
still_on e f h o q =
    let over = is_running e h (λ x. o (sym q ∙ x)) in
    ground (arith, over, ap (λ k. k == f) q ∙ phase_same f)
