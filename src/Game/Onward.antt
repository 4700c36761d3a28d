-- ===== src/Game/Onward.antt =====
-- Steps of a game that keep the engine sound and the guard silent, in the phase that it is in.
use codenames_llm_bias.Shared.{
  ℕ, ◌≤◌, ◌≡◌, refl, ◌∙◌, Bool, true, false, Option, none, some, [], arith,
}
use codenames_llm_bias.Engine
use codenames_llm_bias.Engine.{
  Engine, Result, attach_confidence_ranking, attach_sudden_death_ranking, pass_turn,
  concede_sudden_death, receive_clue,
}
use codenames_llm_bias.Recorder.{GameRecorder}
use codenames_llm_bias.Invariants.Sound.{IsSound}
use codenames_llm_bias.Play.Left.{dispatches_left}
use codenames_llm_bias.Game.Table.{
  Table, Raised, invariant_broken, too_many_dispatches, unexpected_phase, Outcome, done, raised,
  Act, pure, raise, ◌>>=◌, gets, or_raise, engine_call, or_gap,
}

-- The errors that a game can end in: those of the model, the engine, the records and the writer.
abbrev pub is_expected : Raised → Bool
is_expected (invariant_broken ps) = false
is_expected too_many_dispatches = false
is_expected unexpected_phase = false
is_expected _ = true

abbrev pub Fine : {A : Type 0} → Outcome A → Type 0
Fine (done a) = Unit
Fine (raised x) = is_expected x ≡ true

-- The engine is sound, and the guard has seen no breach and no later turn.
pub record IsGood (t : Table) : Type 0 where
  pub sound : IsSound t.engine
  pub silent : t.guard.violations ≡ []
  pub seen : t.guard.last_turn ≤ t.engine.state.turn_number

abbrev pub left : Table → ℕ
left t = dispatches_left t.engine.state

pub record IsOnward {A : Type 0} (t : Table) (x : Outcome A × Table) : Type 0 where
  pub good : IsGood x.1
  pub fewer : left x.1 ≤ left t
  pub fine : Fine x.0

-- An action that keeps a game on its way, in the phase that it is in.
abbrev pub IsSteady : {A : Type 0} → Act A → Type 0
IsSteady m =
    (t : Table)
    → IsGood t
    → IsOnward t (m t) × ((m t).1.engine.state.current_phase ≡ t.engine.state.current_phase)

pub >>=-IsSteady :
    {A B : Type 0} (m : Act A) (f : A → Act B)
    → IsSteady m
    → ((a : A) → IsSteady (f a))
    → IsSteady (m >>= f)
unfolding ◌>>=◌
>>=-IsSteady {A} {B} m f hm hf t g = by_outcome (m t) (hm t g).0 (hm t g).1
  where
    by_outcome :
        (x : Outcome A × Table)
        → IsOnward t x
        → x.1.engine.state.current_phase ≡ t.engine.state.current_phase
        → let y : Outcome B × Table = elim x.0 [ done a ↦ f a x.1 | raised y ↦ raise y x.1 ] in
          IsOnward t y × (y.1.engine.state.current_phase ≡ t.engine.state.current_phase)
    by_outcome (done a, t') o q =
        let (o', q') = hf a t' o.good in
        (
          record { good = o'.good; fewer = omega (arith, o'.fewer, o.fewer); fine = o'.fine },
          q' ∙ q,
        )
    by_outcome (raised y, t') o q = (record { good = o.good; fewer = o.fewer; fine = o.fine }, q)

pub pure-IsSteady : {A : Type 0} (a : A) → IsSteady (pure a)
pure-IsSteady a t g = (record { good = g; fewer = omega arith; fine = tt }, refl)

pub raise-IsSteady : {A : Type 0} (x : Raised) → is_expected x ≡ true → IsSteady (raise {A = A} x)
raise-IsSteady x h t g = (record { good = g; fewer = omega arith; fine = h }, refl)

pub or_raise-IsSteady :
    {A : Type 0} (o : Option A) (x : Raised) → is_expected x ≡ true → IsSteady (or_raise o x)
or_raise-IsSteady none x h = raise-IsSteady x h
or_raise-IsSteady (some a) x h = pure-IsSteady a

pub gets-IsSteady : {A : Type 0} (f : Table → A) → IsSteady (gets f)
gets-IsSteady f t g = (record { good = g; fewer = omega arith; fine = tt }, refl)

pub record_IsGood : (t : Table) (r : GameRecorder) → IsGood t → IsGood (record t { recorder = r })
record_IsGood t r g = record { sound = g.sound; silent = g.silent; seen = g.seen }

pub or_gap-IsSteady : (m : Act (Unit {0})) → IsSteady m → IsSteady (or_gap m)
or_gap-IsSteady m h t g = by_outcome (m t) (h t g).0 (h t g).1
  where
    by_outcome :
        (x : Outcome (Unit {0}) × Table)
        → IsOnward t x
        → x.1.engine.state.current_phase ≡ t.engine.state.current_phase
        → let y = or_gap (λ _. x) t in
          IsOnward t y × (y.1.engine.state.current_phase ≡ t.engine.state.current_phase)
    by_outcome (done a, t') o q = (record { good = o.good; fewer = o.fewer; fine = tt }, q)
    by_outcome (raised y, t') o q =
        (record { good = o.good; fewer = o.fewer; fine = ground (arith, o.fine) }, q)

-- A call on the engine that keeps it sound and in its phase, and costs no dispatch and no turn.
abbrev pub IsForward : {A : Type 0} → Engine → Result A × Engine → Type 0
IsForward e x =
    IsSound x.1
    × (dispatches_left x.1.state ≤ dispatches_left e.state)
    × (e.state.turn_number ≤ x.1.state.turn_number)
    × (x.1.state.current_phase ≡ e.state.current_phase)

pub called_IsGood :
    (t : Table) (e : Engine)
    → IsGood t
    → IsSound e
    → t.engine.state.turn_number ≤ e.state.turn_number
    → IsGood (record t { engine = e })
called_IsGood t e g s n = record { sound = s; silent = g.silent; seen = omega (arith, g.seen, n) }

pub engine_call-IsSteady :
    {A : Type 0} (m : Engine.Action A)
    → ((e : Engine) → IsSound e → IsForward e (m e))
    → IsSteady (engine_call m)
engine_call-IsSteady {A} m h t g = by_result (m t.engine) (h t.engine g.sound)
  where
    by_result :
        (x : Result A × Engine)
        → IsForward t.engine x
        → let y = engine_call (λ _. x) t in
          IsOnward t y × (y.1.engine.state.current_phase ≡ t.engine.state.current_phase)
    by_result (Engine.ok a, e) f =
        (record { good = called_IsGood t e g f.0 f.2; fewer = f.1; fine = tt }, f.3)
    by_result (Engine.err y, e) f =
        (record { good = called_IsGood t e g f.0 f.2; fewer = f.1; fine = refl }, f.3)
