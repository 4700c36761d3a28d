-- ===== src/Batch/Setup.antt =====
-- backend/app/core/batch_runner.py: the preconditions of a batch may stop it. A step reads and changes the
-- world, and what was written before a stop stays written.
use codenames_llm_bias.Shared.{
  ◌≡◌, refl, ap, Bool, true, false, Option, none, some, List, Text, arith,
}
use codenames_llm_bias.Schedule.{ScheduleError}
use codenames_llm_bias.Gate.{GateError}
use codenames_llm_bias.Batch.Resume.{ResumeProblem}

-- What `run_batch` raises: BatchPreconditionError by its messages, ScheduleError, and the errors of the gate.
pub data Refusal : Type 0 where
  no_schedule : ScheduleError → Refusal
  not_in_bank unstored unhashed : List Text → Refusal
  resume_without_persist no_database_url other_schema no_run run_vanished : Refusal
  already_recorded : List Text → Refusal
  cannot_resume : List ResumeProblem → Refusal
  no_frame stale_frame invalid_board_file stale_board : Refusal
  ungated : GateError → Refusal
  models_or_boards_changed : List Text → List Text → Refusal

pub data Outcome (A : Type 0) : Type 0 where
  done : A → Outcome A
  stopped : Refusal → Outcome A

abbrev pub Setup : Type 0 → Type 0 → Type 0
Setup W A = W → Outcome A × W

module _ {W A : Type 0} where
  abbrev pub pure : A → Setup W A
  pure a w = (done a, w)

  abbrev pub stop : Refusal → Setup W A
  stop x w = (stopped x, w)

  abbrev pub gets : (W → A) → Setup W A
  gets f w = (done (f w), w)

infixl 5 ◌>>=◌
unfoldable pub ◌>>=◌ : {W A B : Type 0} → Setup W A → (A → Setup W B) → Setup W B
◌>>=◌ m f w = let (r, w') = m w in elim r [ done a ↦ f a w' | stopped x ↦ stop x w' ]

-- `if not b: raise`
abbrev pub require : {W : Type 0} → Bool → Refusal → Setup W Unit
require true x = pure tt
require false x = stop x

-- A step that is done.
abbrev pub Does : {W A : Type 0} → Setup W A → W → A → W → Type 0
Does m w a w' = m w ≡ (done a, w')

pub stopped-done : {A : Type 0} (x : Refusal) (a : A) → stopped x ≡ done a → ⊥
stopped-done x a h = ground (arith, h)

-- A chain that is done does its two steps.
pub Does-bind :
    {W A B : Type 0} (m : Setup W A) (f : A → Setup W B) (w : W) (y : B) (w' : W)
    → Does (m >>= f) w y w'
    → (a : A) × (v : W) × Does m w a v × Does (f a) v y w'
unfolding ◌>>=◌
Does-bind {W} {A} {B} m f w y w' h = by_step (m w) refl h
  where
    by_step :
        (r : Outcome A × W)
        → m w ≡ r
        → (elim r.0 [ done a ↦ f a r.1 | stopped x ↦ stop x r.1 ]) ≡ (done y, w')
        → (a : A) × (v : W) × Does m w a v × Does (f a) v y w'
    by_step (done a, v) q k = (a, v, q, k)
    by_step (stopped x, v) q k = absurd (stopped-done x y (ap (λ (p : Outcome B × W). p.0) k))

pub Does-require :
    {W : Type 0} (b : Bool) (x : Refusal) (w w' : W)
    → Does (require b x) w tt w'
    → (b ≡ true) × (w ≡ w')
Does-require true x w w' h = (refl, ap (λ p. p.1) h)
Does-require false x w w' h = absurd (stopped-done x tt (ap (λ p. p.0) h))

pub Does-pure : {W A : Type 0} (a y : A) (w w' : W) → Does (pure a) w y w' → (a ≡ y) × (w ≡ w')
Does-pure a y w w' h = (ground (arith, ap (λ p. p.0) h), ap (λ p. p.1) h)

pub Does-gets :
    {W A : Type 0} (f : W → A) (y : A) (w w' : W) → Does (gets f) w y w' → (f w ≡ y) × (w ≡ w')
Does-gets f y w w' h = (ground (arith, ap (λ p. p.0) h), ap (λ p. p.1) h)

-- `if o is None: raise`
pub Does-given :
    {W A : Type 0} (o : Option A) (x : Refusal) (y : A) (w w' : W)
    → Does (elim o [ none ↦ stop x | some a ↦ pure a ]) w y w'
    → (o ≡ some y) × (w ≡ w')
Does-given none x y w w' h = absurd (stopped-done x y (ap (λ p. p.0) h))
Does-given (some a) x y w w' h = let (q, e) = Does-pure a y w w' h in (ap some q, e)
