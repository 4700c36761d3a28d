-- ===== src/Game/Table.antt =====
-- What the coroutines of a game share, and what they raise: backend/app/core/game_conductor.py and
-- backend/app/core/game_runner.py.
use codenames_llm_bias.Shared.{Bool, true, false, Option, none, some, List, Text}
use codenames_llm_bias.Engine.{Engine, EngineError}
use codenames_llm_bias.Engine
use codenames_llm_bias.Recorder.{GameRecorder}
use codenames_llm_bias.Guard.{InvariantGuard, Violation}

-- `llm_error` is an LLMError with its code; `other_error` any exception that is none of these.
pub data Raised : Type 0 where
  engine_error : EngineError → Raised
  value_error permission_error no_turn_open no_live_clue : Raised
  unexpected_phase too_many_dispatches other_error : Raised
  llm_error : Text → Raised
  invariant_broken : List Violation → Raised

-- What code outside of the model raises: a client, or the writer.
pub data Failure : Type 0 where
  llm_failure : Text → Failure
  value_failure other_failure : Failure

abbrev pub raised_by : Failure → Raised
raised_by (llm_failure code) = llm_error code
raised_by value_failure = value_error
raised_by other_failure = other_error

pub record Table : Type 0 where
  pub engine : Engine
  pub recorder : GameRecorder
  pub guard : InvariantGuard

pub data Outcome (A : Type 0) : Type 0 where
  done : A → Outcome A
  raised : Raised → Outcome A

abbrev pub Act : Type 0 → Type 0
Act A = Table → Outcome A × Table

module _ {A : Type 0} where
  abbrev pub pure : A → Act A
  pure a t = (done a, t)

  abbrev pub raise : Raised → Act A
  raise x t = (raised x, t)

infixl 5 ◌>>=◌ ◌>>◌
unfoldable pub ◌>>=◌ : {A B : Type 0} → Act A → (A → Act B) → Act B
◌>>=◌ m f t = let (r, t') = m t in elim r [ done a ↦ f a t' | raised x ↦ raise x t' ]

abbrev pub ◌>>◌ : {A B : Type 0} → Act A → Act B → Act B
m >> k = m >>= λ _. k

abbrev pub gets : {A : Type 0} → (Table → A) → Act A
gets f t = (done (f t), t)

abbrev pub or_raise : {A : Type 0} → Option A → Raised → Act A
or_raise none x = raise x
or_raise (some a) x = pure a

-- A call on the engine.
abbrev pub engine_call : {A : Type 0} → Engine.Action A → Act A
engine_call m t =
    let (r, e) = m t.engine in
    let t' = record t { engine = e } in
    elim r [ Engine.ok a ↦ (done a, t') | Engine.err x ↦ (raised (engine_error x), t') ]

-- A record call that cannot fail, and one that finds no open turn.
abbrev pub write_record : (GameRecorder → GameRecorder) → Act (Unit {0})
write_record f t = (done tt, record t { recorder = f t.recorder })

abbrev pub try_record : (GameRecorder → Option GameRecorder) → Act (Unit {0})
try_record f t = elim (f t.recorder) [
  | none ↦ (raised no_turn_open, t)
  | some r ↦ (done tt, record t { recorder = r })
]

-- `except (ValueError, PermissionError, LLMError)`; every raise of the engine is one of the first two.
abbrev pub is_measurement_error : Raised → Bool
is_measurement_error (engine_error x) = true
is_measurement_error value_error = true
is_measurement_error permission_error = true
is_measurement_error (llm_error code) = true
is_measurement_error _ = false

-- A measurement that fails so is a gap in the data, and the game goes on.
abbrev pub or_gap : Act (Unit {0}) → Act (Unit {0})
or_gap m t =
    let (r, t') = m t in
    elim r [
      | done a ↦ (done a, t')
      | raised x ↦ (elim (is_measurement_error x) [ true ↦ done tt | false ↦ raised x ], t')
    ]
