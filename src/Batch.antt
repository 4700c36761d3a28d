-- ===== src/Batch.antt =====
-- backend/app/core/batch_runner.py: the errors of the games that failed and the reports of the
-- pairings. A game is what `run_single_game` returned, as far as the batch reads it. The texts of the
-- reasons are left out.
use codenames_llm_bias.Shared.{
  ℕ, zero, suc, ◌+◌, ◌-◌, Bool, true, false, ◌&&◌, ◌||◌, Option, none, some, List, [], ◌∷◌, ◌++◌,
  map, if◌then◌else◌, ◌==◌, nat_eq, text_eq, Text, codes, lower, is_infix, contains,
}
pub mod Errors
pub mod Wait
pub mod Loop
pub mod Games
pub mod Accounts
pub mod Settled
pub mod Ends
pub mod Outcome
pub mod Completion
pub mod Reports
pub mod Totals
pub mod Distinct
pub mod Whole
pub mod Resume
pub mod DryRun
pub mod Assassin
pub mod Setup
pub mod Bank
pub mod Site
pub mod Run

-- GameRunResult
pub record GameRunResult : Type 0 where
  pub status : Text
  pub error : Option Text
  pub error_code : Option Text

-- What `_classify_error` answers.
pub data ErrorKind : Type 0 where
  provider model invariant collision other : ErrorKind

-- _PROVIDER_ERROR_CODES, _MODEL_ERROR_CODES and _TRANSIENT_PROVIDER_CODES
unfoldable pub provider_error_codes : List Text
provider_error_codes =
    codes "timeout"
    ∷ codes "rate_limit"
    ∷ codes "provider_unavailable"
    ∷ codes "auth"
    ∷ codes "insufficient_credits"
    ∷ codes "model_not_provided"
    ∷ codes "model_not_found"
    ∷ codes "invalid_request"
    ∷ []

unfoldable pub model_error_codes : List Text
model_error_codes =
    codes "parse_error"
    ∷ codes "empty_response"
    ∷ codes "degenerate_response"
    ∷ codes "truncated_response"
    ∷ codes "malformed_response"
    ∷ codes "refused"
    ∷ []

unfoldable pub transient_provider_codes : List Text
transient_provider_codes = codes "timeout" ∷ codes "rate_limit" ∷ codes "provider_unavailable" ∷ []

-- `code in codes`: None is in none of them.
unfoldable pub code_in : List Text → Option Text → Bool
code_in cs none = false
code_in cs (some c) = contains c cs

-- `any(t in low for t in ...)`
unfoldable pub mentions : List Text → Text → Bool
mentions [] low = false
mentions (t ∷ ts) low = is_infix t low || mentions ts low

unfoldable pub collision_words : List Text
collision_words =
    codes "duplicate key"
    ∷ codes "already exists"
    ∷ codes "unique"
    ∷ codes "primary key"
    ∷ codes "uniqueviolation"
    ∷ []

unfoldable pub provider_words : List Text
provider_words =
    codes "timeout"
    ∷ codes "timed out"
    ∷ codes "connection"
    ∷ codes "unreachable"
    ∷ codes "refused"
    ∷ codes "rate limit"
    ∷ codes "429"
    ∷ codes "502"
    ∷ codes "503"
    ∷ codes "504"
    ∷ codes "network"
    ∷ codes "httpx"
    ∷ codes "socket"
    ∷ codes "provider"
    ∷ []

unfoldable pub model_words : List Text
model_words =
    codes "no legal"
    ∷ codes "no playable"
    ∷ codes "illegal"
    ∷ codes "invalid clue"
    ∷ codes "could not parse"
    ∷ codes "no valid"
    ∷ codes "json"
    ∷ codes "validation"
    ∷ codes "malformed"
    ∷ codes "empty"
    ∷ codes "refus"
    ∷ codes "at least one guess"
    ∷ []

-- The message of an error, which is read when its code says nothing.
unfoldable pub classify_message : Option Text → ErrorKind
classify_message none = other
classify_message (some []) = other
classify_message (some (c ∷ message)) =
    let low = lower (c ∷ message) in
    if mentions collision_words low
    then collision
    else if mentions provider_words low
    then provider
    else if mentions model_words low
    then model
    else other

unfoldable pub classify_error : Option Text → Option Text → ErrorKind
classify_error error code =
    if code_in provider_error_codes code
    then provider
    else if code_in model_error_codes code
    then model
    else if code_in (codes "invariant_broken" ∷ []) code
    then invariant
    else classify_message error

-- The `Counter` of the kinds.
pub record ErrorKinds : Type 0 where
  pub of_provider : ℕ
  pub of_model : ℕ
  pub of_invariant : ℕ
  pub of_collision : ℕ
  pub of_other : ℕ

abbrev pub no_errors : ErrorKinds
no_errors = record {
  of_provider = 0;
  of_model = 0;
  of_invariant = 0;
  of_collision = 0;
  of_other = 0;
}

unfoldable pub count_error : ErrorKind → ErrorKinds → ErrorKinds
count_error provider c = record c { of_provider = c.of_provider + 1 }
count_error model c = record c { of_model = c.of_model + 1 }
count_error invariant c = record c { of_invariant = c.of_invariant + 1 }
count_error collision c = record c { of_collision = c.of_collision + 1 }
count_error other c = record c { of_other = c.of_other + 1 }

abbrev pub errors : ErrorKinds → ℕ
errors c = c.of_provider + c.of_model + c.of_invariant + c.of_collision + c.of_other

-- `aborted` and `abort_reason` are one field: the consecutive errors and the games that were left.
pub record PairingReport : Type 0 where
  pub pairing_ordinal : ℕ
  pub pairing_key : Text × Text
  pub total_cells : ℕ
  pub attempted : ℕ
  pub completed : ℕ
  pub errored : ℕ
  pub previously_completed : ℕ
  pub previously_errored : ℕ
  pub abort_reason : Option (ℕ × ℕ)
  pub error_kinds : ErrorKinds

unfoldable pub skipped : PairingReport → ℕ
skipped r = r.total_cells - r.attempted - r.previously_completed - r.previously_errored

-- A change of `reports[p]`, whose key is the report's ordinal.
unfoldable pub update :
    ℕ → (PairingReport → PairingReport) → List PairingReport → List PairingReport
update p f [] = []
update p f (r ∷ rs) = (if r.pairing_ordinal == p then f r else r) ∷ update p f rs

-- `p in reports`
unfoldable pub has_report : ℕ → List PairingReport → Bool
has_report p [] = false
has_report p (r ∷ rs) = r.pairing_ordinal == p || has_report p rs
