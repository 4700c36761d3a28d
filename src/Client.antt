-- ===== src/Client.antt =====
-- backend/app/core/llm/client.py and backend/app/models/llm_errors.py: the errors of a provider and
-- of an answer, and the bounded retry of a call. The metadata of an error is left out, and so is the
-- text of its message.
use codenames_llm_bias.Shared.{
  ℕ, zero, suc, ◌+◌, ◌*◌, ◌-◌, ◌^◌, ◌%◌, Bool, true, false, not, ◌&&◌, ◌||◌, Option, none, some,
  List, [], ◌∷◌, ◌++◌, if◌then◌else◌, ◌==◌, nat_eq, leb, ltb, length, Text, codes,
}
pub mod Retries
pub mod Answers
pub mod Json

-- The subclasses of LLMError.
pub data LlmError : Type 0 where
  model_not_provided model_not_found invalid_request refusal timeout rate_limit auth : LlmError
  insufficient_credits parse_error empty_response degenerate_response : LlmError
  truncated_response malformed_response provider_unavailable : LlmError

unfoldable pub code : LlmError → Text
code model_not_provided = codes "model_not_provided"
code model_not_found = codes "model_not_found"
code invalid_request = codes "invalid_request"
code refusal = codes "refused"
code timeout = codes "timeout"
code rate_limit = codes "rate_limit"
code auth = codes "auth"
code insufficient_credits = codes "insufficient_credits"
code parse_error = codes "parse_error"
code empty_response = codes "empty_response"
code degenerate_response = codes "degenerate_response"
code truncated_response = codes "truncated_response"
code malformed_response = codes "malformed_response"
code provider_unavailable = codes "provider_unavailable"

unfoldable pub retriable : LlmError → Bool
retriable timeout = true
retriable rate_limit = true
retriable empty_response = true
retriable degenerate_response = true
retriable truncated_response = true
retriable malformed_response = true
retriable provider_unavailable = true
retriable _ = false

-- `isinstance(exc, _BAD_DRAWS)`
unfoldable pub is_bad_draw : LlmError → Bool
is_bad_draw empty_response = true
is_bad_draw degenerate_response = true
is_bad_draw truncated_response = true
is_bad_draw malformed_response = true
is_bad_draw _ = false

-- `error_for_status`
unfoldable pub error_for_status : Option ℕ → LlmError
error_for_status none = provider_unavailable
error_for_status (some status) =
    if status == 402
    then insufficient_credits
    else if status == 404
    then model_not_found
    else if status == 401 || status == 403
    then auth
    else if status == 408
    then timeout
    else if status == 429
    then rate_limit
    else if leb 400 status && ltb status 500
    then invalid_request
    else provider_unavailable

-- `provider_seed`, of a seed that is not negative.
unfoldable pub provider_seed : Option ℕ → Option ℕ
provider_seed none = none
provider_seed (some seed) = some (seed % 2 ^ 31)

pub data Read (F : Type 0) : Type 0 where
  kept : Text → Option F → Read F
  bad_draw : LlmError → Read F

-- `read_answer`: `extract_json` reads the text that is kept, `validate` is pydantic's reading of the
-- expected format, if there is one.
unfoldable pub read_answer :
    {F : Type 0}
    → (Text → Text)
    → Option (Text → Option F)
    → (F → Option Text)
    → Bool
    → Text
    → Read F
read_answer {F} extract_json expected_format degenerate_reason cut answer =
    let content = extract_json answer in
    let checked : Read F = elim expected_format [
      | none ↦ kept content none
      | some validate ↦ elim (validate content) [
        | none ↦ bad_draw malformed_response
        | some parsed ↦ elim (degenerate_reason parsed) [
          | some reason ↦ bad_draw degenerate_response
          | none ↦ kept content (some parsed)
        ]
      ]
    ] in
    if length content == 0
    then bad_draw empty_response
    else if cut
    then bad_draw truncated_response
    else checked

-- The counter of the bad draws, by kind.
pub record BadDraws : Type 0 where
  pub empty : ℕ
  pub degenerate : ℕ
  pub truncated : ℕ
  pub malformed : ℕ

abbrev pub no_draws : BadDraws
no_draws = record { empty = 0; degenerate = 0; truncated = 0; malformed = 0 }

-- `bad_draws[exc.code] += 1`
unfoldable pub count_draw : LlmError → BadDraws → BadDraws
count_draw empty_response c = record c { empty = c.empty + 1 }
count_draw degenerate_response c = record c { degenerate = c.degenerate + 1 }
count_draw truncated_response c = record c { truncated = c.truncated + 1 }
count_draw malformed_response c = record c { malformed = c.malformed + 1 }
count_draw _ c = c

abbrev pub total : BadDraws → ℕ
total c = c.empty + c.degenerate + c.truncated + c.malformed

-- What one call of a provider does: a response, an LLMError, or any other exception.
pub data Attempt (R : Type 0) : Type 0 where
  answered : R → Attempt R
  failed : LlmError → Attempt R
  crashed : Attempt R

-- How a call ends; the counts are stamped onto the response.
pub data Reply (R : Type 0) : Type 0 where
  returned : R → BadDraws → Reply R
  raised : LlmError → Reply R
  propagated : Reply R

-- The world is what the provider depends on. `sent` has the seeds of the requests that were sent and
-- `slept` the waits, the last one first.
pub record Call (W : Type 0) : Type 0 where
  pub world : W
  pub sent : List (Option ℕ)
  pub slept : List ℕ

-- _RETRY_BACKOFF_BASE_S
abbrev pub backoff_base : ℕ
backoff_base = 15

-- `redraw_seed`: the hash of the seed and the draw is a parameter.
unfoldable pub redraw_seed : (ℕ → ℕ → ℕ) → Option ℕ → ℕ → Option ℕ
redraw_seed hash none draw = none
redraw_seed hash (some seed) draw = some (hash (seed % 2 ^ 64) draw % 2 ^ 64)

module _ {W R : Type 0} (attempt : W → Option ℕ → Attempt R × W) (hash : ℕ → ℕ → ℕ)
    (seed : Option ℕ) (max_retries : ℕ) where
  abbrev pub sends : Option ℕ → W → Call W → Call W
  sends current w c = record c { world = w; sent = current ∷ c.sent }

  -- `while True`, on fuel; `none` means that it ran out.
  unfoldable pub retry_loop : ℕ → ℕ → BadDraws → Option ℕ → Call W → Option (Reply R × Call W)
  retry_loop zero n draws current c = none
  retry_loop (suc fuel) n draws current c =
      let (a, w) = attempt c.world current in
      let c' = sends current w c in
      elim a [
        | answered r ↦ some (returned r draws, c')
        | crashed ↦ some (propagated, c')
        | failed e ↦
            let counted = count_draw e draws in
            let redraw =
              retry_loop fuel (n + 1) counted (redraw_seed hash seed (total counted)) c' in
            let again =
              retry_loop fuel (n + 1) draws current
                (record c' { slept = (backoff_base * 2 ^ n) ∷ c'.slept }) in
            if not (retriable e) || leb max_retries n
            then some (raised e, c')
            else if is_bad_draw e
            then redraw
            else again
      ]

  unfoldable pub generate_with_retries : W → Option (Reply R × Call W)
  generate_with_retries w =
      retry_loop (max_retries + 1) 0 no_draws seed (record { world = w; sent = []; slept = [] })
