-- ===== src/Batch/Errors.antt =====
-- backend/app/core/batch_runner.py against backend/app/models/llm_errors.py: the sets of codes that
-- sort the errors of a game.
use codenames_llm_bias.Shared.{
  if◌then◌else◌, ◌≡◌, Bool, true, not, ◌&&◌, Option, some, Text, text_eq, refl,
}
use codenames_llm_bias.Client.{
  LlmError, code, retriable, is_bad_draw, parse_error, refusal, model_not_provided, model_not_found,
  invalid_request, timeout, rate_limit, auth, insufficient_credits, empty_response,
  degenerate_response, truncated_response, malformed_response, provider_unavailable,
}
use codenames_llm_bias.Batch.{
  provider, model, code_in, provider_error_codes, model_error_codes, transient_provider_codes,
  classify_error,
}

-- Whether the model itself returned what failed: a draw that cannot be used, or a refusal.
abbrev pub is_of_model : LlmError → Bool
is_of_model parse_error = true
is_of_model refusal = true
is_of_model e = is_bad_draw e

-- An error of a call is sorted by its code alone, whatever its message says: it is the model's if the
-- model returned what failed, and the provider's otherwise. A game is lost to the provider when
-- the error is one to try again and not a bad draw.
pub classify_error_lem :
    (e : LlmError) (message : Option Text)
    → (classify_error message (some (code e)) ≡ (if is_of_model e then model else provider))
      × (code_in transient_provider_codes (some (code e)) ≡ (retriable e && not (is_bad_draw e)))
unfolding classify_error code_in provider_error_codes model_error_codes transient_provider_codes
    code retriable is_bad_draw
classify_error_lem model_not_provided message = (refl, refl)
classify_error_lem model_not_found message = (refl, refl)
classify_error_lem invalid_request message = (refl, refl)
classify_error_lem refusal message = (refl, refl)
classify_error_lem timeout message = (refl, refl)
classify_error_lem rate_limit message = (refl, refl)
classify_error_lem auth message = (refl, refl)
classify_error_lem insufficient_credits message = (refl, refl)
classify_error_lem parse_error message = (refl, refl)
classify_error_lem empty_response message = (refl, refl)
classify_error_lem degenerate_response message = (refl, refl)
classify_error_lem truncated_response message = (refl, refl)
classify_error_lem malformed_response message = (refl, refl)
classify_error_lem provider_unavailable message = (refl, refl)
