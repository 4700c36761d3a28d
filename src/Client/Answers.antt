-- ===== src/Client/Answers.antt =====
-- backend/app/core/llm/client.py: which statuses are tried again, and which answers are kept.
use codenames_llm_bias.Shared.{
  ℕ, ◌≡◌, ◌≢◌, ◌↔◌, ◌⊎◌, inl, inr, refl, Bool, true, false, not, ◌&&◌, ◌||◌, Option, none, some,
  length, ◌==◌, nat_eq, leb, ltb, Text, arith,
}
use codenames_llm_bias.Client.{
  LlmError, refusal, retriable, is_bad_draw, error_for_status, Read, kept, bad_draw, read_answer,
}

-- A failure without a status, or with one outside of 400 to 499, may pass; of those, only a timeout
-- (408) and a rate limit (429).
abbrev pub may_pass : Option ℕ → Bool
may_pass none = true
may_pass (some status) = status == 408 || (status == 429 || not (leb 400 status && ltb status 500))

-- No status is a refusal of the model or a bad draw, and an error is retriable exactly when the
-- failure may pass.
pub error_for_status_lem :
    (status : Option ℕ)
    → (error_for_status status ≢ refusal)
      × (is_bad_draw (error_for_status status) ≡ false)
      × (retriable (error_for_status status) ≡ may_pass status)
unfolding error_for_status retriable is_bad_draw
error_for_status_lem none = ground arith
error_for_status_lem (some status) = ground arith

module _ {F : Type 0} (extract_json : Text → Text) (validate : Text → Option F)
    (degenerate_reason : F → Option Text) where
  -- The content of an answer is usable.
  abbrev pub IsUsable : Bool → Text → F → Type 0
  IsUsable cut answer parsed =
      (length (extract_json answer) ≢ 0)
      × (cut ≡ false)
      × (validate (extract_json answer) ≡ some parsed)
      × (degenerate_reason parsed ≡ none)

  kept_iff :
      (cut : Bool) (answer text : Text) (parsed : F)
      → (read_answer extract_json (some validate) degenerate_reason cut answer
          ≡ kept text (some parsed))
        ↔ ((text ≡ extract_json answer) × IsUsable cut answer parsed)
  unfolding read_answer
  kept_iff cut answer text parsed = ground arith

  unusable :
      (cut : Bool) (answer : Text) (r : Read F)
      → read_answer extract_json (some validate) degenerate_reason cut answer ≡ r
      → ((parsed : F) × IsUsable cut answer parsed)
        ⊎ ((e : LlmError) × (read_answer extract_json (some validate) degenerate_reason cut answer
              ≡ bad_draw e)
            × (is_bad_draw e ≡ true)
            × (retriable e ≡ true))
  unfolding read_answer is_bad_draw retriable
  unusable cut answer (kept text none) q = absurd (ground (arith, q))
  unusable cut answer (kept text (some parsed)) q =
      inl (parsed, ((kept_iff cut answer text parsed).0 q).1)
  unusable cut answer (bad_draw e) q = inr (e, q, ground (arith, q), ground (arith, q))

  -- With an expected format an answer is kept, as its JSON, exactly when that is not empty, was not
  -- cut, and reads as a value of the format with no degenerate reason; an answer that is not usable
  -- so is a bad draw, which is retriable.
  pub read_answer_iff :
      (cut : Bool) (answer : Text)
      → ((text : Text) (parsed : F)
          → (read_answer extract_json (some validate) degenerate_reason cut answer
              ≡ kept text (some parsed))
            ↔ ((text ≡ extract_json answer) × IsUsable cut answer parsed))
        × (((parsed : F) × IsUsable cut answer parsed)
            ⊎ ((e : LlmError) × (read_answer extract_json
                    (some validate)
                    degenerate_reason
                    cut
                    answer
                  ≡ bad_draw e)
                × (is_bad_draw e ≡ true)
                × (retriable e ≡ true)))
  read_answer_iff cut answer = (kept_iff cut answer, unusable cut answer _ refl)
