-- ===== src/Tests/Calls.antt =====
-- backend/app/core/llm/client.py: a provider whose first answer is empty and that is then busy once.
use codenames_llm_bias.Shared.{
  ℕ, zero, suc, ◌+◌, ◌≡◌, ◌↔◌, ◌⊎◌, refl, Bool, true, false, Option, none, some, [], ◌∷◌, Text,
  codes, ◌==◌, text_eq, if◌then◌else◌, strip,
}
use codenames_llm_bias.Client.{
  Attempt, answered, failed, returned, empty_response, rate_limit, generate_with_retries,
  retry_loop, retriable, is_bad_draw, count_draw, redraw_seed, LlmError, read_answer, kept,
  bad_draw,
}
use codenames_llm_bias.Client.Retries.{Ended, generate_with_retries-Ended}
use codenames_llm_bias.Client.Json.{
  slice, first_object, extract_json, extract_json_lem, IsFirstObject,
}
use codenames_llm_bias.Client.Answers.{IsUsable, read_answer_iff}

abbrev busy : ℕ → Option ℕ → Attempt Text × ℕ
busy zero seed = (failed empty_response, 1)
busy (suc zero) seed = (failed rate_limit, 2)
busy n seed = (answered (codes "clue"), n)

abbrev hash : ℕ → ℕ → ℕ
hash seed draw = seed + draw

generate_with_retries-Ended_example :
    Ended busy hash (some 40) 3 (generate_with_retries busy hash (some 40) 3 0)
generate_with_retries-Ended_example = generate_with_retries-Ended busy hash (some 40) 3 0

-- The second and the third request have the seed of the first new draw.
busy_call :
    generate_with_retries busy hash (some 40) 3 0
    ≡ some (
      returned (codes "clue") (record { empty = 1; degenerate = 0; truncated = 0; malformed = 0 }),
      record { world = 2; sent = some 41 ∷ some 41 ∷ some 40 ∷ []; slept = 30 ∷ [] },
    )
unfolding generate_with_retries retry_loop retriable is_bad_draw count_draw redraw_seed
busy_call = refl

-- A format of one text, and the reason to refuse a blank.
abbrev one_text : Text → Option Text
one_text t = some t

abbrev blank : Text → Option Text
blank [] = some (codes "blank")
blank (c ∷ t) = none

read_answer_iff_example :
    ((text : Text) (parsed : Text)
      → (read_answer (λ t. t) (some one_text) blank false (codes "ok") ≡ kept text (some parsed))
        ↔ ((text ≡ codes "ok") × IsUsable (λ t. t) one_text blank false (codes "ok") parsed))
    × (((parsed : Text) × IsUsable (λ t. t) one_text blank false (codes "ok") parsed)
        ⊎ ((e : LlmError) × (read_answer (λ t. t) (some one_text) blank false (codes "ok")
              ≡ bad_draw e)
            × (is_bad_draw e ≡ true)
            × (retriable e ≡ true)))
read_answer_iff_example = read_answer_iff (λ t. t) one_text blank false (codes "ok")

abbrev loads : Text → Bool
loads t = t == codes "{}"

abbrev raw_decode : Text → ℕ → Option ℕ
raw_decode t start = if slice start (start + 2) t == codes "{}" then some (start + 2) else none

abbrev no_block : Option Text
no_block = none

extract_json_lem_example :
    let kept_text = extract_json loads raw_decode (λ t. no_block) (codes "so {}.") in
    ((loads (strip (codes "so {}.")) ≡ true) × (kept_text ≡ strip (codes "so {}.")))
    ⊎ ((loads (strip (codes "so {}.")) ≡ false)
        × (((block : Text) × (no_block ≡ some block) × (kept_text ≡ strip block))
            ⊎ ((no_block ≡ none)
                × IsFirstObject loads raw_decode
                    (λ t. no_block)
                    (strip (codes "so {}."))
                    kept_text)))
extract_json_lem_example = extract_json_lem loads raw_decode (λ t. no_block) (codes "so {}.")

json_found : extract_json loads raw_decode (λ t. no_block) (codes "so {}.") ≡ codes "{}"
unfolding extract_json first_object strip
json_found = refl
