-- ===== src/Client/Json.antt =====
-- backend/app/core/llm/client.py: `extract_json`. What `json.loads` accepts, where `raw_decode` ends when
-- it reads a value from an index, and the content of the first fenced block are parameters.
use codenames_llm_bias.Shared.{
  ℕ, zero, suc, ◌+◌, ◌-◌, ◌<◌, ◌≤◌, leb, ◌≡◌, ◌⊎◌, inl, inr, refl, sym, ap, subst, ◌∙◌, Bool, true,
  false, Bool-cases, Option, none, some, [], ◌∷◌, if◌then◌else◌, ◌==◌, nat_eq, Text, strip, arith,
}

-- `text[start:end]`
abbrev pub slice : ℕ → ℕ → Text → Text
slice start zero t = []
slice start (suc end) [] = []
slice zero (suc end) (c ∷ t) = c ∷ slice zero end t
slice (suc start) (suc end) (c ∷ t) = slice start end t

-- The character at an index.
abbrev pub char_at : ℕ → Text → Option ℕ
char_at i [] = none
char_at zero (c ∷ t) = some c
char_at (suc i) (c ∷ t) = char_at i t

below_or_not : (k i : ℕ) → (k < i) ⊎ (i ≤ k)
below_or_not k i = elim (Bool-cases (leb i k)) [
  | inl h ↦ inr (ground (arith, h))
  | inr h ↦ inl (ground (arith, h))
]

module _ (loads : Text → Bool) (raw_decode : Text → ℕ → Option ℕ)
    (fenced_block : Text → Option Text) where
  -- The loop over the braces; `i` is the index of the rest.
  unfoldable pub first_object : Text → ℕ → Text → Text
  first_object text i [] = text
  first_object text i (c ∷ rest) =
      let more = first_object text (suc i) rest in
      elim (raw_decode text i) [
        | none ↦ more
        | some end ↦ if c == b'{' then slice i end text else more
      ]

  unfoldable pub extract_json : Text → Text
  extract_json answer =
      let text = strip answer in
      if loads text
      then text
      else elim (fenced_block text) [ none ↦ first_object text 0 text | some block ↦ strip block ]

  -- An object of the text starts at `start` and ends before `end`.
  abbrev pub IsObject : Text → ℕ → ℕ → Type 0
  IsObject text start end = (char_at start text ≡ some b'{') × (raw_decode text start ≡ some end)

  -- What is kept is the object that starts first, or the text where no object starts.
  abbrev pub IsFirstObject : Text → Text → Type 0
  IsFirstObject text kept =
      ((start : ℕ) × (end : ℕ) × IsObject text start end
        × ((k m : ℕ) → k < start → ¬ IsObject text k m)
        × (kept ≡ slice start end text))
      ⊎ (((k m : ℕ) → ¬ IsObject text k m) × (kept ≡ text))

  first_object-IsFirstObject :
      (text : Text) (i : ℕ) (rest : Text)
      → ((k : ℕ) → char_at (i + k) text ≡ char_at k rest)
      → ((k m : ℕ) → k < i → ¬ IsObject text k m)
      → IsFirstObject text (first_object text i rest)
  unfolding first_object
  first_object-IsFirstObject text i [] same before = inr (
    (λ k m o. elim (below_or_not k i) [
      | inl l ↦ before k m l o
      | inr g ↦
          let there : k ≡ i + (k - i) = omega (arith, g) in
          absurd (ground (arith, same (k - i), ap (λ n. char_at n text) there, o.0))
    ]),
    refl,
  )
  first_object-IsFirstObject text i (c ∷ rest) same before =
      by_end (raw_decode text i) refl (λ here.
        first_object-IsFirstObject text (suc i) rest
          (λ k. ap (λ n. char_at n text) (omega arith) ∙ same (suc k))
          (λ k m l o. elim (below_or_not k i) [
            | inl l' ↦ before k m l' o
            | inr g ↦ here m (subst (λ n. IsObject text n m) (omega (arith, l, g)) o)
          ]))
    where
      head : char_at i text ≡ some c
      head = ap (λ n. char_at n text) (omega arith) ∙ same 0

      by_end :
          (e : Option ℕ)
          → raw_decode text i ≡ e
          → (((m : ℕ) → ¬ IsObject text i m) → IsFirstObject text (first_object text (suc i) rest))
          → IsFirstObject text (elim e as (λ x. Text) [
            | none ↦ first_object text (suc i) rest
            | some end ↦ if c == b'{' then slice i end text else first_object text (suc i) rest
          ])
      by_end none q later = later (λ m o. ground (arith, q, o.1))
      by_end (some end) q later = elim (Bool-cases (c == b'{')) [
        | inl e ↦
            let brace : c ≡ b'{' = ground (arith, e) in
            rw e (inl (i, end, (head ∙ ap some brace, q), before, refl))
        | inr e ↦ rw e (later (λ m o. ground (arith, e, sym head ∙ o.0)))
      ]

  -- The stripped answer is kept as it is when it is JSON. Else its first fenced block is kept, stripped, if it has
  -- one. Else the object that starts at the first brace from which one can be read is kept, and the
  -- stripped answer where there is no such brace.
  pub extract_json_lem :
      (answer : Text)
      → ((loads (strip answer) ≡ true) × (extract_json answer ≡ strip answer))
        ⊎ ((loads (strip answer) ≡ false)
            × (((block : Text) × (fenced_block (strip answer) ≡ some block)
                  × (extract_json answer ≡ strip block))
                ⊎ ((fenced_block (strip answer) ≡ none)
                    × IsFirstObject (strip answer) (extract_json answer))))
  unfolding extract_json
  extract_json_lem answer = elim (Bool-cases (loads (strip answer))) [
    | inl l ↦ inl (l, rw l refl)
    | inr l ↦ inr (l, rw l (by_block (fenced_block (strip answer)) refl))
  ]
    where
      by_block :
          (b : Option Text)
          → fenced_block (strip answer) ≡ b
          → let r = elim b as (λ x. Text) [
            | none ↦ first_object (strip answer) 0 (strip answer)
            | some block ↦ strip block
          ] in
            ((block : Text) × (b ≡ some block) × (r ≡ strip block))
            ⊎ ((b ≡ none) × IsFirstObject (strip answer) r)
      by_block none q = inr (
        refl,
        first_object-IsFirstObject (strip answer) 0 (strip answer)
            (λ k. ap (λ n. char_at n (strip answer)) (omega arith))
            (λ k m l. absurd (omega (arith, l))),
      )
      by_block (some block) q = inl (block, refl, refl)
