-- ===== src/Validator/Families.antt =====
-- backend/app/core/clue_validator.py: how the units of two words, or their letters, compare.
use codenames_llm_bias.Shared.{
  ℕ, zero, suc, ◌-◌, ◌≡◌, refl, Bool, true, false, not, ◌&&◌, ◌||◌, Option, List, [], ◌∷◌, map,
  if◌then◌else◌, ◌==◌, nat_eq, text_eq, same_texts, leb, ltb, length, Text, contains, count_if,
  all_of, starts_with, ends_with, arith,
}
use codenames_llm_bias.Validator.Morphology.{MorphUnit, bracketed, in_morpholex, particles}

-- `Counter(...)` of stems, as the number of times that each one stands there.
abbrev pub stems : List MorphUnit → List Text
stems us = map (λ u. MorphUnit.stem u) us

abbrev pub count : Text → List Text → ℕ
count s ts = count_if (λ t. t == s) ts

-- `not a - b` of two counters.
unfoldable pub counts_within : List Text → List Text → Bool
counts_within a b = all_of (λ s. leb (count s a) (count s b)) a

-- `a == b` of two counters.
unfoldable pub same_counts : List Text → List Text → Bool
same_counts a b = counts_within a b && counts_within b a

module _ (segmentation_of : Text → Option Text) where
  -- The test of two single units.
  unfoldable pub same_root : MorphUnit → MorphUnit → Bool
  same_root x y = elim x.roots [
    | [] ↦ false
    | root ∷ more ↦
        same_texts (root ∷ more) y.roots
        && length more == 0
        && in_morpholex segmentation_of root
        && not x.fused_prefix
        && not y.fused_prefix
        && (bracketed root == x.stem || bracketed root == y.stem)
  ]

  unfoldable pub same_family : List MorphUnit → List MorphUnit → Bool
  same_family a b = same_counts (stems a) (stems b) || elim a [
    | [] ↦ false
    | x ∷ xs ↦ elim b [ [] ↦ false | y ∷ ys ↦ length xs == 0 && length ys == 0 && same_root x y ]
  ]

unfoldable pub is_part : List MorphUnit → List MorphUnit → Bool
is_part part compound =
    leb 2 (length compound)
    && not (same_counts (stems part) (stems compound))
    && counts_within (stems part) (stems compound)

-- The length of the common beginning.
unfoldable pub common : Text → Text → ℕ
common [] b = 0
common (x ∷ a) [] = 0
common (x ∷ a) (y ∷ b) = let more = common a b in if x == y then suc more else 0

abbrev min_of : ℕ → ℕ → ℕ
min_of a b = if leb a b then a else b

abbrev max_of : ℕ → ℕ → ℕ
max_of a b = if leb a b then b else a

unfoldable pub shares_spelling : Text → Text → Bool
shares_spelling a b = leb (max_of 3 (min_of (length a) (length b) - 1)) (common a b)

abbrev pub drop : ℕ → Text → Text
drop zero t = t
drop (suc n) [] = []
drop (suc n) (c ∷ t) = drop n t

abbrev pub take_text : ℕ → Text → Text
take_text zero t = []
take_text (suc n) [] = []
take_text (suc n) (c ∷ t) = c ∷ take_text n t

-- `_is_compound_component`, where `is_english_word` asks WordNet.
unfoldable pub is_compound_component : (Text → Bool) → Text → Text → Bool
is_compound_component is_english_word part compound =
    let n = length compound - length part in
    let is_word = λ (remaining : Text).
      (leb 3 (length remaining) || contains remaining particles) && is_english_word remaining in
    not (ltb (length part) 3 || leb (length compound) (length part))
    && ((starts_with part compound && is_word (drop (length part) compound))
        || (ends_with part compound && is_word (take_text n compound)))

-- Counters that are within each other have the same counts, in both orders.
same_counts_symm : (a b : List Text) → same_counts a b ≡ same_counts b a
unfolding same_counts
same_counts_symm a b = ground arith

counts_within_refl : (a b : List Text) → all_of (λ s. leb (count s b) (count s b)) a ≡ true
counts_within_refl [] b = refl
counts_within_refl (s ∷ a) b = ground (arith, counts_within_refl a b)

-- A word is of its own family, and no word is a part of itself.
pub same_family_refl :
    (segmentation_of : Text → Option Text) (a : List MorphUnit)
    → (same_family segmentation_of a a ≡ true) × (is_part a a ≡ false)
unfolding same_family is_part same_counts counts_within
same_family_refl f a = ground (arith, counts_within_refl (stems a) (stems a))

-- The parts of a compound do not contain it: of two words, at most one is a part of the other, and
-- then they do not have the same stems.
pub is_part_asymm :
    (a b : List MorphUnit)
    → is_part a b ≡ true
    → (is_part b a ≡ false) × (same_counts (stems a) (stems b) ≡ false)
unfolding is_part same_counts
is_part_asymm a b h = ground (arith, h)
