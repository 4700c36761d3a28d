-- ===== src/Validator/Words.antt =====
-- backend/app/core/clue_validator.py: the text of a clue, its lemmas and its analyses. WordNet and
-- MorphoLex are parameters, and so is which characters are letters or digits. A set is a list without
-- repeats.
use codenames_llm_bias.Shared.{
  ℕ, suc, ◌-◌, Bool, true, false, not, ◌&&◌, ◌||◌, Option, none, some, List, [], ◌∷◌, ◌++◌, map,
  if◌then◌else◌, ◌==◌, nat_eq, text_eq, same_texts, length, Text, codes, contains, filter, lower,
  strip, is_space, ends_with, sort, text_leb,
}
use codenames_llm_bias.Validator.Morphology.{MorphUnit, units, any_of}
use codenames_llm_bias.Validator.Families.{take_text}

abbrev pub apostrophe : ℕ
apostrophe = 39

pub data PartOfSpeech : Type 0 where
  noun verb adjective adverb : PartOfSpeech

-- What the validator asks of the language, of WordNet and of MorphoLex.
pub record Dictionary : Type 0 where
  pub is_alnum : ℕ → Bool
  pub lemmatize : PartOfSpeech → Text → Text
  pub related_names : Text → List Text
  pub is_english_word : Text → Bool
  pub segmentation_of : Text → Option Text

-- `a & b` is not empty.
abbrev pub meets : List Text → List Text → Bool
meets a b = any_of (λ x. contains x b) a

abbrev pub strip_start : (ℕ → Bool) → Text → Text
strip_start p [] = []
strip_start p (c ∷ t) = let rest = strip_start p t in if p c then rest else c ∷ t

abbrev pub strip_end : (ℕ → Bool) → Text → Text
strip_end p [] = []
strip_end p (c ∷ t) = elim (strip_end p t) [ [] ↦ if p c then [] else c ∷ [] | d ∷ u ↦ c ∷ d ∷ u ]

-- The number of words of `split()`; `inside` tells that a word has begun.
abbrev pub word_count : Bool → Text → ℕ
word_count inside [] = 0
word_count inside (c ∷ t) =
    let out = word_count false t in
    let on = word_count true t in if is_space c then out else if inside then on else suc on

-- `split("-")` without the empty parts; `part` is what was read.
abbrev pub hyphen_parts : Text → Text → List Text
hyphen_parts part [] = if length part == 0 then [] else part ∷ []
hyphen_parts part (c ∷ t) =
    let next = hyphen_parts [] t in
    let longer = hyphen_parts (part ++ (c ∷ [])) t in
    if c == b'-' then (if length part == 0 then next else part ∷ next) else longer

abbrev pub distinct : List Text → List Text
distinct [] = []
distinct (t ∷ ts) = let rest = distinct ts in if contains t rest then rest else t ∷ rest

abbrev pub same_unit : MorphUnit → MorphUnit → Bool
same_unit x y =
    x.stem == y.stem
    && same_texts x.roots y.roots
    && (if x.fused_prefix then y.fused_prefix else not y.fused_prefix)

abbrev pub same_units : List MorphUnit → List MorphUnit → Bool
same_units [] [] = true
same_units (x ∷ xs) (y ∷ ys) = same_unit x y && same_units xs ys
same_units _ _ = false

module _ (d : Dictionary) where
  -- `_normalize`: the apostrophe’s curl, the characters `\W` at both ends, and a possessive.
  unfoldable pub normalize : Text → Text
  normalize clue =
      let plain = map (λ c. if c == 8217 then apostrophe else c) (lower (strip clue)) in
      let no_word = λ (c : ℕ). not (d.is_alnum c || c == b'_') in
      let bare = strip_end no_word (strip_start no_word plain) in
      if ends_with (codes "'s") bare then take_text (length bare - 2) bare else bare

  unfoldable pub word_lemmas : Text → List Text
  word_lemmas word = distinct (
      d.lemmatize noun word
      ∷ d.lemmatize verb word
      ∷ d.lemmatize adjective word
      ∷ d.lemmatize adverb word
      ∷ [])

  -- The loop over the forms of a word; `found` are the analyses so far.
  unfoldable pub collect_units : List Text → List (List MorphUnit) → List (List MorphUnit)
  collect_units [] found = found
  collect_units (form ∷ forms) found = elim (units d.segmentation_of form) [
    | none ↦ collect_units forms found
    | some us ↦
        collect_units forms (if any_of (same_units us) found then found else found ++ (us ∷ []))
  ]

  unfoldable pub analyses_of_part : Text → List (List MorphUnit)
  analyses_of_part word =
      collect_units (word ∷ sort text_leb (filter (λ l. not (l == word)) (word_lemmas word))) []

  -- The units of the first analysis of each part, or `none` if a part has none.
  unfoldable pub join_parts : List Text → Option (List MorphUnit)
  join_parts [] = some []
  join_parts (part ∷ parts) =
      let rest = join_parts parts in
      elim (analyses_of_part part) [
        | [] ↦ none
        | us ∷ more ↦ elim rest [ none ↦ none | some vs ↦ some (us ++ vs) ]
      ]

  unfoldable pub analyses : Text → List (List MorphUnit)
  analyses word =
      let joined : List (List MorphUnit) = elim (hyphen_parts [] word) [
        | [] ↦ []
        | part ∷ parts ↦ elim (join_parts (part ∷ parts)) [ none ↦ [] | some us ↦ us ∷ [] ]
      ] in
      if contains b'-' word then joined else analyses_of_part word
