-- ===== src/Validator/Clues.antt =====
-- backend/app/core/clue_validator.py: `is_valid`. WordNet and MorphoLex are parameters, and so is which
-- characters are letters or digits. A set is a list in the order in which it is gone through, so of
-- several reasons against a clue the one that is given may differ; whether there is one does not.
use codenames_llm_bias.Shared.{
  Bool, false, not, ◌&&◌, Option, none, some, List, [], ◌∷◌, ◌++◌, map, if◌then◌else◌, nat_eq,
  text_eq, ltb, Text, codes, contains, filter, lower, is_infix,
}
use codenames_llm_bias.Schemas.State.{ClueEntry}
use codenames_llm_bias.Validator.{ClueValidator}
use codenames_llm_bias.Validator.Morphology.{MorphUnit, root_of, bracketed, any_of}
use codenames_llm_bias.Validator.Words.{
  Dictionary, apostrophe, meets, word_count, normalize, word_lemmas, analyses,
}
use codenames_llm_bias.Validator.Families.{
  same_family, is_part, shares_spelling, is_compound_component,
}

-- Why a clue is invalid.
pub data Reason : Type 0 where
  not_a_word not_a_single_word is_visible : Reason
  is_form derived contains_word component : Text → Reason
  derived_component : Text → Text → Reason

abbrev pub quoted : Text → Text
quoted t = apostrophe ∷ (t ++ (apostrophe ∷ []))

-- The reason as `is_valid` puts it.
unfoldable pub message : Text → Reason → Text
message clue not_a_word = quoted clue ++ codes " is not a word."
message clue not_a_single_word = quoted clue ++ codes " is not a single word."
message clue is_visible = quoted clue ++ codes " is a visible word on the board."
message clue (is_form word) =
    quoted clue
    ++ (codes " is a morphological form of the board word " ++ (quoted word ++ codes "."))
message clue (derived word) =
    quoted clue ++ (codes " is a derived form of the board word " ++ (quoted word ++ codes "."))
message clue (contains_word word) =
    quoted clue ++ (codes " contains the board word " ++ (quoted word ++ codes "."))
message clue (component word) =
    quoted clue ++ (codes " is a component of the board word " ++ (quoted word ++ codes "."))
message clue (derived_component part word) =
    quoted clue
    ++ (codes " is a derived form of "
        ++ (quoted part
            ++ (codes ", a component of the board word " ++ (quoted word ++ codes "."))))

-- The first reason that a loop returns.
abbrev pub first_of : {A : Type 0} → (A → Option Reason) → List A → Option Reason
first_of f [] = none
first_of f (x ∷ xs) = let rest = first_of f xs in elim (f x) [ none ↦ rest | some r ↦ some r ]

abbrev pub reason_if : Bool → Reason → Option Reason
reason_if b r = if b then some r else none

module _ (d : Dictionary) where
  unfoldable pub derivational_links : List Text → List (Text × Text)
  derivational_links [] = []
  derivational_links (w ∷ ws) =
      map (λ name. (w, lower name)) (d.related_names w) ++ derivational_links ws

  unfoldable pub spells_out : List Text → Text → Bool
  spells_out clue_forms word =
      any_of
        (λ clue_form.
          any_of (λ word_form. is_infix word_form clue_form) (word ∷ word_lemmas d word))
        clue_forms

  unfoldable pub component_reason : List Text → List MorphUnit → Text → Reason
  component_reason clue_forms [] word = component word
  component_reason clue_forms (u ∷ v ∷ us) word = component word
  component_reason clue_forms (u ∷ []) word =
      if contains u.stem (map bracketed clue_forms)
      then component word
      else derived_component (joined u.roots) word
    where
      joined : List Text → Text
      joined [] = []
      joined (t ∷ ts) = t ++ joined ts

  -- The body of the inner loop of `_morpholex_reason`.
  unfoldable pub units_reason : List Text → Text → List MorphUnit → List MorphUnit → Option Reason
  units_reason clue_forms word clue_units word_units =
      if same_family d.segmentation_of clue_units word_units
      then some (derived word)
      else if is_part clue_units word_units
      then some (component_reason clue_forms clue_units word)
      else if is_part word_units clue_units && spells_out clue_forms word
      then some (contains_word word)
      else none

  unfoldable pub morpholex_reason :
      List Text → List (List MorphUnit) → List (Text × Text) → Text → Option Reason
  morpholex_reason clue_forms clue_analyses links word =
      elim (first_of
        (λ clue_units. first_of (units_reason clue_forms word clue_units) (analyses d word))
        clue_analyses) [
          | some r ↦ some r
          | none ↦
              reason_if
                (any_of (λ l. contains l.1 (word_lemmas d word) && shares_spelling l.0 l.1) links)
                (derived word)
        ]

  abbrev pub part_of_word : List (List MorphUnit) → Text → Text → Bool
  part_of_word word_analyses form word = elim word_analyses [
    | [] ↦ is_compound_component d.is_english_word form word
    | us ∷ more ↦ any_of (is_part (root_of form ∷ [])) (us ∷ more)
  ]

  abbrev pub contains_board_word : List Text → List (List MorphUnit) → Text → Text → Bool
  contains_board_word clue_forms clue_analyses clue word = elim clue_analyses [
    | [] ↦ is_compound_component d.is_english_word word clue
    | us ∷ more ↦
        spells_out clue_forms word
        && any_of (λ form. any_of (is_part (root_of form ∷ [])) (us ∷ more))
            (word ∷ word_lemmas d word)
  ]

  unfoldable pub fallback_reason :
      Text → List Text → List (List MorphUnit) → List (Text × Text) → Text → Option Reason
  fallback_reason clue clue_forms clue_analyses links word =
      let derived_forms =
        filter (λ f. not (contains f clue_forms)) (map (λ (l : Text × Text). l.1) links) in
      let as_part =
        first_of (λ form. reason_if (part_of_word (analyses d word) form word) (component word))
          clue_forms in
      let as_derived =
        first_of
          (λ form.
            reason_if (part_of_word (analyses d word) form word) (derived_component form word))
          derived_forms in
      if meets derived_forms (word_lemmas d word) then some (derived word) else elim as_part [
        | some r ↦ some r
        | none ↦ elim as_derived [
          | some r ↦ some r
          | none ↦
              reason_if (contains_board_word clue_forms clue_analyses clue word)
                (contains_word word)
        ]
      ]

  -- The body of the last loop: MorphoLex, if it has both words.
  unfoldable pub word_reason : Text → Text → Option Reason
  word_reason clue word =
      let clue_forms = clue ∷ word_lemmas d clue in
      let links = derivational_links clue_forms in
      elim (analyses d clue) [
        | [] ↦ fallback_reason clue clue_forms [] links word
        | us ∷ more ↦ elim (analyses d word) [
          | [] ↦ fallback_reason clue clue_forms (us ∷ more) links word
          | vs ∷ others ↦ morpholex_reason clue_forms (us ∷ more) links word
        ]
      ]

  -- Why the clue is invalid; `none` if it is valid.
  unfoldable pub clue_reason : ClueValidator → Text → Option Reason
  clue_reason v text =
      let clue = normalize d text in
      let lemma_match =
        first_of
          (λ word. reason_if (meets (word_lemmas d clue) (word_lemmas d word)) (is_form word))
          v.visible_words in
      let related = first_of (word_reason clue) v.visible_words in
      if not (any_of d.is_alnum clue)
      then some not_a_word
      else if ltb 1 (word_count false clue)
      then some not_a_single_word
      else if contains clue v.visible_words
      then some is_visible
      else elim lemma_match [ some r ↦ some r | none ↦ related ]

  -- `is_valid`, with the message of the reason.
  unfoldable pub is_valid : ClueValidator → ClueEntry → Option Text
  is_valid v c = elim (clue_reason v c.clue) [ none ↦ none | some r ↦ some (message c.clue r) ]
