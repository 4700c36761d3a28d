-- ===== src/Validator/Legal.antt =====
-- backend/app/core/clue_validator.py: which clues are valid.
use codenames_llm_bias.Shared.{
  ◌≡◌, ◌↔◌, ◌≤◌, refl, subst, Bool, true, false, ◌&&◌, Option, none, List, [], ◌∷◌, nat_eq, text_eq,
  Text, contains, All, All-always, All-weaken, All-pair, arith,
}
use codenames_llm_bias.Schemas.State.{ClueEntry}
use codenames_llm_bias.Validator.{ClueValidator}
use codenames_llm_bias.Validator.Morphology.{MorphUnit, any_of}
use codenames_llm_bias.Validator.Families.{same_family, is_part}
use codenames_llm_bias.Validator.Words.{
  Dictionary, meets, word_count, normalize, word_lemmas, analyses,
}
use codenames_llm_bias.Validator.Clues.{
  Reason, is_form, first_of, reason_if, derivational_links, spells_out, units_reason,
  morpholex_reason, fallback_reason, word_reason, clue_reason, is_valid,
}

first_of_iff :
    {A : Type 0} (f : A → Option Reason) (xs : List A)
    → (first_of f xs ≡ none) ↔ All (λ x. f x ≡ none) xs
first_of_iff f [] = (λ q. tt, λ h. refl)
first_of_iff f (x ∷ xs) = (
  λ q. (ground (arith, q), (first_of_iff f xs).0 (ground (arith, q))),
  λ h. ground (arith, h.0, (first_of_iff f xs).1 h.1),
)

reason_if-none : (b : Bool) (r : Reason) → (reason_if b r ≡ none) ↔ (b ≡ false)
reason_if-none b r = ground arith

All-first :
    {A : Type 0} (P : A → Type 0) (f : A → Option Reason)
    → ((x : A) → f x ≡ none → P x)
    → (xs : List A) → first_of f xs ≡ none
    → All P xs
All-first P f h xs q = All-weaken (λ x. f x ≡ none) P h xs ((first_of_iff f xs).0 q)

module _ (d : Dictionary) where
  -- The clue is legal beside a word of the board: it has no lemma with it in common, and none of the
  -- reasons speaks against it.
  pub record IsLegalBeside (clue word : Text) : Type 0 where
    pub no_lemma : meets (word_lemmas d clue) (word_lemmas d word) ≡ false
    pub unrelated : word_reason d clue word ≡ none

  -- The clue is one word, not a visible one, and legal beside each of the visible words.
  pub record IsLegal (visible_words : List Text) (clue : Text) : Type 0 where
    pub is_word : any_of d.is_alnum clue ≡ true
    pub is_single : word_count false clue ≤ 1
    pub is_new : contains clue visible_words ≡ false
    pub apart : All (IsLegalBeside clue) visible_words

  clue_reason_iff :
      (v : ClueValidator) (text : Text)
      → (clue_reason d v text ≡ none) ↔ IsLegal v.visible_words (normalize d text)
  unfolding clue_reason
  clue_reason_iff v text =
      let clue = normalize d text in
      let words = v.visible_words in
      let lemma : Text → Option Reason =
        λ word. reason_if (meets (word_lemmas d clue) (word_lemmas d word)) (is_form word) in
      (
        λ q. record {
          is_word = ground (arith, q);
          is_single = ground (arith, q);
          is_new = ground (arith, q);
          apart =
              All-pair (λ w. lemma w ≡ none) (λ w. word_reason d clue w ≡ none) (IsLegalBeside clue)
                (λ w l u. record { no_lemma = (reason_if-none _ (is_form w)).0 l; unrelated = u })
                words ((first_of_iff lemma words).0 (ground (arith, q)))
                ((first_of_iff (word_reason d clue) words).0 (ground (arith, q)));
        },
        λ h.
            let l = (first_of_iff lemma words).1 (
              All-weaken (IsLegalBeside clue) (λ w. lemma w ≡ none)
                (λ w a. (reason_if-none _ (is_form w)).1 a.no_lemma) words h.apart) in
            let u = (first_of_iff (word_reason d clue) words).1 (
              All-weaken (IsLegalBeside clue) (λ w. word_reason d clue w ≡ none)
                (λ w a. a.unrelated) words h.apart) in
            ground (arith, h.is_word, h.is_single, h.is_new, l, u),
      )

  -- A clue is valid exactly when it is a single word, is not a visible word, and is legal beside each
  -- visible word, all as it is normalized: no lemma in common and no relation.
  pub is_valid_iff :
      (v : ClueValidator) (c : ClueEntry)
      → (is_valid d v c ≡ none) ↔ IsLegal v.visible_words (normalize d c.clue)
  unfolding is_valid
  is_valid_iff v c = ground (arith, clue_reason_iff v c.clue)

  -- Two words as MorphoLex has them: neither is a form of the other, the clue is no part of the word,
  -- and the word is no part of the clue that it spells out.
  pub record IsUnrelated (clue word : Text) (a b : List MorphUnit) : Type 0 where
    pub no_form : same_family d.segmentation_of a b ≡ false
    pub no_component : is_part a b ≡ false
    pub no_compound : (is_part b a && spells_out d (clue ∷ word_lemmas d clue) word) ≡ false

  units_reason-none :
      (clue word : Text) (a b : List MorphUnit)
      → units_reason d (clue ∷ word_lemmas d clue) word a b ≡ none
      → IsUnrelated clue word a b
  unfolding units_reason
  units_reason-none clue word a b q = record {
    no_form = ground (arith, q);
    no_component = ground (arith, q);
    no_compound = ground (arith, q);
  }

  abbrev pub AllUnrelated : Text → Text → Type 0
  AllUnrelated clue word =
      All (λ a. All (IsUnrelated clue word a) (analyses d word)) (analyses d clue)

  morpholex_reason-none :
      (clue word : Text) (as_ : List (List MorphUnit))
      → morpholex_reason d
          (clue ∷ word_lemmas d clue)
          as_
          (derivational_links d (clue ∷ word_lemmas d clue))
          word
        ≡ none
      → All (λ a. All (IsUnrelated clue word a) (analyses d word)) as_
  unfolding morpholex_reason
  morpholex_reason-none clue word as_ q =
      All-first _ _ (λ a r. All-first _ _ (units_reason-none clue word a) (analyses d word) r) as_
        (ground (arith, q))

  word_reason-none : (clue word : Text) → word_reason d clue word ≡ none → AllUnrelated clue word
  unfolding word_reason
  word_reason-none clue word q = by_clue (analyses d clue) (analyses d word) refl q
    where
      forms : List Text
      forms = clue ∷ word_lemmas d clue

      by_clue :
          (as_ bs : List (List MorphUnit))
          → bs ≡ analyses d word
          → (elim as_ as (λ x. Option Reason) [
            | [] ↦ fallback_reason d clue forms [] (derivational_links d forms) word
            | us ∷ more ↦ elim bs as (λ x. Option Reason) [
              | [] ↦ fallback_reason d clue forms (us ∷ more) (derivational_links d forms) word
              | vs ∷ others ↦ morpholex_reason d forms (us ∷ more) (derivational_links d forms) word
            ]
          ])
            ≡ none
          → All (λ a. All (IsUnrelated clue word a) (analyses d word)) as_
      by_clue [] bs e q = tt
      by_clue (us ∷ more) [] e q =
          subst
            (λ (ws : List (List MorphUnit)).
              All (λ a. All (IsUnrelated clue word a) ws) (us ∷ more))
            e (All-always (λ a. Unit) (λ a. tt) (us ∷ more))
      by_clue (us ∷ more) (vs ∷ others) e q = morpholex_reason-none clue word (us ∷ more) q

  -- Beside each visible word a valid clue is unrelated to it in every analysis that MorphoLex has of the
  -- two: neither is a form of the other, the clue is no part of the word, and the word is no part of the
  -- clue that it spells out.
  pub is_valid-AllUnrelated :
      (v : ClueValidator) (c : ClueEntry)
      → is_valid d v c ≡ none
      → All (AllUnrelated (normalize d c.clue)) v.visible_words
  is_valid-AllUnrelated v c h =
      All-weaken (IsLegalBeside (normalize d c.clue)) _
        (λ w a. word_reason-none (normalize d c.clue) w a.unrelated) v.visible_words
        ((is_valid_iff v c).0 h).apart
