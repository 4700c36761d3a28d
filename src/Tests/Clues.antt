-- ===== src/Tests/Clues.antt =====
-- backend/app/core/clue_validator.py: clues on a board with "earthquake", "hide" and "crown".
use codenames_llm_bias.Shared.{
  ◌≡◌, ◌↔◌, refl, true, false, ◌&&◌, Option, none, some, List, [], ◌∷◌, if◌then◌else◌, ◌==◌,
  text_eq, leb, Text, codes, All, sort, strip, ends_with, map, is_infix, starts_with, lower,
  get_item, arith,
}
use codenames_llm_bias.Shared.Int.{pos}
use codenames_llm_bias.Schemas.Card.{seat0}
use codenames_llm_bias.Schemas.State.{ClueEntry}
use codenames_llm_bias.Validator.{ClueValidator}
use codenames_llm_bias.Validator.Morphology.{
  MorphUnit, root_of, particles, closing, group_end, scan_roots, group_units, read_unit, parse_loop,
  parse, units, parse_loop_total,
}
use codenames_llm_bias.Validator.Families.{
  counts_within, same_counts, same_root, same_family, is_part, common, shares_spelling,
  is_compound_component,
}
use codenames_llm_bias.Validator.Words.{
  Dictionary, normalize, word_lemmas, collect_units, analyses_of_part, join_parts, analyses,
}
use codenames_llm_bias.Validator.Clues.{
  Reason, is_visible, is_form, derived_component, contains_word, not_a_word, not_a_single_word,
  derivational_links, spells_out, component_reason, units_reason, morpholex_reason, fallback_reason,
  word_reason, clue_reason, is_valid,
}
use codenames_llm_bias.Validator.Legal.{IsLegal, AllUnrelated, is_valid_iff, is_valid-AllUnrelated}

abbrev segmentations : List (Text × Text)
segmentations =
    (codes "earthquake", codes "{(earth)}{(quake)}")
    ∷ (codes "earth", codes "{(earth)}")
    ∷ (codes "earthy", codes "{(earth)}>y>")
    ∷ (codes "hide", codes "{(hide)}")
    ∷ (codes "rawhide", codes "{(raw)(hide)}")
    ∷ (codes "upstairs", codes "<up<{(stair)}>s>")
    ∷ (codes "crown", codes "{(crown)}")
    ∷ (codes "medical", codes "{(medic)>al>}")
    ∷ []

abbrev words : Dictionary
words = record {
  is_alnum = λ c. leb b'a' c && leb c b'z';
  lemmatize = λ p w. if w == codes "hid" then codes "hide" else w;
  related_names = λ w. [];
  is_english_word = λ w. false;
  segmentation_of = λ w. get_item w segmentations;
}

abbrev on_board : ClueValidator
on_board = record { visible_words = codes "earthquake" ∷ codes "hide" ∷ codes "crown" ∷ [] }

abbrev clue : Text → ClueEntry
clue text = record {
  clue = text;
  count = pos 1;
  clue_giver = seat0;
  turn_number = 1;
  targets = [];
  targets_resolved = [];
  confidence_ranking = none;
  invalid_reason = none;
}

upstairs_units :
    units words.segmentation_of (codes "upstairs")
    ≡ some (root_of (codes "up") ∷ root_of (codes "stair") ∷ [])
unfolding units parse parse_loop read_unit group_units closing group_end scan_roots particles
upstairs_units = refl

medical_units :
    units words.segmentation_of (codes "medical")
    ≡ some (
        record { stem = codes "(medic)>al>"; roots = codes "medic" ∷ []; fused_prefix = false }
        ∷ [])
unfolding units parse parse_loop read_unit group_units closing group_end scan_roots particles
    is_infix starts_with
medical_units = refl

abbrev reason_of : Text → Option Reason
reason_of text = clue_reason words on_board text

-- The board words, their forms, their parts and their compounds are refused, and other words are not.
clue_reasons :
    map reason_of (
      codes "'CROWN!'"
      ∷ codes "?"
      ∷ codes "a crown"
      ∷ codes "hid"
      ∷ codes "earthy"
      ∷ codes "rawhide"
      ∷ codes "medical"
      ∷ [])
    ≡ some is_visible
      ∷ some not_a_word
      ∷ some not_a_single_word
      ∷ some (is_form (codes "hide"))
      ∷ some (derived_component (codes "earth") (codes "earthquake"))
      ∷ some (contains_word (codes "hide"))
      ∷ none
      ∷ []
unfolding clue_reason is_valid normalize strip lower ends_with word_lemmas analyses analyses_of_part
    collect_units join_parts units parse parse_loop read_unit group_units closing group_end
    scan_roots particles is_infix starts_with derivational_links word_reason morpholex_reason
    fallback_reason units_reason same_family same_root is_part same_counts counts_within spells_out
    component_reason is_compound_component shares_spelling common sort
clue_reasons = refl

medical-IsValid : is_valid words on_board (clue (codes "medical")) ≡ none
unfolding clue_reason is_valid normalize strip lower ends_with word_lemmas analyses analyses_of_part
    collect_units join_parts units parse parse_loop read_unit group_units closing group_end
    scan_roots particles is_infix starts_with derivational_links word_reason morpholex_reason
    fallback_reason units_reason same_family same_root is_part same_counts counts_within spells_out
    component_reason is_compound_component shares_spelling common sort
medical-IsValid = refl

is_valid_iff_example :
    (is_valid words on_board (clue (codes "medical")) ≡ none)
    ↔ IsLegal words on_board.visible_words (normalize words (codes "medical"))
is_valid_iff_example = is_valid_iff words on_board (clue (codes "medical"))

is_valid-AllUnrelated_example :
    All (AllUnrelated words (normalize words (codes "medical"))) on_board.visible_words
is_valid-AllUnrelated_example =
    is_valid-AllUnrelated words on_board (clue (codes "medical")) medical-IsValid

parse_loop_total_example :
    (us : List MorphUnit) × (parse_loop words.segmentation_of 9 (codes "hide") (codes "{(hide}")
      ≡ some us)
parse_loop_total_example =
    parse_loop_total words.segmentation_of 9 (codes "hide") (codes "{(hide}") (omega arith)

earth_is_part :
    is_part (root_of (codes "earth") ∷ []) (root_of (codes "earth") ∷ root_of (codes "quake") ∷ [])
    ≡ true
unfolding is_part same_counts counts_within
earth_is_part = refl
