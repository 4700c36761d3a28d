-- ===== src/Schemas/Board.antt =====
-- backend/app/models/game_schemas.py: `Board`, with its validators in the order they run. The
-- artifact metadata that no code here reads (seed, grid, arbiters, audit, arbiter scores) is left
-- out.
use codenames_llm_bias.Shared.{
  ℕ, suc, Bool, true, false, not, ◌&&◌, ◌||◌, Option, none, some, List, [], ◌∷◌, map, ◌==◌,
  if◌then◌else◌, nat_eq, text_eq, Text, codes, lower, length, filter, contains, count_if, all_of,
  ltb,
}
use codenames_llm_bias.Schemas.Card.{
  CardRole, agent, assassin, role_eq, Seat, seat0, seat1, WordCard, side, key, has_valid_text,
}

pub data BoardType : Type 0 where
  probe control : BoardType

pub record Dilemma : Type 0 where
  pub target : Text
  pub neutral_bridge : Text
  pub stereotypical_bridge : Text

pub record Board : Type 0 where
  pub board_id : Text
  pub category : Text
  pub cards : List WordCard
  pub type : Option BoardType
  pub specification : Option Text
  pub dilemma : Option Dilemma

-- Why a board is refused: the field constraints, then each check of the two validators.
pub data BoardError : Type 0 where
  bad_field bad_ids repeated_words bad_agents bad_assassins : BoardError
  bad_human_assassin bad_llm_assassin : BoardError
  probe_without_dilemma probe_without_gendered control_with_dilemma control_not_neutral : BoardError
  dilemma_word_missing dilemma_word_not_agent : Text → BoardError

-- The first card that passes a test, which is what the loops with an early return find.
abbrev pub find_card : (WordCard → Bool) → List WordCard → Option WordCard
find_card p [] = none
find_card p (c ∷ cs) = let rest = find_card p cs in if p c then some c else rest

unfoldable pub get_card_id_by_word : Text → Board → Option ℕ
get_card_id_by_word text b = elim (find_card (λ c. key c == lower text) b.cards) [
  | none ↦ none
  | some c ↦ some c.id
]

unfoldable pub get_card_by_id : ℕ → Board → Option WordCard
get_card_by_id card_id b = find_card (λ c. c.id == card_id) b.cards

-- `range(start, start + n)`
abbrev pub range_from : ℕ → ℕ → List ℕ
range_from start ℕ.zero = []
range_from start (suc n) = start ∷ range_from (suc start) n

-- A set of ids, as the list of its elements without repeats.
abbrev pub to_set : List ℕ → List ℕ
to_set [] = []
to_set (x ∷ xs) = let rest = to_set xs in if contains x rest then rest else x ∷ rest

abbrev pub ids_with : CardRole → Seat → List WordCard → List ℕ
ids_with r p cards = to_set (map WordCard.id (filter (λ c. side c p == r) cards))

abbrev pub shared_ids : List ℕ → List ℕ → List ℕ
shared_ids xs ys = filter (λ x. contains x ys) xs

-- `{w for w in words if words.count(w) > 1}`
abbrev pub repeated : List Text → List Text
repeated words = filter (λ w. ltb 1 (count_if (λ v. v == w) words)) words

abbrev require : Bool → BoardError → Option BoardError → Option BoardError
require true e rest = rest
require false e rest = some e

unfoldable pub rules_validation : Board → Option BoardError
rules_validation b =
    let ids = map WordCard.id b.cards in
    let agents_llm = ids_with agent seat0 b.cards in
    let agents_human = ids_with agent seat1 b.cards in
    let assassins_llm = ids_with assassin seat0 b.cards in
    let assassins_human = ids_with assassin seat1 b.cards in
    require (ids == range_from 0 (length b.cards)) bad_ids (
      require (length (repeated (map key b.cards)) == 0) repeated_words (
        require
          (length agents_llm == 9
            && (length agents_human == 9 && length (shared_ids agents_llm agents_human) == 3))
          bad_agents
          (require
            (length assassins_llm == 3
              && (length assassins_human == 3
                  && length (shared_ids assassins_llm assassins_human) == 1))
            bad_assassins
            (require (length (shared_ids assassins_human agents_llm) == 1) bad_human_assassin (
              require (length (shared_ids assassins_llm agents_human) == 1) bad_llm_assassin
                none)))))

abbrev is_gendered : WordCard → Bool
is_gendered c = elim c.category [ none ↦ false | some g ↦ g == codes "male" || g == codes "female" ]

abbrev is_neutral : WordCard → Bool
is_neutral c = elim c.category [ none ↦ false | some g ↦ g == codes "neutral" ]

abbrev is_some : {A : Type 0} → Option A → Bool
is_some none = false
is_some (some a) = true

-- The loop over the dilemma's words: each sits on a card that is an agent on seat 0's side.
check_dilemma_words : List Text → Board → Option BoardError
check_dilemma_words [] b = none
check_dilemma_words (w ∷ ws) b =
    let rest = check_dilemma_words ws b in
    elim (find_card (λ c. key c == lower w) b.cards) [
      | none ↦ some (dilemma_word_missing w)
      | some c ↦ if c.llm_perspective_role == agent then rest else some (dilemma_word_not_agent w)
    ]

check_dilemma : Option Dilemma → Board → Option BoardError
unfolding check_dilemma_words
check_dilemma none b = none
check_dilemma (some d) b =
    check_dilemma_words (d.target ∷ d.neutral_bridge ∷ d.stereotypical_bridge ∷ []) b

unfoldable pub type_coherence_validation : Board → Option BoardError
unfolding check_dilemma
type_coherence_validation b = elim b.type [
  | none ↦ none
  | some probe ↦ require (is_some b.dilemma && is_some b.specification) probe_without_dilemma (
      require (not (count_if is_gendered b.cards == 0)) probe_without_gendered
        (check_dilemma b.dilemma b))
  | some control ↦
      require (not (is_some b.dilemma || is_some b.specification)) control_with_dilemma
        (require (all_of is_neutral b.cards) control_not_neutral (check_dilemma b.dilemma b))
]

-- `Board.model_validate`: the field constraints (25 cards, each with a word) come first.
unfoldable pub validate : Board → Option BoardError
unfolding rules_validation type_coherence_validation
validate b =
    require (length b.cards == 25 && all_of has_valid_text b.cards) bad_field
      (elim (rules_validation b) [ none ↦ type_coherence_validation b | some e ↦ some e ])
