-- ===== src/Invariants/Start.antt =====
-- From the validators of a board to the state that a game starts in.
use codenames_llm_bias.Shared.{
  ℕ, suc, ◌≤◌, ◌<◌, ◌≡◌, refl, Bool, true, false, none, List, [], ◌∷◌, map, ◌==◌, nat_eq, text_eq,
  text_beq_iff, Text, All, length, filter, contains, count_if, is_distinct, all_of, ltb, inl, arith,
}
use codenames_llm_bias.Schemas.Card.{
  agent, role_eq, Seat, seat0, seat1, other, WordCard, side, key, has_valid_text,
}
use codenames_llm_bias.Schemas.Board.{Board, validate, rules_validation, range_from, to_set}
use codenames_llm_bias.Validator
use codenames_llm_bias.Validator.{dict_keys}
use codenames_llm_bias.Engine.{new_engine}
use codenames_llm_bias.Invariants.Check.{is_pending, visible, tokens_on}
use codenames_llm_bias.Invariants.Sound.{IsSoundCard, IsSound}

-- Nothing lies on the card yet.
abbrev pub IsFresh : WordCard → Type 0
IsFresh c = (c.revealed ≡ false) × (c.time_marker_by ≡ [])

-- Ids in board order are distinct, so a set of them is as long as the list.
pub contains-later :
    (p : WordCard → Bool) (j k : ℕ) (cards : List WordCard)
    → map WordCard.id cards ≡ range_from k (length cards)
    → j < k
    → contains j (map WordCard.id (filter p cards)) ≡ false
contains-later p j k [] h l = refl
contains-later p j k (c ∷ cs) h l = ground (arith, contains-later p j (suc k) cs)

pub length-to_set :
    (p : WordCard → Bool) (k : ℕ) (cards : List WordCard)
    → map WordCard.id cards ≡ range_from k (length cards)
    → (to_set (map WordCard.id (filter p cards)) ≡ map WordCard.id (filter p cards))
      × (length (map WordCard.id (filter p cards)) ≡ count_if p cards)
length-to_set p k [] h = (refl, refl)
length-to_set p k (c ∷ cs) h =
    ground (arith, length-to_set p (suc k) cs, contains-later p c.id (suc k) cs)

length-ids_with :
    (p : WordCard → Bool) (cards : List WordCard)
    → map WordCard.id cards ≡ range_from 0 (length cards)
    → length (to_set (map WordCard.id (filter p cards))) ≡ count_if p cards
length-ids_with p cards h = let (same, counted) = length-to_set p 0 cards h in rw same counted

-- Words of which none is repeated are distinct.
count-contains : (w : Text) (ws : List Text) → contains w ws ≡ true → 1 ≤ count_if (λ v. v == w) ws
count-contains w [] h = ground arith
count-contains w (v ∷ ws) h =
    ground (arith, count-contains w ws, text_beq_iff w v, text_beq_iff v w)

distinct-of_counts :
    (whole ws : List Text)
    → length (filter (λ w. ltb 1 (count_if (λ v. v == w) whole)) ws) ≡ 0
    → ((w : Text) → count_if (λ v. v == w) ws ≤ count_if (λ v. v == w) whole)
    → is_distinct ws ≡ true
distinct-of_counts whole [] h le = refl
distinct-of_counts whole (w ∷ ws) h le = ground (
  arith,
  distinct-of_counts whole ws (ground arith) (λ v. ground (arith, le v)),
  count-contains w ws,
  text_beq_iff w w,
  le w,
)

dict_keys_lem :
    (seen ws : List Text)
    → is_distinct ws ≡ true
    → ((w : Text) → contains w ws ≡ true → contains w seen ≡ false)
    → dict_keys seen ws ≡ ws
dict_keys_lem seen [] d h = refl
dict_keys_lem seen (w ∷ ws) d h = ground (
  arith,
  h w,
  text_beq_iff w w,
  dict_keys_lem (w ∷ seen) ws (ground arith)
      (λ v q. ground (arith, h v (ground arith), text_beq_iff v w)),
)

visible-fresh : (cards : List WordCard) → All IsFresh cards → visible cards ≡ map key cards
visible-fresh [] h = refl
visible-fresh (c ∷ cs) h = ground (arith, visible-fresh cs)

tokens_on-fresh : (cards : List WordCard) → All IsFresh cards → tokens_on cards ≡ 0
tokens_on-fresh [] h = refl
tokens_on-fresh (c ∷ cs) h = ground (arith, tokens_on-fresh cs)

pending-fresh :
    (p : Seat) (cards : List WordCard)
    → All IsFresh cards
    → count_if (is_pending p) cards ≡ count_if (λ c. side c (other p) == agent) cards
pending-fresh p [] h = refl
pending-fresh p (c ∷ cs) h = ground (arith, pending-fresh p cs)

fresh-IsSoundCard :
    (cards : List WordCard)
    → All IsFresh cards
    → all_of has_valid_text cards ≡ true
    → All IsSoundCard cards
fresh-IsSoundCard [] h v = tt
fresh-IsSoundCard (c ∷ cs) h v = ground (arith, fresh-IsSoundCard cs)

-- The rules that a validated board meets, in the form that the start of a game needs.
pub record IsDealt (b : Board) : Type 0 where
  pub texts : all_of has_valid_text b.cards ≡ true
  pub words : is_distinct (map key b.cards) ≡ true
  pub agents0 : count_if (λ c. side c seat0 == agent) b.cards ≡ 9
  pub agents1 : count_if (λ c. side c seat1 == agent) b.cards ≡ 9

pub validate-IsDealt : (b : Board) → validate b ≡ none → IsDealt b
unfolding validate rules_validation
validate-IsDealt b h =
    let ids_in_order = text_beq_iff (map WordCard.id b.cards) (range_from 0 (length b.cards)) in
    record {
      texts = ground arith;
      words =
          distinct-of_counts (map key b.cards) (map key b.cards) (ground arith) (λ w. omega arith);
      agents0 = ground (arith, length-ids_with (λ c. side c seat0 == agent) b.cards, ids_in_order);
      agents1 = ground (arith, length-ids_with (λ c. side c seat1 == agent) b.cards, ids_in_order);
    }

pub new_engine-IsSound :
    (b : Board) (p : Seat) (game_id : Text)
    → validate b ≡ none
    → All IsFresh b.cards
    → IsSound (new_engine b p game_id)
unfolding new_engine Validator.new
new_engine-IsSound b p game_id v f =
    let d = validate-IsDealt b v in
    record {
      tokens = ground arith;
      on_board = record {
        on_words = tokens_on-fresh b.cards f;
        pending0 = ground (arith, pending-fresh seat0 b.cards f, d.agents1);
        pending1 = ground (arith, pending-fresh seat1 b.cards f, d.agents0);
        sound_cards = fresh-IsSoundCard b.cards f d.texts;
        distinct_words = d.words;
        visible_words = ground (
          arith,
          visible-fresh b.cards f,
          dict_keys_lem [] (map key b.cards) d.words (λ w q. refl),
        );
      };
      progress = inl (ground arith);
    }
