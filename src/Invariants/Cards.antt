-- ===== src/Invariants/Cards.antt =====
-- Writes to one card of the board, and what they change in the counts over all cards.
use codenames_llm_bias.Shared.{
  ℕ, ◌+◌, ◌≡◌, refl, Bool, true, false, some, List, [], ◌∷◌, map, ◌==◌, nat_eq, text_eq,
  text_beq_iff, All, length, count_if, contains, remove, is_distinct, arith,
}
use codenames_llm_bias.Schemas.Card.{WordCard, key, is_covered}
use codenames_llm_bias.Schemas.Board.{find_card}
use codenames_llm_bias.Engine.Guesses.{update_cards}
use codenames_llm_bias.Invariants.Check.{tokens_on, visible}

abbrev pub one_if : Bool → ℕ
one_if true = 1
one_if false = 0

module _ (id : ℕ) (f : WordCard → WordCard) (c : WordCard) where
  abbrev Found : List WordCard → Type 0
  Found cards = find_card (λ x. x.id == id) cards ≡ some c

  pub count_if-update_cards :
      (p : WordCard → Bool) (cards : List WordCard)
      → Found cards
      → count_if p (update_cards id f cards) + one_if (p c) ≡ count_if p cards + one_if (p (f c))
  count_if-update_cards p [] h = ground arith
  count_if-update_cards p (x ∷ xs) h = ground (arith, count_if-update_cards p xs)

  pub tokens_on-update_cards :
      (cards : List WordCard)
      → Found cards
      → tokens_on (update_cards id f cards) + length c.time_marker_by
        ≡ tokens_on cards + length (f c).time_marker_by
  tokens_on-update_cards [] h = ground arith
  tokens_on-update_cards (x ∷ xs) h = ground (arith, tokens_on-update_cards xs)

  pub All-update_cards {κ} :
      (P : WordCard → Type κ) (cards : List WordCard)
      → Found cards
      → All P cards
      → P (f c)
      → All P (update_cards id f cards)
  All-update_cards P [] h a q = tt
  All-update_cards P (x ∷ xs) h a q = ground (arith, All-update_cards P xs)

  pub All-found {κ} :
      (P : WordCard → Type κ) (cards : List WordCard) → Found cards → All P cards → P c
  All-found P [] h a = ground arith
  All-found P (x ∷ xs) h a = ground (arith, All-found P xs)

  pub keys-update_cards :
      (cards : List WordCard)
      → Found cards
      → key (f c) ≡ key c
      → map key (update_cards id f cards) ≡ map key cards
  keys-update_cards [] h e = refl
  keys-update_cards (x ∷ xs) h e = ground (arith, keys-update_cards xs)

  contains-Found : (cards : List WordCard) → Found cards → contains (key c) (map key cards) ≡ true
  contains-Found [] h = ground arith
  contains-Found (x ∷ xs) h = ground (arith, contains-Found xs, text_beq_iff (key c) (key x))

  -- A card that is covered takes its word out of sight, since no other card bears it.
  pub visible-update_cards :
      (cards : List WordCard)
      → Found cards
      → is_distinct (map key cards) ≡ true
      → is_covered c ≡ false
      → is_covered (f c) ≡ true
      → visible (update_cards id f cards) ≡ remove (key c) (visible cards)
  visible-update_cards [] h d o n = refl
  visible-update_cards (x ∷ xs) h d o n =
      ground (arith, visible-update_cards xs, contains-Found xs, text_beq_iff (key c) (key x))

  pub visible-update_cards_same :
      (cards : List WordCard)
      → Found cards
      → key (f c) ≡ key c
      → is_covered c ≡ false
      → is_covered (f c) ≡ false
      → visible (update_cards id f cards) ≡ visible cards
  visible-update_cards_same [] h e o n = refl
  visible-update_cards_same (x ∷ xs) h e o n = ground (arith, visible-update_cards_same xs)
