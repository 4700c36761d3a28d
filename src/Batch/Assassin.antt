-- ===== src/Batch/Assassin.antt =====
-- backend/app/core/batch_runner.py: a board of the rules has a card that is an assassin for both seats.
use codenames_llm_bias.Shared.{
  ℕ, suc, ◌<◌, ◌≡◌, ◌⊎◌, sym, ap, ◌∙◌, inl, inr, Bool, true, false, Bool-cases, subst, refl, ◌&&◌,
  Option, none, some, Option-cases, List, [], ◌∷◌, map, if◌then◌else◌, ◌==◌, nat_eq, text_beq_iff,
  Text, All, filter, filter_drops, contains, length, arith,
}
use codenames_llm_bias.Schemas.Card.{assassin, role_eq, WordCard, Seat, seat0, seat1}
use codenames_llm_bias.Schemas.State.{GameState, RankedCard}
use codenames_llm_bias.Schemas.Board.{
  Board, find_card, rules_validation, range_from, ids_with, shared_ids,
}
use codenames_llm_bias.Invariants.Start.{contains-later, length-to_set}
use codenames_llm_bias.Game.Service.{
  Model, Answer, answered, failed, GuessFormat, ProposalFormat, RankingFormat,
}
use codenames_llm_bias.Batch.DryRun.{shared_assassin_word, dry_run_client, dry_run_client_factory}

later_ids :
    (p : WordCard → Bool) (k j : ℕ) (cards : List WordCard)
    → map WordCard.id cards ≡ range_from k (length cards)
    → j < k
    → All (λ x. j < x) (map WordCard.id (filter p cards))
later_ids p k j [] h l = tt
later_ids p k j (c ∷ cs) h l =
    by_test (p c) (later_ids p (suc k) j cs (ground (arith, h)) (omega (arith, l)))
  where
    by_test :
        (b : Bool)
        → All (λ x. j < x) (map WordCard.id (filter p cs))
        → All (λ x. j < x) (map WordCard.id (if b then c ∷ filter p cs else filter p cs))
    by_test true rest = (ground (arith, h, l), rest)
    by_test false rest = rest

module _ (p q : WordCard → Bool) where
  -- Without a card that passes both tests, the ids of the two lists are apart.
  none_shared :
      (k : ℕ) (cards : List WordCard)
      → map WordCard.id cards ≡ range_from k (length cards)
      → find_card (λ c. p c && q c) cards ≡ none
      → All
          (λ x. contains x (map WordCard.id (filter q cards)) ≡ false)
          (map WordCard.id (filter p cards))
  none_shared k [] h n = tt
  none_shared k (c ∷ cs) h n =
      let ids : map WordCard.id cs ≡ range_from (suc k) (length cs) = ground (arith, h) in
      let here : c.id ≡ k = ground (arith, h) in
      let rest = none_shared (suc k) cs ids (ground (arith, n)) in
      let later = later_ids p (suc k) k cs ids (omega arith) in
      by_tests (p c) (q c) (ground (arith, n)) here
        (contains-later q c.id (suc k) cs ids (omega (arith, here))) rest later
    where
      by_tests :
          (a b : Bool)
          → (a && b) ≡ false
          → c.id ≡ k
          → contains c.id (map WordCard.id (filter q cs)) ≡ false
          → All
              (λ x. contains x (map WordCard.id (filter q cs)) ≡ false)
              (map WordCard.id (filter p cs))
          → All (λ x. k < x) (map WordCard.id (filter p cs))
          → All
              (λ x.
                contains x (map WordCard.id (if b then c ∷ filter q cs else filter q cs)) ≡ false)
              (map WordCard.id (if a then c ∷ filter p cs else filter p cs))
      by_tests true true e here out rest later = ground (arith, e)
      by_tests true false e here out rest later = (out, rest)
      by_tests false false e here out rest later = rest
      by_tests false true e here out rest later = apart _ rest later
        where
          apart :
              (xs : List ℕ)
              → All (λ x. contains x (map WordCard.id (filter q cs)) ≡ false) xs
              → All (λ x. k < x) xs
              → All (λ x. contains x (c.id ∷ map WordCard.id (filter q cs)) ≡ false) xs
          apart [] u v = tt
          apart (x ∷ xs) u v = (ground (arith, here, u.0, v.0), apart xs u.1 v.1)

-- A card of the list.
abbrev pub IsAmong : List WordCard → WordCard → Type 0
IsAmong [] c = ⊥
IsAmong (x ∷ xs) c = (c ≡ x) ⊎ IsAmong xs c

find_card_lem :
    (test : WordCard → Bool) (cards : List WordCard) (c : WordCard)
    → find_card test cards ≡ some c
    → (test c ≡ true) × IsAmong cards c
find_card_lem test [] c h = ground (arith, h)
find_card_lem test (x ∷ xs) c h = elim (Bool-cases (test x)) [
  | inl q ↦
      let same : x ≡ c = ground (arith, h, q) in (subst (λ y. test y ≡ true) same q, inl (sym same))
  | inr q ↦ let k = find_card_lem test xs c (ground (arith, h, q)) in (k.0, inr k.1)
]

-- The words that an answer names.
abbrev guessed : Answer GuessFormat → Option (List Text)
guessed (answered a) = some (map (λ (x : ProposalFormat). x.word) a.proposals)
guessed (failed x) = none

abbrev ranked : Answer RankingFormat → Option (List Text)
ranked (answered a) = some (map (λ (x : RankedCard). x.word) a.rankings)
ranked (failed x) = none

-- Whatever the state and the seat, the model names this word and no other, in each of the four formats.
abbrev pub NamesOnly : Text → Model → Type 0
NamesOnly word m =
    (s : GameState) (p : Seat)
    → (guessed (m.guess s p) ≡ some (word ∷ []))
      × (guessed (m.guess_sd s p) ≡ some (word ∷ []))
      × (ranked (m.ranking s p) ≡ some (word ∷ []))
      × (ranked (m.ranking_sd s p) ≡ some (word ∷ []))

dry_run_client-NamesOnly : (word : Text) → NamesOnly word (dry_run_client word)
unfolding dry_run_client
dry_run_client-NamesOnly word s p = (refl, refl, refl, refl)

-- For a board that meets the rules, the dry run has a client, and a card of the board is an assassin for both
-- seats such that the client guesses and ranks the text of that card, and nothing else, in every
-- state and for both seats.
pub dry_run_client_factory_lem :
    (b : Board)
    → rules_validation b ≡ none
    → (m : Model) × (c : WordCard) × (dry_run_client_factory b ≡ some m)
      × IsAmong b.cards c
      × (c.llm_perspective_role ≡ assassin)
      × (c.human_perspective_role ≡ assassin)
      × NamesOnly c.text m
unfolding rules_validation shared_assassin_word dry_run_client_factory
dry_run_client_factory_lem b h =
    let is_first : WordCard → Bool = λ c. c.llm_perspective_role == assassin in
    let is_second : WordCard → Bool = λ c. c.human_perspective_role == assassin in
    let ids : map WordCard.id b.cards ≡ range_from 0 (length b.cards) =
      (text_beq_iff (map WordCard.id b.cards) (range_from 0 (length b.cards))).0
        (ground (arith, h)) in
    let one : (length
            (shared_ids (ids_with assassin seat0 b.cards) (ids_with assassin seat1 b.cards))
          == 1)
        ≡ true =
      ground (arith, h) in
    let firsts = (length-to_set is_first 0 b.cards ids).0 in
    let seconds = (length-to_set is_second 0 b.cards ids).0 in
    elim (Option-cases (find_card (λ c. is_first c && is_second c) b.cards)) [
      | inr (c, e) ↦
          let word : shared_assassin_word b ≡ some c.text =
            ap
              (λ (o : Option WordCard). elim o as (λ x. Option Text) [
                | none ↦ none
                | some x ↦ some x.text
              ])
              e in
          let client : dry_run_client_factory b ≡ some (dry_run_client c.text) =
            ap
              (λ (o : Option Text). elim o as (λ x. Option Model) [
                | none ↦ none
                | some w ↦ some (dry_run_client w)
              ])
              word in
          let card = find_card_lem (λ c. is_first c && is_second c) b.cards c e in
          (
            dry_run_client c.text,
            c,
            client,
            card.1,
            (role_eq.decides c.llm_perspective_role assassin).0 (ground (arith, card.0)),
            (role_eq.decides c.human_perspective_role assassin).0 (ground (arith, card.0)),
            dry_run_client-NamesOnly c.text,
          )
      | inl n ↦
          let apart =
            filter_drops (λ x. contains x (map WordCard.id (filter is_second b.cards))) _
              (none_shared is_first is_second 0 b.cards ids n) in
          let empty : shared_ids (ids_with assassin seat0 b.cards) (ids_with assassin seat1 b.cards)
              ≡ [] =
            ap (λ xs. shared_ids xs (ids_with assassin seat1 b.cards)) firsts
            ∙ ap (λ ys. shared_ids (map WordCard.id (filter is_first b.cards)) ys) seconds
            ∙ apart in
          ground (arith, sym (ap (λ xs. length xs == 1) empty) ∙ one)
    ]
