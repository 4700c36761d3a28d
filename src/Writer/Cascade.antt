-- ===== src/Writer/Cascade.antt =====
-- backend/app/db/models.py: what the cascade of a deletion leaves keeps its parents.
use codenames_llm_bias.Shared.{
  ◌<◌, ◌≡◌, refl, inl, inr, Bool, true, false, not, Bool-cases, Option, none, some, List, [], ◌∷◌,
  map, ◌==◌, text_beq_iff, if_cases, nat_eq, text_eq, Text, filter, All, All-weaken, All-filter,
  arith,
}
use codenames_llm_bias.Writer.{GameRow, TurnRow, ClueRow, ProposalRow, ItemRow, RevealRow, Database}
use codenames_llm_bias.Writer.Store.{has_text, has_run, has_reveal, unlink, is_of_run, cascade}
use codenames_llm_bias.Writer.Keyed.{IsKeyed}

-- What is left by a filter has what the filter asks, and what it had.
kept_rows :
    {A : Type 0} (p : A → Bool) (P : A → Type 0) (xs : List A)
    → All P xs
    → All (λ x. (p x ≡ true) × P x) (filter p xs)
kept_rows p P [] h = tt
kept_rows p P (x ∷ xs) h = elim (Bool-cases (p x)) [
  | inl q ↦ rw q ((q, h.0), kept_rows p P xs h.1)
  | inr q ↦ rw q (kept_rows p P xs h.1)
]

pub All-kept :
    {A : Type 0} (p : A → Bool) (P : A → Type 0) (xs : List A) → All P xs → All P (filter p xs)
All-kept p P xs h = All-weaken _ P (λ x k. k.1) _ (kept_rows p P xs h)

-- What holds of the items whatever their reveal holds of what is left of them.
All-unlink :
    (P : ItemRow → Type 0)
    → ((x : ItemRow) → P x → P (record x { reveal_event_id = none }))
    → (reveals : List RevealRow) (xs : List ItemRow) → All P xs
    → All P (map (unlink reveals) xs)
All-unlink P f reveals [] h = tt
All-unlink P f reveals (x ∷ xs) h =
    (if_cases P (has_reveal x.reveal_event_id reveals) h.0 (f x h.0), All-unlink P f reveals xs h.1)

unlinked :
    (reveals : List RevealRow) (xs : List ItemRow)
    → All (λ x. has_reveal (ItemRow.reveal_event_id x) reveals ≡ true) (map (unlink reveals) xs)
unlinked reveals [] = tt
unlinked reveals (x ∷ xs) = (here, unlinked reveals xs)
  where
    here : has_reveal (unlink reveals x).reveal_event_id reveals ≡ true
    here = elim (Bool-cases (has_reveal x.reveal_event_id reveals)) [
      | inl h ↦ rw h h
      | inr h ↦ rw h refl
    ]

-- A game that is kept has its board and, if it is of a run, its run.
abbrev pub HasSources : List Text → List Text → GameRow → Type 0
HasSources boards runs g = (has_text g.board_id boards ≡ true) × (has_run g.run_id runs ≡ true)

pub cascade-IsKeyed :
    (db : Database) (runs : List Text) (games : List GameRow)
    → All (HasSources db.boards runs) games
    → IsKeyed db
    → IsKeyed (cascade (record db { runs = runs; games = games }))
unfolding cascade
cascade-IsKeyed db runs games sources k = record {
  games = sources;
  turns =
      kept_rows _ _ db.turns
        (All-weaken _ (λ t. TurnRow.id t < db.next_id) (λ t h. h.1) db.turns k.turns);
  clues =
      kept_rows _ _ db.clues
        (All-weaken _ (λ c. ClueRow.id c < db.next_id) (λ c h. h.1) db.clues k.clues);
  clue_targets = All-filter _ _ db.clue_targets (λ x h. h);
  proposals =
      kept_rows _ _ db.proposals
        (All-weaken _ (λ p. ProposalRow.id p < db.next_id) (λ p h. h.1) db.proposals k.proposals);
  items =
      All-unlink _ (λ x h. h) _ _
        (kept_rows _ _ db.items
          (All-weaken _ (λ x. ItemRow.id x < db.next_id) (λ x h. h.1) db.items k.items));
  links = unlinked _ _;
  reveals =
      kept_rows _ _ db.reveals
        (All-weaken _ (λ v. RevealRow.id v < db.next_id) (λ v h. h.1) db.reveals k.reveals);
}

-- A game of another run keeps its run.
pub other_runs :
    (run_id : Text) (boards runs : List Text) (gs : List GameRow)
    → All (HasSources boards runs) gs
    → All
        (HasSources boards (filter (λ r. not (r == run_id)) runs))
        (filter (λ g. not (is_of_run run_id g)) gs)
other_runs run_id boards runs [] h = tt
other_runs run_id boards runs (g ∷ gs) h = elim (Bool-cases (is_of_run run_id g)) [
  | inl q ↦ rw q (other_runs run_id boards runs gs h.1)
  | inr q ↦ rw q ((h.0.0, by_run g.run_id q h.0.1), other_runs run_id boards runs gs h.1)
]
  where
    still :
        (r : Text) (xs : List Text)
        → (r == run_id) ≡ false
        → has_text r xs ≡ true
        → has_text r (filter (λ x. not (x == run_id)) xs) ≡ true
    still r [] n k = k
    still r (x ∷ xs) n k =
        ground (arith, n, k, still r xs n, text_beq_iff x r, text_beq_iff x run_id)

    by_run :
        (o : Option Text)
        → (elim o as (λ x. Bool) [ none ↦ false | some r ↦ r == run_id ]) ≡ false
        → has_run o runs ≡ true
        → has_run o (filter (λ r. not (r == run_id)) runs) ≡ true
    by_run none q k = refl
    by_run (some r) q k = still r runs q k
