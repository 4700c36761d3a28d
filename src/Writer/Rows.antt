-- ===== src/Writer/Rows.antt =====
-- backend/app/db/writer.py: a row that is added under its parent, and the tables whose rows have their parents.
use codenames_llm_bias.Shared.{
  ℕ, suc, ◌<◌, ◌≡◌, refl, ap, true, Option, none, some, List, [], ◌∷◌, ◌++◌, if_cases, ◌==◌, nat_eq,
  All, All-append, All-weaken, arith,
}
use codenames_llm_bias.Writer.{
  TurnRow, ClueRow, TargetRow, ProposalRow, ItemRow, RevealRow, Database,
}
use codenames_llm_bias.Writer.Turns.{link}
use codenames_llm_bias.Writer.Store.{has_game, has_id, has_reveal}
use codenames_llm_bias.Writer.Keyed.{IsKeyed}

pub has_id-append :
    {A : Type 0} (id : A → ℕ) (i : ℕ) (xs : List A) (y : A)
    → has_id id i xs ≡ true
    → has_id id i (xs ++ (y ∷ [])) ≡ true
has_id-append id i [] y h = ground (arith, h)
has_id-append id i (x ∷ xs) y h = ground (arith, h, has_id-append id i xs y)

pub has_id_last :
    {A : Type 0} (id : A → ℕ) (i : ℕ) (xs : List A) (y : A)
    → id y ≡ i
    → has_id id i (xs ++ (y ∷ [])) ≡ true
has_id_last id i [] y h = ground (arith, h)
has_id_last id i (x ∷ xs) y h = ground (arith, has_id_last id i xs y h)

has_reveal-append :
    (o : Option ℕ) (vs : List RevealRow) (v : RevealRow)
    → has_reveal o vs ≡ true
    → has_reveal o (vs ++ (v ∷ [])) ≡ true
has_reveal-append none vs v h = refl
has_reveal-append (some i) vs v h = has_id-append (λ w. RevealRow.id w) i vs v h

-- An id is spent.
spent :
    {A : Type 0} (P : A → Type 0) (id : A → ℕ) (n : ℕ) (xs : List A)
    → All (λ x. P x × (id x < n)) xs
    → All (λ x. P x × (id x < suc n)) xs
spent P id n xs h = All-weaken _ _ (λ x k. (k.0, omega (arith, k.1))) xs h

module _ (db : Database) (k : IsKeyed db) where
  pub add_turn-IsKeyed :
      (row : TurnRow)
      → has_game row.game_id db.games ≡ true
      → row.id ≡ db.next_id
      → IsKeyed (record db { next_id = suc db.next_id; turns = db.turns ++ (row ∷ []) })
  add_turn-IsKeyed row g e = record {
    games = k.games;
    links = k.links;
    turns =
        All-append _ db.turns (row ∷ []) (spent _ (λ t. TurnRow.id t) db.next_id db.turns k.turns)
          ((g, omega (arith, e)), tt);
    clues =
        All-weaken _ _
          (λ c h. (has_id-append _ (ClueRow.turn_id c) db.turns row h.0, omega (arith, h.1)))
          db.clues k.clues;
    clue_targets = k.clue_targets;
    proposals =
        All-weaken _ _
          (λ p h. (has_id-append _ (ProposalRow.turn_id p) db.turns row h.0, omega (arith, h.1)))
          db.proposals k.proposals;
    items = spent _ (λ x. ItemRow.id x) db.next_id db.items k.items;
    reveals =
        All-weaken _ _
          (λ v h. (has_id-append _ (RevealRow.turn_id v) db.turns row h.0, omega (arith, h.1)))
          db.reveals k.reveals;
  }

  pub add_clue-IsKeyed :
      (row : ClueRow)
      → has_id (λ t. TurnRow.id t) row.turn_id db.turns ≡ true
      → row.id ≡ db.next_id
      → IsKeyed (record db { next_id = suc db.next_id; clues = db.clues ++ (row ∷ []) })
  add_clue-IsKeyed row g e = record {
    games = k.games;
    links = k.links;
    turns = spent _ (λ t. TurnRow.id t) db.next_id db.turns k.turns;
    clues =
        All-append _ db.clues (row ∷ []) (spent _ (λ c. ClueRow.id c) db.next_id db.clues k.clues)
          ((g, omega (arith, e)), tt);
    clue_targets =
        All-weaken _ _ (λ t h. has_id-append _ (TargetRow.clue_id t) db.clues row h) db.clue_targets
          k.clue_targets;
    proposals = spent _ (λ p. ProposalRow.id p) db.next_id db.proposals k.proposals;
    items = spent _ (λ x. ItemRow.id x) db.next_id db.items k.items;
    reveals = spent _ (λ v. RevealRow.id v) db.next_id db.reveals k.reveals;
  }

  pub add_target-IsKeyed :
      (row : TargetRow)
      → has_id (λ c. ClueRow.id c) row.clue_id db.clues ≡ true
      → IsKeyed (record db { clue_targets = db.clue_targets ++ (row ∷ []) })
  add_target-IsKeyed row g = record {
    games = k.games;
    links = k.links;
    turns = k.turns;
    clues = k.clues;
    clue_targets = All-append _ db.clue_targets (row ∷ []) k.clue_targets (g, tt);
    proposals = k.proposals;
    items = k.items;
    reveals = k.reveals;
  }

  pub add_proposal-IsKeyed :
      (row : ProposalRow)
      → has_id (λ t. TurnRow.id t) row.turn_id db.turns ≡ true
      → row.id ≡ db.next_id
      → IsKeyed (record db { next_id = suc db.next_id; proposals = db.proposals ++ (row ∷ []) })
  add_proposal-IsKeyed row g e = record {
    games = k.games;
    links = k.links;
    turns = spent _ (λ t. TurnRow.id t) db.next_id db.turns k.turns;
    clues = spent _ (λ c. ClueRow.id c) db.next_id db.clues k.clues;
    clue_targets = k.clue_targets;
    proposals =
        All-append _ db.proposals (row ∷ [])
          (spent _ (λ p. ProposalRow.id p) db.next_id db.proposals k.proposals)
          ((g, omega (arith, e)), tt);
    items =
        All-weaken _ _
          (λ x h. (
            has_id-append _ (ItemRow.guess_proposal_id x) db.proposals row h.0,
            omega (arith, h.1),
          ))
          db.items k.items;
    reveals = spent _ (λ v. RevealRow.id v) db.next_id db.reveals k.reveals;
  }

  pub add_item-IsKeyed :
      (row : ItemRow)
      → has_id (λ p. ProposalRow.id p) row.guess_proposal_id db.proposals ≡ true
      → row.id ≡ db.next_id
      → row.reveal_event_id ≡ none
      → IsKeyed (record db { next_id = suc db.next_id; items = db.items ++ (row ∷ []) })
  add_item-IsKeyed row g e n = record {
    games = k.games;
    links = All-append _ db.items (row ∷ []) k.links (ap (λ o. has_reveal o db.reveals) n, tt);
    turns = spent _ (λ t. TurnRow.id t) db.next_id db.turns k.turns;
    clues = spent _ (λ c. ClueRow.id c) db.next_id db.clues k.clues;
    clue_targets = k.clue_targets;
    proposals = spent _ (λ p. ProposalRow.id p) db.next_id db.proposals k.proposals;
    items =
        All-append _ db.items (row ∷ []) (spent _ (λ x. ItemRow.id x) db.next_id db.items k.items)
          ((g, omega (arith, e)), tt);
    reveals = spent _ (λ v. RevealRow.id v) db.next_id db.reveals k.reveals;
  }

  pub add_reveal-IsKeyed :
      (row : RevealRow)
      → has_id (λ t. TurnRow.id t) row.turn_id db.turns ≡ true
      → row.id ≡ db.next_id
      → IsKeyed (record db { next_id = suc db.next_id; reveals = db.reveals ++ (row ∷ []) })
  add_reveal-IsKeyed row g e = record {
    games = k.games;
    links =
        All-weaken _ _ (λ x h. has_reveal-append (ItemRow.reveal_event_id x) db.reveals row h)
          db.items k.links;
    turns = spent _ (λ t. TurnRow.id t) db.next_id db.turns k.turns;
    clues = spent _ (λ c. ClueRow.id c) db.next_id db.clues k.clues;
    clue_targets = k.clue_targets;
    proposals = spent _ (λ p. ProposalRow.id p) db.next_id db.proposals k.proposals;
    items = spent _ (λ x. ItemRow.id x) db.next_id db.items k.items;
    reveals =
        All-append _ db.reveals (row ∷ [])
          (spent _ (λ v. RevealRow.id v) db.next_id db.reveals k.reveals)
          ((g, omega (arith, e)), tt);
  }

  pub link-IsKeyed :
      (item_id reveal_id : ℕ)
      → has_id (λ v. RevealRow.id v) reveal_id db.reveals ≡ true
      → IsKeyed (record db { items = link item_id reveal_id db.items })
  link-IsKeyed item_id reveal_id r = record {
    games = k.games;
    links = linked Linked (λ x h. r) db.items k.links;
    turns = k.turns;
    clues = k.clues;
    clue_targets = k.clue_targets;
    proposals = k.proposals;
    items = linked Good (λ x h. h) db.items k.items;
    reveals = k.reveals;
  }
    where
      Good : ItemRow → Type 0
      Good x =
          (has_id (λ p. ProposalRow.id p) x.guess_proposal_id db.proposals ≡ true)
          × (x.id < db.next_id)

      Linked : ItemRow → Type 0
      Linked x = has_reveal x.reveal_event_id db.reveals ≡ true

      linked :
          (P : ItemRow → Type 0)
          → ((x : ItemRow) → P x → P (record x { reveal_event_id = some reveal_id }))
          → (xs : List ItemRow) → All P xs
          → All P (link item_id reveal_id xs)
      linked P f [] h = tt
      linked P f (x ∷ xs) h = (if_cases P (x.id == item_id) (f x h.0) h.0, linked P f xs h.1)
