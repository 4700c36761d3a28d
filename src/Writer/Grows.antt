-- ===== src/Writer/Grows.antt =====
-- backend/app/db/writer.py: the rows that a turn adds hang on rows that were not there before, and the other
-- rows stay as they are.
use codenames_llm_bias.Shared.{
  ℕ, suc, ◌≤◌, ◌≡◌, refl, sym, ap, ◌∙◌, Option, none, some, List, [], ◌∷◌, ◌++◌, map, append_none,
  nat_eq, Text, All, All-append, arith,
}
use mathlib.Core.List.{append_assoc}
use codenames_llm_bias.Schemas.Card.{Seat}
use codenames_llm_bias.Schemas.State.{ConfidenceRanking, RankedCard, Confidence}
use codenames_llm_bias.Recorder.{GuessProposal, RevealRecord}
use codenames_llm_bias.Writer.{
  TurnRow, ClueRow, TargetRow, ProposalKind, play, measurement, ProposalRow, ItemRow, RevealRow,
  Database,
}
use codenames_llm_bias.Writer.Turns.{
  zip_strict, add_items, add_proposal, write_play, write_measurement, write_reveals, play_if,
  measure_if,
}

-- Rows that were added at the end.
pub record Grows {A : Type 0} (P : A → Type 0) (xs ys : List A) : Type 0 where
  pub new : List A
  pub whole : ys ≡ xs ++ new
  pub all : All P new

pub Grows-refl : {A : Type 0} (P : A → Type 0) (xs : List A) → Grows P xs xs
Grows-refl P xs = record { new = []; whole = sym (append_none xs); all = tt }

pub Grows-snoc :
    {A : Type 0} (P : A → Type 0) (xs ys : List A) (y : A)
    → P y
    → Grows P xs ys
    → Grows P xs (ys ++ (y ∷ []))
Grows-snoc P xs ys y h g = record {
  new = g.new ++ (y ∷ []);
  whole = ap (λ zs. zs ++ (y ∷ [])) g.whole ∙ append_assoc xs g.new (y ∷ []);
  all = All-append P g.new (y ∷ []) g.all (h, tt);
}

module _ (base : Database) (game_id : Text) where
  abbrev pub IsNew : ℕ → Type 0
  IsNew i = base.next_id ≤ i

  -- What the tables hold beyond those of `base`.
  pub record Over (db : Database) : Type 0 where
    pub next : IsNew db.next_id
    pub same_boards : db.boards ≡ base.boards
    pub same_cards : db.word_cards ≡ base.word_cards
    pub same_runs : db.runs ≡ base.runs
    pub same_games : db.games ≡ base.games
    pub turns : Grows (λ t. (TurnRow.game_id t ≡ game_id) × IsNew t.id) base.turns db.turns
    pub clues : Grows (λ c. IsNew (ClueRow.turn_id c)) base.clues db.clues
    pub clue_targets : Grows (λ t. IsNew (TargetRow.clue_id t)) base.clue_targets db.clue_targets
    pub proposals : Grows (λ p. IsNew (ProposalRow.turn_id p)) base.proposals db.proposals
    pub items : Grows (λ x. IsNew (ItemRow.guess_proposal_id x)) base.items db.items
    pub reveals : Grows (λ v. IsNew (RevealRow.turn_id v)) base.reveals db.reveals

  pub base-Over : Over base
  base-Over = record {
    next = omega arith;
    same_boards = refl;
    same_cards = refl;
    same_runs = refl;
    same_games = refl;
    turns = Grows-refl _ base.turns;
    clues = Grows-refl _ base.clues;
    clue_targets = Grows-refl _ base.clue_targets;
    proposals = Grows-refl _ base.proposals;
    items = Grows-refl _ base.items;
    reveals = Grows-refl _ base.reveals;
  }

  add_items-Over :
      (words : List (Text × ℕ)) (proposal_id position : ℕ) (pairs : List (Text × Confidence))
      (db : Database)
      → IsNew proposal_id
      → Over db
      → Over (add_items words proposal_id position pairs db).1
        × All IsNew (add_items words proposal_id position pairs db).0
  unfolding add_items
  add_items-Over words proposal_id position [] db n h = (h, tt)
  add_items-Over words proposal_id position ((word, confidence) ∷ rest) db n h =
      let (rest_over, ids) =
        add_items-Over words proposal_id (suc position) rest
          (record db { next_id = suc db.next_id; items = db.items ++ (_ ∷ []) }) n
          (record {
            next = omega (arith, h.next);
            same_boards = h.same_boards;
            same_cards = h.same_cards;
            same_runs = h.same_runs;
            same_games = h.same_games;
            turns = h.turns;
            clues = h.clues;
            clue_targets = h.clue_targets;
            proposals = h.proposals;
            items = Grows-snoc _ base.items db.items _ n h.items;
            reveals = h.reveals;
          }) in
      (rest_over, (h.next, ids))

  add_proposal-Over :
      (words : List (Text × ℕ)) (kind : ProposalKind) (pairs : List (Text × Confidence))
      (turn_id : ℕ) (seat : Seat) (db : Database)
      → IsNew turn_id
      → Over db
      → Over (add_proposal words kind pairs turn_id seat db).1
        × All IsNew (add_proposal words kind pairs turn_id seat db).0
  add_proposal-Over words kind pairs turn_id seat db n h =
      add_items-Over words db.next_id 0 pairs _ h.next (record {
        next = omega (arith, h.next);
        same_boards = h.same_boards;
        same_cards = h.same_cards;
        same_runs = h.same_runs;
        same_games = h.same_games;
        turns = h.turns;
        clues = h.clues;
        clue_targets = h.clue_targets;
        proposals = Grows-snoc _ base.proposals db.proposals _ n h.proposals;
        items = h.items;
        reveals = h.reveals;
      })

  -- A write that may fail, with the ids of the items.
  abbrev pub OverItems : Option (List ℕ × Database) → Type 0
  OverItems none = Unit
  OverItems (some (ids, db)) = Over db × All IsNew ids

  pub play_if-Over :
      (words : List (Text × ℕ)) (p : Option GuessProposal) (turn_id : ℕ) (seat : Seat)
      (db : Database)
      → IsNew turn_id
      → Over db
      → OverItems (play_if words p turn_id seat db)
  unfolding write_play
  play_if-Over words none turn_id seat db n h = (h, tt)
  play_if-Over words (some gp) turn_id seat db n h =
      by_pairs (zip_strict gp.proposals gp.confidence)
    where
      by_pairs :
          (o : Option (List (Text × Confidence)))
          → OverItems (elim o [
            | none ↦ none
            | some pairs ↦ some (add_proposal words play pairs turn_id seat db)
          ])
      by_pairs none = tt
      by_pairs (some pairs) = add_proposal-Over words play pairs turn_id seat db n h

  pub measure_if-Over :
      (words : List (Text × ℕ)) (m : Option ConfidenceRanking) (turn_id : ℕ) (seat : Seat)
      (db : Database)
      → IsNew turn_id
      → Over db
      → Over (measure_if words m turn_id seat db)
  unfolding write_measurement
  measure_if-Over words none turn_id seat db n h = h
  measure_if-Over words (some cr) turn_id seat db n h =
      (add_proposal-Over words measurement
        (map (λ (r : RankedCard). (r.word, r.confidence)) cr.rankings) turn_id seat db n h).0

  pub write_reveals-Over :
      (turn_id position : ℕ) (reveals : List RevealRecord) (db : Database)
      → IsNew turn_id
      → Over db
      → Over (write_reveals turn_id position reveals db).1
  unfolding write_reveals
  write_reveals-Over turn_id position [] db n h = h
  write_reveals-Over turn_id position (r ∷ rs) db n h =
      write_reveals-Over turn_id (suc position) rs _ n (record {
        next = omega (arith, h.next);
        same_boards = h.same_boards;
        same_cards = h.same_cards;
        same_runs = h.same_runs;
        same_games = h.same_games;
        turns = h.turns;
        clues = h.clues;
        clue_targets = h.clue_targets;
        proposals = h.proposals;
        items = h.items;
        reveals = Grows-snoc _ base.reveals db.reveals _ n h.reveals;
      })
