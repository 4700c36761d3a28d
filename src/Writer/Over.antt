-- ===== src/Writer/Over.antt =====
-- backend/app/db/writer.py: a clue and the reveals add rows that hang on new rows, and fills in the items of its own
-- reveals alone.
use codenames_llm_bias.Shared.{
  ℕ, zero, suc, ◌≤◌, ◌<◌, ◌≡◌, refl, ap, ◌∙◌, false, Option, none, some, List, [], ◌∷◌, ◌++◌,
  if◌then◌else◌, if_cases, ◌==◌, nat_eq, Text, All, arith,
}
use codenames_llm_bias.Schemas.Card.{Seat}
use codenames_llm_bias.Schemas.State.{ResolvedTarget}
use codenames_llm_bias.Recorder.{ClueRecord, RevealRecord}
use codenames_llm_bias.Writer.{ItemRow, Database}
use codenames_llm_bias.Writer.Turns.{nth, link, backfill, add_targets, write_clue, reveal_all}
use codenames_llm_bias.Writer.Grows.{Grows-snoc, IsNew, Over, write_reveals-Over}

link_other :
    (n item_id reveal_id : ℕ) (xs : List ItemRow)
    → n ≤ item_id
    → All (λ x. ItemRow.id x < n) xs
    → link item_id reveal_id xs ≡ xs
link_other n item_id reveal_id [] h a = refl
link_other n item_id reveal_id (x ∷ xs) h a =
    let off : (x.id == item_id) ≡ false = ground (arith, h, a.0) in
    rw off (ap (◌∷◌ x) (link_other n item_id reveal_id xs h a.1))

link-append :
    (item_id reveal_id : ℕ) (xs ys : List ItemRow)
    → link item_id reveal_id (xs ++ ys) ≡ link item_id reveal_id xs ++ link item_id reveal_id ys
link-append item_id reveal_id [] ys = refl
link-append item_id reveal_id (x ∷ xs) ys =
    ap (◌∷◌ (if x.id == item_id then record x { reveal_event_id = some reveal_id } else x))
      (link-append item_id reveal_id xs ys)

All-link :
    (n item_id reveal_id : ℕ) (xs : List ItemRow)
    → All (λ x. n ≤ ItemRow.guess_proposal_id x) xs
    → All (λ x. n ≤ ItemRow.guess_proposal_id x) (link item_id reveal_id xs)
All-link n item_id reveal_id [] a = tt
All-link n item_id reveal_id (x ∷ xs) a = (
  if_cases (λ y. n ≤ ItemRow.guess_proposal_id y) (x.id == item_id) a.0 a.0,
  All-link n item_id reveal_id xs a.1,
)

All-nth : (n i : ℕ) (ids : List ℕ) (x : ℕ) → All (λ j. n ≤ j) ids → nth i ids ≡ some x → n ≤ x
All-nth n i [] x a h = ground (arith, h)
All-nth n zero (y ∷ ys) x a h = let same : y ≡ x = ground (arith, h) in ground (arith, same, a.0)
All-nth n (suc i) (y ∷ ys) x a h = All-nth n i ys x a.1 h

module _ (base : Database) (game_id : Text)
    (below : All (λ x. ItemRow.id x < base.next_id) base.items) where
  backfill-Over :
      (items : Seat → List ℕ) (reveals : List RevealRecord) (ids : List ℕ) (db : Database)
      → ((s : Seat) → All (IsNew base game_id) (items s))
      → Over base game_id db
      → Over base game_id (backfill items reveals ids db)
  unfolding backfill
  backfill-Over items [] ids db n h = h
  backfill-Over items (r ∷ rs) [] db n h = h
  backfill-Over items (r ∷ rs) (i ∷ ids) db n h =
      by_item (nth r.proposal_index (items r.acting_seat)) refl
        (λ db' h'. backfill-Over items rs ids db' n h')
    where
      by_item :
          (o : Option ℕ)
          → nth r.proposal_index (items r.acting_seat) ≡ o
          → ((db' : Database)
              → Over base game_id db'
              → Over base game_id (backfill items rs ids db'))
          → Over base game_id (elim o [
            | none ↦ backfill items rs ids db
            | some item_id ↦ backfill items rs ids (record db { items = link item_id i db.items })
          ])
      by_item none q k = k db h
      by_item (some item_id) q k =
          let new_id =
            All-nth base.next_id r.proposal_index (items r.acting_seat) item_id (n r.acting_seat)
              q in
          k _ (record {
            next = h.next;
            same_boards = h.same_boards;
            same_cards = h.same_cards;
            same_runs = h.same_runs;
            same_games = h.same_games;
            turns = h.turns;
            clues = h.clues;
            clue_targets = h.clue_targets;
            proposals = h.proposals;
            items = record {
              new = link item_id i h.items.new;
              whole =
                  ap (link item_id i) h.items.whole
                  ∙ link-append item_id i base.items h.items.new
                  ∙ ap (λ xs. xs ++ link item_id i h.items.new)
                      (link_other base.next_id item_id i base.items new_id below);
              all = All-link base.next_id item_id i h.items.new h.items.all;
            };
            reveals = h.reveals;
          })

  pub reveal_all-Over :
      (turn_id : ℕ) (items : Seat → List ℕ) (reveals : List RevealRecord) (db : Database)
      → IsNew base game_id turn_id
      → ((s : Seat) → All (IsNew base game_id) (items s))
      → Over base game_id db
      → Over base game_id (reveal_all turn_id items reveals db)
  reveal_all-Over turn_id items reveals db t n h =
      backfill-Over items reveals _ _ n (write_reveals-Over base game_id turn_id 0 reveals db t h)

  add_targets-Over :
      (clue_id position : ℕ) (ts : List ResolvedTarget) (db : Database)
      → IsNew base game_id clue_id
      → Over base game_id db
      → Over base game_id (add_targets clue_id position ts db)
  unfolding add_targets
  add_targets-Over clue_id position [] db n h = h
  add_targets-Over clue_id position (t ∷ ts) db n h =
      add_targets-Over clue_id (suc position) ts _ n (record {
        next = h.next;
        same_boards = h.same_boards;
        same_cards = h.same_cards;
        same_runs = h.same_runs;
        same_games = h.same_games;
        turns = h.turns;
        clues = h.clues;
        clue_targets = Grows-snoc _ base.clue_targets db.clue_targets _ n h.clue_targets;
        proposals = h.proposals;
        items = h.items;
        reveals = h.reveals;
      })

  pub write_clue-Over :
      (c : Option ClueRecord) (turn_id : ℕ) (db : Database)
      → IsNew base game_id turn_id
      → Over base game_id db
      → Over base game_id (write_clue c turn_id db)
  unfolding write_clue
  write_clue-Over none turn_id db n h = h
  write_clue-Over (some c) turn_id db n h =
      add_targets-Over db.next_id 0 c.targets_resolved _ h.next (record {
        next = omega (arith, h.next);
        same_boards = h.same_boards;
        same_cards = h.same_cards;
        same_runs = h.same_runs;
        same_games = h.same_games;
        turns = h.turns;
        clues = Grows-snoc _ base.clues db.clues _ n h.clues;
        clue_targets = h.clue_targets;
        proposals = h.proposals;
        items = h.items;
        reveals = h.reveals;
      })
