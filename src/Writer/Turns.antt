-- ===== src/Writer/Turns.antt =====
-- backend/app/db/writer.py: what a turn adds to the tables.
use codenames_llm_bias.Shared.{
  ℕ, zero, suc, Option, none, some, List, [], ◌∷◌, ◌++◌, map, if◌then◌else◌, ◌==◌, nat_eq, text_eq,
  Text, lower, get_item,
}
use codenames_llm_bias.Schemas.Card.{Seat, seat0, seat1}
use codenames_llm_bias.Schemas.State.{ConfidenceRanking, RankedCard, ResolvedTarget, Confidence}
use codenames_llm_bias.Recorder.{
  GuessProposal, ClueRecord, RevealRecord, normal, sudden_death, TurnRecord,
}
use codenames_llm_bias.Writer.{
  TurnRow, ClueRow, TargetRow, ProposalKind, play, measurement, ProposalRow, ItemRow, RevealRow,
  Database,
}

-- `zip(xs, ys, strict=True)`
abbrev pub zip_strict : {A B : Type 0} → List A → List B → Option (List (A × B))
zip_strict [] [] = some []
zip_strict (x ∷ xs) (y ∷ ys) = elim (zip_strict xs ys) [ none ↦ none | some r ↦ some ((x, y) ∷ r) ]
zip_strict _ _ = none

module _ (words : List (Text × ℕ)) where
  -- The items of a proposal, whose ids are returned in the order of the positions.
  unfoldable pub add_items : ℕ → ℕ → List (Text × Confidence) → Database → List ℕ × Database
  add_items proposal_id position [] db = ([], db)
  add_items proposal_id position ((word, confidence) ∷ rest) db =
      let item : ItemRow = record {
        id = db.next_id;
        guess_proposal_id = proposal_id;
        position = position;
        word = word;
        confidence = confidence;
        resolved_card_id = get_item (lower word) words;
        reveal_event_id = none;
      } in
      let (ids, db') =
        add_items proposal_id (suc position) rest
          (record db { next_id = suc db.next_id; items = db.items ++ (item ∷ []) }) in
      (db.next_id ∷ ids, db')

  -- A proposal with its items.
  abbrev pub add_proposal :
      ProposalKind → List (Text × Confidence) → ℕ → Seat → Database → List ℕ × Database
  add_proposal kind pairs turn_id guesser_seat db =
      let row : ProposalRow = record {
        id = db.next_id;
        turn_id = turn_id;
        guesser_seat = guesser_seat;
        kind = kind;
      } in
      add_items db.next_id 0 pairs
        (record db { next_id = suc db.next_id; proposals = db.proposals ++ (row ∷ []) })

  unfoldable pub write_play : GuessProposal → ℕ → Seat → Database → Option (List ℕ × Database)
  write_play gp turn_id guesser_seat db = elim (zip_strict gp.proposals gp.confidence) [
    | none ↦ none
    | some pairs ↦ some (add_proposal play pairs turn_id guesser_seat db)
  ]

  unfoldable pub write_measurement : ConfidenceRanking → ℕ → Seat → Database → Database
  write_measurement cr turn_id guesser_seat db =
      (add_proposal measurement (map (λ (r : RankedCard). (r.word, r.confidence)) cr.rankings)
        turn_id guesser_seat db).1

-- The rows of the reveals of a turn, whose ids are returned in order.
unfoldable pub write_reveals : ℕ → ℕ → List RevealRecord → Database → List ℕ × Database
write_reveals turn_id position [] db = ([], db)
write_reveals turn_id position (r ∷ rs) db =
    let row : RevealRow = record {
      id = db.next_id;
      turn_id = turn_id;
      position_in_turn = position;
      card_id = r.card_id;
      acting_seat = r.acting_seat;
      result_role = r.result_role;
      ended_turn = r.ended_turn;
      ended_game = r.ended_game;
      timer_tokens_after = r.timer_tokens_after;
    } in
    let (ids, db') =
      write_reveals turn_id (suc position) rs
        (record db { next_id = suc db.next_id; reveals = db.reveals ++ (row ∷ []) }) in
    (db.next_id ∷ ids, db')

-- `items[idx].reveal_event_id = row.id`
abbrev pub nth : ℕ → List ℕ → Option ℕ
nth i [] = none
nth zero (x ∷ xs) = some x
nth (suc i) (x ∷ xs) = nth i xs

abbrev pub link : ℕ → ℕ → List ItemRow → List ItemRow
link item_id reveal_id [] = []
link item_id reveal_id (x ∷ xs) =
    (if x.id == item_id then record x { reveal_event_id = some reveal_id } else x)
    ∷ link item_id reveal_id xs

-- The loop over the reveals and their rows, with the items of the acting seat.
unfoldable pub backfill : (Seat → List ℕ) → List RevealRecord → List ℕ → Database → Database
backfill items [] ids db = db
backfill items (r ∷ rs) [] db = db
backfill items (r ∷ rs) (i ∷ ids) db = elim (nth r.proposal_index (items r.acting_seat)) [
  | none ↦ backfill items rs ids db
  | some item_id ↦ backfill items rs ids (record db { items = link item_id i db.items })
]

unfoldable pub add_targets : ℕ → ℕ → List ResolvedTarget → Database → Database
add_targets clue_id position [] db = db
add_targets clue_id position (t ∷ ts) db =
    let row : TargetRow = record { clue_id = clue_id; position = position; target = t } in
    add_targets clue_id (suc position) ts
      (record db { clue_targets = db.clue_targets ++ (row ∷ []) })

unfoldable pub write_clue : Option ClueRecord → ℕ → Database → Database
write_clue none turn_id db = db
write_clue (some c) turn_id db =
    let row : ClueRow = record {
      id = db.next_id;
      turn_id = turn_id;
      clue_word = c.clue_word;
      count = c.count;
      targets_raw = c.targets_raw;
      invalid_reason = c.invalid_reason;
    } in
    add_targets db.next_id 0 c.targets_resolved
      (record db { next_id = suc db.next_id; clues = db.clues ++ (row ∷ []) })

-- A call for a value that may be missing.
abbrev pub play_if :
    List (Text × ℕ) → Option GuessProposal → ℕ → Seat → Database → Option (List ℕ × Database)
play_if words none turn_id seat db = some ([], db)
play_if words (some gp) turn_id seat db = write_play words gp turn_id seat db

abbrev pub measure_if : List (Text × ℕ) → Option ConfidenceRanking → ℕ → Seat → Database → Database
measure_if words none turn_id seat db = db
measure_if words (some cr) turn_id seat db = write_measurement words cr turn_id seat db

abbrev pub other_seat : Seat → Seat
other_seat seat0 = seat1
other_seat seat1 = seat0

-- The reveals, and the items they fill in.
abbrev pub reveal_all : ℕ → (Seat → List ℕ) → List RevealRecord → Database → Database
reveal_all turn_id items reveals db =
    let (ids, db') = write_reveals turn_id 0 reveals db in backfill items reveals ids db'

abbrev pub items_of_seat : List ℕ → List ℕ → Seat → List ℕ
items_of_seat xs ys seat0 = xs
items_of_seat xs ys seat1 = ys

module _ (words : List (Text × ℕ)) (t : TurnRecord) (turn_id : ℕ) where
  unfoldable pub write_sudden_death : Database → Option Database
  write_sudden_death db = elim (play_if words t.sd_play_by_seat.of_seat0 turn_id seat0 db) [
    | none ↦ none
    | some (xs, db1) ↦ elim (play_if words t.sd_play_by_seat.of_seat1 turn_id seat1 db1) [
      | none ↦ none
      | some (ys, db2) ↦
          let db3 = measure_if words t.sd_measurement_by_seat.of_seat0 turn_id seat0 db2 in
          let db4 = measure_if words t.sd_measurement_by_seat.of_seat1 turn_id seat1 db3 in
          some (reveal_all turn_id (items_of_seat xs ys) t.reveals db4)
    ]
  ]

  unfoldable pub write_normal : Database → Option Database
  write_normal db =
      let guesser_seat = other_seat t.clue_giver_seat in
      elim (play_if words t.play_proposal turn_id guesser_seat db) [
        | none ↦ none
        | some (items, db1) ↦
            let db2 = measure_if words t.measurement turn_id guesser_seat db1 in
            some (reveal_all turn_id (λ seat. items) t.reveals db2)
      ]

unfoldable pub write_turn : List (Text × ℕ) → Text → TurnRecord → Database → Option Database
write_turn words game_id t db =
    let row : TurnRow = record {
      id = db.next_id;
      game_id = game_id;
      turn_number = t.turn_number;
      clue_giver_seat = t.clue_giver_seat;
      phase = t.phase;
    } in
    let db' =
      write_clue t.clue db.next_id
        (record db { next_id = suc db.next_id; turns = db.turns ++ (row ∷ []) }) in
    elim t.phase [
      | sudden_death ↦ write_sudden_death words t db.next_id db'
      | normal ↦ write_normal words t db.next_id db'
    ]

unfoldable pub write_turns : List (Text × ℕ) → Text → List TurnRecord → Database → Option Database
write_turns words game_id [] db = some db
write_turns words game_id (t ∷ ts) db = elim (write_turn words game_id t db) [
  | none ↦ none
  | some db' ↦ write_turns words game_id ts db'
]
