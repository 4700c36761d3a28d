-- ===== src/Writer/Open.antt =====
-- backend/app/db/writer.py: the rows of a turn are added under their parents.
use codenames_llm_bias.Shared.{
  ℕ, suc, ◌≡◌, refl, true, Option, none, some, List, [], ◌∷◌, map, nat_eq, text_eq, Text,
}
use codenames_llm_bias.Schemas.Card.{Seat, seat0, seat1}
use codenames_llm_bias.Schemas.State.{ConfidenceRanking, RankedCard, ResolvedTarget, Confidence}
use codenames_llm_bias.Recorder.{GuessProposal, ClueRecord, RevealRecord, TurnRecord}
use codenames_llm_bias.Writer.{
  TurnRow, ClueRow, ProposalKind, play, measurement, ProposalRow, ItemRow, Database,
}
use codenames_llm_bias.Writer.Turns.{
  zip_strict, add_items, add_proposal, write_play, write_measurement, write_reveals, nth, link,
  backfill, add_targets, write_clue, play_if, measure_if, other_seat, reveal_all, items_of_seat,
  write_sudden_death, write_normal,
}
use codenames_llm_bias.Writer.Store.{has_game, has_id}
use codenames_llm_bias.Writer.Keyed.{IsKeyed}
use codenames_llm_bias.Writer.Revealed.{AreRevealed, write_reveals_ids}
use codenames_llm_bias.Writer.Rows.{
  has_id_last, add_clue-IsKeyed, add_target-IsKeyed, add_proposal-IsKeyed, add_item-IsKeyed,
  add_reveal-IsKeyed, link-IsKeyed,
}

-- The rows have their parents, and the turn that is written is there, in a game that is there.
pub record IsOpen (game_id : Text) (turn_id : ℕ) (db : Database) : Type 0 where
  pub keyed : IsKeyed db
  pub turn : has_id (λ t. TurnRow.id t) turn_id db.turns ≡ true
  pub game : has_game game_id db.games ≡ true

module _ (game_id : Text) (turn_id : ℕ) where
  add_items-IsOpen :
      (words : List (Text × ℕ)) (proposal_id position : ℕ) (pairs : List (Text × Confidence))
      (db : Database)
      → has_id (λ p. ProposalRow.id p) proposal_id db.proposals ≡ true
      → IsOpen game_id turn_id db
      → IsOpen game_id turn_id (add_items words proposal_id position pairs db).1
  unfolding add_items
  add_items-IsOpen words proposal_id position [] db p h = h
  add_items-IsOpen words proposal_id position ((word, confidence) ∷ rest) db p h =
      add_items-IsOpen words proposal_id (suc position) rest _ p
        (record { keyed = add_item-IsKeyed db h.keyed _ p refl refl; turn = h.turn; game = h.game })

  add_proposal-IsOpen :
      (words : List (Text × ℕ)) (kind : ProposalKind) (pairs : List (Text × Confidence))
      (seat : Seat) (db : Database)
      → IsOpen game_id turn_id db
      → IsOpen game_id turn_id (add_proposal words kind pairs turn_id seat db).1
  add_proposal-IsOpen words kind pairs seat db h =
      add_items-IsOpen words db.next_id 0 pairs _ (has_id_last _ db.next_id db.proposals _ refl)
        (record {
          keyed = add_proposal-IsKeyed db h.keyed _ h.turn refl;
          turn = h.turn;
          game = h.game;
        })

  abbrev OpenItems : Option (List ℕ × Database) → Type 0
  OpenItems none = Unit
  OpenItems (some (ids, db)) = IsOpen game_id turn_id db

  play_if-OpenItems :
      (words : List (Text × ℕ)) (p : Option GuessProposal) (seat : Seat) (db : Database)
      → IsOpen game_id turn_id db
      → OpenItems (play_if words p turn_id seat db)
  unfolding write_play
  play_if-OpenItems words none seat db h = h
  play_if-OpenItems words (some gp) seat db h = by_pairs (zip_strict gp.proposals gp.confidence)
    where
      by_pairs :
          (o : Option (List (Text × Confidence)))
          → OpenItems (elim o [
            | none ↦ none
            | some pairs ↦ some (add_proposal words play pairs turn_id seat db)
          ])
      by_pairs none = tt
      by_pairs (some pairs) = add_proposal-IsOpen words play pairs seat db h

  measure_if-IsOpen :
      (words : List (Text × ℕ)) (m : Option ConfidenceRanking) (seat : Seat) (db : Database)
      → IsOpen game_id turn_id db
      → IsOpen game_id turn_id (measure_if words m turn_id seat db)
  unfolding write_measurement
  measure_if-IsOpen words none seat db h = h
  measure_if-IsOpen words (some cr) seat db h =
      add_proposal-IsOpen words measurement
        (map (λ (r : RankedCard). (r.word, r.confidence)) cr.rankings) seat db h

  write_reveals-IsOpen :
      (position : ℕ) (reveals : List RevealRecord) (db : Database)
      → IsOpen game_id turn_id db
      → IsOpen game_id turn_id (write_reveals turn_id position reveals db).1
  unfolding write_reveals
  write_reveals-IsOpen position [] db h = h
  write_reveals-IsOpen position (r ∷ rs) db h =
      write_reveals-IsOpen (suc position) rs _ (record {
        keyed = add_reveal-IsKeyed db h.keyed _ h.turn refl;
        turn = h.turn;
        game = h.game;
      })

  backfill-IsOpen :
      (items : Seat → List ℕ) (reveals : List RevealRecord) (ids : List ℕ) (db : Database)
      → AreRevealed turn_id ids db
      → IsOpen game_id turn_id db
      → IsOpen game_id turn_id (backfill items reveals ids db)
  unfolding backfill
  backfill-IsOpen items [] ids db a h = h
  backfill-IsOpen items (r ∷ rs) [] db a h = h
  backfill-IsOpen items (r ∷ rs) (i ∷ ids) db a h =
      by_item (nth r.proposal_index (items r.acting_seat))
        (λ xs h'. backfill-IsOpen items rs ids (record db { items = xs }) a.1 h')
    where
      by_item :
          (o : Option ℕ)
          → ((xs : List ItemRow)
              → IsOpen game_id turn_id (record db { items = xs })
              → IsOpen game_id turn_id (backfill items rs ids (record db { items = xs })))
          → IsOpen game_id turn_id (elim o [
            | none ↦ backfill items rs ids db
            | some item_id ↦ backfill items rs ids (record db { items = link item_id i db.items })
          ])
      by_item none k = k db.items h
      by_item (some item_id) k =
          k _
            (record { keyed = link-IsKeyed db h.keyed item_id i a.0; turn = h.turn; game = h.game })

  reveal_all-IsOpen :
      (items : Seat → List ℕ) (reveals : List RevealRecord) (db : Database)
      → IsOpen game_id turn_id db
      → IsOpen game_id turn_id (reveal_all turn_id items reveals db)
  reveal_all-IsOpen items reveals db h =
      backfill-IsOpen items reveals _ _ (write_reveals_ids turn_id 0 reveals db)
        (write_reveals-IsOpen 0 reveals db h)

  add_targets-IsOpen :
      (clue_id position : ℕ) (ts : List ResolvedTarget) (db : Database)
      → has_id (λ c. ClueRow.id c) clue_id db.clues ≡ true
      → IsOpen game_id turn_id db
      → IsOpen game_id turn_id (add_targets clue_id position ts db)
  unfolding add_targets
  add_targets-IsOpen clue_id position [] db c h = h
  add_targets-IsOpen clue_id position (t ∷ ts) db c h =
      add_targets-IsOpen clue_id (suc position) ts _ c
        (record { keyed = add_target-IsKeyed db h.keyed _ c; turn = h.turn; game = h.game })

  pub write_clue-IsOpen :
      (c : Option ClueRecord) (db : Database)
      → IsOpen game_id turn_id db
      → IsOpen game_id turn_id (write_clue c turn_id db)
  unfolding write_clue
  write_clue-IsOpen none db h = h
  write_clue-IsOpen (some c) db h =
      add_targets-IsOpen db.next_id 0 c.targets_resolved _
        (has_id_last _ db.next_id db.clues _ refl)
        (record { keyed = add_clue-IsKeyed db h.keyed _ h.turn refl; turn = h.turn; game = h.game })

  abbrev pub OpenIf : Option Database → Type 0
  OpenIf none = Unit
  OpenIf (some db) = IsOpen game_id turn_id db

  pub write_normal-OpenIf :
      (words : List (Text × ℕ)) (t : TurnRecord) (db : Database)
      → IsOpen game_id turn_id db
      → OpenIf (write_normal words t turn_id db)
  unfolding write_normal
  write_normal-OpenIf words t db h =
      by_play _ (play_if-OpenItems words t.play_proposal (other_seat t.clue_giver_seat) db h)
    where
      by_play :
          (o : Option (List ℕ × Database))
          → OpenItems o
          → OpenIf (elim o [
            | none ↦ none
            | some (items, db1) ↦
                let db2 =
                  measure_if words t.measurement turn_id (other_seat t.clue_giver_seat) db1 in
                some (reveal_all turn_id (λ seat. items) t.reveals db2)
          ])
      by_play none k = tt
      by_play (some (items, db1)) k =
          reveal_all-IsOpen (λ seat. items) t.reveals _
            (measure_if-IsOpen words t.measurement (other_seat t.clue_giver_seat) db1 k)

  pub write_sudden_death-OpenIf :
      (words : List (Text × ℕ)) (t : TurnRecord) (db : Database)
      → IsOpen game_id turn_id db
      → OpenIf (write_sudden_death words t turn_id db)
  unfolding write_sudden_death
  write_sudden_death-OpenIf words t db h =
      by_first _ (play_if-OpenItems words t.sd_play_by_seat.of_seat0 seat0 db h)
    where
      rest : List ℕ → List ℕ → Database → Database
      rest xs ys db2 = reveal_all turn_id (items_of_seat xs ys) t.reveals (
          measure_if words t.sd_measurement_by_seat.of_seat1 turn_id seat1
            (measure_if words t.sd_measurement_by_seat.of_seat0 turn_id seat0 db2))

      by_second :
          (xs : List ℕ) (o : Option (List ℕ × Database))
          → OpenItems o
          → OpenIf (elim o [ none ↦ none | some (ys, db2) ↦ some (rest xs ys db2) ])
      by_second xs none k = tt
      by_second xs (some (ys, db2)) k = reveal_all-IsOpen (items_of_seat xs ys) t.reveals _ (
          measure_if-IsOpen words t.sd_measurement_by_seat.of_seat1 seat1 _
            (measure_if-IsOpen words t.sd_measurement_by_seat.of_seat0 seat0 db2 k))

      by_first :
          (o : Option (List ℕ × Database))
          → OpenItems o
          → OpenIf (elim o [
            | none ↦ none
            | some (xs, db1) ↦ elim (play_if words t.sd_play_by_seat.of_seat1 turn_id seat1 db1) [
              | none ↦ none
              | some (ys, db2) ↦ some (rest xs ys db2)
            ]
          ])
      by_first none k = tt
      by_first (some (xs, db1)) k =
          by_second xs _ (play_if-OpenItems words t.sd_play_by_seat.of_seat1 seat1 db1 k)
