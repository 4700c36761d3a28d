-- ===== src/Writer/Flush.antt =====
-- backend/app/db/writer.py: a whole game adds rows that hang on new rows, and fills in the items of its own
-- reveals alone.
use codenames_llm_bias.Shared.{
  ℕ, suc, ◌<◌, refl, Option, none, some, List, [], ◌∷◌, ◌++◌, nat_eq, Text, All, arith,
}
use codenames_llm_bias.Schemas.Card.{Seat, seat0, seat1}
use codenames_llm_bias.Recorder.{TurnPhase, normal, sudden_death, TurnRecord}
use codenames_llm_bias.Writer.{ItemRow, Database}
use codenames_llm_bias.Writer.Turns.{
  write_clue, play_if, measure_if, other_seat, reveal_all, items_of_seat, write_sudden_death,
  write_normal, write_turn, write_turns,
}
use codenames_llm_bias.Writer.Over.{reveal_all-Over, write_clue-Over}
use codenames_llm_bias.Writer.Grows.{
  Grows-snoc, IsNew, Over, OverItems, play_if-Over, measure_if-Over,
}

module _ (base : Database) (game_id : Text)
    (below : All (λ x. ItemRow.id x < base.next_id) base.items) where
  abbrev pub OverIf : Option Database → Type 0
  OverIf none = Unit
  OverIf (some db) = Over base game_id db

  write_normal-OverIf :
      (words : List (Text × ℕ)) (t : TurnRecord) (turn_id : ℕ) (db : Database)
      → IsNew base game_id turn_id
      → Over base game_id db
      → OverIf (write_normal words t turn_id db)
  unfolding write_normal
  write_normal-OverIf words t turn_id db n h = by_play _ (
      play_if-Over base game_id words t.play_proposal turn_id (other_seat t.clue_giver_seat) db n h)
    where
      by_play :
          (o : Option (List ℕ × Database))
          → OverItems base game_id o
          → OverIf (elim o [
            | none ↦ none
            | some (items, db1) ↦
                let db2 =
                  measure_if words t.measurement turn_id (other_seat t.clue_giver_seat) db1 in
                some (reveal_all turn_id (λ seat. items) t.reveals db2)
          ])
      by_play none k = tt
      by_play (some (items, db1)) k =
          reveal_all-Over base game_id below turn_id (λ seat. items) t.reveals _ n (λ s. k.1)
            (measure_if-Over base game_id words t.measurement turn_id (other_seat t.clue_giver_seat)
              db1 n k.0)

  write_sudden_death-OverIf :
      (words : List (Text × ℕ)) (t : TurnRecord) (turn_id : ℕ) (db : Database)
      → IsNew base game_id turn_id
      → Over base game_id db
      → OverIf (write_sudden_death words t turn_id db)
  unfolding write_sudden_death
  write_sudden_death-OverIf words t turn_id db n h =
      by_first _ (play_if-Over base game_id words t.sd_play_by_seat.of_seat0 turn_id seat0 db n h)
    where
      rest : List ℕ → List ℕ → Database → Database
      rest xs ys db2 = reveal_all turn_id (items_of_seat xs ys) t.reveals (
          measure_if words t.sd_measurement_by_seat.of_seat1 turn_id seat1
            (measure_if words t.sd_measurement_by_seat.of_seat0 turn_id seat0 db2))

      by_second :
          (xs : List ℕ)
          → All (IsNew base game_id) xs
          → (o : Option (List ℕ × Database)) → OverItems base game_id o
          → OverIf (elim o [ none ↦ none | some (ys, db2) ↦ some (rest xs ys db2) ])
      by_second xs a none k = tt
      by_second xs a (some (ys, db2)) k =
          reveal_all-Over base game_id below turn_id (items_of_seat xs ys) t.reveals _ n new_items (
            measure_if-Over base game_id words t.sd_measurement_by_seat.of_seat1 turn_id seat1 _ n (
              measure_if-Over base game_id words t.sd_measurement_by_seat.of_seat0 turn_id seat0 db2
                n k.0))
        where
          new_items : (s : Seat) → All (IsNew base game_id) (items_of_seat xs ys s)
          new_items seat0 = a
          new_items seat1 = k.1

      by_first :
          (o : Option (List ℕ × Database))
          → OverItems base game_id o
          → OverIf (elim o [
            | none ↦ none
            | some (xs, db1) ↦ elim (play_if words t.sd_play_by_seat.of_seat1 turn_id seat1 db1) [
              | none ↦ none
              | some (ys, db2) ↦ some (rest xs ys db2)
            ]
          ])
      by_first none k = tt
      by_first (some (xs, db1)) k =
          by_second xs k.1 _
            (play_if-Over base game_id words t.sd_play_by_seat.of_seat1 turn_id seat1 db1 n k.0)

  write_turn-OverIf :
      (words : List (Text × ℕ)) (t : TurnRecord) (db : Database)
      → Over base game_id db
      → OverIf (write_turn words game_id t db)
  unfolding write_turn
  write_turn-OverIf words t db h = by_phase t.phase
    where
      opened : Database
      opened = write_clue t.clue db.next_id (record db {
        next_id = suc db.next_id;
        turns =
            db.turns
            ++ (record {
              id = db.next_id;
              game_id = game_id;
              turn_number = t.turn_number;
              clue_giver_seat = t.clue_giver_seat;
              phase = t.phase;
            }
                ∷ []);
      })

      opened-Over : Over base game_id opened
      opened-Over = write_clue-Over base game_id below t.clue db.next_id _ h.next (record {
        next = omega (arith, h.next);
        same_boards = h.same_boards;
        same_cards = h.same_cards;
        same_runs = h.same_runs;
        same_games = h.same_games;
        turns = Grows-snoc _ base.turns db.turns _ (refl, h.next) h.turns;
        clues = h.clues;
        clue_targets = h.clue_targets;
        proposals = h.proposals;
        items = h.items;
        reveals = h.reveals;
      })

      by_phase :
          (p : TurnPhase)
          → OverIf (elim p [
            | sudden_death ↦ write_sudden_death words t db.next_id opened
            | normal ↦ write_normal words t db.next_id opened
          ])
      by_phase sudden_death = write_sudden_death-OverIf words t db.next_id opened h.next opened-Over
      by_phase normal = write_normal-OverIf words t db.next_id opened h.next opened-Over

  -- The turns of a game.
  pub write_turns-OverIf :
      (words : List (Text × ℕ)) (ts : List TurnRecord) (db : Database)
      → Over base game_id db
      → OverIf (write_turns words game_id ts db)
  unfolding write_turns
  write_turns-OverIf words [] db h = h
  write_turns-OverIf words (t ∷ ts) db h =
      by_turn _ (write_turn-OverIf words t db h) (λ db' h'. write_turns-OverIf words ts db' h')
    where
      by_turn :
          (o : Option Database)
          → OverIf o
          → ((db' : Database) → Over base game_id db' → OverIf (write_turns words game_id ts db'))
          → OverIf (elim o [ none ↦ none | some db' ↦ write_turns words game_id ts db' ])
      by_turn none k next = tt
      by_turn (some db') k next = next db' k
