-- ===== src/Writer/Writable.antt =====
-- backend/app/db/writer.py: which turns can be written, and so which games are stored.
use codenames_llm_bias.Shared.{
  ℕ, ◌≡◌, refl, ap, ◌∙◌, Bool, true, false, not, ◌&&◌, ◌||◌, Option, none, some, List, [], ◌∷◌,
  ◌++◌, if◌then◌else◌, ◌==◌, nat_eq, length, all_of, Text, arith,
}
use codenames_llm_bias.Schemas.Card.{Seat, seat0, seat1}
use codenames_llm_bias.Schemas.State.{Confidence}
use codenames_llm_bias.Recorder.{
  GuessProposal, normal, sudden_death, TurnPhase, TurnRecord, GameRecorder,
}
use codenames_llm_bias.Writer.{play, Database, word_map}
use codenames_llm_bias.Writer.Turns.{
  zip_strict, write_play, add_proposal, play_if, measure_if, other_seat, reveal_all, items_of_seat,
  write_sudden_death, write_normal, write_turn, write_turns,
}
use codenames_llm_bias.Writer.Store.{
  GameHead, has_game, has_text, has_run, game_row, stored_game, persist_game,
}

abbrev pub is_some : {A : Type 0} → Option A → Bool
is_some none = false
is_some (some x) = true

-- A proposal has one confidence for each word.
abbrev pub is_aligned : Option GuessProposal → Bool
is_aligned none = true
is_aligned (some gp) = length gp.proposals == length gp.confidence

-- The proposals that are written of a turn are aligned.
abbrev pub is_writable : TurnRecord → Bool
is_writable t = elim t.phase [
  | sudden_death ↦ is_aligned t.sd_play_by_seat.of_seat0 && is_aligned t.sd_play_by_seat.of_seat1
  | normal ↦ is_aligned t.play_proposal
]

is_some-zip_strict :
    {A B : Type 0} (xs : List A) (ys : List B)
    → is_some (zip_strict xs ys) ≡ (length xs == length ys)
is_some-zip_strict [] [] = refl
is_some-zip_strict [] (y ∷ ys) = ground arith
is_some-zip_strict (x ∷ xs) [] = ground arith
is_some-zip_strict {A} {B} (x ∷ xs) (y ∷ ys) = by_rest (zip_strict xs ys) (is_some-zip_strict xs ys)
  where
    by_rest :
        (o : Option (List (A × B)))
        → is_some o ≡ (length xs == length ys)
        → is_some
            (elim o as (λ z. Option (List (A × B))) [ none ↦ none | some r ↦ some ((x, y) ∷ r) ])
          ≡ (length (x ∷ xs) == length (y ∷ ys))
    by_rest none h = ground (arith, h)
    by_rest (some r) h = ground (arith, h)

module _ (words : List (Text × ℕ)) where
  is_some-play_if :
      (p : Option GuessProposal) (turn_id : ℕ) (seat : Seat) (db : Database)
      → is_some (play_if words p turn_id seat db) ≡ is_aligned p
  unfolding write_play
  is_some-play_if none turn_id seat db = refl
  is_some-play_if (some gp) turn_id seat db =
      by_pairs (zip_strict gp.proposals gp.confidence)
        (is_some-zip_strict gp.proposals gp.confidence)
    where
      by_pairs :
          (o : Option (List (Text × Confidence)))
          → is_some o ≡ is_aligned (some gp)
          → is_some (elim o as (λ z. Option (List ℕ × Database)) [
            | none ↦ none
            | some pairs ↦ some (add_proposal words play pairs turn_id seat db)
          ])
            ≡ is_aligned (some gp)
      by_pairs none h = h
      by_pairs (some pairs) h = h

  is_some-write_normal :
      (t : TurnRecord) (turn_id : ℕ) (db : Database)
      → is_some (write_normal words t turn_id db) ≡ is_aligned t.play_proposal
  unfolding write_normal
  is_some-write_normal t turn_id db =
      by_play (play_if words t.play_proposal turn_id (other_seat t.clue_giver_seat) db)
      ∙ is_some-play_if t.play_proposal turn_id (other_seat t.clue_giver_seat) db
    where
      by_play :
          (o : Option (List ℕ × Database))
          → is_some (elim o as (λ z. Option Database) [
            | none ↦ none
            | some (items, db1) ↦
                let db2 =
                  measure_if words t.measurement turn_id (other_seat t.clue_giver_seat) db1 in
                some (reveal_all turn_id (λ seat. items) t.reveals db2)
          ])
            ≡ is_some o
      by_play none = refl
      by_play (some (items, db1)) = refl

  is_some-write_sudden_death :
      (t : TurnRecord) (turn_id : ℕ) (db : Database)
      → is_some (write_sudden_death words t turn_id db)
        ≡ (is_aligned t.sd_play_by_seat.of_seat0 && is_aligned t.sd_play_by_seat.of_seat1)
  unfolding write_sudden_death
  is_some-write_sudden_death t turn_id db =
      by_first (play_if words t.sd_play_by_seat.of_seat0 turn_id seat0 db)
        (is_some-play_if t.sd_play_by_seat.of_seat0 turn_id seat0 db)
    where
      rest : List ℕ → List ℕ → Database → Database
      rest xs ys db2 = reveal_all turn_id (items_of_seat xs ys) t.reveals (
          measure_if words t.sd_measurement_by_seat.of_seat1 turn_id seat1
            (measure_if words t.sd_measurement_by_seat.of_seat0 turn_id seat0 db2))

      by_second :
          (xs : List ℕ) (o : Option (List ℕ × Database))
          → is_some (elim o as (λ z. Option Database) [
            | none ↦ none
            | some (ys, db2) ↦ some (rest xs ys db2)
          ])
            ≡ is_some o
      by_second xs none = refl
      by_second xs (some (ys, db2)) = refl

      by_first :
          (o : Option (List ℕ × Database))
          → is_some o ≡ is_aligned t.sd_play_by_seat.of_seat0
          → is_some (elim o as (λ z. Option Database) [
            | none ↦ none
            | some (xs, db1) ↦ elim (play_if words t.sd_play_by_seat.of_seat1 turn_id seat1 db1) [
              | none ↦ none
              | some (ys, db2) ↦ some (rest xs ys db2)
            ]
          ])
            ≡ (is_aligned t.sd_play_by_seat.of_seat0 && is_aligned t.sd_play_by_seat.of_seat1)
      by_first none h = ap (λ b. b && is_aligned t.sd_play_by_seat.of_seat1) h
      by_first (some (xs, db1)) h =
          by_second xs _
          ∙ is_some-play_if t.sd_play_by_seat.of_seat1 turn_id seat1 db1
          ∙ ap (λ b. b && is_aligned t.sd_play_by_seat.of_seat1) h

  is_some-write_turn :
      (game_id : Text) (t : TurnRecord) (db : Database)
      → is_some (write_turn words game_id t db) ≡ is_writable t
  unfolding write_turn
  is_some-write_turn game_id t db = by_phase t.phase _
    where
      by_phase :
          (p : TurnPhase) (db' : Database)
          → is_some (elim p as (λ z. Option Database) [
            | sudden_death ↦ write_sudden_death words t db.next_id db'
            | normal ↦ write_normal words t db.next_id db'
          ])
            ≡ elim p as (λ z. Bool) [
              | sudden_death ↦
                  is_aligned t.sd_play_by_seat.of_seat0 && is_aligned t.sd_play_by_seat.of_seat1
              | normal ↦ is_aligned t.play_proposal
            ]
      by_phase sudden_death db' = is_some-write_sudden_death t db.next_id db'
      by_phase normal db' = is_some-write_normal t db.next_id db'

  is_some-write_turns :
      (game_id : Text) (ts : List TurnRecord) (db : Database)
      → is_some (write_turns words game_id ts db) ≡ all_of is_writable ts
  unfolding write_turns
  is_some-write_turns game_id [] db = refl
  is_some-write_turns game_id (t ∷ ts) db =
      by_turn (write_turn words game_id t db) (is_some-write_turn game_id t db)
        (λ d. is_some-write_turns game_id ts d)
    where
      by_turn :
          (o : Option Database)
          → is_some o ≡ is_writable t
          → ((d : Database) → is_some (write_turns words game_id ts d) ≡ all_of is_writable ts)
          → is_some (elim o as (λ z. Option Database) [
            | none ↦ none
            | some d ↦ write_turns words game_id ts d
          ])
            ≡ all_of is_writable (t ∷ ts)
      by_turn none h k = ground (arith, h)
      by_turn (some d) h k = ground (arith, h, k d)

-- A game is stored exactly when its board and its run are there, its id is not, and its turns can be written.
pub persist_game_answer :
    (h : GameHead) (r : GameRecorder) (status : Text) (db : Database)
    → (persist_game h r status db).0 ≡ (
        has_text h.board_id db.boards
        && has_run h.run_id db.runs
        && not (has_game h.game_id db.games)
        && all_of is_writable r.turns)
unfolding persist_game stored_game
persist_game_answer h r status db =
    by_guard (has_text h.board_id db.boards) (has_run h.run_id db.runs)
      (has_game h.game_id db.games) _
      (is_some-write_turns (word_map h.board_id db.word_cards []) h.game_id r.turns
        (record db { games = db.games ++ (game_row h r status ∷ []) }))
  where
    by_guard :
        (a b c : Bool) (o : Option Database)
        → is_some o ≡ all_of is_writable r.turns
        → (elim (if not (a && b) || c then none else o) as (λ x. Bool × (GameRecorder × Database)) [
          | none ↦ (false, (r, db))
          | some d ↦ (true, (record r { flushed = true }, d))
        ]).0
          ≡ (a && b && not c && all_of is_writable r.turns)
    by_guard true true false none k = k
    by_guard true true false (some d) k = k
    by_guard true true true o k = refl
    by_guard true false c o k = refl
    by_guard false b c o k = refl
