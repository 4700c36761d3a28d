-- ===== src/Writer/Parents.antt =====
-- backend/app/db/writer.py: storing and deleting games keeps every row under its parent.
use codenames_llm_bias.Shared.{
  ℕ, suc, ◌≡◌, refl, Bool, true, false, not, ◌||◌, Option, none, some, List, [], ◌∷◌, ◌&&◌,
  All-append, ◌++◌, if◌then◌else◌, if_cases, nat_eq, text_eq, Text, All-weaken, arith,
}
use codenames_llm_bias.Recorder.{TurnPhase, normal, sudden_death, TurnRecord, GameRecorder}
use codenames_llm_bias.Writer.{GameRow, TurnRow, Database, word_map}
use codenames_llm_bias.Writer.Turns.{
  write_clue, write_sudden_death, write_normal, write_turn, write_turns,
}
use codenames_llm_bias.Writer.Store.{
  GameHead, has_game, has_text, has_run, game_row, stored_game, persist_game, delete_error_game,
  delete_run, DeleteRunResult,
}
use codenames_llm_bias.Writer.Keyed.{IsKeyed}
use codenames_llm_bias.Writer.Cascade.{All-kept, HasSources, cascade-IsKeyed, other_runs}
use codenames_llm_bias.Writer.Open.{
  IsOpen, OpenIf, write_clue-IsOpen, write_normal-OpenIf, write_sudden_death-OpenIf,
}
use codenames_llm_bias.Writer.Rows.{has_id_last, add_turn-IsKeyed}

-- The rows have their parents, and a game is there.
record HasGame (game_id : Text) (db : Database) : Type 0 where
  keyed : IsKeyed db
  game : has_game game_id db.games ≡ true

module _ (game_id : Text) (words : List (Text × ℕ)) where
  abbrev KeyedIf : Option Database → Type 0
  KeyedIf none = Unit
  KeyedIf (some db) = HasGame game_id db

  write_turn-KeyedIf :
      (t : TurnRecord) (db : Database)
      → HasGame game_id db
      → KeyedIf (write_turn words game_id t db)
  unfolding write_turn
  write_turn-KeyedIf t db h = by_phase t.phase
    where
      opened : Database
      opened = write_clue t.clue db.next_id (record db {
        next_id = suc db.next_id;
        turns =
            db.turns
            ++ (record {
              id = db.next_id;
              game_id = game_id;
              turn_number = t.turn_number;
              clue_giver_seat = t.clue_giver_seat;
              phase = t.phase;
            }
                ∷ []);
      })

      is_open : IsOpen game_id db.next_id opened
      is_open = write_clue-IsOpen game_id db.next_id t.clue _ (record {
        keyed = add_turn-IsKeyed db h.keyed _ h.game refl;
        turn = has_id_last _ db.next_id db.turns _ refl;
        game = h.game;
      })

      closed : (o : Option Database) → OpenIf game_id db.next_id o → KeyedIf o
      closed none k = tt
      closed (some d) k = record { keyed = k.keyed; game = k.game }

      by_phase :
          (p : TurnPhase)
          → KeyedIf (elim p [
            | sudden_death ↦ write_sudden_death words t db.next_id opened
            | normal ↦ write_normal words t db.next_id opened
          ])
      by_phase sudden_death =
          closed _ (write_sudden_death-OpenIf game_id db.next_id words t opened is_open)
      by_phase normal = closed _ (write_normal-OpenIf game_id db.next_id words t opened is_open)

  write_turns-KeyedIf :
      (ts : List TurnRecord) (db : Database)
      → HasGame game_id db
      → KeyedIf (write_turns words game_id ts db)
  unfolding write_turns
  write_turns-KeyedIf [] db h = h
  write_turns-KeyedIf (t ∷ ts) db h =
      by_turn _ (write_turn-KeyedIf t db h) (λ db' h'. write_turns-KeyedIf ts db' h')
    where
      by_turn :
          (o : Option Database)
          → KeyedIf o
          → ((db' : Database) → HasGame game_id db' → KeyedIf (write_turns words game_id ts db'))
          → KeyedIf (elim o [ none ↦ none | some db' ↦ write_turns words game_id ts db' ])
      by_turn none k next = tt
      by_turn (some db') k next = next db' k

has_game-append :
    (i : Text) (gs : List GameRow) (g : GameRow)
    → has_game i gs ≡ true
    → has_game i (gs ++ (g ∷ [])) ≡ true
has_game-append i [] g h = ground (arith, h)
has_game-append i (x ∷ gs) g h = ground (arith, h, has_game-append i gs g)

has_game_last : (gs : List GameRow) (g : GameRow) → has_game g.id (gs ++ (g ∷ [])) ≡ true
has_game_last [] g = ground (arith, (text_eq.decides g.id g.id).1 refl)
has_game_last (x ∷ gs) g = ground (arith, has_game_last gs g)

stored-IsKeyed :
    (db : Database) (h : GameHead) (r : GameRecorder) (status : Text)
    → IsKeyed db
    → IsKeyed (persist_game h r status db).1.1
unfolding persist_game stored_game
stored-IsKeyed db h r status k =
    by_guard
      (not (has_text h.board_id db.boards && has_run h.run_id db.runs)
        || has_game h.game_id db.games)
      refl
  where
    game : GameRow
    game = game_row h r status

    start :
        HasSources db.boards db.runs game
        → HasGame h.game_id (record db { games = db.games ++ (game ∷ []) })
    start sources = record {
      keyed = record {
        games = All-append _ db.games (game ∷ []) k.games (sources, tt);
        turns =
            All-weaken _ _ (λ t q. (has_game-append (TurnRow.game_id t) db.games game q.0, q.1))
              db.turns k.turns;
        clues = k.clues;
        clue_targets = k.clue_targets;
        proposals = k.proposals;
        items = k.items;
        links = k.links;
        reveals = k.reveals;
      };
      game = has_game_last db.games game;
    }

    words : List (Text × ℕ)
    words = word_map h.board_id db.word_cards []

    by_write :
        (o : Option Database)
        → KeyedIf h.game_id words o
        → IsKeyed
            (elim o as (λ x. Bool × (GameRecorder × Database)) [
              | none ↦ (false, (r, db))
              | some d ↦ (true, (record r { flushed = true }, d))
            ]).1.1
    by_write none q = k
    by_write (some d) q = q.keyed

    by_guard :
        (b : Bool)
        → (not (has_text h.board_id db.boards && has_run h.run_id db.runs)
            || has_game h.game_id db.games)
          ≡ b
        → IsKeyed
            (elim (if b
                then none
                else write_turns words h.game_id r.turns
                    (record db { games = db.games ++ (game ∷ []) }))
              as (λ x. Bool × (GameRecorder × Database)) [
                | none ↦ (false, (r, db))
                | some d ↦ (true, (record r { flushed = true }, d))
              ]).1.1
    by_guard true e = k
    by_guard false e = by_write _ (
        write_turns-KeyedIf h.game_id words r.turns (record db { games = db.games ++ (game ∷ []) })
          (start (ground (arith, e), ground (arith, e))))

-- Whether it succeeds or not, storing a game, deleting an error game and deleting a run keep each row under a row
-- that is there: a game under its board and, if it has one, its run, a turn under its game, a clue, a
-- proposal and a reveal under their turn, a target under its clue and an item under its proposal. An
-- item that names a reveal names one that is there. The ids of turns, clues, proposals, items and
-- reveals stay below the next one.
pub persist_game-IsKeyed :
    (db : Database)
    → IsKeyed db
    → ((h : GameHead) (r : GameRecorder) (status : Text) → IsKeyed (persist_game h r status db).1.1)
      × ((game_id run_id : Text) → IsKeyed (delete_error_game game_id run_id db).1)
      × ((run_id : Text) → IsKeyed (delete_run run_id db).1)
unfolding delete_error_game delete_run
persist_game-IsKeyed db k = (
  (λ h r status. stored-IsKeyed db h r status k),
  (λ game_id run_id. cascade-IsKeyed db db.runs _ (All-kept _ _ db.games k.games) k),
  λ run_id.
      if_cases (λ (x : DeleteRunResult × Database). IsKeyed x.1) (not (has_text run_id db.runs)) k
        (cascade-IsKeyed db _ _ (other_runs run_id db.boards db.runs db.games k.games) k),
)
