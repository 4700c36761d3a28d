-- ===== src/Writer/Refines.antt =====
-- backend/app/db/writer.py: what each operation is on the table of games.
use codenames_llm_bias.Shared.{
  all_of, not, ◌&&◌, ◌≡◌, ◌≢◌, ◌↔◌, ◌+◌, length, Bool, true, false, none, some, if◌then◌else◌,
  nat_eq, text_eq, Text,
}
use codenames_llm_bias.Recorder.{GameRecorder}
use codenames_llm_bias.Writer.{GameRow, Database}
use codenames_llm_bias.Writer.Store.{
  GameHead, has_game, has_text, has_run, DeleteRunResult, game_row, persist_game, delete_error_game,
  delete_run,
}
use codenames_llm_bias.Writer.Writable.{is_writable}
use codenames_llm_bias.Writer.Drops.{store_of, IsErrorOf, without}
use codenames_llm_bias.Writer.Table.{IsUnique, put}

-- Storing a game puts its row under an id that had none, for a board and a run that are there, or changes
-- nothing.
abbrev pub PutsGame :
    GameHead → GameRecorder → Text → Database → Bool × (GameRecorder × Database) → Type 0
PutsGame h r status db (true, (r', db')) =
    (store_of db h.game_id ≡ none)
    × (has_text h.board_id db.boards ≡ true)
    × (has_run h.run_id db.runs ≡ true)
    × (r' ≡ record r { flushed = true })
    × ((i : Text) → store_of db' i ≡ put h.game_id (game_row h r status) (store_of db) i)
    × IsUnique db'.games
PutsGame h r status db (false, (r', db')) = (r' ≡ r) × (db' ≡ db)

-- Deleting an error game answers whether the id has a game that is an error of the run; if it has, that game is
-- gone, and no other row has changed.
pub record DropsError (db : Database) (game_id run_id : Text) (result : Bool × Database)
    : Type 0 where
  pub answered : (result.0 ≡ true) ↔ IsErrorOf game_id run_id db
  pub store :
      (i : Text)
      → store_of result.1 i ≡ (if result.0 then without game_id (store_of db) else store_of db) i
  pub unique : IsUnique result.1.games

-- Deleting a run tells whether the run was there and how many games went with it; the rows that are left are those
-- of the games that are not of the run.
pub record DropsRun (db : Database) (run_id : Text) (result : DeleteRunResult × Database)
    : Type 0 where
  pub found : result.0.found ≡ has_text run_id db.runs
  pub gone : has_text run_id result.1.runs ≡ false
  pub store :
      (i : Text) (g : GameRow)
      → (store_of result.1 i ≡ some g) ↔ ((store_of db i ≡ some g) × (g.run_id ≢ some run_id))
  pub count : length db.games ≡ result.0.games_deleted + length result.1.games
  pub unique : IsUnique result.1.games

pub record RefinesStore (db : Database) : Type 0 where
  pub accepts :
      (h : GameHead) (r : GameRecorder) (status : Text)
      → (persist_game h r status db).0 ≡ (
          has_text h.board_id db.boards
          && has_run h.run_id db.runs
          && not (has_game h.game_id db.games)
          && all_of is_writable r.turns)
  pub stores :
      (h : GameHead) (r : GameRecorder) (status : Text)
      → PutsGame h r status db (persist_game h r status db)
  pub deletes :
      (game_id run_id : Text) → DropsError db game_id run_id (delete_error_game game_id run_id db)
  pub drops : (run_id : Text) → DropsRun db run_id (delete_run run_id db)
