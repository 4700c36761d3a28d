-- ===== src/Writer/Store.antt =====
-- backend/app/db/writer.py: storing and deleting a game.
use codenames_llm_bias.Shared.{
  ℕ, Bool, true, false, not, ◌&&◌, ◌||◌, Option, none, some, List, [], ◌∷◌, ◌++◌, if◌then◌else◌,
  ◌==◌, nat_eq, text_eq, Text, codes, filter, count_if, map,
}
use codenames_llm_bias.Recorder.{GameRecorder}
use codenames_llm_bias.Writer.{
  GameRow, TurnRow, ClueRow, TargetRow, ProposalRow, ItemRow, RevealRow, Database, truncated,
  word_map,
}
use codenames_llm_bias.Writer.Turns.{write_turns}

-- What `persist_game` reads of the recorder and its record does not hold.
pub record GameHead : Type 0 where
  pub game_id : Text
  pub run_id : Option Text
  pub board_id : Text
  pub error_message : Option Text

abbrev pub has_game : Text → List GameRow → Bool
has_game i [] = false
has_game i (g ∷ gs) = g.id == i || has_game i gs

abbrev pub has_text : Text → List Text → Bool
has_text i [] = false
has_text i (x ∷ xs) = x == i || has_text i xs

abbrev pub game_row : GameHead → GameRecorder → Text → GameRow
game_row h r status = record {
  id = h.game_id;
  run_id = h.run_id;
  board_id = h.board_id;
  game_status = status;
  result = r.result;
  timer_tokens_final = r.timer_tokens_final;
  error_code = r.error_code;
  error_message = truncated h.error_message 2000;
}

-- A foreign key that may be null.
abbrev pub has_run : Option Text → List Text → Bool
has_run none runs = true
has_run (some r) runs = has_text r runs

-- The transaction: `none` is a raise. The primary key refuses a game that is there, and the foreign keys of the
-- game want its board and its run. The checks of the columns' values are left out.
unfoldable pub stored_game : GameHead → GameRecorder → Text → Database → Option Database
stored_game h r status db =
    let game = game_row h r status in
    let rest =
      write_turns (word_map h.board_id db.word_cards []) h.game_id r.turns
        (record db { games = db.games ++ (game ∷ []) }) in
    if not (has_text h.board_id db.boards && has_run h.run_id db.runs)
      || has_game h.game_id db.games
    then none
    else rest

-- `session_scope` commits, or rolls back and raises; `flushed` is set after the commit.
unfoldable pub persist_game :
    GameHead → GameRecorder → Text → Database → Bool × (GameRecorder × Database)
persist_game h r status db = elim (stored_game h r status db) [
  | none ↦ (false, (r, db))
  | some db' ↦ (true, (record r { flushed = true }, db'))
]

abbrev pub has_id : {A : Type 0} → (A → ℕ) → ℕ → List A → Bool
has_id id i [] = false
has_id id i (x ∷ xs) = id x == i || has_id id i xs

-- `ON DELETE SET NULL`: an item forgets a reveal that is gone.
abbrev pub has_reveal : Option ℕ → List RevealRow → Bool
has_reveal none reveals = true
has_reveal (some i) reveals = has_id (λ v. RevealRow.id v) i reveals

abbrev pub unlink : List RevealRow → ItemRow → ItemRow
unlink reveals x =
    if has_reveal x.reveal_event_id reveals then x else record x { reveal_event_id = none }

-- `ON DELETE CASCADE`: the rows whose parent is gone go too.
unfoldable pub cascade : Database → Database
cascade db =
    let turns = filter (λ t. has_game (TurnRow.game_id t) db.games) db.turns in
    let clues = filter (λ c. has_id (λ t. TurnRow.id t) (ClueRow.turn_id c) turns) db.clues in
    let proposals =
      filter (λ p. has_id (λ t. TurnRow.id t) (ProposalRow.turn_id p) turns) db.proposals in
    let reveals = filter (λ v. has_id (λ t. TurnRow.id t) (RevealRow.turn_id v) turns) db.reveals in
    record db {
      turns = turns;
      clues = clues;
      clue_targets =
          filter (λ t. has_id (λ c. ClueRow.id c) (TargetRow.clue_id t) clues) db.clue_targets;
      proposals = proposals;
      items = map (unlink reveals) (
          filter (λ x. has_id (λ p. ProposalRow.id p) (ItemRow.guess_proposal_id x) proposals)
            db.items);
      reveals = reveals;
    }

abbrev pub is_of_run : Text → GameRow → Bool
is_of_run run_id g = elim g.run_id [ none ↦ false | some r ↦ r == run_id ]

abbrev pub is_error_of : Text → Text → GameRow → Bool
is_error_of game_id run_id g =
    g.id == game_id && is_of_run run_id g && g.game_status == codes "error"

unfoldable pub delete_error_game : Text → Text → Database → Bool × Database
delete_error_game game_id run_id db = (
  not (count_if (is_error_of game_id run_id) db.games == 0),
  cascade (record db { games = filter (λ g. not (is_error_of game_id run_id g)) db.games }),
)

pub record DeleteRunResult : Type 0 where
  pub found : Bool
  pub games_deleted : ℕ

unfoldable pub delete_run : Text → Database → DeleteRunResult × Database
delete_run run_id db =
    if not (has_text run_id db.runs) then (record { found = false; games_deleted = 0 }, db) else (
      record { found = true; games_deleted = count_if (is_of_run run_id) db.games },
      cascade (record db {
        runs = filter (λ r. not (r == run_id)) db.runs;
        games = filter (λ g. not (is_of_run run_id g)) db.games;
      }),
    )
