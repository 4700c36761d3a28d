-- ===== src/Batch/Site.antt =====
-- backend/app/core/batch_runner.py: what `run_batch` is given and what it calls, and what its preconditions
-- ask of the schedule and of the database.
use codenames_llm_bias.Shared.{
  ℕ, zero, suc, ◌+◌, ◌/◌, ◌%◌, Bool, Option, none, some, List, [], ◌∷◌, ◌++◌, map, if◌then◌else◌,
  ◌==◌, nat_eq, text_eq, Text, ltb, length,
}
use codenames_llm_bias.Schemas.Board.{Board}
use codenames_llm_bias.Schedule.{SeatSpec, BatchCell}
use codenames_llm_bias.Gate.{Serving, ServedEntry}
use codenames_llm_bias.Gate.Mint.{RunRow}
use codenames_llm_bias.Batch.{GameRunResult}
use codenames_llm_bias.Batch.Loop.{RecordedGame}
use codenames_llm_bias.Batch.Resume.{StoredRun, ModelEntry}
use codenames_llm_bias.Batch.Bank.{BankStore, sorted_set}

-- What `run_batch` is given and what it calls. `note_resume` answers whether the run is still there.
pub record Site (W T : Type 0) : Type 0 where
  pub models : List SeatSpec
  pub boards : List Board
  pub master_seed : ℕ
  pub temperature : T
  pub persist : Bool
  pub enforce_digests : Bool
  pub threshold : ℕ
  pub provider_wait : ℕ
  pub provider_replays : ℕ
  pub resume_run_id : Option Text
  pub retry_errors : Bool
  pub template_fingerprint : Text
  pub code_version : Option Text
  pub has_database_url : Bool
  pub migration_heads : List Text
  pub game_identity : ℕ → ℕ → Text
  pub run_identity : ℕ → Text
  pub serving : Serving
  pub bank : BankStore W
  pub database_revisions : W → List Text
  pub recorded_games : List Text → W → List (Text × RecordedGame)
  pub load_run : Text → W → Option (StoredRun T)
  pub insert_run : RunRow T → W → Text × W
  pub note_resume : Text → W → Bool × W
  pub run_single_game : Text → W → BatchCell → GameRunResult × W
  pub health_check : W → SeatSpec → Bool × W
  pub sleep : ℕ → W → W
  pub delete_error_game : Text → Text → W → W

-- `str(index)`, with the digits that are left.
abbrev digits : ℕ → ℕ → Text
digits zero n = []
digits (suc more) n = (if ltb n 10 then [] else digits more (n / 10)) ++ ((b'0' + n % 10) ∷ [])

-- The snapshot as it is stored: its values by the index of the seat.
abbrev pub keyed : ℕ → List ServedEntry → List (Text × ModelEntry)
keyed i [] = []
keyed i (e ∷ es) =
    (
      digits (suc i) i,
      record { provider = e.provider; model_name = e.model_name; identity = e.identity },
    )
    ∷ keyed (suc i) es

abbrev pub game_ids : List BatchCell → List Text
game_ids cs = map (λ c. BatchCell.game_id c) cs

abbrev pub board_ids : List BatchCell → List Text
board_ids cs = sorted_set (map (λ c. BatchCell.board_id c) cs)

-- The runs of the games that are in the way.
abbrev pub runs_of : List (Text × RecordedGame) → List Text
runs_of [] = []
runs_of ((i, g) ∷ games) =
    let rest = runs_of games in
    elim g.run_id [ none ↦ rest | some r ↦ if length r == 0 then rest else r ∷ rest ]

-- What the preconditions find: the run to resume, its games, and the hashes of the boards.
pub record Found (T : Type 0) : Type 0 where
  pub run : Option (StoredRun T)
  pub recorded : List (Text × RecordedGame)
  pub manifest : Option (List (Text × Text))
