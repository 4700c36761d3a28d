-- ===== src/Batch/Run.antt =====
-- backend/app/core/batch_runner.py, `run_batch`: the preconditions, the run that is minted or resumed, the
-- play of the schedule and the report. The database, the migrations, the bank and the games are
-- parameters, and so is what the daemon serves while the batch is set up.
use codenames_llm_bias.Shared.{
  ℕ, zero, suc, ◌+◌, ◌/◌, ◌%◌, Bool, true, false, not, ◌||◌, ◌&&◌, Option, none, some, List, [],
  ◌∷◌, ◌++◌, map, if◌then◌else◌, ◌==◌, Eq, nat_eq, text_eq, Text, ltb, length, contains, filter,
  sort, text_leb, same_texts, subset_of,
}
use codenames_llm_bias.Schemas.Board.{Board}
use codenames_llm_bias.Schedule.{SeatSpec, model_id, BatchCell, build_schedule, ok, err}
use codenames_llm_bias.Gate.{Serving, ServedEntry, Gated, passed, refused, served_registry_snapshot}
use codenames_llm_bias.Gate.Mint.{RunRow, create_run}
use codenames_llm_bias.Batch.{GameRunResult}
use codenames_llm_bias.Batch.Loop.{RecordedGame, Setting, Batch, kept_games}
use codenames_llm_bias.Batch.Outcome.{BatchReport, batch_report, play_batch}
use codenames_llm_bias.Batch.Resume.{
  StoredRun, ModelEntry, ResumeProblem, resume_problems, served_model_problems, manifest_problems,
}
use codenames_llm_bias.Batch.Setup.{
  Setup, Outcome, done, stopped, pure, stop, gets, ◌>>=◌, require, Refusal, no_schedule,
  not_in_bank, resume_without_persist, no_database_url, other_schema, no_run, run_vanished,
  already_recorded, cannot_resume, ungated, models_or_boards_changed,
}
use codenames_llm_bias.Batch.Bank.{BankStore, ingest_bank, sorted_set, missing_from}
use codenames_llm_bias.Batch.Site.{Site, keyed, game_ids, board_ids, runs_of, Found}
pub mod Starts
pub mod Safe
pub mod Begun
pub mod Ready
pub mod Sums
pub mod Snapshots
pub mod Again

module _ {W T : Type 0} ⦃eq : Eq T⦄ (b : Site W T) where
  unfoldable pub scheduled : Setup W (List BatchCell)
  scheduled = do
    schedule ← elim (build_schedule b.game_identity b.master_seed b.models b.boards) [
      | ok cells ↦ pure cells
      | err e ↦ stop (no_schedule e)
    ]
    let missing = missing_from (map (λ x. Board.board_id x) b.boards) (board_ids schedule)
    _ ← require (length missing == 0) (not_in_bank missing)
    let resumes : Bool = elim b.resume_run_id [ none ↦ false | some i ↦ true ]
    _ ← require (b.persist || not resumes) resume_without_persist
    pure schedule

  -- `_check_schema_at_head`, on two sets.
  unfoldable pub check_schema_at_head : Setup W Unit
  check_schema_at_head = do
    current ← gets b.database_revisions
    require (subset_of current b.migration_heads && subset_of b.migration_heads current)
        other_schema

  unfoldable pub check_no_collisions : List Text → Setup W Unit
  check_no_collisions ids = do
    existing ← gets (b.recorded_games ids)
    require (length existing == 0) (already_recorded (sorted_set (runs_of existing)))

  -- Level 1c of a resume.
  unfoldable pub resumable :
      Text → List BatchCell → Setup W (StoredRun T × List (Text × RecordedGame))
  resumable run_id schedule = do
    loaded ← gets (b.load_run run_id)
    run ← elim loaded [ none ↦ stop no_run | some r ↦ pure r ]
    recorded ← gets (b.recorded_games (game_ids schedule))
    let problems =
        resume_problems run schedule b.models b.master_seed b.temperature b.template_fingerprint
          recorded
    _ ← require (length problems == 0) (cannot_resume problems)
    pure (run, recorded)

  -- Levels 1e, 1c and 1d, of a batch that is stored.
  unfoldable pub found_in_database : List BatchCell → Setup W (Found T)
  found_in_database schedule = do
    _ ← require b.has_database_url no_database_url
    _ ← check_schema_at_head
    (run, recorded) ←
        elim b.resume_run_id as (λ x. Setup W (Option (StoredRun T) × List (Text × RecordedGame))) [
          | none ↦ check_no_collisions (game_ids schedule) >>= λ u. pure (none, [])
          | some run_id ↦ resumable run_id schedule >>= λ r. pure (some r.0, r.1)
        ]
    manifest ← ingest_bank b.bank (board_ids schedule)
    pure (record { run = run; recorded = recorded; manifest = some manifest })

  unfoldable pub found : List BatchCell → Setup W (Found T)
  found schedule =
      if b.persist
      then found_in_database schedule
      else pure (record { run = none; recorded = []; manifest = none })

  -- Level 1b: the run is minted.
  unfoldable pub minted : Option (List (Text × Text)) → Setup W Text
  minted manifest w =
      let (r, w') =
        create_run b.serving b.insert_run b.code_version b.run_identity b.persist b.enforce_digests
          b.models b.master_seed b.temperature b.template_fingerprint manifest w in
      elim r [ passed (run_id, snapshot) ↦ pure run_id w' | refused x ↦ stop (ungated x) w' ]

  abbrev pub noted : Text → Setup W Bool
  noted run_id w = let (is_there, w') = b.note_resume run_id w in (done is_there, w')

  -- Level 1b of a resume; the warnings are left out.
  unfoldable pub resumed : StoredRun T → Option (List (Text × Text)) → Setup W Text
  resumed run manifest = do
    snapshot ← elim (served_registry_snapshot b.serving b.enforce_digests b.models) [
      | passed es ↦ pure es
      | refused x ↦ stop (ungated x)
    ]
    let models = served_model_problems run (some (keyed 0 snapshot))
    let boards = manifest_problems run (elim manifest [ none ↦ [] | some m ↦ m ])
    _ ← require (length models == 0 && length boards == 0) (models_or_boards_changed models boards)
    is_there ← noted run.run_id
    _ ← require is_there run_vanished
    pure run.run_id

  pub record Started : Type 0 where
    pub schedule : List BatchCell
    pub run_id : Text
    pub resumes : Bool
    pub recorded : List (Text × RecordedGame)

  unfoldable pub set_up : Setup W Started
  set_up = do
    schedule ← scheduled
    f ← found schedule
    run_id ← elim f.run [ none ↦ minted f.manifest | some run ↦ resumed run f.manifest ]
    let resumes : Bool = elim f.run [ none ↦ false | some run ↦ true ]
    pure (record { schedule = schedule; run_id = run_id; resumes = resumes; recorded = f.recorded })

  unfoldable pub loop_setting : Started → Setting W
  loop_setting s = record {
    run_single_game = b.run_single_game s.run_id;
    health_check = b.health_check;
    sleep = b.sleep;
    delete_error_game = λ game_id. b.delete_error_game game_id s.run_id;
    kept = kept_games b.retry_errors s.recorded;
    recorded = s.recorded;
    persist = b.persist;
    threshold = b.threshold;
    provider_wait = b.provider_wait;
    provider_replays = b.provider_replays;
  }

  -- The report, with what identifies the run; `outage` is `aborted_reason`.
  pub record RunReport : Type 0 where
    pub run_id : Text
    pub resumes : Bool
    pub outage : Option (Option Text)
    pub totals : BatchReport

  -- How a batch ends. `unended` is a loop that is not done.
  pub data Ran : Type 0 where
    returned : RunReport → Ran
    raised : Refusal → Ran
    unended : Ran

  abbrev pub played_out : Started → W → Ran × W
  played_out s w = elim (play_batch (loop_setting s) s.schedule w) [
    | none ↦ (unended, w)
    | some e ↦ (
      returned (record {
        run_id = s.run_id;
        resumes = s.resumes;
        outage = e.outage;
        totals = batch_report e.reports;
      }),
      e.world,
    )
  ]

  unfoldable pub run_batch : W → Ran × W
  run_batch w =
      let (r, w') = set_up w in elim r [ stopped x ↦ (raised x, w') | done s ↦ played_out s w' ]
