-- ===== src/Tests/Starts.antt =====
-- backend/app/core/batch_runner.py and backend/app/core/game_runner.py: a batch that mints its run, and the gate.
use codenames_llm_bias.Shared.{
  ℕ, suc, ◌≡◌, ◌↔◌, refl, true, false, Option, none, some, List, [], ◌∷◌, map, nat_eq, text_eq,
  codes, All, sort, insert, text_leb, lower, strip, starts_with, arith,
}
use codenames_llm_bias.Schedule.{
  BatchCell, build_schedule, Result, ok, err, by_id, select_boards, bank_of, pairing_keys,
  pairing_cells, batch_cells, cell, pair_leb,
}
use codenames_llm_bias.Gate.{
  enforce_ollama_version, enforce_local_digests, enforce_openrouter_routing, first_error,
  check_digest, registry_entry, normalize_digest, Serving, ServedEntry, passed,
  served_registry_snapshot, model_registry_snapshot,
}
use codenames_llm_bias.Gate.Mint.{RunRow, create_run}
use codenames_llm_bias.Gate.Vetted.{IsVetted, VersionIsExpected, served_registry_snapshot_iff}
use codenames_llm_bias.Batch.{GameRunResult, update}
use codenames_llm_bias.Batch.Loop.{
  visit, enter, settle, play_cell, play_schedule, kept_games, open_reports,
}
use codenames_llm_bias.Batch.Outcome.{play_batch, batch_report}
use codenames_llm_bias.Batch.Run.Ready.{IsReadyIn, run_batch-IsReadyIn}
use codenames_llm_bias.Batch.Run.Sums.{AddsUp, run_batch-AddsUp}
use codenames_llm_bias.Batch.Run.Again.{CanResume, create_run-CanResume}
use codenames_llm_bias.Batch.Setup.{◌>>=◌}
use codenames_llm_bias.Batch.Bank.{ingest_bank, frame_stored, boards_stored}
use codenames_llm_bias.Batch.Run.{
  Started, scheduled, found, found_in_database, check_schema_at_head, check_no_collisions, minted,
  loop_setting, set_up, run_batch, RunReport, Ran, returned, raised, unended,
}
use codenames_llm_bias.Batch.Site.{Site}
use codenames_llm_bias.Tests.Schedules.{four_models, bank, identity}

abbrev serving : Serving
serving = record {
  expected_version = codes "0.9";
  expected_digest = λ m. some (codes "sha256:AB");
  server_version = some (codes "0.9");
  digest_of = λ m. some (codes "ab");
  provider_routing = λ m. none;
}

abbrev completes : GameRunResult
completes = record { status = codes "completed"; error = none; error_code = none }

-- The world counts the games.
abbrev site : Site ℕ ℕ
site = record {
  models = four_models;
  boards = bank;
  master_seed = 7;
  temperature = 1;
  persist = true;
  enforce_digests = true;
  threshold = 5;
  provider_wait = 20;
  provider_replays = 2;
  resume_run_id = none;
  retry_errors = false;
  template_fingerprint = codes "t";
  code_version = some (codes "v");
  has_database_url = true;
  migration_heads = codes "h" ∷ [];
  game_identity = identity;
  run_identity = λ seed. codes "dry";
  serving = serving;
  bank = record {
    frame_exists = λ w. true;
    ingest_frame = λ w. (frame_stored true, w);
    ingest_boards = λ w. (boards_stored 16, w);
    stored_hashes = λ ids w. map (λ i. (i, some i)) ids;
  };
  database_revisions = λ w. codes "h" ∷ [];
  recorded_games = λ ids w. [];
  load_run = λ i w. none;
  insert_run = λ row w. (codes "r", w);
  note_resume = λ i w. (true, w);
  run_single_game = λ r w c. (completes, suc w);
  health_check = λ w spec. (true, w);
  sleep = λ n w. w;
  delete_error_game = λ g r w. w;
}

abbrev none_yet : RunReport site
none_yet = record { run_id = []; resumes = false; outage = none; totals = batch_report [] }

abbrev report_of : Ran site → RunReport site
report_of (returned r) = r
report_of (raised x) = none_yet
report_of unended = none_yet

abbrev games_in : Ran site × ℕ → ℕ
games_in (returned r, w) = w
games_in (raised x, w) = 0
games_in (unended, w) = 0

-- The batch plays its 192 games and returns a report.
site_games : games_in (run_batch site 0) ≡ 192
unfolding run_batch set_up scheduled found found_in_database check_schema_at_head
    check_no_collisions ingest_bank minted create_run served_registry_snapshot
    enforce_ollama_version enforce_local_digests enforce_openrouter_routing first_error check_digest
    registry_entry model_registry_snapshot normalize_digest loop_setting ◌>>=◌ play_batch
    play_schedule visit enter settle play_cell kept_games open_reports update build_schedule by_id
    select_boards bank_of pairing_keys pairing_cells batch_cells cell sort insert text_leb pair_leb
    lower strip starts_with
site_games = refl

returned_of : (x : Ran site × ℕ) → games_in x ≡ 192 → x ≡ (returned (report_of x.0), x.1)
returned_of (returned r, w) h = refl
returned_of (raised x, w) h = ground (arith, h)
returned_of (unended, w) h = ground (arith, h)

run_batch-IsReadyIn_example :
    (s : Started site) × IsReadyIn site 0 s
    × ((report_of (run_batch site 0).0).run_id ≡ s.run_id)
    × ((report_of (run_batch site 0).0).resumes ≡ s.resumes)
run_batch-IsReadyIn_example =
    run_batch-IsReadyIn site 0 (run_batch site 0).1 (report_of (run_batch site 0).0)
      (returned_of (run_batch site 0) site_games)

run_batch-AddsUp_example : AddsUp site (run_batch site 0).0
run_batch-AddsUp_example = run_batch-AddsUp site 0

served_registry_snapshot_iff_example :
    ((served_registry_snapshot serving true four_models ≡ passed []) ↔ (
      VersionIsExpected serving four_models
      × All (IsVetted serving) four_models
      × ([] ≡ model_registry_snapshot serving four_models)))
    × (served_registry_snapshot serving false four_models
        ≡ passed (model_registry_snapshot serving four_models))
served_registry_snapshot_iff_example = served_registry_snapshot_iff serving four_models []

abbrev cells_of : Result (List BatchCell) → List BatchCell
cells_of (ok cells) = cells
cells_of (err e) = []

abbrev cells : List BatchCell
cells = cells_of (build_schedule identity 7 four_models bank)

cells_built : build_schedule identity 7 four_models bank ≡ ok cells
unfolding run_batch set_up scheduled found found_in_database check_schema_at_head
    check_no_collisions ingest_bank minted create_run served_registry_snapshot
    enforce_ollama_version enforce_local_digests enforce_openrouter_routing first_error check_digest
    registry_entry model_registry_snapshot normalize_digest loop_setting ◌>>=◌ play_batch
    play_schedule visit enter settle play_cell kept_games open_reports update build_schedule by_id
    select_boards bank_of pairing_keys pairing_cells batch_cells cell sort insert text_leb pair_leb
    lower strip starts_with
cells_built = refl

abbrev snapshot : Option (List ServedEntry)
snapshot = some (model_registry_snapshot serving four_models)

minted_run :
    create_run serving site.insert_run
      (some (codes "v"))
      site.run_identity
      true
      true
      four_models
      7
      1
      (codes "t")
      (some ((codes "c1", codes "h") ∷ []))
      0
    ≡ (passed (codes "r", snapshot), 0)
unfolding run_batch set_up scheduled found found_in_database check_schema_at_head
    check_no_collisions ingest_bank minted create_run served_registry_snapshot
    enforce_ollama_version enforce_local_digests enforce_openrouter_routing first_error check_digest
    registry_entry model_registry_snapshot normalize_digest loop_setting ◌>>=◌ play_batch
    play_schedule visit enter settle play_cell kept_games open_reports update build_schedule by_id
    select_boards bank_of pairing_keys pairing_cells batch_cells cell sort insert text_leb pair_leb
    lower strip starts_with
minted_run = refl

create_run-CanResume_example :
    (row : RunRow ℕ) × (site.insert_run row 0 ≡ (codes "r", 0))
    × CanResume serving site.insert_run
        (some (codes "v"))
        site.run_identity
        identity
        cells
        four_models
        7
        1
        (codes "t")
        ((codes "c1", codes "h") ∷ [])
        true
        (codes "r")
        row
create_run-CanResume_example =
    create_run-CanResume serving site.insert_run (some (codes "v")) site.run_identity identity cells
      four_models bank 7 1 (codes "t") ((codes "c1", codes "h") ∷ []) true 0 0 (codes "r") snapshot
      cells_built minted_run
