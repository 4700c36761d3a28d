-- ===== src/Batch/Run/Again.antt =====
-- backend/app/core/batch_runner.py: a run that was minted is one that the same batch resumes.
use codenames_llm_bias.Shared.{
  ℕ, ◌≡◌, refl, sym, ap, subst, ◌∙◌, Bool, true, false, Option, none, some, List, [], Eq, nat_eq,
  text_eq, Text, get_item, sort, text_leb, All, All-always, arith,
}
use codenames_llm_bias.Schemas.Board.{Board}
use codenames_llm_bias.Schedule.{SeatSpec, BatchCell, build_schedule, ok}
use codenames_llm_bias.Schedule.Calendar.{build_schedule-IsReady}
use codenames_llm_bias.Gate.{
  Serving, ServedEntry, model_registry_snapshot, Gated, passed, refused, served_registry_snapshot,
}
use codenames_llm_bias.Gate.Vetted.{served_registry_snapshot_iff}
use codenames_llm_bias.Gate.Mint.{RunRow, row_of, mint_gated, create_run}
use codenames_llm_bias.Batch.Loop.{RecordedGame}
use codenames_llm_bias.Batch.Resume.{
  StoredRun, snapshot_models, identity_of, resume_problems, served_model_problems,
  manifest_problems,
}
use codenames_llm_bias.Batch.Resume.Changes.{AllOwn, resume_problems_iff}
use codenames_llm_bias.Batch.Resume.Served.{served_model_problems_iff, manifest_problems_iff}
use codenames_llm_bias.Batch.Site.{keyed}
use codenames_llm_bias.Batch.Run.Snapshots.{keys_of, snapshot_models_lem}

-- `load_run` on the row of a run: `get_run`, and the columns that a resume checks.
unfoldable pub read_back : {T : Type 0} → Text → RunRow T → StoredRun T
read_back run_id row = record {
  run_id = run_id;
  master_seed = some row.master_seed;
  temperature = row.temperature;
  prompt_template_version = some row.prompt_template_version;
  code_version = row.code_version;
  model_registry_snapshot = elim row.model_registry_snapshot [
    | none ↦ none
    | some es ↦ some (keyed 0 es)
  ];
  stimulus_manifest = row.stimulus_manifest;
}

unpassed : {A : Type 0} (x y : A) → passed x ≡ passed y → x ≡ y
unpassed x y h = ground (arith, h)

unsome : {A : Type 0} (x y : A) → some x ≡ some y → x ≡ y
unsome x y h = ground (arith, h)

paired : {A B : Type 0} (p : A × B) (a : A) (b : B) → p.0 ≡ a → p.1 ≡ b → p ≡ (a, b)
paired p a b q r = λ i. (q i, r i)

pub passed_lem :
    (s : Serving) (enforce : Bool) (specs : List SeatSpec) (snapshot : List ServedEntry)
    → served_registry_snapshot s enforce specs ≡ passed snapshot
    → snapshot ≡ model_registry_snapshot s specs
passed_lem s true specs snapshot h = ((served_registry_snapshot_iff s specs snapshot).0.0 h).2
passed_lem s false specs snapshot h =
    unpassed snapshot _ (sym h ∙ (served_registry_snapshot_iff s specs snapshot).1)

module _ {W T : Type 0} ⦃eq : Eq T⦄ (s : Serving) (insert_run : RunRow T → W → Text × W)
    (code_version : Option Text) (run_identity : ℕ → Text) (game_identity : ℕ → ℕ → Text) where
  -- No resume of the run, while the same is served, meets a problem.
  pub record CanResume (schedule : List BatchCell) (models : List SeatSpec) (seed : ℕ) (t : T)
      (tf : Text) (manifest : List (Text × Text)) (enforce : Bool) (run_id : Text) (row : RunRow T)
      : Type 0 where
    pub resumable :
        (recorded : List (Text × RecordedGame))
        → AllOwn run_id recorded schedule
        → resume_problems (read_back run_id row) schedule models seed t tf recorded ≡ []
    pub served :
        (snapshot : List ServedEntry)
        → served_registry_snapshot s enforce models ≡ passed snapshot
        → served_model_problems (read_back run_id row) (some (keyed 0 snapshot)) ≡ []
    pub unchanged : manifest_problems (read_back run_id row) manifest ≡ []

  row_CanResume :
      (schedule : List BatchCell) (models : List SeatSpec) (boards : List Board) (seed : ℕ) (t : T)
      (tf : Text) (manifest : List (Text × Text)) (enforce : Bool) (run_id : Text)
      (snapshot : List ServedEntry)
      → build_schedule game_identity seed models boards ≡ ok schedule
      → served_registry_snapshot s enforce models ≡ passed snapshot
      → CanResume schedule models seed t tf manifest enforce run_id
          (row_of s insert_run code_version run_identity seed t tf (some manifest) (some snapshot))
  unfolding read_back
  row_CanResume schedule models boards seed t tf manifest enforce run_id snapshot built gate =
      let row =
        row_of s insert_run code_version run_identity seed t tf (some manifest) (some snapshot) in
      let run = read_back run_id row in
      let distinct =
        (build_schedule-IsReady game_identity seed models boards schedule built).distinct in
      let same = passed_lem s enforce models snapshot gate in
      record {
        resumable = λ recorded own.
            (resume_problems_iff run schedule models seed t tf recorded).1 (record {
              seed = refl;
              heat = refl;
              templates = refl;
              same_models = ap (sort text_leb) (
                  ap (λ x. keys_of (snapshot_models (some (keyed 0 x)))) same
                  ∙ snapshot_models_lem s models distinct);
              games = own;
            });
        served = λ now g. (served_model_problems_iff run (some (keyed 0 now))).1 (
            subst
              (λ x.
                All
                  (λ m.
                    identity_of m (snapshot_models (some (keyed 0 x)))
                    ≡ identity_of m (snapshot_models (some (keyed 0 snapshot))))
                  (keys_of (snapshot_models (some (keyed 0 snapshot)))))
              (same ∙ sym (passed_lem s enforce models now g)) (All-always _ (λ m. refl) _));
        unchanged =
            (manifest_problems_iff run manifest).1
              (λ minted e n k. ap (λ m. get_item k m) (unsome minted manifest (sym e)));
      }

  -- A run that is minted with a row can be resumed by the batch that minted it. The row read back meets no
  -- problem for the schedule, the models, the seed, the temperature and the templates, whichever games of
  -- the schedule are recorded since, if each is under the run and on its board; none for what passes
  -- the gate while the daemon and the configuration stay as they are; and none for the same boards.
  pub create_run-CanResume :
      (schedule : List BatchCell) (models : List SeatSpec) (boards : List Board) (seed : ℕ) (t : T)
      (tf : Text) (manifest : List (Text × Text)) (enforce : Bool) (w w' : W) (run_id : Text)
      (snap : Option (List ServedEntry))
      → build_schedule game_identity seed models boards ≡ ok schedule
      → create_run s insert_run code_version run_identity true enforce models seed t tf
          (some manifest)
          w
        ≡ (passed (run_id, snap), w')
      → (row : RunRow T) × (insert_run row w ≡ (run_id, w'))
        × CanResume schedule models seed t tf manifest enforce run_id row
  unfolding create_run
  create_run-CanResume schedule models boards seed t tf manifest enforce w w' run_id snap built h =
      by_gate (served_registry_snapshot s enforce models) refl h
    where
      row : Option (List ServedEntry) → RunRow T
      row = row_of s insert_run code_version run_identity seed t tf (some manifest)

      by_gate :
          (g : Gated (List ServedEntry))
          → served_registry_snapshot s enforce models ≡ g
          → mint_gated s insert_run code_version run_identity true row g w
            ≡ (passed (run_id, snap), w')
          → (r : RunRow T) × (insert_run r w ≡ (run_id, w'))
            × CanResume schedule models seed t tf manifest enforce run_id r
      by_gate (refused x) q k = ground (arith, ap (λ p. p.0) k)
      by_gate (passed snapshot) q k = (
        row (some snapshot),
        paired _ run_id w' (ap (λ x. x.0) (unpassed _ (run_id, snap) (ap (λ p. p.0) k)))
            (ap (λ p. p.1) k),
        row_CanResume schedule models boards seed t tf manifest enforce run_id snapshot built q,
      )
