-- ===== src/Batch/Run/Starts.antt =====
-- backend/app/core/batch_runner.py: what holds when the preconditions of a batch have let it start.
use codenames_llm_bias.Shared.{
  ◌≡◌, refl, sym, ap, subst, ◌∙◌, true, false, not, ◌&&◌, ◌||◌, none, some, List, [], ◌∷◌, ◌==◌, Eq,
  nat_eq, Text, text_eq, length, arith, subset_of,
}
use codenames_llm_bias.Schedule.{BatchCell, Result, build_schedule, ok, err}
use codenames_llm_bias.Batch.Loop.{RecordedGame}
use codenames_llm_bias.Batch.Resume.{StoredRun}
use codenames_llm_bias.Batch.Resume.Changes.{IsSameBatch, resume_problems_iff}
use codenames_llm_bias.Batch.Setup.{
  pure, stop, Does, Does-bind, Does-require, Does-pure, Does-gets, Does-given, stopped-done, no_run,
  no_schedule,
}
use codenames_llm_bias.Batch.Bank.{ingest_bank, IsIngested}
use codenames_llm_bias.Batch.Run.{scheduled, check_schema_at_head, check_no_collisions, resumable}
use codenames_llm_bias.Batch.Site.{Site, game_ids, board_ids, Found}

pub empty : {A : Type 0} (xs : List A) → (length xs == 0) ≡ true → xs ≡ []
empty [] h = refl
empty (x ∷ xs) h = ground (arith, h)

module _ {W T : Type 0} ⦃eq : Eq T⦄ (b : Site W T) where
  -- The stored run can be resumed by this batch, given the games that are recorded.
  pub record Resumes (w : W) (run_id : Text) (schedule : List BatchCell)
      (recorded : List (Text × RecordedGame)) (run : StoredRun T) : Type 0 where
    pub loaded : b.load_run run_id w ≡ some run
    pub same :
        IsSameBatch run schedule b.models b.master_seed b.temperature b.template_fingerprint
          recorded
    pub games : recorded ≡ b.recorded_games (game_ids schedule) w

  pub resumable_lem :
      (run_id : Text) (schedule : List BatchCell) (w : W)
      (r : StoredRun T × List (Text × RecordedGame)) (w' : W)
      → Does (resumable b run_id schedule) w r w'
      → Resumes w run_id schedule r.1 r.0 × (w ≡ w')
  unfolding resumable
  resumable_lem run_id schedule w r w' h =
      let (loaded, v, h1, k1) = Does-bind _ _ w r w' h in
      let (run, u, h2, k2) = Does-bind _ _ v r w' k1 in
      let (recorded, t, h3, k3) = Does-bind _ _ u r w' k2 in
      let (x, s, h4, k4) = Does-bind _ _ t r w' k3 in
      let (q1, e1) = Does-gets (b.load_run run_id) loaded w v h1 in
      let (q2, e2) = Does-given loaded no_run run v u h2 in
      let (q3, e3) = Does-gets (b.recorded_games (game_ids schedule)) recorded u t h3 in
      let (q4, e4) = Does-require _ _ t s h4 in
      let (q5, e5) = Does-pure (run, recorded) r s w' k4 in
      let games : recorded ≡ b.recorded_games (game_ids schedule) w =
        sym (ap (b.recorded_games (game_ids schedule)) (e1 ∙ e2) ∙ q3) in
      let found : Resumes w run_id schedule recorded run = record {
        loaded = q1 ∙ q2;
        same =
            (resume_problems_iff run schedule b.models b.master_seed b.temperature
                b.template_fingerprint recorded).0
              (empty _ q4);
        games = games;
      } in
      (
        subst (λ (p : StoredRun T × List (Text × RecordedGame)). Resumes w run_id schedule p.1 p.0)
            q5 found,
        e1 ∙ e2 ∙ e3 ∙ e4 ∙ e5,
      )

  built_lem :
      (r : Result (List BatchCell)) (cells : List BatchCell) (w w' : W)
      → Does (elim r [ ok cs ↦ pure cs | err e ↦ stop (no_schedule e) ]) w cells w'
      → (r ≡ ok cells) × (w ≡ w')
  built_lem (ok cs) cells w w' h = let (q, e) = Does-pure cs cells w w' h in (ap ok q, e)
  built_lem (err x) cells w w' h = absurd (stopped-done (no_schedule x) cells (ap (λ p. p.0) h))

  -- `scheduled` gives the schedule of the batch, and changes nothing.
  pub scheduled_lem :
      (w : W) (schedule : List BatchCell) (w' : W)
      → Does (scheduled b) w schedule w'
      → (build_schedule b.game_identity b.master_seed b.models b.boards ≡ ok schedule)
        × (w ≡ w')
        × ((b.persist || not (elim b.resume_run_id [ none ↦ false | some i ↦ true ])) ≡ true)
  unfolding scheduled
  scheduled_lem w schedule w' h =
      let (cells, v, h1, k1) = Does-bind _ _ w schedule w' h in
      let (x, u, h2, k2) = Does-bind _ _ v schedule w' k1 in
      let (y, t, h3, k3) = Does-bind _ _ u schedule w' k2 in
      let (q1, e1) = built_lem _ cells w v h1 in
      let (q2, e2) = Does-require _ _ v u h2 in
      let (q3, e3) = Does-require _ _ u t h3 in
      let (q4, e4) = Does-pure cells schedule t w' k3 in (q1 ∙ ap ok q4, e1 ∙ e2 ∙ e3 ∙ e4, q3)

  -- What is found in the database, and what is found without one.
  pub record IsFound (w : W) (schedule : List BatchCell) (f : Found T) (w' : W) : Type 0 where
    pub url : b.persist ≡ true → b.has_database_url ≡ true
    pub schema :
        b.persist ≡ true
        → (subset_of (b.database_revisions w) b.migration_heads ≡ true)
          × (subset_of b.migration_heads (b.database_revisions w) ≡ true)
    pub ingested :
        b.persist ≡ true
        → (m : List (Text × Text)) × (f.manifest ≡ some m)
          × IsIngested b.bank (board_ids schedule) w' m
          × Does (ingest_bank b.bank (board_ids schedule)) w m w'
    pub fresh : b.persist ≡ true → f.run ≡ none → b.recorded_games (game_ids schedule) w ≡ []
    pub unrecorded : f.run ≡ none → f.recorded ≡ []
    pub resumes :
        (run : StoredRun T)
        → f.run ≡ some run
        → (run_id : Text) × (b.resume_run_id ≡ some run_id)
          × Resumes w run_id schedule f.recorded run

  pub collisions_lem :
      (ids : List Text) (w w' : W)
      → Does (check_no_collisions b ids) w tt w'
      → (b.recorded_games ids w ≡ []) × (w ≡ w')
  unfolding check_no_collisions
  collisions_lem ids w w' h =
      let (existing, v, h1, k1) = Does-bind _ _ w tt w' h in
      let (q1, e1) = Does-gets (b.recorded_games ids) existing w v h1 in
      let (q2, e2) = Does-require _ _ v w' k1 in (q1 ∙ empty existing q2, e1 ∙ e2)

  pub schema_lem :
      (w w' : W)
      → Does (check_schema_at_head b) w tt w'
      → ((subset_of (b.database_revisions w) b.migration_heads
            && subset_of b.migration_heads (b.database_revisions w))
          ≡ true)
        × (w ≡ w')
  unfolding check_schema_at_head
  schema_lem w w' h =
      let (current, v, h1, k1) = Does-bind _ _ w tt w' h in
      let (q1, e1) = Does-gets b.database_revisions current w v h1 in
      let (q2, e2) = Does-require _ _ v w' k1 in
      (ap (λ c. subset_of c b.migration_heads && subset_of b.migration_heads c) q1 ∙ q2, e1 ∙ e2)
