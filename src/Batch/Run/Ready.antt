-- ===== src/Batch/Run/Ready.antt =====
-- backend/app/core/batch_runner.py: a batch that returns a report met the preconditions.
use codenames_llm_bias.Shared.{
  ◌≡◌, refl, sym, ap, subst, Bool, true, false, not, ◌||◌, Option, none, some, List, [], Eq, nat_eq,
  Text, text_eq, arith, subset_of,
}
use codenames_llm_bias.Schedule.{BatchCell, build_schedule, ok}
use codenames_llm_bias.Batch.Resume.{StoredRun}
use codenames_llm_bias.Batch.Setup.{Outcome, done, stopped, Does, Does-bind, Does-pure}
use codenames_llm_bias.Batch.Bank.{IsIngested, ingest_bank}
use codenames_llm_bias.Batch.Run.{Started, found, minted, resumed, set_up}
use codenames_llm_bias.Batch.Site.{Site, game_ids, board_ids, Found}
use codenames_llm_bias.Batch.Run.Starts.{Resumes, IsFound, scheduled_lem}
use codenames_llm_bias.Batch.Run.Safe.{found_lem}
use codenames_llm_bias.Batch.Run.{
  run_batch, RunReport, Ran, returned, raised, unended, played_out, loop_setting,
}
use codenames_llm_bias.Batch.Outcome.{batch_report, play_batch}
use codenames_llm_bias.Batch.Loop.{Batch}
use codenames_llm_bias.Batch.Run.Begun.{IsGated, gate_lem, minted_lem, SameServed, resumed_lem}

module _ {W T : Type 0} ⦃eq : Eq T⦄ (b : Site W T) where
  -- The run that a batch continues: as it was stored, and as the batch would mint it now, with the boards
  -- that are stored in `v`, where the ingestion of the bank has led from `w`.
  pub record Continues (w : W) (s : Started b) (run : StoredRun T) : Type 0 where
    pub run_id : Text
    pub manifest : List (Text × Text)
    pub v : W
    pub asked : b.resume_run_id ≡ some run_id
    pub resumes : Resumes b w run_id s.schedule s.recorded run
    pub same_id : s.run_id ≡ run.run_id
    pub ingests : Does (ingest_bank b.bank (board_ids s.schedule)) w manifest v
    pub ingested : IsIngested b.bank (board_ids s.schedule) v manifest
    pub served : SameServed b run (some manifest)

  -- What a batch has met when it starts in the world `w`.
  pub record IsReadyIn (w : W) (s : Started b) : Type 0 where
    pub built : build_schedule b.game_identity b.master_seed b.models b.boards ≡ ok s.schedule
    pub url : b.persist ≡ true → b.has_database_url ≡ true
    pub schema :
        b.persist ≡ true
        → (subset_of (b.database_revisions w) b.migration_heads ≡ true)
          × (subset_of b.migration_heads (b.database_revisions w) ≡ true)
    pub gated : IsGated b
    pub fresh : b.persist ≡ true → s.resumes ≡ false → b.recorded_games (game_ids s.schedule) w ≡ []
    pub unrecorded : s.resumes ≡ false → s.recorded ≡ []
    pub continues : s.resumes ≡ true → (run : StoredRun T) × Continues w s run

  persists :
      (o : Option Text) (i : Text) (p : Bool)
      → o ≡ some i
      → (p || not (elim o [ none ↦ false | some i ↦ true ])) ≡ true
      → p ≡ true
  persists none i p q h = ground (arith, q)
  persists (some j) i p q h = ground (arith, h)

  -- A batch that is set up has met what it has to meet.
  pub set_up-IsReadyIn : (w : W) (s : Started b) (w' : W) → Does (set_up b) w s w' → IsReadyIn w s
  unfolding set_up
  set_up-IsReadyIn w s w' h =
      let (schedule, v1, h1, k1) = Does-bind _ _ w s w' h in
      let (f, v2, h2, k2) = Does-bind _ _ v1 s w' k1 in
      let (run_id, v3, h3, k3) = Does-bind _ _ v2 s w' k2 in
      let (built, same, p) = scheduled_lem b w schedule v1 h1 in
      let found : IsFound b w schedule f v2 =
        subst (λ x. IsFound b x schedule f v2) (sym same) (found_lem b schedule v1 f v2 h2) in
      subst (IsReadyIn w) (Does-pure (begun schedule f run_id) s v3 w' k3).0
        (by_run f.run schedule f run_id v2 v3 refl built p found h3)
    where
      begun : List BatchCell → Found T → Text → Started b
      begun schedule f run_id = record {
        schedule = schedule;
        run_id = run_id;
        resumes = elim f.run [ none ↦ false | some run ↦ true ];
        recorded = f.recorded;
      }

      by_run :
          (o : Option (StoredRun T)) (schedule : List BatchCell) (f : Found T) (run_id : Text)
          (v2 v3 : W)
          → f.run ≡ o
          → build_schedule b.game_identity b.master_seed b.models b.boards ≡ ok schedule
          → (b.persist || not (elim b.resume_run_id [ none ↦ false | some i ↦ true ])) ≡ true
          → IsFound b w schedule f v2
          → Does
              (elim f.run [ none ↦ minted b f.manifest | some run ↦ resumed b run f.manifest ])
              v2
              run_id
              v3
          → IsReadyIn w (begun schedule f run_id)
      by_run none schedule f run_id v2 v3 q built p found h = record {
        built = built;
        url = found.url;
        schema = found.schema;
        gated = minted_lem b f.manifest v2 run_id v3 (
            subst
              (λ x.
                Does (elim x [ none ↦ minted b f.manifest | some run ↦ resumed b run f.manifest ])
                  v2 run_id v3)
              q h);
        fresh = λ e n. found.fresh e q;
        unrecorded = λ n. found.unrecorded q;
        continues = λ n. ground (arith, n, q);
      }
      by_run (some run) schedule f run_id v2 v3 q built p found h =
          let (same, id) = resumed_lem b run f.manifest v2 run_id v3 (
            subst
              (λ x.
                Does (elim x [ none ↦ minted b f.manifest | some run ↦ resumed b run f.manifest ])
                  v2 run_id v3)
              q h) in
          let (asked_id, asked, resumes) = found.resumes run q in
          let (manifest, hashed, ingested, ingests) =
            found.ingested (persists b.resume_run_id asked_id b.persist asked p) in
          record {
            built = built;
            url = found.url;
            schema = found.schema;
            gated = gate_lem b b.enforce_digests same.snapshot same.served;
            fresh = λ e n. ground (arith, n, q);
            unrecorded = λ n. ground (arith, n, q);
            continues = λ n. (
              run,
              record {
                run_id = asked_id;
                manifest = manifest;
                v = v2;
                asked = asked;
                resumes = resumes;
                same_id = id;
                ingests = ingests;
                ingested = ingested;
                served = subst (λ m. SameServed b run m) hashed same;
              },
            );
          }

  by_play :
      (s : Started b) (v w' : W) (r : RunReport b) (o : Option (Batch W))
      → (elim o as (λ x. Ran b × W) [
        | none ↦ (unended, v)
        | some e ↦ (
          returned (record {
            run_id = s.run_id;
            resumes = s.resumes;
            outage = e.outage;
            totals = batch_report e.reports;
          }),
          e.world,
        )
      ])
        ≡ (returned r, w')
      → (r.run_id ≡ s.run_id) × (r.resumes ≡ s.resumes)
  by_play s v w' r none k = ground (arith, ap (λ p. p.0) k)
  by_play s v w' r (some e) k =
      let same = returned_same _ r (ap (λ p. p.0) k) in
      (sym (ap (λ x. RunReport.run_id x) same), sym (ap (λ x. RunReport.resumes x) same))
    where
      returned_same : (x y : RunReport b) → ◌≡◌ {A = Ran b} (returned x) (returned y) → x ≡ y
      returned_same x y q = ground (arith, q)

  -- A batch that returns a report met its preconditions: it has the schedule of its models and boards; a
  -- batch that is stored has a database, at the head of the migrations; under enforcement the
  -- gate was passed; a run that is minted and stored has no game of the schedule recorded before; and
  -- a run that is resumed is the one that was asked for, is the one that the batch would mint, with its
  -- models and its boards as the ingestion of the bank has stored them, and has the run's id on the report.
  pub run_batch-IsReadyIn :
      (w w' : W) (r : RunReport b)
      → run_batch b w ≡ (returned r, w')
      → (s : Started b) × IsReadyIn w s × (r.run_id ≡ s.run_id) × (r.resumes ≡ s.resumes)
  unfolding run_batch
  run_batch-IsReadyIn w w' r h = by_set_up (set_up b w) refl h
    where
      by_set_up :
          (o : Outcome (Started b) × W)
          → set_up b w ≡ o
          → (elim o.0 as (λ x. Ran b × W) [
            | stopped x ↦ (raised x, o.1)
            | done s ↦ played_out b s o.1
          ])
            ≡ (returned r, w')
          → (s : Started b) × IsReadyIn w s × (r.run_id ≡ s.run_id) × (r.resumes ≡ s.resumes)
      by_set_up (stopped x, v) q k = absurd (not_returned (ap (λ (p : Ran b × W). p.0) k))
        where
          not_returned : ◌≡◌ {A = Ran b} (raised x) (returned r) → ⊥
          not_returned q = ground (arith, q)
      by_set_up (done s, v) q k =
          let (id, resumes) = by_play s v w' r (play_batch (loop_setting b s) s.schedule v) k in
          (s, set_up-IsReadyIn w s v q, id, resumes)
