-- ===== src/Batch/Run/Safe.antt =====
-- backend/app/core/batch_runner.py: a batch that is let through meets its preconditions.
use codenames_llm_bias.Shared.{
  ◌≡◌, refl, sym, subst, ◌∙◌, inl, inr, true, ◌&&◌, Bool-cases, Option, none, some, List, [],
  if◌then◌else◌, Eq, nat_eq, Text, text_eq, arith, subset_of,
}
use codenames_llm_bias.Schedule.{BatchCell}
use codenames_llm_bias.Batch.Loop.{RecordedGame}
use codenames_llm_bias.Batch.Resume.{StoredRun}
use codenames_llm_bias.Batch.Setup.{Setup, ◌>>=◌, pure, Does, Does-bind, Does-require, Does-pure}
use codenames_llm_bias.Batch.Bank.{IsIngested, ingest_bank, ingest_bank-IsIngested}
use codenames_llm_bias.Batch.Run.{check_no_collisions, resumable, found_in_database, found}
use codenames_llm_bias.Batch.Site.{Site, game_ids, board_ids, Found}
use codenames_llm_bias.Batch.Run.Starts.{
  Resumes, IsFound, resumable_lem, collisions_lem, schema_lem,
}

module _ {W T : Type 0} ⦃eq : Eq T⦄ (b : Site W T) where
  -- What the run and its games are, by whether a run is resumed.
  RunFound : W → List BatchCell → Option (StoredRun T) × List (Text × RecordedGame) → Type 0
  RunFound w schedule p =
      (p.0 ≡ none → (p.1 ≡ []) × (b.recorded_games (game_ids schedule) w ≡ []))
      × ((run : StoredRun T)
          → p.0 ≡ some run
          → (run_id : Text) × (b.resume_run_id ≡ some run_id) × Resumes b w run_id schedule p.1 run)

  run_lem :
      (o : Option Text) (schedule : List BatchCell) (w : W)
      (p : Option (StoredRun T) × List (Text × RecordedGame)) (w' : W)
      → b.resume_run_id ≡ o
      → Does
          (elim o as (λ x. Setup W (Option (StoredRun T) × List (Text × RecordedGame))) [
            | none ↦ check_no_collisions b (game_ids schedule) >>= λ u. pure (none, [])
            | some run_id ↦ resumable b run_id schedule >>= λ r. pure (some r.0, r.1)
          ])
          w
          p
          w'
      → RunFound w schedule p × (w ≡ w')
  unfolding RunFound
  run_lem none schedule w p w' q h =
      let (x, v, h1, k1) = Does-bind _ _ w p w' h in
      let (q1, e1) = collisions_lem b (game_ids schedule) w v h1 in
      let (q2, e2) = Does-pure (none, []) p v w' k1 in
      (subst (RunFound w schedule) q2 ((λ n. (refl, q1)), λ run n. ground (arith, n)), e1 ∙ e2)
  run_lem (some run_id) schedule w p w' q h =
      let (r, v, h1, k1) = Does-bind _ _ w p w' h in
      let (found, e1) = resumable_lem b run_id schedule w r v h1 in
      let (q2, e2) = Does-pure (some r.0, r.1) p v w' k1 in
      (
        subst (RunFound w schedule) q2 (
          (λ n. ground (arith, n)),
          λ run n.
              (run_id, q, subst (λ x. Resumes b w run_id schedule r.1 x) (ground (arith, n)) found),
        ),
        e1 ∙ e2,
      )

  found_in_database_lem :
      (schedule : List BatchCell) (w : W) (f : Found T) (w' : W)
      → Does (found_in_database b schedule) w f w'
      → IsFound b w schedule f w'
  unfolding found_in_database RunFound
  found_in_database_lem schedule w f w' h =
      let (x, v, h1, k1) = Does-bind _ _ w f w' h in
      let (y, u, h2, k2) = Does-bind _ _ v f w' k1 in
      let (p, t, h3, k3) = Does-bind _ _ u f w' k2 in
      let (manifest, s, h4, k4) = Does-bind _ _ t f w' k3 in
      let (url, e1) = Does-require _ _ w v h1 in
      let (schema, e2) = schema_lem b v u h2 in
      let (game_u, e3) = run_lem b.resume_run_id schedule u p t refl h3 in
      let game : RunFound w schedule p =
        subst (λ x. RunFound x schedule p) (sym (e1 ∙ e2)) game_u in
      let (q4, e4) =
        Does-pure (record { run = p.0; recorded = p.1; manifest = some manifest }) f s w' k4 in
      subst (λ x. IsFound b w schedule x w') q4
        (record {
          url = λ _. url;
          schema = λ _. ground (
            arith,
            subst
                (λ x.
                  (subset_of (b.database_revisions x) b.migration_heads
                    && subset_of b.migration_heads (b.database_revisions x))
                  ≡ true)
                (sym e1) schema,
          );
          ingested = λ _. (
            manifest,
            refl,
            subst (λ x. IsIngested b.bank (board_ids schedule) x manifest) e4
                (ingest_bank-IsIngested b.bank (board_ids schedule) t manifest s h4),
            subst (λ x. Does (ingest_bank b.bank (board_ids schedule)) x manifest w')
                (sym (e1 ∙ e2 ∙ e3))
                (subst (λ x. Does (ingest_bank b.bank (board_ids schedule)) t manifest x) e4 h4),
          );
          fresh = λ _ n. (game.0 n).1;
          unrecorded = λ n. (game.0 n).0;
          resumes = game.1;
        })

  pub found_lem :
      (schedule : List BatchCell) (w : W) (f : Found T) (w' : W)
      → Does (found b schedule) w f w'
      → IsFound b w schedule f w'
  unfolding found
  found_lem schedule w f w' h = elim (Bool-cases b.persist) [
    | inl p ↦ found_in_database_lem schedule w f w' (
        subst
          (λ x.
            Does
              (if x
                then found_in_database b schedule
                else pure (record { run = none; recorded = []; manifest = none }))
              w f w')
          p h)
    | inr p ↦
        let (q, e) =
          Does-pure (record { run = none; recorded = []; manifest = none }) f w w'
            (subst
              (λ x.
                Does
                  (if x
                    then found_in_database b schedule
                    else pure (record { run = none; recorded = []; manifest = none }))
                  w f w')
              p h) in
        subst (λ x. IsFound b w schedule x w') q
          (record {
            url = λ t. ground (arith, t, p);
            schema = λ t. ground (arith, t, p);
            ingested = λ t. ground (arith, t, p);
            fresh = λ t n. ground (arith, t, p);
            unrecorded = λ n. refl;
            resumes = λ run n. ground (arith, n);
          })
  ]
