-- ===== src/Batch/Run/Begun.antt =====
-- backend/app/core/batch_runner.py: the run that is minted, and the run that is resumed.
use codenames_llm_bias.Shared.{
  ◌≡◌, refl, sym, ap, Bool, true, false, ◌&&◌, Option, none, some, List, [], Eq, nat_eq, Text,
  text_eq, All, arith,
}
use codenames_llm_bias.Gate.{ServedEntry, Gated, passed, refused, served_registry_snapshot}
use codenames_llm_bias.Gate.Mint.{create_run, create_run-passed}
use codenames_llm_bias.Gate.Vetted.{IsVetted, VersionIsExpected, served_registry_snapshot_iff}
use codenames_llm_bias.Batch.Resume.{StoredRun, served_model_problems, manifest_problems}
use codenames_llm_bias.Batch.Setup.{
  Outcome, done, pure, stop, Does, Does-bind, Does-require, Does-pure, stopped-done, ungated,
}
use codenames_llm_bias.Batch.Run.{minted, resumed}
use codenames_llm_bias.Batch.Site.{Site, keyed}
use codenames_llm_bias.Batch.Run.Starts.{empty}

module _ {W T : Type 0} ⦃eq : Eq T⦄ (b : Site W T) where
  -- The gate was passed.
  abbrev pub IsGated : Type 0
  IsGated =
      b.enforce_digests ≡ true
      → VersionIsExpected b.serving b.models × All (IsVetted b.serving) b.models

  pub gate_lem :
      (enforce : Bool) (snapshot : List ServedEntry)
      → served_registry_snapshot b.serving enforce b.models ≡ passed snapshot
      → enforce ≡ true
      → VersionIsExpected b.serving b.models × All (IsVetted b.serving) b.models
  gate_lem true snapshot h q =
      let r = (served_registry_snapshot_iff b.serving b.models snapshot).0.0 h in (r.0, r.1)
  gate_lem false snapshot h q = ground (arith, q)

  -- A run that is minted passed the gate.
  pub minted_lem :
      (manifest : Option (List (Text × Text))) (w : W) (run_id : Text) (w' : W)
      → Does (minted b manifest) w run_id w'
      → IsGated
  unfolding minted
  minted_lem manifest w run_id w' h e = by_run _ refl h
    where
      created : W → Gated (Text × Option (List ServedEntry)) × W
      created =
          create_run b.serving b.insert_run b.code_version b.run_identity b.persist
            b.enforce_digests b.models b.master_seed b.temperature b.template_fingerprint manifest

      by_run :
          (r : Gated (Text × Option (List ServedEntry)) × W)
          → created w ≡ r
          → (elim r.0 as (λ x. Outcome Text × W) [
            | passed (run_id, snapshot) ↦ pure run_id r.1
            | refused x ↦ stop (ungated x) r.1
          ])
            ≡ (done run_id, w')
          → VersionIsExpected b.serving b.models × All (IsVetted b.serving) b.models
      by_run (passed r, v) q k =
          let (snapshot, g, same) =
            create_run-passed b.serving b.insert_run b.code_version b.run_identity b.persist
              b.enforce_digests b.models b.master_seed b.temperature b.template_fingerprint manifest
              w v r q (ground (arith, e)) in
          gate_lem b.enforce_digests snapshot g e
      by_run (refused x, v) q k = absurd (stopped-done (ungated x) run_id (ap (λ p. p.0) k))

  -- The run is resumed with the models and the boards it was minted with.
  pub record SameServed (run : StoredRun T) (manifest : Option (List (Text × Text))) : Type 0 where
    pub snapshot : List ServedEntry
    pub served : served_registry_snapshot b.serving b.enforce_digests b.models ≡ passed snapshot
    pub same_models : served_model_problems run (some (keyed 0 snapshot)) ≡ []
    pub same_boards : manifest_problems run (elim manifest [ none ↦ [] | some m ↦ m ]) ≡ []

  gate_step :
      (g : Gated (List ServedEntry)) (snapshot : List ServedEntry) (w w' : W)
      → Does (elim g [ passed es ↦ pure es | refused x ↦ stop (ungated x) ]) w snapshot w'
      → g ≡ passed snapshot
  gate_step (passed es) snapshot w w' h = ap passed (Does-pure es snapshot w w' h).0
  gate_step (refused x) snapshot w w' h =
      absurd (stopped-done (ungated x) snapshot (ap (λ p. p.0) h))

  pub resumed_lem :
      (run : StoredRun T) (manifest : Option (List (Text × Text))) (w : W) (run_id : Text) (w' : W)
      → Does (resumed b run manifest) w run_id w'
      → SameServed run manifest × (run_id ≡ run.run_id)
  unfolding resumed
  resumed_lem run manifest w run_id w' h =
      let (snapshot, v1, h1, k1) = Does-bind _ _ w run_id w' h in
      let (x2, v2, h2, k2) = Does-bind _ _ v1 run_id w' k1 in
      let (is_there, v3, h3, k3) = Does-bind _ _ v2 run_id w' k2 in
      let (x4, v4, h4, k4) = Does-bind _ _ v3 run_id w' k3 in
      let q2 = (Does-require _ _ v1 v2 h2).0 in
      (
        record {
          snapshot = snapshot;
          served = gate_step _ snapshot w v1 h1;
          same_models = empty _ (left _ _ q2);
          same_boards = empty _ (right _ _ q2);
        },
        sym (Does-pure run.run_id run_id v4 w' k4).0,
      )
    where
      left : (x y : Bool) → (x && y) ≡ true → x ≡ true
      left x y h = ground (arith, h)

      right : (x y : Bool) → (x && y) ≡ true → y ≡ true
      right x y h = ground (arith, h)
