-- ===== src/Gate/Mint.antt =====
-- backend/app/core/game_runner.py, `create_run`: the gate, and the row of the run. What stores the row, the
-- version of the code and the id of a run without a row are parameters.
use codenames_llm_bias.Shared.{
  ℕ, arith, ◌≡◌, refl, sym, ap, subst, Bool, true, false, ◌||◌, Option, none, some, List,
  if◌then◌else◌, Text,
}
use codenames_llm_bias.Schedule.{SeatSpec}
use codenames_llm_bias.Gate.{Serving, ServedEntry, Gated, passed, refused, served_registry_snapshot}

-- RunModel, as far as `create_run` fills it: its environment goes with the insertion.
pub record RunRow (T : Type 0) : Type 0 where
  pub master_seed : ℕ
  pub temperature : T
  pub model_registry_snapshot : Option (List ServedEntry)
  pub prompt_template_version : Text
  pub code_version : Option Text
  pub stimulus_manifest : Option (List (Text × Text))

unpass : {A : Type 0} (x y : A) → passed x ≡ passed y → x ≡ y
unpass x y h = ground (arith, h)

module _ {W T : Type 0} (s : Serving) (insert_run : RunRow T → W → Text × W)
    (git_code_version : Option Text) (run_identity : ℕ → Text) where
  -- A run with its snapshot, once the gate is passed.
  abbrev pub mint : Bool → RunRow T → W → Gated (Text × Option (List ServedEntry)) × W
  mint persist row w =
      let (run_id, w') = insert_run row w in
      if persist
      then (passed (run_id, row.model_registry_snapshot), w')
      else (passed (run_identity row.master_seed, row.model_registry_snapshot), w)

  -- The same once the gate has been asked.
  abbrev pub mint_gated :
      Bool
      → (Option (List ServedEntry) → RunRow T)
      → Gated (List ServedEntry)
      → W
      → Gated (Text × Option (List ServedEntry)) × W
  mint_gated persist row (refused x) w = (refused x, w)
  mint_gated persist row (passed snapshot) w = mint persist (row (some snapshot)) w

  abbrev pub row_of :
      ℕ → T → Text → Option (List (Text × Text)) → Option (List ServedEntry) → RunRow T
  row_of master_seed temperature template_fingerprint manifest snapshot = record {
    master_seed = master_seed;
    temperature = temperature;
    model_registry_snapshot = snapshot;
    prompt_template_version = template_fingerprint;
    code_version = git_code_version;
    stimulus_manifest = manifest;
  }

  unfoldable pub create_run :
      Bool
      → Bool
      → List SeatSpec
      → ℕ
      → T
      → Text
      → Option (List (Text × Text))
      → W
      → Gated (Text × Option (List ServedEntry)) × W
  create_run persist enforce_digests seat_specs master_seed temperature template_fingerprint
        manifest w =
      let row = row_of master_seed temperature template_fingerprint manifest in
      if persist || enforce_digests
      then mint_gated persist row (served_registry_snapshot s enforce_digests seat_specs) w
      else mint persist (row none) w

  -- What is minted is minted with the snapshot that the gate let through.
  pub create_run-passed :
      (persist enforce_digests : Bool) (specs : List SeatSpec) (seed : ℕ) (t : T) (tf : Text)
      (manifest : Option (List (Text × Text))) (w w' : W) (r : Text × Option (List ServedEntry))
      → create_run persist enforce_digests specs seed t tf manifest w ≡ (passed r, w')
      → (persist || enforce_digests) ≡ true
      → (snapshot : List ServedEntry) × (served_registry_snapshot s enforce_digests specs
          ≡ passed snapshot)
        × (r.1 ≡ some snapshot)
  unfolding create_run
  create_run-passed persist enforce_digests specs seed t tf manifest w w' r h q =
      by_gate (served_registry_snapshot s enforce_digests specs) refl (
        subst
          (λ x.
            (if x
              then mint_gated persist row (served_registry_snapshot s enforce_digests specs) w
              else mint persist (row none) w)
            ≡ (passed r, w'))
          q h)
    where
      row : Option (List ServedEntry) → RunRow T
      row = row_of seed t tf manifest

      by_gate :
          (g : Gated (List ServedEntry))
          → served_registry_snapshot s enforce_digests specs ≡ g
          → mint_gated persist row g w ≡ (passed r, w')
          → (snapshot : List ServedEntry) × (served_registry_snapshot s enforce_digests specs
              ≡ passed snapshot)
            × (r.1 ≡ some snapshot)
      by_gate (refused x) e k = ground (arith, ap (λ p. p.0) k)
      by_gate (passed snapshot) e k = (snapshot, e, by_row persist k)
        where
          by_row :
              (persist : Bool)
              → mint persist (row (some snapshot)) w ≡ (passed r, w')
              → r.1 ≡ some snapshot
          by_row true k = sym (ap (λ x. x.1) (unpass _ r (ap (λ p. p.0) k)))
          by_row false k = sym (ap (λ x. x.1) (unpass _ r (ap (λ p. p.0) k)))
