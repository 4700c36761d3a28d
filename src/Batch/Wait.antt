-- ===== src/Batch/Wait.antt =====
-- backend/app/core/batch_runner.py: the wait for a provider. Times are whole seconds where the source has floats.
use codenames_llm_bias.Shared.{
  ℕ, zero, suc, ◌+◌, ◌-◌, ◌*◌, ◌≤◌, ◌≡◌, inl, inr, refl, Bool, true, false, Bool-cases, Option,
  none, some, List, [], ◌∷◌, if◌then◌else◌, leb, All, arith,
}

-- `min`
abbrev pub min : ℕ → ℕ → ℕ
min a b = if leb a b then a else b

-- _PROVIDER_PROBE_BASE_S and _PROVIDER_PROBE_MAX_S
abbrev pub probe_base : ℕ
probe_base = 15

abbrev pub probe_max : ℕ
probe_max = 300

-- How a wait ends: `slept` has its sleeps, the last one first.
pub record Wait (W : Type 0) : Type 0 where
  pub answers : Bool
  pub waited : ℕ
  pub slept : List ℕ
  pub world : W

abbrev pub sum : List ℕ → ℕ
sum [] = 0
sum (n ∷ ns) = n + sum ns

module _ {W : Type 0} (probe : W → Bool × W) (sleep : ℕ → W → W) (max_wait : ℕ) where
  -- `while not await probe()`, on fuel; `none` means that it ran out.
  unfoldable pub wait_loop : ℕ → ℕ → ℕ → List ℕ → W → Option (Wait W)
  wait_loop zero waited delay slept w = none
  wait_loop (suc fuel) waited delay slept w =
      let (healthy, w') = probe w in
      let step = min delay (min probe_max (max_wait - waited)) in
      let rest = wait_loop fuel (waited + step) (delay * 2) (step ∷ slept) (sleep step w') in
      let ended : Bool → Wait W =
        λ answers. record { answers = answers; waited = waited; slept = slept; world = w' } in
      if healthy
      then some (ended true)
      else if leb max_wait waited
      then some (ended false)
      else rest

  unfoldable pub wait_for_provider : W → Option (Wait W)
  wait_for_provider w = wait_loop (max_wait + 1) 0 probe_base [] w

  -- The world of the last probe, after the sleeps so far: each comes after a probe.
  abbrev pub before : W → List ℕ → W
  before start [] = start
  before start (n ∷ ns) = sleep n (probe (before start ns)).1

  -- The probe before each sleep answered no.
  abbrev pub Failed : W → List ℕ → Type 0
  Failed start [] = Unit
  Failed start (n ∷ ns) = ((probe (before start ns)).0 ≡ false) × Failed start ns

  -- What holds of a wait that has ended.
  pub record IsWait (start : W) (r : Wait W) : Type 0 where
    pub whole : sum r.slept ≡ r.waited
    pub bounded : r.waited ≤ max_wait
    pub short : All (λ n. n ≤ probe_max) r.slept
    pub failed : Failed start r.slept
    pub last_probe : probe (before start r.slept) ≡ (r.answers, r.world)
    pub given_up : r.answers ≡ false → r.waited ≡ max_wait

  -- The wait has ended, and ended in that way.
  abbrev pub Waits : W → Option (Wait W) → Type 0
  Waits start none = ⊥
  Waits start (some r) = IsWait start r

  module _ (start : W) where
    -- One probe: it ends the wait, or the rest of the loop does.
    step_lem :
        (waited : ℕ) (slept : List ℕ) (w : W) (rest : Option (Wait W)) (healthy : Bool)
        → sum slept ≡ waited
        → waited ≤ max_wait
        → All (λ n. n ≤ probe_max) slept
        → Failed start slept
        → probe (before start slept) ≡ (healthy, w)
        → (leb max_wait waited ≡ false → healthy ≡ false → Waits start rest)
        → Waits start (
            if healthy
            then some (record { answers = true; waited = waited; slept = slept; world = w })
            else if leb max_wait waited
            then some (record { answers = false; waited = waited; slept = slept; world = w })
            else rest)
    step_lem waited slept w rest true s b m f p r = record {
      whole = s;
      bounded = b;
      short = m;
      failed = f;
      last_probe = p;
      given_up = λ q. ground (arith, q);
    }
    step_lem waited slept w rest false s b m f p r = elim (Bool-cases (leb max_wait waited)) [
      | inl over ↦ rw over (record {
        whole = s;
        bounded = b;
        short = m;
        failed = f;
        last_probe = p;
        given_up = λ q. ground (arith, over, b);
      })
      | inr more ↦ rw more (r more refl)
    ]

    wait_loop-Waits :
        (fuel waited delay : ℕ) (slept : List ℕ)
        → max_wait + 1 ≤ waited + fuel
        → 1 ≤ delay
        → sum slept ≡ waited
        → waited ≤ max_wait
        → All (λ n. n ≤ probe_max) slept
        → Failed start slept
        → Waits start (wait_loop fuel waited delay slept (before start slept))
    unfolding wait_loop
    wait_loop-Waits zero waited delay slept f d s b m n = absurd (omega (arith, f, b))
    wait_loop-Waits (suc fuel) waited delay slept f d s b m n =
        step_lem waited slept (probe (before start slept)).1 _ (probe (before start slept)).0 s b m
          n refl
          (λ more no.
            wait_loop-Waits fuel _ (delay * 2) _ (ground (arith, f, d, more)) (omega (arith, d))
              (omega (arith, s)) (ground (arith, b)) (ground arith, m) (no, n))

  -- The wait always ends, with the answer of its last probe: yes, or no once it has waited its whole
  -- budget. Every probe before that one answered no and was followed by its sleep. It never waits
  -- longer than the budget, no sleep between two probes is longer than five minutes, and the sleeps add
  -- up to the time it says it waited.
  pub wait_for_provider-Waits : (w : W) → Waits w (wait_for_provider w)
  unfolding wait_for_provider
  wait_for_provider-Waits w =
      wait_loop-Waits w (max_wait + 1) 0 probe_base [] (omega arith) (omega arith) refl
        (omega arith) tt tt
