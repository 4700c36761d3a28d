-- ===== src/Gate/Vetted.antt =====
-- backend/app/core/game_runner.py: which models pass the gate.
use codenames_llm_bias.Shared.{
  ℕ, suc, ◌≡◌, ◌↔◌, refl, inl, inr, Bool, true, false, not, ◌||◌, Bool-cases, Option, none, some,
  Option-cases, List, [], ◌∷◌, if◌then◌else◌, ◌==◌, nat_eq, text_eq, text_beq_iff, Text, length,
  All, arith,
}
use codenames_llm_bias.Schedule.{SeatSpec}
use codenames_llm_bias.Gate.{
  Serving, ServedEntry, Routing, is_openrouter, any_local, normalize_digest, registry_entry,
  model_registry_snapshot, check_digest, check_routing, first_error, enforce_ollama_version,
  enforce_local_digests, enforce_openrouter_routing, served_registry_snapshot, passed, refused,
  GateError, ollama_version,
}

-- A local model is served with the digest that is expected of it, whatever the prefix; an API model is
-- pinned to a provider.
pub data IsVetted (s : Serving) (spec : SeatSpec) : Type 0 where
  pinned :
      is_openrouter spec.provider ≡ true
      → (r : Routing) → s.provider_routing spec.model_name ≡ some r
      → IsVetted s spec
  expected :
      is_openrouter spec.provider ≡ false
      → (wanted served : Text) → s.expected_digest spec.model_name ≡ some wanted
      → s.digest_of spec.model_name ≡ some served
      → (length served == 0) ≡ false
      → (normalize_digest served == normalize_digest wanted) ≡ true
      → IsVetted s spec

module _ (s : Serving) where
  Clears : ℕ → SeatSpec → Type 0
  Clears i spec =
      (check_digest s i (registry_entry s spec) ≡ none)
      × (check_routing s i (registry_entry s spec) ≡ none)

  IsVetted-Clears : (i : ℕ) (spec : SeatSpec) → IsVetted s spec → Clears i spec
  unfolding Clears check_digest registry_entry
  IsVetted-Clears i spec (pinned o r h) = (ground arith, ground arith)
  IsVetted-Clears i spec (expected o w d h k l m) = (ground arith, ground arith)

  Clears-IsVetted : (i : ℕ) (spec : SeatSpec) → Clears i spec → IsVetted s spec
  unfolding Clears check_digest registry_entry
  Clears-IsVetted i spec c = elim (Bool-cases (is_openrouter spec.provider)) [
    | inl o ↦ elim (Option-cases (s.provider_routing spec.model_name)) [
      | inl n ↦ ground (arith, c.0, c.1)
      | inr (r, h) ↦ pinned o r h
    ]
    | inr o ↦ elim (Option-cases (s.digest_of spec.model_name)) [
      | inl n ↦ ground (arith, c.0, c.1)
      | inr (d, k) ↦ elim (Bool-cases (length d == 0)) [
        | inl l ↦ ground (arith, c.0, c.1)
        | inr l ↦ elim (Option-cases (s.expected_digest spec.model_name)) [
          | inl n ↦ ground (arith, c.0, c.1)
          | inr (w, h) ↦ elim (Bool-cases (normalize_digest d == normalize_digest w)) [
            | inl m ↦ expected o w d h k l m
            | inr m ↦ ground (arith, c.0, c.1)
          ]
        ]
      ]
    ]
  ]

  -- The two loops find nothing exactly when each seat is vetted.
  AllClear : ℕ → List SeatSpec → Type 0
  AllClear i specs =
      (first_error s (check_digest s) i (model_registry_snapshot s specs) ≡ none)
      × (first_error s (check_routing s) i (model_registry_snapshot s specs) ≡ none)

  AllClear-cons :
      (i : ℕ) (spec : SeatSpec) (specs : List SeatSpec)
      → AllClear i (spec ∷ specs) ↔ (Clears i spec × AllClear (suc i) specs)
  unfolding AllClear Clears first_error model_registry_snapshot
  AllClear-cons i spec specs =
      by_checks (check_digest s i (registry_entry s spec))
        (check_routing s i (registry_entry s spec))
        (first_error s (check_digest s) (suc i) (model_registry_snapshot s specs))
        (first_error s (check_routing s) (suc i) (model_registry_snapshot s specs))
    where
      by_checks :
          (a b c d : Option GateError)
          → (((elim a [ none ↦ c | some x ↦ some x ]) ≡ none)
              × ((elim b [ none ↦ d | some x ↦ some x ]) ≡ none))
            ↔ (((a ≡ none) × (b ≡ none)) × ((c ≡ none) × (d ≡ none)))
      by_checks a b c d = ground arith

  AllClear-iff : (i : ℕ) (specs : List SeatSpec) → AllClear i specs ↔ All (IsVetted s) specs
  unfolding AllClear first_error model_registry_snapshot
  AllClear-iff i [] = ((λ h. tt), λ h. (refl, refl))
  AllClear-iff i (spec ∷ specs) =
      let rest = AllClear-iff (suc i) specs in
      let split = AllClear-cons i spec specs in
      (
        (λ h. let c = split.0 h in (Clears-IsVetted i spec c.0, rest.0 c.1)),
        λ h. split.1 (IsVetted-Clears i spec h.0, rest.1 h.1),
      )

  -- The daemon reports the version expected of it, or no seat is a model of the daemon.
  abbrev pub VersionIsExpected : List SeatSpec → Type 0
  VersionIsExpected specs = (any_local s specs ≡ true → s.server_version ≡ some s.expected_version)

  version_iff :
      (specs : List SeatSpec)
      → (enforce_ollama_version s true specs ≡ none) ↔ VersionIsExpected specs
  unfolding enforce_ollama_version
  version_iff specs = by_cases (any_local s specs) s.server_version
    where
      by_cases :
          (local : Bool) (v : Option Text)
          → ((if not true
                  || not local
                  || (elim v [ none ↦ false | some w ↦ w == s.expected_version ])
                then none
                else some ollama_version)
              ≡ none)
            ↔ (local ≡ true → v ≡ some s.expected_version)
      by_cases false v = ground arith
      by_cases true none = ground arith
      by_cases true (some v) = ground (arith, text_beq_iff v s.expected_version)

  pass_iff :
      (a b c : Option GateError) (x y : List ServedEntry)
      → ((elim a [
        | some e ↦ refused e
        | none ↦ elim b [
          | some e ↦ refused e
          | none ↦ elim c [ some e ↦ refused e | none ↦ passed x ]
        ]
      ])
          ≡ passed y)
        ↔ ((a ≡ none) × ((b ≡ none) × (c ≡ none)) × (y ≡ x))
  pass_iff none none none x y = ground arith
  pass_iff none none (some e) x y = ground arith
  pass_iff none (some e) c x y = ground arith
  pass_iff (some e) b c x y = ground arith

  -- With enforcement, a run is let through with a snapshot exactly when the daemon's version is the one
  -- expected, where a seat uses the daemon, each seat is vetted, and the snapshot is that of the seats;
  -- without enforcement, it is always let through with that snapshot.
  pub served_registry_snapshot_iff :
      (specs : List SeatSpec) (snapshot : List ServedEntry)
      → ((served_registry_snapshot s true specs ≡ passed snapshot) ↔ (
          VersionIsExpected specs
          × All (IsVetted s) specs
          × (snapshot ≡ model_registry_snapshot s specs)))
        × (served_registry_snapshot s false specs ≡ passed (model_registry_snapshot s specs))
  unfolding served_registry_snapshot enforce_ollama_version enforce_local_digests
      enforce_openrouter_routing AllClear
  served_registry_snapshot_iff specs snapshot =
      let v = version_iff specs in
      let c = AllClear-iff 0 specs in
      let p =
        pass_iff (enforce_ollama_version s true specs)
          (enforce_local_digests s true (model_registry_snapshot s specs))
          (enforce_openrouter_routing s true (model_registry_snapshot s specs))
          (model_registry_snapshot s specs) snapshot in
      (((λ h. let q = p.0 h in (v.0 q.0, c.0 q.1, q.2)), λ h. p.1 (v.1 h.0, c.1 h.1, h.2)), refl)
