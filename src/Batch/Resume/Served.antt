-- ===== src/Batch/Resume/Served.antt =====
-- backend/app/core/batch_runner.py: the models and the boards that are served when a run is resumed.
use codenames_llm_bias.Shared.{
  ◌≡◌, ◌≢◌, ◌↔◌, refl, sym, ap, subst, ◌∙◌, inl, inr, Bool, true, false, not, Bool-cases, Option,
  none, some, List, [], ◌∷◌, ◌++◌, map, if◌then◌else◌, ◌==◌, Eq, nat_eq, text_eq, Text, codes,
  contains, filter, get_item, sort, length-sort, text_leb, All, All-always, All-weaken, All-sort,
  ends_with, length, arith, insert,
}
use codenames_llm_bias.Batch.Resume.{
  StoredRun, snapshot_models, ModelEntry, same_option, identity_of, served_model_problems,
  changed_boards, manifest_problems, code_change_warning,
}

same_option_iff : (x y : Option Text) → (same_option x y ≡ true) ↔ (x ≡ y)
same_option_iff none none = ground arith
same_option_iff none (some y) = ground arith
same_option_iff (some x) none = ground arith
same_option_iff (some x) (some y) = ground (arith, text_eq.decides x y)

All-filter_empty :
    {A : Type 0} (p : A → Bool) (xs : List A) → (filter p xs ≡ []) ↔ All (λ x. p x ≡ false) xs
All-filter_empty p [] = (λ q. tt, λ q. refl)
All-filter_empty p (x ∷ xs) = elim (Bool-cases (p x)) [
  | inl h ↦ rw h (ground arith)
  | inr h ↦ rw h (λ q. (refl, (All-filter_empty p xs).0 q), λ q. (All-filter_empty p xs).1 q.1)
]

All_contains :
    (P : Text → Type 0) (k : Text) (xs : List Text) → All P xs → contains k xs ≡ true → P k
All_contains P k [] h q = ground (arith, q)
All_contains P k (x ∷ xs) h q = elim (Bool-cases (k == x)) [
  | inl e ↦ subst P (sym ((text_eq.decides k x).0 e)) h.0
  | inr e ↦ All_contains P k xs h.1 (ground (arith, q, e))
]

get_item_absent :
    (k : Text) (d : List (Text × Text))
    → contains k (map (λ (e : Text × Text). e.0) d) ≡ false
    → get_item k d ≡ none
get_item_absent k [] h = refl
get_item_absent k ((j, v) ∷ d) h =
    ground (arith, h, get_item_absent k d, text_eq.decides j k, text_eq.decides k j)

get_option_absent :
    (k : Text) (d : List (Text × Option Text))
    → contains k (map (λ (e : Text × Option Text). e.0) d) ≡ false
    → get_item k d ≡ none
get_option_absent k [] h = refl
get_option_absent k ((j, v) ∷ d) h =
    ground (arith, h, get_option_absent k d, text_eq.decides j k, text_eq.decides k j)

contains-append :
    (k : Text) (xs ys : List Text)
    → contains k (xs ++ ys) ≡ false
    → (contains k xs ≡ false) × (contains k ys ≡ false)
contains-append k [] ys h = (refl, h)
contains-append k (x ∷ xs) ys h = ground (arith, h, contains-append k xs ys)

-- A text that neither list has.
contains-filter :
    (k : Text) (keys more : List Text)
    → contains k keys ≡ false
    → contains k (filter (λ x. not (contains x keys)) more) ≡ false
    → contains k more ≡ false
contains-filter k keys [] a b = refl
contains-filter k keys (x ∷ more) a b = elim (Bool-cases (k == x)) [
  | inl e ↦
      let same : k ≡ x = (text_eq.decides k x).0 e in
      let out : contains x keys ≡ false = subst (λ (y : Text). contains y keys ≡ false) same a in
      ground (arith, b, e, out)
  | inr e ↦ elim (Bool-cases (contains x keys)) [
    | inl i ↦ ground (arith, b, e, i, contains-filter k keys more a)
    | inr i ↦ ground (arith, b, e, i, contains-filter k keys more a)
  ]
]

All-unsort : (P : Text → Type 0) (xs : List Text) → All P (sort text_leb xs) → All P xs
unfolding sort
All-unsort P [] h = tt
All-unsort P (x ∷ xs) h = let (a, b) = uninsert x (sort text_leb xs) h in (a, All-unsort P xs b)
  where
    uninsert : (x : Text) (ys : List Text) → All P (insert text_leb x ys) → P x × All P ys
    uninsert x [] h = h
    uninsert x (y ∷ ys) h = elim (Bool-cases (text_leb x y)) [
      | inl le ↦
          subst (λ (b : Bool). All P (if b then x ∷ y ∷ ys else y ∷ insert text_leb x ys)) le h
      | inr gt ↦
          let k : All P (y ∷ insert text_leb x ys) =
            subst (λ (b : Bool). All P (if b then x ∷ y ∷ ys else y ∷ insert text_leb x ys)) gt h in
          let (a, b) = uninsert x ys k.1 in (a, (k.0, b))
    ]

empty-sort : (xs : List Text) → sort text_leb xs ≡ [] → xs ≡ []
empty-sort [] h = refl
empty-sort (x ∷ xs) h = ground (arith, sym (ap length h) ∙ length-sort text_leb (x ∷ xs))

agree : (x y : Option Text) → not (same_option x y) ≡ false → x ≡ y
agree x y h = ground (arith, h, same_option_iff x y)

agreed : (x y : Option Text) → x ≡ y → not (same_option x y) ≡ false
agreed x y h = ground (arith, (same_option_iff x y).1 h)

changed_boards_iff :
    (minted manifest : List (Text × Text))
    → (changed_boards minted manifest ≡ []) ↔ ((k : Text) → get_item k minted ≡ get_item k manifest)
unfolding changed_boards sort
changed_boards_iff minted manifest =
    let keys = map (λ (e : Text × Text). e.0) minted in
    let more = map (λ (e : Text × Text). e.0) manifest in
    let fresh = filter (λ k. not (contains k keys)) more in
    let same : Text → Type 0 = λ k. get_item k minted ≡ get_item k manifest in
    let differs : Text → Bool = λ k. not (same_option (get_item k minted) (get_item k manifest)) in
    (
      λ q k.
          let alike : All (λ (x : Text). get_item x minted ≡ get_item x manifest) (keys ++ fresh) =
            All-weaken (λ x. differs x ≡ false) (λ x. get_item x minted ≡ get_item x manifest)
              (λ x h. agree _ _ h) _ ((All-filter_empty differs _).0 (empty-sort _ q)) in
          elim (Bool-cases (contains k (keys ++ fresh))) [
            | inl e ↦ All_contains _ k _ alike e
            | inr e ↦
                let (a, b) = contains-append k keys fresh e in
                get_item_absent k minted a
                ∙ sym (get_item_absent k manifest (contains-filter k keys more a b))
          ],
      λ h. ap (sort text_leb) (
          (All-filter_empty differs (keys ++ fresh)).1
            (All-always (λ x. differs x ≡ false) (λ x. agreed _ _ (h x)) _)),
    )

module _ {T : Type 0} ⦃eq : Eq T⦄ (run : StoredRun T) where
  -- The models served now are those of the run exactly when each model the run was minted with has
  -- the identity it was minted with.
  pub served_model_problems_iff :
      (served : Option (List (Text × ModelEntry)))
      → let minted = snapshot_models run.model_registry_snapshot in
        (served_model_problems run served ≡ [])
        ↔ All
            (λ m. identity_of m (snapshot_models served) ≡ identity_of m minted)
            (map (λ (e : Text × Option Text). e.0) minted)
  unfolding served_model_problems
  served_model_problems_iff served =
      let minted = snapshot_models run.model_registry_snapshot in
      let models = map (λ (e : Text × Option Text). e.0) minted in
      let now = snapshot_models served in
      (
        λ q.
            All-weaken _ _ (λ m h. agree (identity_of m now) (identity_of m minted) h) models
              (All-unsort _ models ((All-filter_empty _ (sort text_leb models)).0 q)),
        λ h. (All-filter_empty _ (sort text_leb models)).1 (
            All-sort text_leb _ models (
              All-weaken _ _ (λ m e. agreed (identity_of m now) (identity_of m minted) e) models
                h)),
      )

  -- The boards are those of the run exactly when it recorded none, or when each board has now the content
  -- the run was minted with, those that either side lacks included.
  pub manifest_problems_iff :
      (manifest : List (Text × Text))
      → (manifest_problems run manifest ≡ []) ↔ (
          (minted : List (Text × Text))
          → run.stimulus_manifest ≡ some minted
          → minted ≢ []
          → (k : Text) → get_item k minted ≡ get_item k manifest)
  unfolding manifest_problems changed_boards
  manifest_problems_iff manifest = by_manifest run.stimulus_manifest
    where
      by_manifest :
          (m : Option (List (Text × Text)))
          → ((elim m as (λ x. List Text) [
            | none ↦ []
            | some minted ↦ elim minted [ [] ↦ [] | e ∷ es ↦ changed_boards (e ∷ es) manifest ]
          ])
              ≡ [])
            ↔ ((minted : List (Text × Text))
                → m ≡ some minted
                → minted ≢ []
                → (k : Text) → get_item k minted ≡ get_item k manifest)
      by_manifest none = (λ q minted e. ground (arith, e), λ h. refl)
      by_manifest (some []) = (λ q minted e n. absurd (n (ground (arith, e))), λ h. refl)
      by_manifest (some (e ∷ es)) = (
        λ q minted s n.
            subst (λ (d : List (Text × Text)). (k : Text) → get_item k d ≡ get_item k manifest)
              {x = e ∷ es} (ground (arith, s)) ((changed_boards_iff (e ∷ es) manifest).0 q),
        λ h. (changed_boards_iff (e ∷ es) manifest).1 (h (e ∷ es) refl (λ z. ground (arith, z))),
      )

-- Nothing is said of the code exactly when it has the version of the run and that has no changes
-- that were not committed.
pub code_change_warning_iff :
    (minted current : Option Text)
    → (code_change_warning minted current ≡ none) ↔ (
        (current ≡ minted) × ((v : Text) → current ≡ some v → ends_with (codes "-dirty") v ≡ false))
unfolding code_change_warning
code_change_warning_iff minted none = (
  λ q. (ground (arith, q, same_option_iff none minted), λ v e. ground (arith, e)),
  λ h. ground (arith, h.0, same_option_iff none minted),
)
code_change_warning_iff minted (some c) = (
  λ q. (
    ground (arith, q, same_option_iff (some c) minted),
    λ v e.
        subst (λ (x : Text). ends_with (codes "-dirty") x ≡ false) {x = c} (ground (arith, e))
          (ground (arith, q, same_option_iff (some c) minted)),
  ),
  λ h. ground (arith, (same_option_iff (some c) minted).1 h.0, h.1 c refl),
)
