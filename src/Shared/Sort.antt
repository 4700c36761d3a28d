-- ===== src/Shared/Sort.antt =====
-- Python's `sorted`: a stable sort by a key, and the order of texts and of pairs of texts.
use Prim.Native.Nat.{suc}
use mathlib.Core.Path.{◌≡◌, refl, ap, ◌∙◌, sym}
use mathlib.Core.Logic.{◌⊎◌, inl, inr}
use mathlib.Core.Bool.{Bool, true, false, ◌&&◌, ◌||◌}
use mathlib.Core.List.{List, [], ◌∷◌, ◌++◌, map}
use native.Mathlib.Omega.{arith}
use codenames_llm_bias.Shared.Tests.{if◌then◌else◌, ltb, nat_beq}
use codenames_llm_bias.Shared.Lists.{length, filter, All}
use codenames_llm_bias.Shared.Strings.{Text}

-- The order of texts by their code points.
unfoldable pub text_leb : Text → Text → Bool
text_leb [] t = true
text_leb (a ∷ s) [] = false
text_leb (a ∷ s) (b ∷ t) = ltb a b || (nat_beq a b && text_leb s t)

pub text_leb_total : (s t : Text) → (text_leb s t ≡ true) ⊎ (text_leb t s ≡ true)
unfolding text_leb
text_leb_total [] t = inl refl
text_leb_total (a ∷ s) [] = inr refl
text_leb_total (a ∷ s) (b ∷ t) = ground (arith, text_leb_total s t)

pub text_leb_antisymm : (s t : Text) → text_leb s t ≡ true → text_leb t s ≡ true → s ≡ t
unfolding text_leb
text_leb_antisymm [] [] h k = refl
text_leb_antisymm [] (b ∷ t) h k = ground arith
text_leb_antisymm (a ∷ s) [] h k = ground arith
text_leb_antisymm (a ∷ s) (b ∷ t) h k = ground (arith, text_leb_antisymm s t)

text_leb_trans : (s t u : Text) → text_leb s t ≡ true → text_leb t u ≡ true → text_leb s u ≡ true
unfolding text_leb
text_leb_trans [] t u h k = refl
text_leb_trans (a ∷ s) [] u h k = ground arith
text_leb_trans (a ∷ s) (b ∷ t) [] h k = ground arith
text_leb_trans (a ∷ s) (b ∷ t) (c ∷ u) h k = ground (arith, text_leb_trans s t u)

-- A total preorder, as a test.
pub record IsOrder {ℓ} {A : Type ℓ} (le : A → A → Bool) : Type ℓ where
  pub total : (x y : A) → (le x y ≡ true) ⊎ (le y x ≡ true)
  pub trans : (x y z : A) → le x y ≡ true → le y z ≡ true → le x z ≡ true

pub text_leb-IsOrder : IsOrder text_leb
text_leb-IsOrder = record { total = text_leb_total; trans = text_leb_trans }

module _ {ℓ} {A : Type ℓ} (le : A → A → Bool) where
  unfoldable pub insert : A → List A → List A
  insert x [] = x ∷ []
  insert x (y ∷ ys) = let rest = insert x ys in if le x y then x ∷ y ∷ ys else y ∷ rest

  -- `sorted(xs, key=...)`, with the order of the keys.
  unfoldable pub sort : List A → List A
  unfolding insert
  sort [] = []
  sort (x ∷ xs) = insert x (sort xs)

  length-insert : (x : A) (ys : List A) → length (insert x ys) ≡ suc (length ys)
  unfolding insert
  length-insert x [] = refl
  length-insert x (y ∷ ys) = ground (arith, length-insert x ys)

  pub length-sort : (xs : List A) → length (sort xs) ≡ length xs
  unfolding sort
  length-sort [] = refl
  length-sort (x ∷ xs) = length-insert x (sort xs) ∙ ap suc (length-sort xs)

  All-insert {κ} : (P : A → Type κ) (x : A) (ys : List A) → P x → All P ys → All P (insert x ys)
  unfolding insert
  All-insert P x [] h k = (h, tt)
  All-insert P x (y ∷ ys) h k = by_test (le x y) (All-insert P x ys h k.1)
    where
      by_test : (b : Bool) → All P (insert x ys) → All P (if b then x ∷ y ∷ ys else y ∷ insert x ys)
      by_test true rest = (h, k)
      by_test false rest = (k.0, rest)

  pub All-sort {κ} : (P : A → Type κ) (xs : List A) → All P xs → All P (sort xs)
  unfolding sort
  All-sort P [] h = tt
  All-sort P (x ∷ xs) h = All-insert P x (sort xs) h.0 (All-sort P xs h.1)

  -- Two elements are the same, or differ in the order.
  abbrev pub Apart : A → A → Type ℓ
  Apart x y = (x ≡ y) ⊎ ((le x y && le y x) ≡ false)

  insert_comm :
      (o : IsOrder le) (x y : A) (zs : List A)
      → (le x y && le y x) ≡ false
      → insert x (insert y zs) ≡ insert y (insert x zs)
  unfolding insert
  insert_comm o x y [] h = ground (arith, o.total x y)
  insert_comm o x y (z ∷ zs) h = ground (
    arith,
    o.total x y,
    o.total x z,
    o.total y z,
    o.trans x y z,
    o.trans y x z,
    o.trans x z y,
    o.trans y z x,
    insert_comm o x y zs h,
  )

-- A list with its elements in another order: neighbours change places, any number of times.
pub data Reorders {ℓ} {A : Type ℓ} : List A → List A → Type ℓ where
  same : (xs : List A) → Reorders xs xs
  swap : (x y : A) (zs : List A) → Reorders (x ∷ y ∷ zs) (y ∷ x ∷ zs)
  skip : {xs ys : List A} (x : A) → Reorders xs ys → Reorders (x ∷ xs) (x ∷ ys)
  chain : {xs ys zs : List A} → Reorders xs ys → Reorders ys zs → Reorders xs zs

module _ {ℓ} {A : Type ℓ} where
  pub All-Reorders {κ} : (P : A → Type κ) {xs ys : List A} → Reorders xs ys → All P xs → All P ys
  All-Reorders P (same xs) h = h
  All-Reorders P (swap x y zs) (a, (b, c)) = (b, (a, c))
  All-Reorders P (skip x r) (a, b) = (a, All-Reorders P r b)
  All-Reorders P (chain r s) h = All-Reorders P s (All-Reorders P r h)

  pub filter-Reorders :
      (p : A → Bool) {xs ys : List A} → Reorders xs ys → Reorders (filter p xs) (filter p ys)
  filter-Reorders p (same xs) = same (filter p xs)
  filter-Reorders p (swap x y zs) = by_tests (p x) (p y)
    where
      by_tests :
          (a b : Bool)
          → Reorders
              (if a
                then x ∷ (if b then y ∷ filter p zs else filter p zs)
                else if b
                then y ∷ filter p zs
                else filter p zs)
              (if b
                then y ∷ (if a then x ∷ filter p zs else filter p zs)
                else if a
                then x ∷ filter p zs
                else filter p zs)
      by_tests true true = swap x y (filter p zs)
      by_tests true false = same (x ∷ filter p zs)
      by_tests false true = same (y ∷ filter p zs)
      by_tests false false = same (filter p zs)
  filter-Reorders p (skip {xs} {ys} x r) = by_test (p x) (filter-Reorders p r)
    where
      by_test :
          (b : Bool)
          → Reorders (filter p xs) (filter p ys)
          → Reorders
              (if b then x ∷ filter p xs else filter p xs)
              (if b then x ∷ filter p ys else filter p ys)
      by_test true h = skip x h
      by_test false h = h
  filter-Reorders p (chain r s) = chain (filter-Reorders p r) (filter-Reorders p s)

module _ {ℓ} {A : Type ℓ} (le : A → A → Bool) where
  -- No two elements of the list can change places in the sorted list.
  abbrev pub AllApart : List A → Type ℓ
  AllApart [] = Unit
  AllApart (x ∷ xs) = All (Apart le x) xs × AllApart xs

  Apart-symm : {x y : A} → Apart le x y → Apart le y x
  Apart-symm (inl e) = inl (sym e)
  Apart-symm (inr h) = inr (ground (arith, h))

  AllApart-Reorders : {xs ys : List A} → Reorders xs ys → AllApart xs → AllApart ys
  AllApart-Reorders (same xs) h = h
  AllApart-Reorders (swap x y zs) ((xy, xs), (ys, zs')) = ((Apart-symm xy, ys), (xs, zs'))
  AllApart-Reorders (skip x r) (a, b) = (All-Reorders (Apart le x) r a, AllApart-Reorders r b)
  AllApart-Reorders (chain r s) h = AllApart-Reorders s (AllApart-Reorders r h)

  -- Then the sorted list does not depend on the order of the list.
  pub sort-Reorders :
      {xs ys : List A} → IsOrder le → Reorders xs ys → AllApart xs → sort le xs ≡ sort le ys
  unfolding sort
  sort-Reorders o (same xs) h = refl
  sort-Reorders o (swap x y zs) ((inl e, xs), h) = rw e
  sort-Reorders o (swap x y zs) ((inr n, xs), h) = insert_comm le o x y (sort le zs) n
  sort-Reorders o (skip x r) (a, b) = ap (insert le x) (sort-Reorders o r b)
  sort-Reorders o (chain r s) h = sort-Reorders o r h ∙ sort-Reorders o s (AllApart-Reorders r h)

module _ {ℓ} {A : Type ℓ} where
  pub length-Reorders : {xs ys : List A} → Reorders xs ys → length xs ≡ length ys
  length-Reorders (same xs) = refl
  length-Reorders (swap x y zs) = refl
  length-Reorders (skip x r) = ap suc (length-Reorders r)
  length-Reorders (chain r s) = length-Reorders r ∙ length-Reorders s

  Reorders-before : (zs : List A) {xs ys : List A} → Reorders xs ys → Reorders (zs ++ xs) (zs ++ ys)
  Reorders-before [] r = r
  Reorders-before (z ∷ zs) r = skip z (Reorders-before zs r)

  Reorders-after : {xs ys : List A} (zs : List A) → Reorders xs ys → Reorders (xs ++ zs) (ys ++ zs)
  Reorders-after zs (same xs) = same (xs ++ zs)
  Reorders-after zs (swap x y xs) = swap x y (xs ++ zs)
  Reorders-after zs (skip x r) = skip x (Reorders-after zs r)
  Reorders-after zs (chain r s) = chain (Reorders-after zs r) (Reorders-after zs s)

  pub Reorders-append :
      {xs ys xs' ys' : List A}
      → Reorders xs ys
      → Reorders xs' ys'
      → Reorders (xs ++ xs') (ys ++ ys')
  Reorders-append {xs} {ys} {xs'} {ys'} r s = chain (Reorders-after xs' r) (Reorders-before ys s)

  Reorders-move : (x : A) (ys zs : List A) → Reorders (x ∷ (ys ++ zs)) (ys ++ (x ∷ zs))
  Reorders-move x [] zs = same (x ∷ zs)
  Reorders-move x (y ∷ ys) zs = chain (swap x y (ys ++ zs)) (skip y (Reorders-move x ys zs))

  pub Reorders-exchange : (xs ys zs : List A) → Reorders (xs ++ (ys ++ zs)) (ys ++ (xs ++ zs))
  Reorders-exchange [] ys zs = same (ys ++ zs)
  Reorders-exchange (x ∷ xs) ys zs =
      chain (skip x (Reorders-exchange xs ys zs)) (Reorders-move x ys (xs ++ zs))

pub map-Reorders {ℓ κ} :
    {A : Type ℓ} {B : Type κ} (f : A → B) {xs ys : List A}
    → Reorders xs ys
    → Reorders (map f xs) (map f ys)
map-Reorders f (same xs) = same (map f xs)
map-Reorders f (swap x y zs) = swap (f x) (f y) (map f zs)
map-Reorders f (skip x r) = skip (f x) (map-Reorders f r)
map-Reorders f (chain r s) = chain (map-Reorders f r) (map-Reorders f s)
