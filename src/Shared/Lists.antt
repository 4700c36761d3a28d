-- ===== src/Shared/Lists.antt =====
-- Lists measured with native numbers, and predicates on their elements.
use Prim.Native.Nat.{ℕ, suc, ◌+◌}
use mathlib.Core.Path.{◌≡◌, refl, ap}
use mathlib.Core.Logic.{inl, inr}
use mathlib.Core.Bool.{Bool, true, false, ◌||◌, ◌&&◌, not}
use mathlib.Core.List.{List, [], ◌∷◌, ◌++◌, map}
use native.Mathlib.Omega.{arith}
use codenames_llm_bias.Shared.Tests.{Bool-cases, Eq, ◌==◌, if◌then◌else◌}

module _ {ℓ} {A : Type ℓ} where
  abbrev pub length : List A → ℕ
  length [] = 0
  length (x ∷ xs) = suc (length xs)

  -- `[x for x in xs if p(x)]`
  abbrev pub filter : (A → Bool) → List A → List A
  filter p [] = []
  filter p (x ∷ xs) = let rest = filter p xs in if p x then x ∷ rest else rest

  abbrev pub All {κ} : (A → Type κ) → List A → Type κ
  All P [] = Unit
  All P (x ∷ xs) = P x × All P xs

  -- `sum(1 for x in xs if p(x))`
  abbrev pub count_if : (A → Bool) → List A → ℕ
  count_if p [] = 0
  count_if p (x ∷ xs) = let rest = count_if p xs in if p x then suc rest else rest

  -- `all(p(x) for x in xs)`
  abbrev pub all_of : (A → Bool) → List A → Bool
  all_of p [] = true
  all_of p (x ∷ xs) = p x && all_of p xs

  pub length-append : (xs ys : List A) → length (xs ++ ys) ≡ length xs + length ys
  length-append [] ys = omega arith
  length-append (x ∷ xs) ys = omega (arith, length-append xs ys)

  pub append_none : (xs : List A) → xs ++ [] ≡ xs
  append_none [] = refl
  append_none (x ∷ xs) = ap (◌∷◌ x) (append_none xs)

  pub append_one : (xs : List A) (y : A) (zs : List A) → (xs ++ (y ∷ [])) ++ zs ≡ xs ++ (y ∷ zs)
  append_one [] y zs = refl
  append_one (x ∷ xs) y zs = ap (◌∷◌ x) (append_one xs y zs)

  pub All-append {κ} : (P : A → Type κ) (xs ys : List A) → All P xs → All P ys → All P (xs ++ ys)
  All-append P [] ys h k = k
  All-append P (x ∷ xs) ys h k = (h.0, All-append P xs ys h.1 k)

  pub All-weaken {κ ν} :
      (P : A → Type κ) (Q : A → Type ν)
      → ((x : A) → P x → Q x)
      → (xs : List A) → All P xs
      → All Q xs
  All-weaken P Q h [] a = tt
  All-weaken P Q h (x ∷ xs) a = (h x a.0, All-weaken P Q h xs a.1)

  pub All-always {κ} : (P : A → Type κ) → ((x : A) → P x) → (xs : List A) → All P xs
  All-always P h [] = tt
  All-always P h (x ∷ xs) = (h x, All-always P h xs)

  pub All-pair {κ ν ξ} :
      (P : A → Type κ) (Q : A → Type ν) (R : A → Type ξ)
      → ((x : A) → P x → Q x → R x)
      → (xs : List A) → All P xs
      → All Q xs
      → All R xs
  All-pair P Q R h [] p q = tt
  All-pair P Q R h (x ∷ xs) p q = (h x p.0 q.0, All-pair P Q R h xs p.1 q.1)

  pub All-filter {κ} :
      (p : A → Bool) (P : A → Type κ) (xs : List A)
      → ((x : A) → p x ≡ true → P x)
      → All P (filter p xs)
  All-filter p P [] h = tt
  All-filter p P (x ∷ xs) h = by_test (p x) (h x) (All-filter p P xs h)
    where
      by_test :
          (b : Bool)
          → (b ≡ true → P x)
          → All P (filter p xs)
          → All P (if b then x ∷ filter p xs else filter p xs)
      by_test true hx rest = (hx refl, rest)
      by_test false hx rest = rest

  -- A filter of what passes, of what does not, and of two lists.
  pub filter_keeps : (p : A → Bool) (xs : List A) → All (λ x. p x ≡ true) xs → filter p xs ≡ xs
  filter_keeps p [] h = refl
  filter_keeps p (x ∷ xs) h = rw h.0 (ap (◌∷◌ x) (filter_keeps p xs h.1))

  pub filter_drops : (p : A → Bool) (xs : List A) → All (λ x. p x ≡ false) xs → filter p xs ≡ []
  filter_drops p [] h = refl
  filter_drops p (x ∷ xs) h = rw h.0 (filter_drops p xs h.1)

  pub filter-append :
      (p : A → Bool) (xs ys : List A) → filter p (xs ++ ys) ≡ filter p xs ++ filter p ys
  filter-append p [] ys = refl
  filter-append p (x ∷ xs) ys = elim (Bool-cases (p x)) [
    | inl h ↦ rw h (ap (◌∷◌ x) (filter-append p xs ys))
    | inr h ↦ rw h (filter-append p xs ys)
  ]

module _ {ℓ} {A : Type ℓ} ⦃e : Eq A⦄ where
  -- `a in xs`
  abbrev pub contains : A → List A → Bool
  contains a [] = false
  contains a (x ∷ xs) = a == x || contains a xs

  -- the words listed once each: no element stands again in the rest
  abbrev pub is_distinct : List A → Bool
  is_distinct [] = true
  is_distinct (x ∷ xs) = not (contains x xs) && is_distinct xs

  -- `d.pop(a, None)` on the keys of a dict
  abbrev pub remove : A → List A → List A
  remove a [] = []
  remove a (x ∷ xs) = let rest = remove a xs in if a == x then xs else x ∷ rest

  pub contains-cons_self : (a : A) (xs : List A) → contains a (a ∷ xs) ≡ true
  contains-cons_self a xs = rw ((e.decides a a).1 refl)

  -- Each list holds the other's elements, which is how two sets are compared.
  abbrev pub subset_of : List A → List A → Bool
  subset_of xs ys = all_of (λ x. contains x ys) xs

  subset_of_cons :
      (xs : List A) (y : A) (ys : List A) → subset_of xs ys ≡ true → subset_of xs (y ∷ ys) ≡ true
  subset_of_cons [] y ys h = refl
  subset_of_cons (x ∷ xs) y ys h = ground (arith, subset_of_cons xs y ys)

  pub subset_of_refl : (xs : List A) → subset_of xs xs ≡ true
  subset_of_refl [] = refl
  subset_of_refl (x ∷ xs) =
      ground (arith, contains-cons_self x xs, subset_of_cons xs x xs (subset_of_refl xs))

module _ {ℓ κ} {A : Type ℓ} {B : Type κ} (f : A → B) where
  pub length-map : (xs : List A) → length (map f xs) ≡ length xs
  length-map [] = refl
  length-map (x ∷ xs) = ap suc (length-map xs)

  pub map-append : (xs ys : List A) → map f (xs ++ ys) ≡ map f xs ++ map f ys
  map-append [] ys = refl
  map-append (x ∷ xs) ys = ap (◌∷◌ (f x)) (map-append xs ys)
