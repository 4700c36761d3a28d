-- ===== src/Loader/Groups.antt =====
-- backend/app/core/loader.py: the groups of the boards that are loaded.
use codenames_llm_bias.Shared.{
  ◌≡◌, ◌⊎◌, All, refl, sym, subst, ap, ◌∙◌, inl, inr, Bool, true, false, Bool-cases, Option, none,
  some, List, [], ◌∷◌, ◌++◌, if◌then◌else◌, ◌==◌, text_eq, append_none, append_one, if_decided,
  filter, contains, Text, set_item, get_item, arith,
}
use codenames_llm_bias.Schemas.Board.{Board}
use codenames_llm_bias.Loader.{
  bank_sidecars, Loaded, boards, invalid_board_file, add_board, load_loop, load_boards,
  valid_boards,
}

abbrev pub of_category : Text → Board → Bool
of_category k b = b.category == k

-- What a lookup finds when `bs` are the boards of the category.
abbrev pub group : List Board → Option (List Board)
group [] = none
group (b ∷ bs) = some (b ∷ bs)

get_item-set_item :
    (k j : Text) (v : List Board) (d : List (Text × List Board))
    → get_item k (set_item j v d) ≡ (if j == k then some v else get_item k d)
get_item-set_item k j v [] = ground arith
get_item-set_item k j v ((i, w) ∷ d) = ground (
  arith,
  get_item-set_item k j v d,
  text_eq.decides i j,
  text_eq.decides i k,
  text_eq.decides j k,
)

abbrev IsGrouped : List Board → List (Text × List Board) → Type 0
IsGrouped bs d = (k : Text) → get_item k d ≡ group (filter (of_category k) bs)

filter-append :
    (q : Board → Bool) (xs ys : List Board) → filter q (xs ++ ys) ≡ filter q xs ++ filter q ys
filter-append q [] ys = refl
filter-append q (x ∷ xs) ys = elim (Bool-cases (q x)) [
  | inl t ↦ rw t (ap (◌∷◌ x) (filter-append q xs ys))
  | inr f ↦ rw f (filter-append q xs ys)
]

group-append : (xs : List Board) (b : Board) → group (xs ++ (b ∷ [])) ≡ some (xs ++ (b ∷ []))
group-append [] b = refl
group-append (x ∷ xs) b = refl

group_empty : (xs : List Board) → group xs ≡ none → xs ≡ []
group_empty [] q = refl
group_empty (x ∷ xs) q = ground (arith, q)

group_full : (xs ys : List Board) → group xs ≡ some ys → xs ≡ ys
group_full [] ys q = ground (arith, q)
group_full (x ∷ xs) ys q = ground (arith, q)

-- The board's own category, and another one.
add_board_own :
    (b : Board) (bs : List Board) (d : List (Text × List Board))
    → IsGrouped bs d
    → get_item b.category (add_board b d) ≡ some (filter (of_category b.category) bs ++ (b ∷ []))
unfolding add_board
add_board_own b bs d h = by_item (get_item b.category d) refl
  where
    own : (b.category == b.category) ≡ true
    own = (text_eq.decides b.category b.category).1 refl

    by_item :
        (o : Option (List Board))
        → get_item b.category d ≡ o
        → get_item b.category (elim o [
          | none ↦ set_item b.category (b ∷ []) d
          | some xs ↦ set_item b.category (xs ++ (b ∷ [])) d
        ])
          ≡ some (filter (of_category b.category) bs ++ (b ∷ []))
    by_item none q =
        get_item-set_item b.category b.category (b ∷ []) d
        ∙ rw (own, group_empty (filter (of_category b.category) bs) (sym (h b.category) ∙ q)) refl
    by_item (some xs) q =
        get_item-set_item b.category b.category (xs ++ (b ∷ [])) d
        ∙ rw (own, group_full (filter (of_category b.category) bs) xs (sym (h b.category) ∙ q)) refl

add_board_other :
    (b : Board) (d : List (Text × List Board)) (k : Text)
    → (b.category == k) ≡ false
    → get_item k (add_board b d) ≡ get_item k d
unfolding add_board
add_board_other b d k q = by_item (get_item b.category d)
  where
    by_item :
        (o : Option (List Board))
        → get_item k (elim o [
          | none ↦ set_item b.category (b ∷ []) d
          | some xs ↦ set_item b.category (xs ++ (b ∷ [])) d
        ])
          ≡ get_item k d
    by_item none = get_item-set_item k b.category (b ∷ []) d ∙ rw q refl
    by_item (some xs) = get_item-set_item k b.category (xs ++ (b ∷ [])) d ∙ rw q refl

add_board-IsGrouped :
    (b : Board) (bs : List Board) (d : List (Text × List Board))
    → IsGrouped bs d
    → IsGrouped (bs ++ (b ∷ [])) (add_board b d)
add_board-IsGrouped b bs d h k = elim (Bool-cases (b.category == k)) [
  | inl t ↦
      let e : b.category ≡ k = (text_eq.decides b.category k).0 t in
      subst
        (λ (x : Text). get_item x (add_board b d) ≡ group (filter (of_category x) (bs ++ (b ∷ []))))
        e
        (add_board_own b bs d h
          ∙ sym (group-append (filter (of_category b.category) bs) b)
          ∙ ap group (
              sym (
                filter-append (of_category b.category) bs (b ∷ [])
                ∙ rw ((text_eq.decides b.category b.category).1 refl) refl)))
  | inr f ↦
      add_board_other b d k f
      ∙ h k
      ∙ ap group (
          sym (
            filter-append (of_category k) bs (b ∷ [])
            ∙ rw f (append_none (filter (of_category k) bs))))
]

module _ (load_board : Text → Option Board) (strict : Bool) where
  -- What is loaded: the boards of each category, in the order of the files, or the file that is not a
  -- valid board when that is an error.
  abbrev pub Loads : List Board → Loaded → Type 0
  Loads bs (boards d) = (k : Text) → get_item k d ≡ group (filter (of_category k) bs)
  Loads bs (invalid_board_file name) =
      (strict ≡ true) × (contains name bank_sidecars ≡ false) × (load_board name ≡ none)

  load_loop-Loads :
      (bs : List Board) (d : List (Text × List Board)) (names : List Text)
      → IsGrouped bs d
      → Loads (bs ++ valid_boards load_board strict names) (load_loop load_board strict d names)
  unfolding load_loop
  load_loop-Loads bs d [] h =
      subst (λ (x : List Board). Loads x (boards d)) (sym (append_none bs)) h
  load_loop-Loads bs d (name ∷ names) h =
      by_board (load_board name) refl (load_loop-Loads bs d names h)
        (λ b. load_loop-Loads (bs ++ (b ∷ [])) (add_board b d) names (add_board-IsGrouped b bs d h))
    where
      valid : List Board
      valid = valid_boards load_board strict names

      by_board :
          (o : Option Board)
          → load_board name ≡ o
          → Loads (bs ++ valid) (load_loop load_board strict d names)
          → ((b : Board)
              → Loads
                  ((bs ++ (b ∷ [])) ++ valid)
                  (load_loop load_board strict (add_board b d) names))
          → Loads
              (bs ++ elim o as (λ x. List Board) [
                | none ↦ valid
                | some b ↦ if contains name bank_sidecars then valid else b ∷ valid
              ])
              (elim o as (λ x. Loaded) [
                | none ↦
                    if contains name bank_sidecars
                    then load_loop load_board strict d names
                    else if strict
                    then invalid_board_file name
                    else load_loop load_board strict d names
                | some b ↦
                    if contains name bank_sidecars
                    then load_loop load_board strict d names
                    else load_loop load_board strict (add_board b d) names
              ])
      by_board none q rest more =
          if_decided (Loads (bs ++ valid)) (contains name bank_sidecars) (λ t. rest)
            (λ f. if_decided (Loads (bs ++ valid)) strict (λ s. (s, f, q)) (λ s. rest))
      by_board (some b) q rest more = elim (Bool-cases (contains name bank_sidecars)) [
        | inl t ↦ rw t rest
        | inr f ↦ rw f (
            subst (λ (x : List Board). Loads x (load_loop load_board strict (add_board b d) names))
              (append_one bs b valid) (more b))
      ]

  -- A file that the loader passes over, or reads.
  abbrev pub IsPassed : Text → Type 0
  IsPassed name = (contains name bank_sidecars ≡ true) ⊎ ((b : Board) × (load_board name ≡ some b))

  -- A strict loader refuses one of the files or has passed all of them.
  abbrev pub Decides : List Text → Loaded → Type 0
  Decides names (boards d) = (strict ≡ false) ⊎ All IsPassed names
  Decides names (invalid_board_file name) = contains name names ≡ true

  Decides-later :
      (name : Text) (names : List Text) (l : Loaded)
      → IsPassed name ⊎ (strict ≡ false)
      → Decides names l
      → Decides (name ∷ names) l
  Decides-later name names (boards d) (inr s) h = inl s
  Decides-later name names (boards d) (inl p) (inl s) = inl s
  Decides-later name names (boards d) (inl p) (inr a) = inr (p, a)
  Decides-later name names (invalid_board_file x) p h = ground (arith, h)

  load_loop-Decides :
      (names : List Text) (d : List (Text × List Board))
      → Decides names (load_loop load_board strict d names)
  unfolding load_loop
  load_loop-Decides [] d = inr tt
  load_loop-Decides (name ∷ names) d =
      by_board (load_board name) refl (load_loop-Decides names d)
        (λ b. load_loop-Decides names (add_board b d))
    where
      by_board :
          (o : Option Board)
          → load_board name ≡ o
          → Decides names (load_loop load_board strict d names)
          → ((b : Board) → Decides names (load_loop load_board strict (add_board b d) names))
          → Decides (name ∷ names) (elim o as (λ x. Loaded) [
            | none ↦
                if contains name bank_sidecars
                then load_loop load_board strict d names
                else if strict
                then invalid_board_file name
                else load_loop load_board strict d names
            | some b ↦
                if contains name bank_sidecars
                then load_loop load_board strict d names
                else load_loop load_board strict (add_board b d) names
          ])
      by_board none q rest more =
          if_decided (Decides (name ∷ names)) (contains name bank_sidecars)
            (λ t. Decides-later name names _ (inl (inl t)) rest)
            (λ f.
              if_decided (Decides (name ∷ names)) strict
                (λ s. ground (arith, text_eq.decides name name))
                (λ s. Decides-later name names _ (inr s) rest))
      by_board (some b) q rest more =
          if_decided (Decides (name ∷ names)) (contains name bank_sidecars)
            (λ t. Decides-later name names _ (inl (inl t)) rest)
            (λ f. Decides-later name names _ (inl (inr (b, q))) (more b))

  -- The bank is loaded by category: each category has the valid boards of the files that are not
  -- sidecars, in their order, and a category without boards is not there. Only a strict loader
  -- refuses the bank, and then for one of the files, which is no sidecar and not a valid board; a
  -- strict loader that does not refuse it has read every file that is not a sidecar.
  pub load_boards-Loads :
      (names : List Text)
      → Loads (valid_boards load_board strict names) (load_boards load_board strict names)
        × Decides names (load_boards load_board strict names)
  unfolding load_boards
  load_boards-Loads names = (load_loop-Loads [] [] names (λ k. refl), load_loop-Decides names [])
