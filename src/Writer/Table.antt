-- ===== src/Writer/Table.antt =====
-- backend/app/db/writer.py: the table of games as a store by id.
use codenames_llm_bias.Shared.{
  ◌≡◌, refl, sym, ap, subst, ◌∙◌, inl, inr, Bool, true, false, not, Bool-cases, Option, none, some,
  List, [], ◌∷◌, ◌++◌, if◌then◌else◌, ◌==◌, nat_eq, text_eq, Text, text_beq_iff, filter, arith,
  count_if, length, ◌+◌, All,
}
use codenames_llm_bias.Writer.{GameRow}
use codenames_llm_bias.Writer.Store.{has_game}

-- The store: the row of a game, if there is one.
unfoldable pub find_game : Text → List GameRow → Option GameRow
find_game i [] = none
find_game i (g ∷ gs) = let rest = find_game i gs in if g.id == i then some g else rest

-- The primary key: no two games have one id.
abbrev pub IsUnique : List GameRow → Type 0
IsUnique [] = Unit
IsUnique (g ∷ gs) = (has_game g.id gs ≡ false) × IsUnique gs

-- What the operations are on the store: a row is put, and the rows that meet a test are dropped.
abbrev pub put : Text → GameRow → (Text → Option GameRow) → Text → Option GameRow
put k row store i = if k == i then some row else store i

abbrev pub unless : (GameRow → Bool) → Option GameRow → Option GameRow
unless p none = none
unless p (some g) = if p g then none else some g

pub find_game_absent :
    (i : Text) (gs : List GameRow) → has_game i gs ≡ false → find_game i gs ≡ none
unfolding find_game
find_game_absent i [] h = refl
find_game_absent i (g ∷ gs) h = ground (arith, h, find_game_absent i gs)

pub find_game-append :
    (i : Text) (gs : List GameRow) (row : GameRow)
    → has_game row.id gs ≡ false
    → find_game i (gs ++ (row ∷ [])) ≡ put row.id row (λ j. find_game j gs) i
unfolding find_game
find_game-append i [] row h = refl
find_game-append i (g ∷ gs) row h = ground (
  arith,
  h,
  find_game-append i gs row,
  text_beq_iff g.id i,
  text_beq_iff row.id i,
  text_beq_iff g.id row.id,
)

-- In a table with a primary key, a row that is dropped uncovers no other row.
pub find_game-filter :
    (p : GameRow → Bool) (i : Text) (gs : List GameRow)
    → IsUnique gs
    → find_game i (filter (λ g. not (p g)) gs) ≡ unless p (find_game i gs)
unfolding find_game
find_game-filter p i [] u = refl
find_game-filter p i (g ∷ gs) u = by_tests (find_game-filter p i gs u.1) (p g) refl (g.id == i) refl
  where
    by_tests :
        find_game i (filter (λ g. not (p g)) gs) ≡ unless p (find_game i gs)
        → (a : Bool) → p g ≡ a
        → (b : Bool) → (g.id == i) ≡ b
        → find_game i (if not a then g ∷ filter (λ g. not (p g)) gs else filter (λ g. not (p g)) gs)
          ≡ unless p (if b then some g else find_game i gs)
    by_tests k true e true f =
        let same : g.id ≡ i = (text_eq.decides g.id i).0 f in
        k
        ∙ ap (unless p) (find_game_absent i gs (subst (λ x. has_game x gs ≡ false) same u.0))
        ∙ sym (ap (λ x. if x then none else some g) e)
    by_tests k true e false f = k
    by_tests k false e true f = rw (f, e) refl
    by_tests k false e false f = rw f k

pub IsUnique-append :
    (gs : List GameRow) (row : GameRow)
    → IsUnique gs
    → has_game row.id gs ≡ false
    → IsUnique (gs ++ (row ∷ []))
IsUnique-append [] row u h = (refl, tt)
IsUnique-append (g ∷ gs) row u h = (
  later gs u.0 (ground (arith, h, text_beq_iff g.id row.id, text_beq_iff row.id g.id)),
  IsUnique-append gs row u.1 (ground (arith, h)),
)
  where
    later :
        (xs : List GameRow)
        → has_game g.id xs ≡ false
        → (row.id == g.id) ≡ false
        → has_game g.id (xs ++ (row ∷ [])) ≡ false
    later [] a b = ground (arith, b)
    later (x ∷ xs) a b = ground (arith, a, later xs (ground (arith, a)) b)

pub IsUnique-filter :
    (p : GameRow → Bool) (gs : List GameRow) → IsUnique gs → IsUnique (filter p gs)
IsUnique-filter p [] u = tt
IsUnique-filter p (g ∷ gs) u = elim (Bool-cases (p g)) [
  | inl h ↦ rw h (fewer gs u.0, IsUnique-filter p gs u.1)
  | inr h ↦ rw h (IsUnique-filter p gs u.1)
]
  where
    fewer : (xs : List GameRow) → has_game g.id xs ≡ false → has_game g.id (filter p xs) ≡ false
    fewer [] a = refl
    fewer (x ∷ xs) a = ground (arith, a, fewer xs)

-- A row that is found has the id, and what all rows have.
pub find_game_id : (i : Text) (gs : List GameRow) (g : GameRow) → find_game i gs ≡ some g → g.id ≡ i
unfolding find_game
find_game_id i [] g h = ground (arith, h)
find_game_id i (x ∷ gs) g h = elim (Bool-cases (x.id == i)) [
  | inl q ↦
      let same : x ≡ g = ground (arith, h, q) in
      ap (λ y. GameRow.id y) (sym same) ∙ (text_eq.decides x.id i).0 q
  | inr q ↦ find_game_id i gs g (ground (arith, h, q))
]

pub find_game-All :
    (P : GameRow → Type 0) (i : Text) (gs : List GameRow) (g : GameRow)
    → All P gs
    → find_game i gs ≡ some g
    → P g
unfolding find_game
find_game-All P i [] g a h = absurd (ground (arith, h))
find_game-All P i (x ∷ gs) g a h = elim (Bool-cases (x.id == i)) [
  | inl q ↦ let same : x ≡ g = ground (arith, h, q) in subst P same a.0
  | inr q ↦ find_game-All P i gs g a.1 (ground (arith, h, q))
]

-- The rows that meet a test are counted where one of them is found.
pub count_if_found :
    (p : GameRow → Bool) (i : Text) (gs : List GameRow) (g : GameRow)
    → find_game i gs ≡ some g
    → p g ≡ true
    → not (count_if p gs == 0) ≡ true
unfolding find_game
count_if_found p i [] g h k = ground (arith, h)
count_if_found p i (x ∷ gs) g h k = elim (Bool-cases (x.id == i)) [
  | inl q ↦
      let same : x ≡ g = ground (arith, h, q) in
      let here : p x ≡ true = ap p same ∙ k in ground (arith, here)
  | inr q ↦ ground (arith, count_if_found p i gs g (ground (arith, h, q)) k)
]

pub find_game_counted :
    (p : GameRow → Bool) (gs : List GameRow)
    → IsUnique gs
    → not (count_if p gs == 0) ≡ true
    → (g : GameRow) × (find_game g.id gs ≡ some g) × (p g ≡ true)
unfolding find_game
find_game_counted p [] u h = absurd (ground (arith, h))
find_game_counted p (x ∷ gs) u h = elim (Bool-cases (p x)) [
  | inl q ↦ (x, rw ((text_eq.decides x.id x.id).1 refl) refl, q)
  | inr q ↦
      let (g, found, k) = find_game_counted p gs u.1 (ground (arith, h, q)) in
      elim (Bool-cases (x.id == g.id)) [
        | inl e ↦
            let same : x.id ≡ g.id = (text_eq.decides x.id g.id).0 e in
            let gone = find_game_absent g.id gs (subst (λ i. has_game i gs ≡ false) same u.0) in
            absurd (ground (arith, sym found ∙ gone))
        | inr e ↦ (g, rw e found, k)
      ]
]

pub length-filter :
    (p : GameRow → Bool) (gs : List GameRow)
    → length gs ≡ count_if p gs + length (filter (λ g. not (p g)) gs)
length-filter p [] = refl
length-filter p (g ∷ gs) = ground (arith, length-filter p gs)
