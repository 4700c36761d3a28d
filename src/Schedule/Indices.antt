-- ===== src/Schedule/Indices.antt =====
-- backend/app/core/batch_schedule.py: which games a schedule holds, and when there is one.
use codenames_llm_bias.Shared.{
  get_item, ℕ, zero, suc, ◌+◌, ◌*◌, ◌≤◌, ◌<◌, ◌≡◌, ◌≢◌, refl, sym, ap, subst, ◌∙◌, Option, none,
  some, List, [], ◌∷◌, ◌++◌, map, nat_eq, text_eq, Text, length, length-append, length-map,
  map-append, All, arith,
}
use codenames_llm_bias.Schemas.Board.{Board, BoardType}
use codenames_llm_bias.Schedule.{
  SeatSpec, BatchCell, Result, ok, err, games_per_pairing, cell, pairing_cells, batch_cells,
  assertion_error,
}

-- A board twice in a row, and a calendar as often as there are pairings.
abbrev pub doubled : List Board → List Text
doubled [] = []
doubled (b ∷ bs) = b.board_id ∷ b.board_id ∷ doubled bs

abbrev pub repeated : ℕ → List Text → List Text
repeated zero ts = []
repeated (suc n) ts = ts ++ repeated n ts

-- The cells are numbered from `n`; an index is made of its pairing and its place in it, and the
-- game's identity is that of the index.
abbrev pub Numbered : (ℕ → Text) → ℕ → List BatchCell → Type 0
Numbered id n [] = Unit
Numbered id n (c ∷ cs) =
    ((c.game_index ≡ n)
      × (c.game_index ≡ c.pairing_ordinal * games_per_pairing + c.k)
      × (c.k < games_per_pairing)
      × (c.game_id ≡ id n))
    × Numbered id (suc n) cs

-- Neighbours are the two games of a board, with the models on each other's seats.
abbrev pub Mirrored : List BatchCell → Type 0
Mirrored [] = Unit
Mirrored (c ∷ []) = ⊥
Mirrored (c ∷ d ∷ cs) =
    ((c.board_id ≡ d.board_id)
      × (c.pairing_ordinal ≡ d.pairing_ordinal)
      × (c.seat0_spec ≡ d.seat1_spec)
      × (c.seat1_spec ≡ d.seat0_spec))
    × Mirrored cs

pub record IsCalendar (id : ℕ → Text) (n : ℕ) (boards : List Text) (cells : List BatchCell)
    : Type 0 where
  pub numbered : Numbered id n cells
  pub mirrored : Mirrored cells
  pub same_boards : map (λ c. BatchCell.board_id c) cells ≡ boards

Numbered-append :
    (id : ℕ → Text) (n m : ℕ) (xs ys : List BatchCell)
    → n + length xs ≡ m
    → Numbered id n xs
    → Numbered id m ys
    → Numbered id n (xs ++ ys)
Numbered-append id n m [] ys e h k = let e' : m ≡ n = omega (arith, e) in rw (← e') k
Numbered-append id n m (x ∷ xs) ys e h k =
    (h.0, Numbered-append id (suc n) m xs ys (omega (arith, e)) h.1 k)

Mirrored-append : (xs ys : List BatchCell) → Mirrored xs → Mirrored ys → Mirrored (xs ++ ys)
Mirrored-append [] ys h k = k
Mirrored-append (x ∷ []) ys h k = absurd h
Mirrored-append (x ∷ y ∷ xs) ys h k = (h.0, Mirrored-append xs ys h.1 k)

pub length-doubled : (bs : List Board) → length (doubled bs) ≡ 2 * length bs
length-doubled [] = refl
length-doubled (b ∷ bs) = omega (arith, length-doubled bs)

pub length-repeated : (n : ℕ) (ts : List Text) → length (repeated n ts) ≡ n * length ts
length-repeated zero ts = omega arith
length-repeated (suc n) ts = omega (arith, length-append ts (repeated n ts), length-repeated n ts)

pub length-IsCalendar :
    (id : ℕ → Text) (n : ℕ) (ts : List Text) (cells : List BatchCell)
    → IsCalendar id n ts cells
    → length cells ≡ length ts
length-IsCalendar id n ts cells h =
    sym (length-map (λ c. BatchCell.board_id c) cells) ∙ ap length h.same_boards

found : {A : Type 0} (o : Option A) → o ≢ none → (a : A) × (o ≡ some a)
found none n = absurd (n refl)
found (some a) n = (a, refl)

abbrev pub HasType : Board → Type 0
HasType b = b.type ≢ none

abbrev pub Known : List (Text × SeatSpec) → Text × Text → Type 0
Known specs k = (get_item k.0 specs ≢ none) × (get_item k.1 specs ≢ none)

module _ (game_identity : ℕ → ℕ → Text) (master_seed : ℕ) where
  abbrev id : ℕ → Text
  id n = game_identity master_seed n

  -- The games of a pairing, from the board with number `j` on.
  pairing_cells_lem :
      (p : ℕ) (a b : SeatSpec) (j : ℕ) (boards : List Board)
      → All HasType boards
      → j + length boards ≤ 16
      → (cells : List BatchCell) × (pairing_cells game_identity master_seed p a b j boards
          ≡ ok cells)
        × IsCalendar id (p * games_per_pairing + j * 2) (doubled boards) cells
  unfolding pairing_cells cell
  pairing_cells_lem p a b j [] h l =
      ([], refl, record { numbered = tt; mirrored = tt; same_boards = refl })
  pairing_cells_lem p a b j (board ∷ boards) h l =
      by_type board.type h.0 (pairing_cells_lem p a b (suc j) boards h.1 (omega (arith, l)))
    where
      by_type :
          (o : Option BoardType)
          → o ≢ none
          → (cells : List BatchCell) × (pairing_cells game_identity master_seed p a b (suc j) boards
              ≡ ok cells)
            × IsCalendar id (p * games_per_pairing + suc j * 2) (doubled boards) cells
          → (cells : List BatchCell) × ((elim o as (λ _. Result (List BatchCell)) [
            | none ↦ err assertion_error
            | some t ↦ elim (pairing_cells game_identity master_seed p a b (suc j) boards) [
              | ok cells ↦ ok (
                  cell game_identity master_seed p j t board 0 a b
                  ∷ cell game_identity master_seed p j t board 1 b a
                  ∷ cells)
              | err e ↦ err e
            ]
          ])
              ≡ ok cells)
            × IsCalendar id
                (p * games_per_pairing + j * 2)
                (board.board_id ∷ board.board_id ∷ doubled boards)
                cells
      by_type none n r = absurd (n refl)
      by_type (some t) n (cells, q, c) = (
        cell game_identity master_seed p j t board 0 a b
            ∷ cell game_identity master_seed p j t board 1 b a
            ∷ cells,
        rw q,
        record {
          numbered = (
            (omega arith, omega arith, omega (arith, l), ap id (omega arith)),
            (
              (omega arith, omega arith, omega (arith, l), ap id (omega arith)),
              subst (λ n. Numbered id n cells) (omega arith) c.numbered,
            ),
          );
          mirrored = ((refl, refl, refl, refl), c.mirrored);
          same_boards = ap (λ ts. board.board_id ∷ board.board_id ∷ ts) c.same_boards;
        },
      )

  batch_step :
      (specs : List (Text × SeatSpec)) (selected : List Board) (p : ℕ) (x y : Text)
      (keys : List (Text × Text)) (a b : SeatSpec) (cs ds : List BatchCell)
      → get_item x specs ≡ some a
      → get_item y specs ≡ some b
      → pairing_cells game_identity master_seed p a b 0 selected ≡ ok cs
      → batch_cells game_identity master_seed specs selected (suc p) keys ≡ ok ds
      → batch_cells game_identity master_seed specs selected p ((x, y) ∷ keys) ≡ ok (cs ++ ds)
  unfolding batch_cells
  batch_step specs selected p x y keys a b cs ds qa qb qc qd = ground (arith, qa, qb, qc, qd)

  -- The games of the pairings, from the one with number `p` on.
  pub batch_cells_lem :
      (specs : List (Text × SeatSpec)) (selected : List Board) (p : ℕ) (keys : List (Text × Text))
      → length selected ≡ 16
      → All HasType selected
      → All (Known specs) keys
      → (cells : List BatchCell) × (batch_cells game_identity master_seed specs selected p keys
          ≡ ok cells)
        × IsCalendar id (p * games_per_pairing) (repeated (length keys) (doubled selected)) cells
  unfolding batch_cells
  batch_cells_lem specs selected p [] l h k =
      ([], refl, record { numbered = tt; mirrored = tt; same_boards = refl })
  batch_cells_lem specs selected p ((x, y) ∷ keys) l h k =
      let (a, qa) = found (get_item x specs) k.0.0 in
      let (b, qb) = found (get_item y specs) k.0.1 in
      let (cs, qc, c) = pairing_cells_lem p a b 0 selected h (omega (arith, l)) in
      let (ds, qd, d) = batch_cells_lem specs selected (suc p) keys l h k.1 in
      (
        cs ++ ds,
        batch_step specs selected p x y keys a b cs ds qa qb qc qd,
        record {
          numbered =
              Numbered-append id (p * games_per_pairing) (suc p * games_per_pairing) cs ds
                (omega (arith, length-IsCalendar id _ _ cs c, length-doubled selected, l))
                (subst (λ n. Numbered id n cs) (omega arith) c.numbered) d.numbered;
          mirrored = Mirrored-append cs ds c.mirrored d.mirrored;
          same_boards =
              map-append (λ c. BatchCell.board_id c) cs ds
              ∙ ap (λ ts. ts ++ map (λ c. BatchCell.board_id c) ds) c.same_boards
              ∙ ap (λ ts. doubled selected ++ ts) d.same_boards;
        },
      )
