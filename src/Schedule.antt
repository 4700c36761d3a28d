-- ===== src/Schedule.antt =====
-- backend/app/core/batch_schedule.py: the calendar of a batch, and `SeatSpec` of
-- backend/app/core/game_runner.py. The identity of a game (a UUID of the seed and the index) is a
-- parameter.
use codenames_llm_bias.Shared.{
  ℕ, zero, suc, ◌+◌, ◌*◌, Bool, true, false, not, ◌&&◌, Option, none, some, List, [], ◌∷◌, ◌++◌,
  map, if◌then◌else◌, ◌==◌, nat_eq, text_eq, Text, codes, length, filter, ltb, sort, text_leb,
  set_item, get_item,
}
use codenames_llm_bias.Schemas.Board.{Board, BoardType, probe, control}
pub mod Indices
pub mod Bank
pub mod Models
pub mod Calendar
pub mod Banks
pub mod Order

pub record SeatSpec : Type 0 where
  pub provider : Text
  pub model_name : Text
  pub think : Bool

-- f"{spec.provider}:{spec.model_name}"
abbrev pub model_id : SeatSpec → Text
model_id spec = spec.provider ++ (b':' ∷ spec.model_name)

-- What is missing, and how many there are.
pub data Shortfall : Type 0 where
  career science controls : ℕ → Shortfall

-- `not_distinct` counts the distinct models. A key that is missing and the assertion that fails are
-- the errors that the code does not mean to raise.
pub data ScheduleError : Type 0 where
  wrong_count not_distinct wrong_cells : ℕ → ScheduleError
  shortfall : List Shortfall → ScheduleError
  key_error assertion_error : ScheduleError

pub data Result (A : Type 0) : Type 0 where
  ok : A → Result A
  err : ScheduleError → Result A

pub record BatchCell : Type 0 where
  pub game_index : ℕ
  pub game_id : Text
  pub pairing_ordinal : ℕ
  pub k : ℕ
  pub board_id : Text
  pub board_type : BoardType
  pub specification : Option Text
  pub seat0_spec : SeatSpec
  pub seat1_spec : SeatSpec

-- _GAMES_PER_PAIRING and _N_CELLS
abbrev pub games_per_pairing : ℕ
games_per_pairing = 32

abbrev pub n_cells : ℕ
n_cells = 192

-- `by_id`: a dict comprehension.
abbrev pub by_id_from : List (Text × SeatSpec) → List SeatSpec → List (Text × SeatSpec)
by_id_from d [] = d
by_id_from d (m ∷ ms) = by_id_from (set_item (model_id m) m d) ms

unfoldable pub by_id : List SeatSpec → List (Text × SeatSpec)
by_id ms = by_id_from [] ms

-- `itertools.combinations(keys, 2)`, each pair sorted.
abbrev pub sorted_pair : Text → Text → Text × Text
sorted_pair a b = if text_leb a b then (a, b) else (b, a)

abbrev pub combinations : List Text → List (Text × Text)
combinations [] = []
combinations (a ∷ as_) = map (sorted_pair a) as_ ++ combinations as_

-- Tuples are compared from the left.
unfoldable pub pair_leb : Text × Text → Text × Text → Bool
pair_leb (a, b) (c, d) = if a == c then text_leb b d else text_leb a c

unfoldable pub pairing_keys : List Text → List (Text × Text)
pairing_keys ids = sort pair_leb (combinations ids)

abbrev pub is_probe_on : Text → Board → Bool
is_probe_on s b = elim b.type [
  | none ↦ false
  | some t ↦ elim t [
    | probe ↦ elim b.specification [ none ↦ false | some x ↦ x == s ]
    | control ↦ false
  ]
]

abbrev pub is_control : Board → Bool
is_control b = elim b.type [ none ↦ false | some t ↦ elim t [ probe ↦ false | control ↦ true ] ]

abbrev pub id_leb : Board → Board → Bool
id_leb a b = text_leb a.board_id b.board_id

-- The boards of one kind in canonical order.
unfoldable pub bank_of : (Board → Bool) → List Board → List Board
bank_of kind boards = sort id_leb (filter kind boards)

abbrev pub take : ℕ → List Board → List Board
take zero bs = []
take (suc n) [] = []
take (suc n) (b ∷ bs) = b ∷ take n bs

abbrev pub short_of : ℕ → (ℕ → Shortfall) → List Board → List Shortfall
short_of need c bs = if ltb (length bs) need then c (length bs) ∷ [] else []

unfoldable pub select_boards : List Board → Result (List Board)
select_boards boards =
    let career4 = bank_of (is_probe_on (codes "gender-career")) boards in
    let science4 = bank_of (is_probe_on (codes "gender-science")) boards in
    let control8 = bank_of is_control boards in
    let shortfalls =
      short_of 4 career career4 ++ (short_of 4 science science4 ++ short_of 8 controls control8) in
    elim shortfalls [
      | [] ↦ ok (take 4 career4 ++ (take 4 science4 ++ take 8 control8))
      | s ∷ ss ↦ err (shortfall (s ∷ ss))
    ]

module _ (game_identity : ℕ → ℕ → Text) (master_seed : ℕ) where
  unfoldable pub cell : ℕ → ℕ → BoardType → Board → ℕ → SeatSpec → SeatSpec → BatchCell
  cell p j t board o seat0 seat1 =
      let game_index = p * games_per_pairing + (j * 2 + o) in
      record {
        game_index = game_index;
        game_id = game_identity master_seed game_index;
        pairing_ordinal = p;
        k = j * 2 + o;
        board_id = board.board_id;
        board_type = t;
        specification = board.specification;
        seat0_spec = seat0;
        seat1_spec = seat1;
      }

  -- `for j, board in enumerate(selected)`, with both orientations of each board.
  unfoldable pub pairing_cells : ℕ → SeatSpec → SeatSpec → ℕ → List Board → Result (List BatchCell)
  pairing_cells p a b j [] = ok []
  pairing_cells p a b j (board ∷ boards) = elim board.type [
    | none ↦ err assertion_error
    | some t ↦ elim (pairing_cells p a b (suc j) boards) [
      | ok cells ↦ ok (cell p j t board 0 a b ∷ cell p j t board 1 b a ∷ cells)
      | err e ↦ err e
    ]
  ]

  -- `for p, key in enumerate(pairing_keys)`
  unfoldable pub batch_cells :
      List (Text × SeatSpec) → List Board → ℕ → List (Text × Text) → Result (List BatchCell)
  batch_cells specs selected p [] = ok []
  batch_cells specs selected p ((x, y) ∷ keys) =
      let rest = batch_cells specs selected (suc p) keys in
      elim (get_item x specs) [
        | none ↦ err key_error
        | some a ↦ elim (get_item y specs) [
          | none ↦ err key_error
          | some b ↦ elim (pairing_cells p a b 0 selected) [
            | err e ↦ err e
            | ok cells ↦ elim rest [ ok more ↦ ok (cells ++ more) | err e ↦ err e ]
          ]
        ]
      ]

  abbrev pub checked : List BatchCell → Result (List BatchCell)
  checked cells = if length cells == n_cells then ok cells else err (wrong_cells (length cells))

  -- The loops over the boards that were selected, if they were.
  abbrev pub built_from : List (Text × SeatSpec) → Result (List Board) → Result (List BatchCell)
  built_from specs (err e) = err e
  built_from specs (ok selected) =
      elim (batch_cells specs selected 0 (pairing_keys (map (λ e. e.0) specs))) [
        | err e ↦ err e
        | ok cells ↦ checked cells
      ]

  unfoldable pub build_schedule : List SeatSpec → List Board → Result (List BatchCell)
  build_schedule models boards =
      let specs = by_id models in
      let build = built_from specs (select_boards boards) in
      if not (length models == 4)
      then err (wrong_count (length models))
      else if not (length specs == 4)
      then err (not_distinct (length specs))
      else build
