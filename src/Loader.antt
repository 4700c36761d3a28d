-- ===== src/Loader.antt =====
-- backend/app/core/loader.py: the boards of a bank by category. The files are the names that the directory
-- has, sorted, and reading one gives a board or fails.
use codenames_llm_bias.Shared.{
  ℕ, zero, suc, ◌≡◌, ◌≢◌, ◌↔◌, refl, sym, subst, ap, ◌∙◌, inl, inr, Bool, true, false, not, ◌&&◌,
  ◌||◌, Bool-cases, Option, none, some, List, [], ◌∷◌, ◌++◌, if◌then◌else◌, ◌==◌, text_eq,
  append_none, append_one, if_decided, filter, contains, Text, codes, set_item, get_item, All,
  arith,
}
use codenames_llm_bias.Schemas.Board.{Board}
pub mod Groups

-- BANK_SIDECARS
unfoldable pub bank_sidecars : List Text
bank_sidecars = codes "balance_report.json" ∷ codes "measurement_frame.json" ∷ []

-- The boards, or the name of the file that is not a valid one.
pub data Loaded : Type 0 where
  boards : List (Text × List Board) → Loaded
  invalid_board_file : Text → Loaded

-- `boards[category].append(board)`, after an empty list where there is none.
unfoldable pub add_board : Board → List (Text × List Board) → List (Text × List Board)
add_board b d = elim (get_item b.category d) [
  | none ↦ set_item b.category (b ∷ []) d
  | some bs ↦ set_item b.category (bs ++ (b ∷ [])) d
]

module _ (load_board : Text → Option Board) (strict : Bool) where
  unfoldable pub load_loop : List (Text × List Board) → List Text → Loaded
  load_loop d [] = boards d
  load_loop d (name ∷ names) = elim (load_board name) [
    | none ↦
        let rest = load_loop d names in
        if contains name bank_sidecars
        then rest
        else if strict
        then invalid_board_file name
        else rest
    | some b ↦
        let rest = load_loop d names in
        let more = load_loop (add_board b d) names in
        if contains name bank_sidecars then rest else more
  ]

  unfoldable pub load_boards : List Text → Loaded
  load_boards names = load_loop [] names

  -- The boards of the files that are read and are not sidecars, in order.
  abbrev pub valid_boards : List Text → List Board
  valid_boards [] = []
  valid_boards (name ∷ names) =
      let rest = valid_boards names in
      elim (load_board name) [
        | none ↦ rest
        | some b ↦ if contains name bank_sidecars then rest else b ∷ rest
      ]
