-- ===== src/Tests/Schedules.antt =====
-- backend/app/core/batch_schedule.py: a bank of sixteen boards and four models.
use codenames_llm_bias.Shared.{
  ℕ, ◌≡◌, refl, false, Option, none, some, List, [], ◌∷◌, Text, codes, length, Reorders, swap,
  arith,
}
use codenames_llm_bias.Schemas.Board.{Board, BoardType, probe, control}
use codenames_llm_bias.Schedule.{SeatSpec, BatchCell, ok, n_cells, build_schedule, select_boards}
use codenames_llm_bias.Schedule.Indices.{IsCalendar, repeated, doubled}
use codenames_llm_bias.Schedule.Calendar.{
  IsReady, build_schedule-IsCalendar, build_schedule-IsReady,
}
use codenames_llm_bias.Schedule.Order.{build_schedule-Reorders}

abbrev pub model : Text → SeatSpec
model name = record { provider = codes "local"; model_name = name; think = false }

abbrev pub four_models : List SeatSpec
four_models = model (codes "d") ∷ model (codes "b") ∷ model (codes "a") ∷ model (codes "c") ∷ []

abbrev stored : Text → BoardType → Option Text → Board
stored id t s = record {
  board_id = id;
  category = codes "x";
  cards = [];
  type = some t;
  specification = s;
  dilemma = none;
}

abbrev career : Text → Board
career id = stored id probe (some (codes "gender-career"))

abbrev science : Text → Board
science id = stored id probe (some (codes "gender-science"))

abbrev plain : Text → Board
plain id = stored id control none

abbrev pub bank : List Board
bank =
    plain (codes "n1")
    ∷ career (codes "c2")
    ∷ career (codes "c1")
    ∷ science (codes "s1")
    ∷ plain (codes "n2")
    ∷ plain (codes "n3")
    ∷ plain (codes "n4")
    ∷ science (codes "s2")
    ∷ science (codes "s3")
    ∷ plain (codes "n5")
    ∷ career (codes "c3")
    ∷ career (codes "c4")
    ∷ plain (codes "n6")
    ∷ science (codes "s4")
    ∷ plain (codes "n7")
    ∷ plain (codes "n8")
    ∷ []

abbrev pub identity : ℕ → ℕ → Text
identity seed index = seed ∷ index ∷ []

pub bank-IsReady : IsReady four_models bank
bank-IsReady = record {
  four = refl;
  distinct = refl;
  enough = (omega arith, omega arith, omega arith);
}

abbrev Calendar : Type 0
Calendar =
    (cells : List BatchCell) × (selected : List Board) × (build_schedule identity 7 four_models bank
      ≡ ok cells)
    × (select_boards bank ≡ ok selected)
    × (length cells ≡ n_cells)
    × IsCalendar (λ n. identity 7 n) 0 (repeated 6 (doubled selected)) cells

build_schedule-IsCalendar_example : Calendar
build_schedule-IsCalendar_example =
    build_schedule-IsCalendar identity 7 four_models bank bank-IsReady

calendar : Calendar
calendar = build_schedule-IsCalendar identity 7 four_models bank bank-IsReady

build_schedule-IsReady_example : IsReady four_models bank
build_schedule-IsReady_example =
    build_schedule-IsReady identity 7 four_models bank calendar.0 calendar.2

build_schedule-Reorders_example :
    build_schedule identity 7 four_models bank
    ≡ build_schedule identity 7
        (model (codes "b") ∷ model (codes "d") ∷ model (codes "a") ∷ model (codes "c") ∷ [])
        bank
build_schedule-Reorders_example =
    build_schedule-Reorders identity 7 {boards = bank} (swap _ _ _) (Reorders.same bank) refl refl
