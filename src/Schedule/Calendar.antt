-- ===== src/Schedule/Calendar.antt =====
-- backend/app/core/batch_schedule.py: when there is a schedule, and what it is.
use codenames_llm_bias.Shared.{
  ℕ, ◌≡◌, ◌≢◌, refl, subst, true, List, map, Text, length, is_distinct, text_eq, arith,
}
use codenames_llm_bias.Schemas.Board.{Board}
use codenames_llm_bias.Schedule.{
  SeatSpec, model_id, BatchCell, Result, ScheduleError, ok, err, n_cells, by_id, pairing_keys,
  select_boards, build_schedule,
}
use codenames_llm_bias.Schedule.Indices.{
  IsCalendar, length-IsCalendar, batch_cells_lem, doubled, repeated, length-repeated,
  length-doubled,
}
use codenames_llm_bias.Schedule.Bank.{
  IsEnough, select_boards_lem, select_boards_short, pairing_keys_lem,
}
use codenames_llm_bias.Schedule.Models.{length-by_id_iff}

-- Four distinct models and enough boards of each kind.
pub record IsReady (models : List SeatSpec) (boards : List Board) : Type 0 where
  pub four : length models ≡ 4
  pub distinct : is_distinct (map model_id models) ≡ true
  pub enough : IsEnough boards

module _ (game_identity : ℕ → ℕ → Text) (master_seed : ℕ) where
  -- With four distinct models and at least 4 career, 4 science and 8 control boards there is a
  -- schedule of 192 games. They are numbered from 0 in order, an index is 32 times the pairing plus
  -- the place in it and fixes the game's identity, neighbours play one board with the seats
  -- changed, and each of the six pairings plays the boards that were selected, each twice.
  pub build_schedule-IsCalendar :
      (models : List SeatSpec) (boards : List Board)
      → IsReady models boards
      → (cells : List BatchCell) × (selected : List Board) × (build_schedule game_identity
            master_seed models boards
          ≡ ok cells)
        × (select_boards boards ≡ ok selected)
        × (length cells ≡ n_cells)
        × IsCalendar (λ n. game_identity master_seed n) 0 (repeated 6 (doubled selected)) cells
  unfolding build_schedule
  build_schedule-IsCalendar models boards h =
      let (selected, qs, l, typed) = select_boards_lem boards h.enough in
      let n = (length-by_id_iff models).1 h.distinct in
      let (six, known) = pairing_keys_lem (by_id models) (omega (arith, n, h.four)) in
      let (cells, qc, c) =
        batch_cells_lem game_identity master_seed (by_id models) selected 0
          (pairing_keys (map (λ (e : Text × SeatSpec). e.0) (by_id models))) l typed known in
      let calendar : IsCalendar (λ n. game_identity master_seed n) 0 (repeated 6 (doubled selected))
          cells =
        subst
          (λ k.
            IsCalendar (λ n. game_identity master_seed n) 0 (repeated k (doubled selected)) cells)
          six c in
      let count : length cells ≡ n_cells = omega (
        arith,
        length-IsCalendar (λ n. game_identity master_seed n) 0 _ cells calendar,
        length-repeated 6 (doubled selected),
        length-doubled selected,
        l,
      ) in
      (cells, selected, ground (arith, qs, qc, count, h.four, n), qs, count, calendar)

  -- A schedule is returned only for four distinct models and a bank with enough boards of each kind.
  pub build_schedule-IsReady :
      (models : List SeatSpec) (boards : List Board) (cells : List BatchCell)
      → build_schedule game_identity master_seed models boards ≡ ok cells
      → IsReady models boards
  unfolding build_schedule
  build_schedule-IsReady models boards cells h = record {
    four = ground (arith, h);
    distinct = ground (arith, h, length-by_id_iff models);
    enough = selected (select_boards boards) (ground (arith, h)) refl;
  }
    where
      selected :
          (r : Result (List Board))
          → ((e : ScheduleError) → select_boards boards ≢ err e)
          → select_boards boards ≡ r
          → IsEnough boards
      selected (ok bs) n q = select_boards_short boards bs q
      selected (err e) n q = absurd (n e q)
