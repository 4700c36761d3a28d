-- ===== src/Batch/Run/Sums.antt =====
-- backend/app/core/batch_runner.py: what the report of a batch adds up to.
use codenames_llm_bias.Shared.{
  ℕ, ◌+◌, ◌≤◌, ◌≡◌, refl, sym, ap, subst, ◌∙◌, Option, none, some, List, [], ◌∷◌, Text, Eq, length,
  nat_eq, All, All-sort, sort, arith,
}
use codenames_llm_bias.Schedule.{BatchCell, ok, build_schedule, n_cells}
use codenames_llm_bias.Schedule.Calendar.{build_schedule-IsCalendar, build_schedule-IsReady}
use codenames_llm_bias.Batch.{PairingReport}
use codenames_llm_bias.Batch.Loop.{Batch}
use codenames_llm_bias.Batch.Setup.{Outcome, done, stopped}
use codenames_llm_bias.Batch.Outcome.{
  batch_report, play_batch, sum_of, ordinal_leb, IsReport, EndsWell, play_batch-EndsWell,
  batch_report_lem,
}
use codenames_llm_bias.Batch.Whole.{play_batch_cells, sum_of-sort}
use codenames_llm_bias.Batch.Run.{
  Started, set_up, loop_setting, played_out, run_batch, Ran, returned, raised, unended,
}
use codenames_llm_bias.Batch.Site.{Site}
use codenames_llm_bias.Batch.Run.Ready.{set_up-IsReadyIn}

bounded_sum :
    (threshold : ℕ) (outage : Option (Option Text)) (rs : List PairingReport)
    → All (IsReport threshold outage) rs
    → sum_of (λ r. r.attempted) rs
        + sum_of (λ r. r.previously_completed) rs
        + sum_of (λ r. r.previously_errored) rs
      ≤ sum_of (λ r. r.total_cells) rs
bounded_sum threshold outage [] h = omega arith
bounded_sum threshold outage (r ∷ rs) h =
    omega (arith, h.0.bounded, bounded_sum threshold outage rs h.1)

module _ {W T : Type 0} ⦃eq : Eq T⦄ (b : Site W T) where
  -- The totals of the report, of the 192 games of the schedule.
  abbrev pub AddsUp : Ran b → Type 0
  AddsUp (raised x) = Unit
  AddsUp unended = ⊥
  AddsUp (returned r) =
      (r.totals.attempted ≡ r.totals.completed + r.totals.errored)
      × (r.totals.attempted + r.totals.previously_completed + r.totals.previously_errored ≤ n_cells)
      × (r.outage ≡ none
          → r.totals.pairings_aborted ≡ 0
          → r.totals.attempted + r.totals.previously_completed + r.totals.previously_errored
            ≡ n_cells)

  length-built :
      (cells : List BatchCell)
      → build_schedule b.game_identity b.master_seed b.models b.boards ≡ ok cells
      → length cells ≡ n_cells
  length-built cells h =
      let (built, selected, same, q, n, c) =
        build_schedule-IsCalendar b.game_identity b.master_seed b.models b.boards
          (build_schedule-IsReady b.game_identity b.master_seed b.models b.boards cells h) in
      ap length (unok cells built (sym h ∙ same)) ∙ n
    where
      unok : (x y : List BatchCell) → ok x ≡ ok y → x ≡ y
      unok x y q = ground (arith, q)

  played_out-AddsUp :
      (s : Started b) (v : W) → length s.schedule ≡ n_cells → AddsUp (played_out b s v).0
  unfolding loop_setting batch_report
  played_out-AddsUp s v n =
      by_end (play_batch (loop_setting b s) s.schedule v) refl
        (play_batch-EndsWell (loop_setting b s) s.schedule v)
    where
      by_end :
          (o : Option (Batch W))
          → play_batch (loop_setting b s) s.schedule v ≡ o
          → EndsWell (loop_setting b s) s.schedule o
          → AddsUp
              (elim o as (λ x. Ran b × W) [
                | none ↦ (unended, v)
                | some e ↦ (
                  returned (record {
                    run_id = s.run_id;
                    resumes = s.resumes;
                    outage = e.outage;
                    totals = batch_report e.reports;
                  }),
                  e.world,
                )
              ]).0
      by_end none q h = h
      by_end (some e) q h =
          let sorted = sort ordinal_leb e.reports in
          let all =
            sum_of-sort (λ r. r.total_cells) ordinal_leb e.reports
            ∙ play_batch_cells (loop_setting b s) s.schedule v e q
            ∙ n in
          let (split, whole) = batch_report_lem b.threshold e.outage e.reports h.reports in
          (
            split,
            subst
                (λ m.
                  sum_of (λ r. r.attempted) sorted
                    + sum_of (λ r. r.previously_completed) sorted
                    + sum_of (λ r. r.previously_errored) sorted
                  ≤ m)
                all
                (bounded_sum b.threshold e.outage sorted
                  (All-sort ordinal_leb (IsReport b.threshold e.outage) e.reports h.reports)),
            λ o a. whole o a ∙ all,
          )

  -- A batch always ends: it raises, or it returns a report. On a report, the games that were attempted are
  -- those that completed and those that were errors; with the games kept from before they are at most
  -- the 192 of the schedule, and all of them when no pairing was aborted and no outage stopped the batch.
  pub run_batch-AddsUp : (w : W) → AddsUp (run_batch b w).0
  unfolding run_batch
  run_batch-AddsUp w = by_set_up (set_up b w) refl
    where
      by_set_up :
          (o : Outcome (Started b) × W)
          → set_up b w ≡ o
          → AddsUp
              (elim o.0 as (λ x. Ran b × W) [
                | stopped x ↦ (raised x, o.1)
                | done s ↦ played_out b s o.1
              ]).0
      by_set_up (stopped x, v) q = tt
      by_set_up (done s, v) q =
          played_out-AddsUp s v (length-built s.schedule (set_up-IsReadyIn b w s v q).built)
