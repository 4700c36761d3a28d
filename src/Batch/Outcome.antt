-- ===== src/Batch/Outcome.antt =====
-- backend/app/core/batch_runner.py: the play of a schedule as a whole, and the report of the batch.
use codenames_llm_bias.Shared.{
  ℕ, ◌+◌, ◌*◌, ◌≤◌, ◌≡◌, refl, inl, inr, Bool, true, false, Bool-cases, Option, none, some, List,
  [], ◌∷◌, nat_eq, Text, contains, All, All-weaken, All-sort, sort, leb, length, count_if, arith,
}
use codenames_llm_bias.Schedule.{BatchCell}
use codenames_llm_bias.Batch.{PairingReport, errors, skipped}
use codenames_llm_bias.Batch.Loop.{Setting, Batch, open_reports, play_schedule}
use codenames_llm_bias.Batch.Reports.{open_reports_lem}
use codenames_llm_bias.Batch.Accounts.{IsAccounted, IsOpened-IsAccounted, AbortSays}
use codenames_llm_bias.Batch.Games.{IsFree}
use codenames_llm_bias.Batch.Settled.{Ends, most_plays}
use codenames_llm_bias.Batch.Ends.{play_schedule-Ends}

-- BatchReport, without what identifies the run.
pub record BatchReport : Type 0 where
  pub attempted : ℕ
  pub completed : ℕ
  pub errored : ℕ
  pub pairings_aborted : ℕ
  pub pairings : List PairingReport
  pub previously_completed : ℕ
  pub previously_errored : ℕ

abbrev pub sum_of : (PairingReport → ℕ) → List PairingReport → ℕ
sum_of f [] = 0
sum_of f (r ∷ rs) = f r + sum_of f rs

abbrev pub is_aborted : PairingReport → Bool
is_aborted r = elim r.abort_reason [ none ↦ false | some x ↦ true ]

abbrev pub ordinal_leb : PairingReport → PairingReport → Bool
ordinal_leb r s = leb r.pairing_ordinal s.pairing_ordinal

unfoldable pub batch_report : List PairingReport → BatchReport
batch_report reports =
    let pairings = sort ordinal_leb reports in
    record {
      attempted = sum_of (λ r. r.attempted) pairings;
      completed = sum_of (λ r. r.completed) pairings;
      errored = sum_of (λ r. r.errored) pairings;
      pairings_aborted = count_if is_aborted pairings;
      pairings = pairings;
      previously_completed = sum_of (λ r. r.previously_completed) pairings;
      previously_errored = sum_of (λ r. r.previously_errored) pairings;
    }

-- The report of a batch that has ended. A report of a pairing splits what was attempted into what
-- was completed and what was an error, and a pairing that was not aborted skips no game unless the
-- batch was stopped.
pub record IsReport (threshold : ℕ) (outage : Option (Option Text)) (r : PairingReport)
    : Type 0 where
  pub split : r.attempted ≡ r.completed + r.errored
  pub kinds : errors r.error_kinds ≡ r.errored
  pub bounded : r.attempted + r.previously_completed + r.previously_errored ≤ r.total_cells
  pub whole : outage ≡ none → r.abort_reason ≡ none → skipped r ≡ 0
  pub abort :
      (consecutive left : ℕ)
      → r.abort_reason ≡ some (consecutive, left)
      → (threshold ≤ consecutive) × (left ≡ skipped r)

IsAccounted-IsReport :
    (kept : List (Text × Text)) (threshold : ℕ) (outage : Option (Option Text)) (aborted : List ℕ)
    (r : PairingReport)
    → IsAccounted kept threshold outage aborted [] r
    → IsReport threshold outage r
unfolding skipped
IsAccounted-IsReport kept threshold outage aborted r h = record {
  split = h.split;
  kinds = h.kinds;
  bounded = omega (arith, h.bounded);
  whole = λ o q. omega (arith, h.whole o (quiet r.abort_reason h.abort q));
  abort = loud r.abort_reason h.abort;
}
  where
    quiet :
        (reason : Option (ℕ × ℕ))
        → AbortSays threshold (contains r.pairing_ordinal aborted) (skipped r) reason
        → reason ≡ none
        → contains r.pairing_ordinal aborted ≡ false
    quiet none s q = s
    quiet (some x) s q = ground (arith, q)

    loud :
        (reason : Option (ℕ × ℕ))
        → AbortSays threshold (contains r.pairing_ordinal aborted) (skipped r) reason
        → (consecutive left : ℕ) → reason ≡ some (consecutive, left)
        → (threshold ≤ consecutive) × (left ≡ skipped r)
    loud none s consecutive left q = ground (arith, q)
    loud (some (a, k)) s consecutive left q = ground (arith, q, s.1, s.2)

module _ {W : Type 0} (b : Setting W) where
  abbrev pub batch_start : List BatchCell → W → Batch W
  batch_start schedule w = record {
    world = w;
    played = [];
    forgotten = [];
    reports = open_reports b.kept schedule schedule [];
    current_p = none;
    consecutive = 0;
    aborted_pairings = [];
    outage = none;
  }

  -- The reports, the loop, and the state that it leaves.
  unfoldable pub play_batch : List BatchCell → W → Option (Batch W)
  play_batch schedule w = play_schedule b schedule (batch_start schedule w)

  -- The state a batch ends in.
  pub record IsEnded (schedule : List BatchCell) (s : Batch W) : Type 0 where
    pub reports : All (IsReport b.threshold s.outage) s.reports
    pub unplayed : All (IsFree b.kept) s.played
    pub unforgotten : All (IsFree b.kept) s.forgotten
    pub plays : length s.played ≤ (b.provider_replays + 1) * length schedule

  abbrev pub EndsWell : List BatchCell → Option (Batch W) → Type 0
  EndsWell schedule none = ⊥
  EndsWell schedule (some s) = IsEnded schedule s

  most_plays_lem : (cs : List BatchCell) → most_plays b cs ≡ (b.provider_replays + 1) * length cs
  most_plays_lem [] = omega arith
  most_plays_lem (c ∷ cs) = omega (arith, most_plays_lem cs)

  -- The play of a schedule always ends, whatever the games and the providers do. Each report then
  -- splits its attempted games into the completed ones and the errors, whose kinds are counted once
  -- each, and with the games kept from before they are no more than the games of the pairing. A
  -- pairing that was not aborted has no skipped game unless an outage stopped the batch; one that was
  -- aborted met the threshold and states the games it skips. No game that was kept is played or
  -- loses its row, and there are at most `provider_replays + 1` times as many plays as games.
  pub play_batch-EndsWell :
      (schedule : List BatchCell) (w : W) → EndsWell schedule (play_batch schedule w)
  unfolding play_batch
  play_batch-EndsWell schedule w = by_end _ (
      play_schedule-Ends b (most_plays b schedule) schedule (batch_start schedule w)
        (record {
          accounts =
              All-weaken _ _ (λ r o. IsOpened-IsAccounted b.kept b.threshold schedule r o)
                (open_reports b.kept schedule schedule []) (open_reports_lem b.kept schedule);
          safe = record { unplayed = tt; unforgotten = tt };
          plays = omega arith;
        })
        refl)
    where
      by_end : (s : Option (Batch W)) → Ends b (most_plays b schedule) s → EndsWell schedule s
      by_end none h = h
      by_end (some s) h = record {
        reports =
            All-weaken _ _
              (λ r a. IsAccounted-IsReport b.kept b.threshold s.outage s.aborted_pairings r a)
              s.reports h.accounts;
        unplayed = h.safe.unplayed;
        unforgotten = h.safe.unforgotten;
        plays = omega (arith, h.plays, most_plays_lem schedule);
      }

pub none_skipped :
    (r : PairingReport)
    → skipped r ≡ 0
    → r.attempted + r.previously_completed + r.previously_errored ≤ r.total_cells
    → r.attempted + r.previously_completed + r.previously_errored ≡ r.total_cells
unfolding skipped
none_skipped r q h = omega (arith, q, h)

-- The totals of the pairings: the attempted games are the completed ones and the errors, and when
-- no pairing was aborted and no outage stopped the batch, each game was attempted or kept from before.
pub batch_report_lem :
    (threshold : ℕ) (outage : Option (Option Text)) (reports : List PairingReport)
    → All (IsReport threshold outage) reports
    → let r = batch_report reports in
      (r.attempted ≡ r.completed + r.errored)
      × (outage ≡ none
          → r.pairings_aborted ≡ 0
          → r.attempted + r.previously_completed + r.previously_errored
            ≡ sum_of (λ p. p.total_cells) r.pairings)
unfolding batch_report
batch_report_lem threshold outage reports h =
    let sorted = All-sort ordinal_leb (IsReport threshold outage) reports h in
    (split _ sorted, λ o. whole o _ sorted)
  where
    split :
        (rs : List PairingReport)
        → All (IsReport threshold outage) rs
        → sum_of (λ r. r.attempted) rs ≡ sum_of (λ r. r.completed) rs + sum_of (λ r. r.errored) rs
    split [] a = refl
    split (r ∷ rs) a = omega (arith, a.0.split, split rs a.1)

    whole :
        outage ≡ none
        → (rs : List PairingReport) → All (IsReport threshold outage) rs
        → count_if is_aborted rs ≡ 0
        → sum_of (λ r. r.attempted) rs
            + sum_of (λ r. r.previously_completed) rs
            + sum_of (λ r. r.previously_errored) rs
          ≡ sum_of (λ r. r.total_cells) rs
    whole o [] a n = refl
    whole o (r ∷ rs) a n = elim (Bool-cases (is_aborted r)) [
      | inl k ↦ ground (arith, n, k)
      | inr k ↦
          let quiet : r.abort_reason ≡ none = ground (arith, k) in
          omega (
            arith,
            none_skipped r (a.0.whole o quiet) a.0.bounded,
            whole o rs a.1 (ground (arith, n, k)),
          )
    ]
