-- ===== src/Batch/Accounts.antt =====
-- backend/app/core/batch_runner.py: each game of the schedule is counted once by the report of its
-- pairing.
use codenames_llm_bias.Shared.{
  ℕ, ◌+◌, ◌≤◌, ◌≡◌, refl, sym, subst, ap, ◌∙◌, inl, inr, Bool, true, false, Bool-cases, Option,
  none, some, List, [], ◌∷◌, if_cases, ◌==◌, nat_eq, text_eq, Text, codes, contains, arith,
}
use codenames_llm_bias.Schedule.{BatchCell}
use codenames_llm_bias.Batch.{
  GameRunResult, PairingReport, errors, skipped, count_error, ErrorKind, ErrorKinds, classify_error,
}
use codenames_llm_bias.Batch.Loop.{note_played, note_aborted}
use codenames_llm_bias.Batch.Reports.{to_play, is_kept, IsOpened}

-- What a report says of an abort: `none` unless the pairing is among those that were aborted, and else
-- at least `threshold` errors and the games that are skipped.
abbrev pub AbortSays : ℕ → Bool → ℕ → Option (ℕ × ℕ) → Type 0
AbortSays threshold aborted left none = aborted ≡ false
AbortSays threshold aborted left (some (consecutive, n)) =
    (aborted ≡ true) × (threshold ≤ consecutive) × (n ≡ left)

-- The counts of a report when the games of `rest` are to come.
pub record IsAccounted (kept : List (Text × Text)) (threshold : ℕ) (outage : Option (Option Text))
    (aborted : List ℕ) (rest : List BatchCell) (r : PairingReport) : Type 0 where
  pub split : r.attempted ≡ r.completed + r.errored
  pub kinds : errors r.error_kinds ≡ r.errored
  pub bounded :
      r.attempted
        + r.previously_completed
        + r.previously_errored
        + to_play kept r.pairing_ordinal rest
      ≤ r.total_cells
  pub whole :
      outage ≡ none
      → contains r.pairing_ordinal aborted ≡ false
      → r.attempted
          + r.previously_completed
          + r.previously_errored
          + to_play kept r.pairing_ordinal rest
        ≡ r.total_cells
  pub abort : AbortSays threshold (contains r.pairing_ordinal aborted) (skipped r) r.abort_reason

count_error_lem : (k : ErrorKind) (c : ErrorKinds) → errors (count_error k c) ≡ errors c + 1
unfolding count_error
count_error_lem k c = ground arith

module _ (kept : List (Text × Text)) (threshold : ℕ) where
  pub IsOpened-IsAccounted :
      (schedule : List BatchCell) (r : PairingReport)
      → IsOpened kept schedule [] r
      → IsAccounted kept threshold none [] schedule r
  IsOpened-IsAccounted schedule r o = record {
    split = omega (arith, o.unplayed, o.incomplete, o.faultless);
    kinds = omega (arith, o.kinds, o.faultless);
    bounded = omega (arith, o.unplayed, o.cells);
    whole = λ q k. omega (arith, o.unplayed, o.cells);
    abort =
        subst (λ (a : Option (ℕ × ℕ)). AbortSays threshold false (skipped r) a) (sym o.running)
          refl;
  }

  module _ (outage : Option (Option Text)) (aborted : List ℕ) (c : BatchCell) (cs : List BatchCell)
      (r : PairingReport) (h : IsAccounted kept threshold outage aborted (c ∷ cs) r) where
    -- A game of another pairing, of the pairing but kept, and of a pairing that was aborted.
    pub other-IsAccounted :
        (r.pairing_ordinal == c.pairing_ordinal) ≡ false
        → IsAccounted kept threshold outage aborted cs r
    other-IsAccounted q = record {
      split = h.split;
      kinds = h.kinds;
      bounded = ground (arith, h.bounded, q);
      whole = λ o a. ground (arith, h.whole o a, q);
      abort = h.abort;
    }

    pub kept-IsAccounted : is_kept kept c ≡ true → IsAccounted kept threshold outage aborted cs r
    kept-IsAccounted k = record {
      split = h.split;
      kinds = h.kinds;
      bounded = ground (arith, h.bounded, k);
      whole = λ o a. ground (arith, h.whole o a, k);
      abort = h.abort;
    }

    pub skipped-IsAccounted :
        contains c.pairing_ordinal aborted ≡ true → IsAccounted kept threshold outage aborted cs r
    skipped-IsAccounted k = elim (Bool-cases (r.pairing_ordinal == c.pairing_ordinal)) [
      | inr q ↦ other-IsAccounted q
      | inl q ↦
          let same : r.pairing_ordinal ≡ c.pairing_ordinal = ground (arith, q) in
          record {
            split = h.split;
            kinds = h.kinds;
            bounded = ground (arith, h.bounded);
            whole = λ o a. ground (arith, sym (ap (λ (p : ℕ). contains p aborted) same ∙ k) ∙ a);
            abort = h.abort;
          }
    ]

    running : contains r.pairing_ordinal aborted ≡ false → r.abort_reason ≡ none
    running a = by_reason r.abort_reason h.abort
      where
        by_reason :
            (reason : Option (ℕ × ℕ))
            → AbortSays threshold (contains r.pairing_ordinal aborted) (skipped r) reason
            → reason ≡ none
        by_reason none s = refl
        by_reason (some x) s = ground (arith, a, s.0)

    -- A game that was played.
    pub note_played-IsAccounted :
        (result : GameRunResult)
        → is_kept kept c ≡ false
        → contains c.pairing_ordinal aborted ≡ false
        → r.pairing_ordinal ≡ c.pairing_ordinal
        → IsAccounted kept threshold outage aborted cs (note_played result r)
    unfolding note_played
    note_played-IsAccounted result k a same =
        let off : contains r.pairing_ordinal aborted ≡ false =
          ap (λ (p : ℕ). contains p aborted) same ∙ a in
        let quiet = λ (n : ℕ).
          subst
            (λ (x : Option (ℕ × ℕ)). AbortSays threshold (contains r.pairing_ordinal aborted) n x)
            (sym (running off)) off in
        if_cases (IsAccounted kept threshold outage aborted cs) (result.status == codes "completed")
          (record {
            split = omega (arith, h.split);
            kinds = h.kinds;
            bounded = ground (arith, h.bounded, k, same);
            whole = λ o q. ground (arith, h.whole o q, k, same);
            abort = quiet _;
          })
          (record {
            split = omega (arith, h.split);
            kinds = omega (
              arith,
              h.kinds,
              count_error_lem (classify_error result.error result.error_code) r.error_kinds,
            );
            bounded = ground (arith, h.bounded, k, same);
            whole = λ o q. ground (arith, h.whole o q, k, same);
            abort = quiet _;
          })

  module _ (outage : Option (Option Text)) (aborted : List ℕ) (cs : List BatchCell)
      (r : PairingReport) (h : IsAccounted kept threshold outage aborted cs r) (p : ℕ) where
    -- The pairing is aborted, or another one is.
    pub note_aborted-IsAccounted :
        (consecutive : ℕ)
        → threshold ≤ consecutive
        → r.pairing_ordinal ≡ p
        → IsAccounted kept threshold outage (p ∷ aborted) cs (note_aborted consecutive r)
    unfolding note_aborted skipped
    note_aborted-IsAccounted consecutive t same =
        let on : contains r.pairing_ordinal (p ∷ aborted) ≡ true = ground (arith, same) in
        record {
          split = h.split;
          kinds = h.kinds;
          bounded = h.bounded;
          whole = λ o q. ground (arith, on, q);
          abort = (on, t, refl);
        }

    pub aborted-IsAccounted :
        (r.pairing_ordinal == p) ≡ false → IsAccounted kept threshold outage (p ∷ aborted) cs r
    aborted-IsAccounted q =
        let same : contains r.pairing_ordinal (p ∷ aborted) ≡ contains r.pairing_ordinal aborted =
          ground (arith, q) in
        record {
          split = h.split;
          kinds = h.kinds;
          bounded = h.bounded;
          whole = λ o a. h.whole o (sym same ∙ a);
          abort =
              subst (λ (x : Bool). AbortSays threshold x (skipped r) r.abort_reason) (sym same)
                h.abort;
        }

    -- The batch stops.
    pub stopped-IsAccounted :
        (code : Option Text) → IsAccounted kept threshold (some code) aborted [] r
    stopped-IsAccounted code = record {
      split = h.split;
      kinds = h.kinds;
      bounded = omega (arith, h.bounded);
      whole = λ o a. ground (arith, o);
      abort = h.abort;
    }
