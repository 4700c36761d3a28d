-- ===== src/Batch/Whole.antt =====
-- backend/app/core/batch_runner.py: the pairings' games are the games of the schedule, each counted once.
use codenames_llm_bias.Shared.{
  ℕ, ◌+◌, ◌≡◌, refl, sym, ap, subst, ◌∙◌, Bool, true, Option, some, List, [], ◌∷◌, ◌++◌,
  if◌then◌else◌, if_decided, Text, nat_eq, get_item, text_eq, length, count_if, All, All-append,
  sort, insert, arith,
}
use codenames_llm_bias.Schedule.{BatchCell}
use codenames_llm_bias.Batch.{PairingReport, update, has_report}
use codenames_llm_bias.Batch.Loop.{Setting, Batch, in_pairing, new_report, note_kept, open_reports}
use codenames_llm_bias.Batch.Reports.{
  All-update, has_report-update, has_report-append, note_kept_ordinal,
}
use codenames_llm_bias.Batch.Outcome.{sum_of, batch_start, play_batch}
use codenames_llm_bias.Batch.Totals.{
  shape_of, note_kept_totals, EndsShaped, play_schedule-EndsShaped,
}
use codenames_llm_bias.Batch.Distinct.{
  OneEach, sum_counts, count_if-All, OneEach-update, OneEach-append,
}

module _ (kept : List (Text × Text)) (schedule : List BatchCell) where
  Counted : PairingReport → Type 0
  Counted r = r.total_cells ≡ count_if (in_pairing r.pairing_ordinal) schedule

  Holds : List PairingReport → ℕ → List PairingReport → Type 0
  Holds rs p x =
      OneEach x
      × All Counted x
      × ((q : ℕ) → has_report q rs ≡ true → has_report q x ≡ true)
      × (has_report p x ≡ true)

  opened_Holds :
      (c : BatchCell) (rs : List PairingReport)
      → OneEach rs
      → All Counted rs
      → Holds rs c.pairing_ordinal
          (if has_report c.pairing_ordinal rs then rs else rs ++ (new_report schedule c ∷ []))
  unfolding Holds Counted new_report
  opened_Holds c rs one counted =
      if_decided (Holds rs c.pairing_ordinal) (has_report c.pairing_ordinal rs)
        (λ h. (one, counted, λ q k. k, h))
        (λ h. (
          OneEach-append rs (new_report schedule c) one h,
          All-append Counted rs (new_report schedule c ∷ []) counted (refl, tt),
          (λ q k. ground (arith, has_report-append q rs (new_report schedule c), k)),
          ground (arith, has_report-append c.pairing_ordinal rs (new_report schedule c)),
        ))

  noted_Holds :
      (rs : List PairingReport) (p : ℕ) (status : Option Text) (x : List PairingReport)
      → Holds rs p x
      → Holds rs p (update p (note_kept status) x)
  unfolding Holds Counted
  noted_Holds rs p status x h =
      let same : (q : ℕ) → has_report q (update p (note_kept status) x) ≡ has_report q x =
        λ q. has_report-update q p (note_kept status) (note_kept_ordinal status) x in
      (
        OneEach-update p status x h.0,
        All-update Counted Counted p (note_kept status)
            (λ r k e.
              ap (λ (t : ℕ × ℕ). t.1) (note_kept_totals status r)
              ∙ k
              ∙ sym (ap (λ n. count_if (in_pairing n) schedule) (note_kept_ordinal status r)))
            (λ r k e. k) x h.1,
        (λ q k. same q ∙ h.2 q k),
        same p ∙ h.3,
      )

  record IsWhole (cs : List BatchCell) (rs out : List PairingReport) : Type 0 where
    one : OneEach out
    counted : All Counted out
    more : (q : ℕ) → has_report q rs ≡ true → has_report q out ≡ true
    covered : All (λ c. has_report c.pairing_ordinal out ≡ true) cs

  open_reports-IsWhole :
      (cs : List BatchCell) (rs : List PairingReport)
      → OneEach rs
      → All Counted rs
      → IsWhole cs rs (open_reports kept schedule cs rs)
  unfolding open_reports Holds
  open_reports-IsWhole [] rs one counted = record {
    one = one;
    counted = counted;
    more = λ q h. h;
    covered = tt;
  }
  open_reports-IsWhole (c ∷ cs) rs one counted =
      let h =
        noted_Holds rs c.pairing_ordinal (get_item c.game_id kept) _
          (opened_Holds c rs one counted) in
      let rest = open_reports-IsWhole cs _ h.0 h.1 in
      record {
        one = rest.one;
        counted = rest.counted;
        more = λ q k. rest.more q (h.2 q k);
        covered = (rest.more c.pairing_ordinal h.3, rest.covered);
      }

  -- The games of the pairings are the games of the schedule.
  pub sum_of-open_reports :
      sum_of (λ r. r.total_cells) (open_reports kept schedule schedule []) ≡ length schedule
  unfolding Counted
  sum_of-open_reports =
      let h = open_reports-IsWhole schedule [] tt tt in
      let out = open_reports kept schedule schedule [] in
      same_sum out h.counted
      ∙ sum_counts out schedule h.one
      ∙ count_if-All (λ c. has_report c.pairing_ordinal out) schedule h.covered
    where
      same_sum :
          (rs : List PairingReport)
          → All Counted rs
          → sum_of (λ r. r.total_cells) rs
            ≡ sum_of (λ r. count_if (in_pairing r.pairing_ordinal) schedule) rs
      same_sum [] h = refl
      same_sum (r ∷ rs) h = omega (arith, h.0, same_sum rs h.1)

cells_in : List (ℕ × ℕ) → ℕ
cells_in [] = 0
cells_in ((p, n) ∷ xs) = n + cells_in xs

cells_in-shape_of :
    (rs : List PairingReport) → cells_in (shape_of rs) ≡ sum_of (λ r. r.total_cells) rs
unfolding cells_in
cells_in-shape_of [] = refl
cells_in-shape_of (r ∷ rs) = omega (arith, cells_in-shape_of rs)

-- So are they when the batch ends.
pub play_batch_cells :
    {W : Type 0} (b : Setting W) (schedule : List BatchCell) (w : W) (s : Batch W)
    → play_batch b schedule w ≡ some s
    → sum_of (λ r. r.total_cells) s.reports ≡ length schedule
unfolding play_batch
play_batch_cells {W} b schedule w s h =
    let opened = open_reports b.kept schedule schedule [] in
    let k : EndsShaped b (shape_of opened) (some s) =
      subst (EndsShaped b (shape_of opened)) h
        (play_schedule-EndsShaped b (shape_of opened) schedule (batch_start b schedule w) refl) in
    sym (cells_in-shape_of s.reports)
    ∙ ap cells_in k
    ∙ cells_in-shape_of opened
    ∙ sum_of-open_reports b.kept schedule

sum_of-insert :
    (f : PairingReport → ℕ) (le : PairingReport → PairingReport → Bool) (r : PairingReport)
    (rs : List PairingReport)
    → sum_of f (insert le r rs) ≡ f r + sum_of f rs
unfolding insert
sum_of-insert f le r [] = refl
sum_of-insert f le r (x ∷ rs) = ground (arith, sum_of-insert f le r rs)

pub sum_of-sort :
    (f : PairingReport → ℕ) (le : PairingReport → PairingReport → Bool) (rs : List PairingReport)
    → sum_of f (sort le rs) ≡ sum_of f rs
unfolding sort
sum_of-sort f le [] = refl
sum_of-sort f le (r ∷ rs) =
    sum_of-insert f le r (sort le rs) ∙ ap (λ n. f r + n) (sum_of-sort f le rs)
