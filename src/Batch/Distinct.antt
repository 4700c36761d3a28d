-- ===== src/Batch/Distinct.antt =====
-- backend/app/core/batch_runner.py: the reports are of different pairings, and the games are counted by them.
use codenames_llm_bias.Shared.{
  ℕ, ◌+◌, ◌≡◌, refl, sym, ap, subst, ◌∙◌, inl, inr, Bool, true, false, Bool-cases, Option, List, [],
  ◌∷◌, ◌++◌, if_cases, ◌==◌, nat_eq, text_eq, length, count_if, All, arith,
}
use codenames_llm_bias.Schedule.{BatchCell}
use codenames_llm_bias.Batch.{PairingReport, update, has_report}
use codenames_llm_bias.Batch.Loop.{in_pairing, note_kept}
use codenames_llm_bias.Batch.Reports.{has_report-update, has_report-append, note_kept_ordinal}
use codenames_llm_bias.Batch.Outcome.{sum_of}

-- No two reports are of one pairing.
abbrev pub OneEach : List PairingReport → Type 0
OneEach [] = Unit
OneEach (r ∷ rs) = (has_report r.pairing_ordinal rs ≡ false) × OneEach rs

none_counted : (cs : List BatchCell) → count_if (λ c. has_report c.pairing_ordinal []) cs ≡ 0
unfolding has_report
none_counted [] = refl
none_counted (c ∷ cs) = none_counted cs

count_more :
    (r : PairingReport) (rs : List PairingReport) (cs : List BatchCell)
    → has_report r.pairing_ordinal rs ≡ false
    → count_if (in_pairing r.pairing_ordinal) cs
        + count_if (λ c. has_report c.pairing_ordinal rs) cs
      ≡ count_if (λ c. has_report c.pairing_ordinal (r ∷ rs)) cs
unfolding has_report
count_more r rs [] h = refl
count_more r rs (c ∷ cs) h = elim (Bool-cases (c.pairing_ordinal == r.pairing_ordinal)) [
  | inl e ↦
      let off : has_report c.pairing_ordinal rs ≡ false =
        subst (λ p. has_report p rs ≡ false) {x = r.pairing_ordinal} {y = c.pairing_ordinal}
          (ground (arith, e)) h in
      ground (arith, e, off, count_more r rs cs h)
  | inr e ↦ ground (arith, e, count_more r rs cs h)
]

pub sum_counts :
    (rs : List PairingReport) (cs : List BatchCell)
    → OneEach rs
    → sum_of (λ r. count_if (in_pairing r.pairing_ordinal) cs) rs
      ≡ count_if (λ c. has_report c.pairing_ordinal rs) cs
sum_counts [] cs o = sym (none_counted cs)
sum_counts (r ∷ rs) cs o =
    ap (λ n. count_if (in_pairing r.pairing_ordinal) cs + n) (sum_counts rs cs o.1)
    ∙ count_more r rs cs o.0

pub count_if-All :
    (p : BatchCell → Bool) (cs : List BatchCell)
    → All (λ c. p c ≡ true) cs
    → count_if p cs ≡ length cs
count_if-All p [] h = refl
count_if-All p (c ∷ cs) h = ground (arith, h.0, count_if-All p cs h.1)

pub OneEach-update :
    (p : ℕ) (status : Option _) (rs : List PairingReport)
    → OneEach rs
    → OneEach (update p (note_kept status) rs)
unfolding update
OneEach-update p status [] o = tt
OneEach-update p status (r ∷ rs) o = (
  subst (λ q. has_report q (update p (note_kept status) rs) ≡ false)
      (sym (
        if_cases (λ (x : PairingReport). x.pairing_ordinal ≡ r.pairing_ordinal)
          (r.pairing_ordinal == p) (note_kept_ordinal status r) refl))
      (has_report-update r.pairing_ordinal p (note_kept status) (note_kept_ordinal status) rs
        ∙ o.0),
  OneEach-update p status rs o.1,
)

pub OneEach-append :
    (rs : List PairingReport) (r : PairingReport)
    → OneEach rs
    → has_report r.pairing_ordinal rs ≡ false
    → OneEach (rs ++ (r ∷ []))
unfolding has_report
OneEach-append [] r o h = (refl, tt)
OneEach-append (x ∷ rs) r o h = (
  ground (arith, has_report-append x.pairing_ordinal rs r, o.0, h),
  OneEach-append rs r o.1 (ground (arith, h)),
)
