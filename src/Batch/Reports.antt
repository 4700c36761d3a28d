-- ===== src/Batch/Reports.antt =====
-- backend/app/core/batch_runner.py: what the reports count, and the reports of a schedule that has not
-- been played.
use codenames_llm_bias.Shared.{
  ℕ, ◌+◌, ◌≡◌, refl, sym, subst, ◌∙◌, inl, inr, Bool, true, false, not, ◌&&◌, ◌||◌, Bool-cases,
  Option, none, some, List, [], ◌∷◌, ◌++◌, if◌then◌else◌, ◌==◌, nat_eq, text_eq, Text, codes,
  count_if, get_item, All, All-append, arith,
}
use codenames_llm_bias.Schedule.{BatchCell}
use codenames_llm_bias.Batch.{errors, PairingReport, update, has_report}
use codenames_llm_bias.Batch.Loop.{in_pairing, new_report, note_kept, open_reports}

abbrev pub is_kept : List (Text × Text) → BatchCell → Bool
is_kept kept c = elim (get_item c.game_id kept) [ none ↦ false | some status ↦ true ]

-- The games of a pairing that were kept, and those to play.
abbrev pub kept_in : List (Text × Text) → ℕ → List BatchCell → ℕ
kept_in kept p cs = count_if (λ c. in_pairing p c && is_kept kept c) cs

abbrev pub to_play : List (Text × Text) → ℕ → List BatchCell → ℕ
to_play kept p cs = count_if (λ c. in_pairing p c && not (is_kept kept c)) cs

count_pairing :
    (kept : List (Text × Text)) (p : ℕ) (cs : List BatchCell)
    → count_if (in_pairing p) cs ≡ kept_in kept p cs + to_play kept p cs
count_pairing kept p [] = refl
count_pairing kept p (c ∷ cs) = elim (Bool-cases (is_kept kept c)) [
  | inl k ↦ rw k (ground (arith, count_pairing kept p cs))
  | inr k ↦ rw k (ground (arith, count_pairing kept p cs))
]

pub All-update {κ λ'} :
    (P : PairingReport → Type κ) (Q : PairingReport → Type λ') (p : ℕ)
    (f : PairingReport → PairingReport)
    → ((r : PairingReport) → P r → r.pairing_ordinal ≡ p → Q (f r))
    → ((r : PairingReport) → P r → (r.pairing_ordinal == p) ≡ false → Q r)
    → (rs : List PairingReport) → All P rs
    → All Q (update p f rs)
unfolding update
All-update P Q p f h k [] a = tt
All-update P Q p f h k (r ∷ rs) a = (
  elim (Bool-cases (r.pairing_ordinal == p)) [
    | inl q ↦ rw q (h r a.0 (ground (arith, q)))
    | inr q ↦ rw q (k r a.0 q)
  ],
  All-update P Q p f h k rs a.1,
)

pub has_report-update :
    (q p : ℕ) (f : PairingReport → PairingReport)
    → ((r : PairingReport) → (f r).pairing_ordinal ≡ r.pairing_ordinal)
    → (rs : List PairingReport) → has_report q (update p f rs) ≡ has_report q rs
unfolding has_report update
has_report-update q p f h [] = refl
has_report-update q p f h (r ∷ rs) = elim (Bool-cases (r.pairing_ordinal == p)) [
  | inl e ↦ rw (e, h r, has_report-update q p f h rs)
  | inr e ↦ rw (e, has_report-update q p f h rs)
]

pub has_report-append :
    (q : ℕ) (rs : List PairingReport) (r : PairingReport)
    → has_report q (rs ++ (r ∷ [])) ≡ (has_report q rs || r.pairing_ordinal == q)
unfolding has_report
has_report-append q [] r = ground arith
has_report-append q (x ∷ rs) r = ground (arith, has_report-append q rs r)

pub note_kept_ordinal :
    (status : Option Text) (r : PairingReport)
    → (note_kept status r).pairing_ordinal ≡ r.pairing_ordinal
unfolding note_kept
note_kept_ordinal none r = refl
note_kept_ordinal (some status) r = elim (Bool-cases (status == codes "completed")) [
  | inl q ↦ rw q
  | inr q ↦ rw q
]

module _ (kept : List (Text × Text)) (schedule : List BatchCell) where
  -- A report no game of which has been played; `rest` are the games not looked at.
  pub record IsOpened (rest : List BatchCell) (r : PairingReport) : Type 0 where
    pub unplayed : r.attempted ≡ 0
    pub incomplete : r.completed ≡ 0
    pub faultless : r.errored ≡ 0
    pub kinds : errors r.error_kinds ≡ 0
    pub running : r.abort_reason ≡ none
    pub cells :
        r.total_cells
        ≡ r.previously_completed
          + r.previously_errored
          + kept_in kept r.pairing_ordinal rest
          + to_play kept r.pairing_ordinal schedule

  new_report-IsOpened :
      (c : BatchCell) (rest : List BatchCell)
      → kept_in kept c.pairing_ordinal rest ≡ kept_in kept c.pairing_ordinal schedule
      → IsOpened rest (new_report schedule c)
  unfolding new_report
  new_report-IsOpened c rest q = record {
    unplayed = refl;
    incomplete = refl;
    faultless = refl;
    kinds = refl;
    running = refl;
    cells = omega (arith, count_pairing kept c.pairing_ordinal schedule, q);
  }

  note_kept-IsOpened :
      (c : BatchCell) (rest : List BatchCell) (r : PairingReport)
      → IsOpened (c ∷ rest) r
      → r.pairing_ordinal ≡ c.pairing_ordinal
      → IsOpened rest (note_kept (get_item c.game_id kept) r)
  unfolding note_kept
  note_kept-IsOpened c rest r o q = by_status (get_item c.game_id kept) refl
    where
      by_status :
          (status : Option Text)
          → get_item c.game_id kept ≡ status
          → IsOpened rest (note_kept status r)
      by_status none n = record {
        unplayed = o.unplayed;
        incomplete = o.incomplete;
        faultless = o.faultless;
        kinds = o.kinds;
        running = o.running;
        cells = ground (arith, o.cells, n);
      }
      by_status (some s) n = elim (Bool-cases (s == codes "completed")) [
        | inl k ↦ rw k (record {
          unplayed = o.unplayed;
          incomplete = o.incomplete;
          faultless = o.faultless;
          kinds = o.kinds;
          running = o.running;
          cells = ground (arith, o.cells, n, q);
        })
        | inr k ↦ rw k (record {
          unplayed = o.unplayed;
          incomplete = o.incomplete;
          faultless = o.faultless;
          kinds = o.kinds;
          running = o.running;
          cells = ground (arith, o.cells, n, q);
        })
      ]

  skip-IsOpened :
      (c : BatchCell) (rest : List BatchCell) (r : PairingReport)
      → IsOpened (c ∷ rest) r
      → (r.pairing_ordinal == c.pairing_ordinal) ≡ false
      → IsOpened rest r
  skip-IsOpened c rest r o q = record {
    unplayed = o.unplayed;
    incomplete = o.incomplete;
    faultless = o.faultless;
    kinds = o.kinds;
    running = o.running;
    cells = ground (arith, o.cells, q);
  }

  Unseen : List BatchCell → List PairingReport → Type 0
  Unseen rest rs = (q : ℕ) → has_report q rs ≡ false → kept_in kept q rest ≡ kept_in kept q schedule

  -- The report of the first game of a pairing.
  opened_lem :
      (c : BatchCell) (cs : List BatchCell) (rs : List PairingReport)
      → All (IsOpened (c ∷ cs)) rs
      → Unseen (c ∷ cs) rs
      → let opened =
          if has_report c.pairing_ordinal rs then rs else rs ++ (new_report schedule c ∷ []) in
        All (IsOpened (c ∷ cs)) opened
        × ((q : ℕ) → has_report q opened ≡ (has_report q rs || c.pairing_ordinal == q))
  unfolding Unseen new_report
  opened_lem c cs rs o u = elim (Bool-cases (has_report c.pairing_ordinal rs)) [
    | inl h ↦ rw h (
      o,
      λ q. elim (Bool-cases (c.pairing_ordinal == q)) [
        | inl e ↦
            rw e (ground (arith, subst (λ p. has_report p rs ≡ true) {y = q} (ground (arith, e)) h))
        | inr e ↦ rw e (ground arith)
      ],
    )
    | inr h ↦ rw h (
      All-append (IsOpened (c ∷ cs)) rs (new_report schedule c ∷ []) o
          (new_report-IsOpened c (c ∷ cs) (u c.pairing_ordinal h), tt),
      λ q. has_report-append q rs (new_report schedule c),
    )
  ]

  open_reports-IsOpened :
      (cs : List BatchCell) (rs : List PairingReport)
      → All (IsOpened cs) rs
      → Unseen cs rs
      → All (IsOpened []) (open_reports kept schedule cs rs)
  unfolding open_reports Unseen
  open_reports-IsOpened [] rs o u = o
  open_reports-IsOpened (c ∷ cs) rs o u =
      let (o', h) = opened_lem c cs rs o u in
      let p = c.pairing_ordinal in
      let status = get_item c.game_id kept in
      open_reports-IsOpened cs _
        (All-update (IsOpened (c ∷ cs)) (IsOpened cs) p (note_kept status) (note_kept-IsOpened c cs)
          (skip-IsOpened c cs) _ o')
        (λ q none_yet.
          let e : (has_report q rs || p == q) ≡ false =
            sym (h q)
            ∙ sym (has_report-update q p (note_kept status) (note_kept_ordinal status) _)
            ∙ none_yet in
          ground (arith, e, u q (ground (arith, e))))

  -- The reports of a schedule that has not been played.
  pub open_reports_lem : All (IsOpened []) (open_reports kept schedule schedule [])
  unfolding Unseen
  open_reports_lem = open_reports-IsOpened schedule [] tt (λ q h. refl)
