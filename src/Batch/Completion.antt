-- ===== src/Batch/Completion.antt =====
-- backend/app/core/batch_runner.py: a batch whose games all complete.
use codenames_llm_bias.Shared.{
  ℕ, zero, suc, ◌+◌, ◌≡◌, refl, subst, Bool, true, false, Option, none, some, List, [], ◌∷◌,
  if◌then◌else◌, if_cases, if_decided, ◌==◌, nat_eq, text_eq, Text, codes, contains, get_item, All,
  All-weaken, All-pair, arith,
}
use codenames_llm_bias.Schedule.{BatchCell}
use codenames_llm_bias.Batch.{GameRunResult, PairingReport}
use codenames_llm_bias.Batch.Loop.{
  Setting, Batch, is_lost, run_once, forget, note_played, enter, settle, visit, play_cell,
  play_schedule, open_reports,
}
use codenames_llm_bias.Batch.Reports.{All-update, open_reports_lem, IsOpened}
use codenames_llm_bias.Batch.Outcome.{
  batch_start, play_batch, EndsWell, IsReport, play_batch-EndsWell, none_skipped,
}

-- No game of the pairing was an error, and the pairing was not aborted.
abbrev pub IsCalm : PairingReport → Type 0
IsCalm r = (r.errored ≡ 0) × (r.abort_reason ≡ none)

-- Each game of the pairing was completed now, or kept from before.
pub record IsComplete (r : PairingReport) : Type 0 where
  pub running : r.abort_reason ≡ none
  pub complete : r.attempted ≡ r.completed
  pub whole : r.attempted + r.previously_completed + r.previously_errored ≡ r.total_cells

note_played-IsCalm :
    (result : GameRunResult) (r : PairingReport)
    → result.status ≡ codes "completed"
    → IsCalm r
    → IsCalm (note_played result r)
unfolding note_played
note_played-IsCalm result r q h = rw q h

module _ {W : Type 0} (b : Setting W)
    (completes : (w : W) (c : BatchCell)
      → (b.run_single_game w c).0.status ≡ codes "completed") where
  record IsQuiet (s : Batch W) : Type 0 where
    no_outage : s.outage ≡ none
    no_abort : s.aborted_pairings ≡ []
    calm : All IsCalm s.reports

  not_lost : (w : W) (c : BatchCell) → is_lost (b.run_single_game w c).0 ≡ false
  not_lost w c = rw (completes w c) refl

  play_cell_once :
      (replays : ℕ) (c : BatchCell) (s : Batch W)
      → play_cell b replays c s
        ≡ some (record {
          result = (b.run_single_game s.world c).0;
          gave_up = false;
          after = (run_once b c s).1;
        })
  unfolding play_cell
  play_cell_once zero c s = refl
  play_cell_once (suc left) c s = rw (not_lost s.world c) refl

  abbrev Goes : Option (Bool × Batch W) → Type 0
  Goes none = ⊥
  Goes (some (on, s)) = (on ≡ true) × IsQuiet s

  -- A game that is played completes, and the loop goes on.
  settle_lem :
      (c : BatchCell) (s : Batch W)
      → IsQuiet s
      → Goes (
          some (
            settle b c (record {
              result = (b.run_single_game s.world c).0;
              gave_up = false;
              after = (run_once b c s).1;
            })))
  unfolding settle
  settle_lem c s h =
      let result = (b.run_single_game s.world c).0 in
      if_decided (λ x. Goes (some x)) (result.status == codes "completed")
        (λ q. (
          refl,
          record {
            no_outage = h.no_outage;
            no_abort = h.no_abort;
            calm =
                All-update IsCalm IsCalm c.pairing_ordinal (note_played result)
                  (λ r calm same. note_played-IsCalm result r (completes s.world c) calm)
                  (λ r calm other. calm) s.reports h.calm;
          },
        ))
        (λ q. absurd (
          ground (
            arith,
            q,
            (text_eq.decides result.status (codes "completed")).1 (completes s.world c),
          )))

  play_cell_lem :
      (c : BatchCell) (s : Batch W)
      → IsQuiet s
      → Goes
          (elim (play_cell b b.provider_replays c s) [ none ↦ none | some r ↦ some (settle b c r) ])
  play_cell_lem c s h = rw (play_cell_once b.provider_replays c s) (settle_lem c s h)

  enter-IsQuiet : (p : ℕ) (s : Batch W) → IsQuiet s → IsQuiet (enter b p s)
  unfolding enter
  enter-IsQuiet p s h =
      if_cases IsQuiet (elim s.current_p as (λ x. Bool) [ none ↦ false | some q ↦ p == q ])
        {y = record s { current_p = some p; consecutive = 0 }} h
        (record { no_outage = h.no_outage; no_abort = h.no_abort; calm = h.calm })

  visit-Goes : (c : BatchCell) (s : Batch W) → IsQuiet s → Goes (visit b c s)
  unfolding visit
  visit-Goes c s h = by_status (get_item c.game_id b.kept)
    where
      s' : Batch W
      s' = enter b c.pairing_ordinal s

      h' : IsQuiet s'
      h' = enter-IsQuiet c.pairing_ordinal s h

      is_recorded : Bool
      is_recorded = elim (get_item c.game_id b.recorded) [ none ↦ false | some g ↦ true ]

      by_status :
          (status : Option Text)
          → Goes (elim status [
            | some status ↦
                some
                  (true, if status == codes "completed" then record s' { consecutive = 0 } else s')
            | none ↦
                if contains c.pairing_ordinal s'.aborted_pairings
                then some (true, s')
                else elim (play_cell b b.provider_replays c
                    (if is_recorded then forget b c.game_id s' else s')) [
                      | none ↦ none
                      | some r ↦ some (settle b c r)
                    ]
          ])
      by_status none =
          if_cases Goes (contains c.pairing_ordinal s'.aborted_pairings) (refl, h')
            (if_cases
              (λ x. Goes (elim (play_cell b b.provider_replays c x) [
                | none ↦ none
                | some r ↦ some (settle b c r)
              ]))
              is_recorded
              (play_cell_lem c (forget b c.game_id s')
                (record { no_outage = h'.no_outage; no_abort = h'.no_abort; calm = h'.calm }))
              (play_cell_lem c s' h'))
      by_status (some status) =
          if_cases (λ x. Goes (some (true, x))) (status == codes "completed")
            {x = record s' { consecutive = 0 }}
            (refl, record { no_outage = h'.no_outage; no_abort = h'.no_abort; calm = h'.calm })
            (refl, h')

  Ends : Option (Batch W) → Type 0
  Ends none = ⊥
  Ends (some s) = IsQuiet s

  play_schedule-IsQuiet :
      (cs : List BatchCell) (s : Batch W) → IsQuiet s → Ends (play_schedule b cs s)
  unfolding play_schedule Ends
  play_schedule-IsQuiet [] s h = h
  play_schedule-IsQuiet (c ∷ cs) s h =
      by_visit (visit b c s) (visit-Goes c s h) (λ s' h'. play_schedule-IsQuiet cs s' h')
    where
      by_visit :
          (v : Option (Bool × Batch W))
          → Goes v
          → ((s' : Batch W) → IsQuiet s' → Ends (play_schedule b cs s'))
          → Ends (elim v [
            | none ↦ none
            | some (goes_on, s') ↦
                let rest = play_schedule b cs s' in if goes_on then rest else some s'
          ])
      by_visit none v k = v
      by_visit (some (true, s')) v k = k s' v.1
      by_visit (some (false, s')) v k = v.1

  -- When each game that is run completes, the batch plays the whole schedule: it ends without an outage
  -- and without an aborted pairing, and each report counts every game of its pairing, as completed now
  -- or kept from before.
  pub play_batch-IsComplete :
      (schedule : List BatchCell) (w : W)
      → (s : Batch W) × (play_batch b schedule w ≡ some s)
        × (s.outage ≡ none)
        × All IsComplete s.reports
  unfolding play_batch Ends
  play_batch-IsComplete schedule w =
      by_end (play_batch b schedule w)
        (play_schedule-IsQuiet schedule (batch_start b schedule w)
          (record { no_outage = refl; no_abort = refl; calm = opened }))
        (play_batch-EndsWell b schedule w)
    where
      opened : All IsCalm (open_reports b.kept schedule schedule [])
      opened =
          All-weaken (IsOpened b.kept schedule []) IsCalm (λ r o. (o.faultless, o.running)) _
            (open_reports_lem b.kept schedule)

      complete : (r : PairingReport) → IsCalm r → IsReport b.threshold none r → IsComplete r
      complete r calm h = record {
        running = calm.1;
        complete = omega (arith, h.split, calm.0);
        whole = none_skipped r (h.whole refl calm.1) h.bounded;
      }

      by_end :
          (e : Option (Batch W))
          → Ends e
          → EndsWell b schedule e
          → (s : Batch W) × (e ≡ some s) × (s.outage ≡ none) × All IsComplete s.reports
      by_end none h k = absurd h
      by_end (some s) h k = (
        s,
        refl,
        h.no_outage,
        All-pair IsCalm (IsReport b.threshold none) IsComplete complete s.reports h.calm (
            subst (λ (o : Option (Option Text)). All (IsReport b.threshold o) s.reports) h.no_outage
              k.reports),
      )
