-- ===== src/Batch/Ends.antt =====
-- backend/app/core/batch_runner.py: how the loop over a schedule ends.
use codenames_llm_bias.Shared.{
  ℕ, ◌≡◌, refl, Bool, true, false, Option, none, some, List, [], ◌∷◌, if◌then◌else◌, if_cases,
  if_decided, ◌==◌, nat_eq, text_eq, Text, codes, contains, get_item, All-weaken, arith,
}
use codenames_llm_bias.Schedule.{BatchCell}
use codenames_llm_bias.Batch.{PairingReport}
use codenames_llm_bias.Batch.Loop.{
  Setting, Batch, Played, enter, forget, settle, visit, play_cell, play_schedule,
}
use codenames_llm_bias.Batch.Reports.{is_kept}
use codenames_llm_bias.Batch.Games.{IsFree, IsSafe, Plays, play_cell-Plays}
use codenames_llm_bias.Batch.Accounts.{IsAccounted, kept-IsAccounted, skipped-IsAccounted}
use codenames_llm_bias.Batch.Settled.{IsRunning, Visits, Ends, settle-Visits}

module _ {W : Type 0} (b : Setting W) where
  enter-IsRunning :
      (most p : ℕ) (rest : List BatchCell) (s : Batch W)
      → IsRunning b most rest s
      → s.outage ≡ none
      → IsRunning b most rest (enter b p s) × ((enter b p s).outage ≡ none)
  unfolding enter
  enter-IsRunning most p rest s h o =
      if_cases (λ (x : Batch W). IsRunning b most rest x × (x.outage ≡ none))
        (elim s.current_p as (λ x. Bool) [ none ↦ false | some q ↦ p == q ])
        {y = record s { current_p = some p; consecutive = 0 }} (h, o)
        (
          record {
            accounts = h.accounts;
            safe = record { unplayed = h.safe.unplayed; unforgotten = h.safe.unforgotten };
            plays = h.plays;
          },
          o,
        )

  -- A game of the schedule, from a state that has been entered.
  module _ (most : ℕ) (c : BatchCell) (cs : List BatchCell) (s : Batch W)
      (h : IsRunning b most (c ∷ cs) s) (o : s.outage ≡ none) where
    passed :
        ((r : PairingReport)
          → IsAccounted b.kept b.threshold s.outage s.aborted_pairings (c ∷ cs) r
          → IsAccounted b.kept b.threshold s.outage s.aborted_pairings cs r)
        → IsRunning b most cs s
    passed step = record {
      accounts = All-weaken _ _ step s.reports h.accounts;
      safe = h.safe;
      plays = omega (arith, h.plays);
    }

    kept_lem :
        (status : Text)
        → is_kept b.kept c ≡ true
        → Visits b most cs
            (some (true, if status == codes "completed" then record s { consecutive = 0 } else s))
    kept_lem status k =
        let next =
          passed
            (λ r a. kept-IsAccounted b.kept b.threshold s.outage s.aborted_pairings c cs r a k) in
        if_cases (λ (x : Batch W). Visits b most cs (some (true, x))) (status == codes "completed")
          {x = record s { consecutive = 0 }}
          (
            record {
              accounts = next.accounts;
              safe = record { unplayed = next.safe.unplayed; unforgotten = next.safe.unforgotten };
              plays = next.plays;
            },
            o,
          )
          (next, o)

    abbrev start_of : Bool → Batch W
    start_of is_recorded = if is_recorded then forget b c.game_id s else s

    fresh_lem :
        (is_recorded : Bool)
        → IsFree b.kept c.game_id
        → Visits b most cs (
            if contains c.pairing_ordinal s.aborted_pairings
            then some (true, s)
            else elim (play_cell b b.provider_replays c (start_of is_recorded)) [
              | none ↦ none
              | some r ↦ some (settle b c r)
            ])
    fresh_lem is_recorded free =
        if_decided (Visits b most cs) (contains c.pairing_ordinal s.aborted_pairings)
          (λ on. (
            passed (λ r a.
                skipped-IsAccounted b.kept b.threshold s.outage s.aborted_pairings c cs r a on),
            o,
          ))
          (λ off. by_start is_recorded off)
      where
        played_from :
            (s' : Batch W)
            → contains c.pairing_ordinal s'.aborted_pairings ≡ false
            → IsRunning b most (c ∷ cs) s'
            → s'.outage ≡ none
            → (r : Option (Played W)) → Plays b b.provider_replays s' r
            → Visits b most cs (elim r [ none ↦ none | some r ↦ some (settle b c r) ])
        played_from s' off run going none p = p
        played_from s' off run going (some r) p =
            settle-Visits b most c cs s' r free off run going p

        by_start :
            (is_recorded : Bool)
            → contains c.pairing_ordinal s.aborted_pairings ≡ false
            → Visits b most cs (elim (play_cell b b.provider_replays c (start_of is_recorded)) [
              | none ↦ none
              | some r ↦ some (settle b c r)
            ])
        by_start false off =
            played_from s off h o _ (play_cell-Plays b b.provider_replays c s free h.safe)
        by_start true off =
            let safe : IsSafe b.kept (forget b c.game_id s) = record {
              unplayed = h.safe.unplayed;
              unforgotten = (free, h.safe.unforgotten);
            } in
            played_from (forget b c.game_id s) off
              (record { accounts = h.accounts; safe = safe; plays = h.plays }) o _
              (play_cell-Plays b b.provider_replays c (forget b c.game_id s) free safe)

  visit-Visits :
      (most : ℕ) (c : BatchCell) (cs : List BatchCell) (s : Batch W)
      → IsRunning b most (c ∷ cs) s
      → s.outage ≡ none
      → Visits b most cs (visit b c s)
  unfolding visit
  visit-Visits most c cs s h o = by_status (get_item c.game_id b.kept) refl
    where
      s' : Batch W
      s' = enter b c.pairing_ordinal s

      entered : IsRunning b most (c ∷ cs) s' × (s'.outage ≡ none)
      entered = enter-IsRunning most c.pairing_ordinal (c ∷ cs) s h o

      by_status :
          (status : Option Text)
          → get_item c.game_id b.kept ≡ status
          → Visits b most cs (elim status [
            | some status ↦
                some
                  (true, if status == codes "completed" then record s' { consecutive = 0 } else s')
            | none ↦
                if contains c.pairing_ordinal s'.aborted_pairings
                then some (true, s')
                else elim (play_cell b b.provider_replays c (
                    if (elim (get_item c.game_id b.recorded) as (λ x. Bool) [
                      | none ↦ false
                      | some g ↦ true
                    ])
                    then forget b c.game_id s'
                    else s')) [ none ↦ none | some r ↦ some (settle b c r) ]
          ])
      by_status none q = fresh_lem most c cs s' entered.0 entered.1 _ q
      by_status (some status) q =
          kept_lem most c cs s' entered.0 entered.1 status (ground (arith, q))

  pub play_schedule-Ends :
      (most : ℕ) (cs : List BatchCell) (s : Batch W)
      → IsRunning b most cs s
      → s.outage ≡ none
      → Ends b most (play_schedule b cs s)
  unfolding play_schedule
  play_schedule-Ends most [] s h o = h
  play_schedule-Ends most (c ∷ cs) s h o =
      by_visit (visit b c s) (visit-Visits most c cs s h o)
        (λ s' h' o'. play_schedule-Ends most cs s' h' o')
    where
      by_visit :
          (v : Option (Bool × Batch W))
          → Visits b most cs v
          → ((s' : Batch W)
              → IsRunning b most cs s'
              → s'.outage ≡ none
              → Ends b most (play_schedule b cs s'))
          → Ends b most (elim v [
            | none ↦ none
            | some (goes_on, s') ↦
                let rest = play_schedule b cs s' in if goes_on then rest else some s'
          ])
      by_visit none v h = v
      by_visit (some (true, s')) v h = h s' v.0 v.1
      by_visit (some (false, s')) v h = v
