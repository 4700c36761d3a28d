-- ===== src/Batch/Totals.antt =====
-- backend/app/core/batch_runner.py: the loop keeps which pairings have a report and how many games each has,
-- and each game of the schedule is among them once.
use codenames_llm_bias.Shared.{
  ℕ, zero, suc, ◌+◌, ◌≡◌, refl, ap, ◌∙◌, Bool, true, false, not, Option, none, some, List, [], ◌∷◌,
  map, if◌then◌else◌, if_cases, ◌==◌, nat_eq, text_eq, Text, codes, contains, get_item, leb,
}
use codenames_llm_bias.Schedule.{BatchCell}
use codenames_llm_bias.Batch.{PairingReport, GameRunResult, update}
use codenames_llm_bias.Batch.Wait.{Wait, wait_for_provider}
use codenames_llm_bias.Batch.Loop.{
  Setting, Batch, Played, run_once, is_lost, note_played, note_aborted, note_kept, enter, forget,
  settle, visit, play_cell, play_schedule, provider_healthy,
}

abbrev pub totals : PairingReport → ℕ × ℕ
totals r = (r.pairing_ordinal, r.total_cells)

abbrev pub shape_of : List PairingReport → List (ℕ × ℕ)
shape_of rs = map totals rs

pub shape_of-update :
    (p : ℕ) (f : PairingReport → PairingReport)
    → ((r : PairingReport) → totals (f r) ≡ totals r)
    → (rs : List PairingReport) → shape_of (update p f rs) ≡ shape_of rs
unfolding update
shape_of-update p f h [] = refl
shape_of-update p f h (r ∷ rs) =
    ap (λ x. x ∷ shape_of (update p f rs))
      (if_cases (λ x. totals x ≡ totals r) (r.pairing_ordinal == p) (h r) refl)
    ∙ ap (◌∷◌ (totals r)) (shape_of-update p f h rs)

note_played_totals :
    (result : GameRunResult) (r : PairingReport) → totals (note_played result r) ≡ totals r
unfolding note_played
note_played_totals result r =
    if_cases (λ x. totals x ≡ totals r) (result.status == codes "completed") refl refl

pub note_kept_totals :
    (status : Option Text) (r : PairingReport) → totals (note_kept status r) ≡ totals r
unfolding note_kept
note_kept_totals none r = refl
note_kept_totals (some status) r =
    if_cases (λ x. totals x ≡ totals r) (status == codes "completed") refl refl

module _ {W : Type 0} (b : Setting W) (shape : List (ℕ × ℕ)) where
  Shaped : Batch W → Type 0
  Shaped s = shape_of s.reports ≡ shape

  Kept : Option (Played W) → Type 0
  Kept none = Unit
  Kept (some r) = Shaped r.after

  play_cell-Shaped :
      (replays : ℕ) (c : BatchCell) (s : Batch W) → Shaped s → Kept (play_cell b replays c s)
  unfolding play_cell Kept Shaped
  play_cell-Shaped zero c s h = h
  play_cell-Shaped (suc left) c s h =
      if_cases Kept (not (is_lost (b.run_single_game s.world c).0)) h (
        waited
          (wait_for_provider (provider_healthy b c) b.sleep b.provider_wait
            (run_once b c s).1.world)
          (λ s' h'. play_cell-Shaped left c s' h'))
    where
      waited :
          (r : Option (Wait W))
          → ((s' : Batch W) → Shaped s' → Kept (play_cell b left c s'))
          → Kept (elim r [
            | none ↦ none
            | some r ↦
                let s'' : Batch W = record (run_once b c s).1 { world = r.world } in
                let again =
                  play_cell b left c (if b.persist then forget b c.game_id s'' else s'') in
                if r.answers
                then again
                else some (record {
                  result = (b.run_single_game s.world c).0;
                  gave_up = true;
                  after = s'';
                })
          ])
      waited none k = tt
      waited (some r) k =
          if_cases Kept r.answers
            (if_cases (λ x. Kept (play_cell b left c x)) b.persist (k _ h) (k _ h)) h

  settle-Shaped : (c : BatchCell) (r : Played W) → Shaped r.after → Shaped (settle b c r).1
  unfolding settle Shaped note_aborted
  settle-Shaped c r h =
      let p = c.pairing_ordinal in
      let played : shape_of (update p (note_played r.result) r.after.reports) ≡ shape =
        shape_of-update p (note_played r.result) (note_played_totals r.result) r.after.reports
        ∙ h in
      if_cases (λ (x : Bool × Batch W). Shaped x.1) (r.result.status == codes "completed") played
        (if_cases (λ (x : Bool × Batch W). Shaped x.1) r.gave_up played
          (if_cases (λ (x : Bool × Batch W). Shaped x.1) (leb b.threshold (r.after.consecutive + 1))
            (shape_of-update p (note_aborted (r.after.consecutive + 1)) (λ x. refl) _ ∙ played)
            played))

  Visited : Option (Bool × Batch W) → Type 0
  Visited none = Unit
  Visited (some v) = Shaped v.1

  visit-Shaped : (c : BatchCell) (s : Batch W) → Shaped s → Visited (visit b c s)
  unfolding visit Visited Shaped enter Kept
  visit-Shaped c s h = by_status (get_item c.game_id b.kept) (enter b c.pairing_ordinal s) (
      if_cases Shaped
        (elim s.current_p as (λ x. Bool) [ none ↦ false | some q ↦ c.pairing_ordinal == q ]) h h)
    where
      settled :
          (o : Option (Played W))
          → Kept o
          → Visited (elim o [ none ↦ none | some r ↦ some (settle b c r) ])
      settled none k = tt
      settled (some r) k = settle-Shaped c r k

      is_recorded : Bool
      is_recorded = elim (get_item c.game_id b.recorded) [ none ↦ false | some g ↦ true ]

      by_status :
          (status : Option Text) (s' : Batch W)
          → Shaped s'
          → Visited (elim status [
            | some status ↦
                some
                  (true, if status == codes "completed" then record s' { consecutive = 0 } else s')
            | none ↦
                if contains c.pairing_ordinal s'.aborted_pairings
                then some (true, s')
                else elim (play_cell b b.provider_replays c
                    (if is_recorded then forget b c.game_id s' else s')) [
                      | none ↦ none
                      | some r ↦ some (settle b c r)
                    ]
          ])
      by_status (some status) s' k = if_cases Shaped (status == codes "completed") k k
      by_status none s' k =
          if_cases Visited (contains c.pairing_ordinal s'.aborted_pairings) k
            (settled _ (play_cell-Shaped b.provider_replays c _ (if_cases Shaped is_recorded k k)))

  abbrev pub EndsShaped : Option (Batch W) → Type 0
  EndsShaped none = Unit
  EndsShaped (some s) = shape_of s.reports ≡ shape

  pub play_schedule-EndsShaped :
      (cs : List BatchCell) (s : Batch W)
      → shape_of s.reports ≡ shape
      → EndsShaped (play_schedule b cs s)
  unfolding play_schedule Visited Shaped
  play_schedule-EndsShaped [] s h = h
  play_schedule-EndsShaped (c ∷ cs) s h =
      by_visit (visit b c s) (visit-Shaped c s h) (λ s' h'. play_schedule-EndsShaped cs s' h')
    where
      by_visit :
          (v : Option (Bool × Batch W))
          → Visited v
          → ((s' : Batch W) → Shaped s' → EndsShaped (play_schedule b cs s'))
          → EndsShaped (elim v [
            | none ↦ none
            | some (goes_on, s') ↦
                let rest = play_schedule b cs s' in if goes_on then rest else some s'
          ])
      by_visit none v k = tt
      by_visit (some (true, s')) v k = k s' v
      by_visit (some (false, s')) v k = v
