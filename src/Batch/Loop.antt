-- ===== src/Batch/Loop.antt =====
-- backend/app/core/batch_runner.py: the reports that are opened for a schedule, and the loop that plays
-- it. The world is what a game, a provider and the database are read from and change: a game, a
-- health check, a sleep and the deletion of a row are parameters.
use codenames_llm_bias.Shared.{
  ℕ, zero, suc, ◌+◌, Bool, true, false, not, ◌&&◌, ◌||◌, Option, none, some, List, [], ◌∷◌, ◌++◌,
  if◌then◌else◌, ◌==◌, nat_eq, text_eq, leb, Text, codes, contains, count_if, get_item,
}
use codenames_llm_bias.Schedule.{SeatSpec, model_id, BatchCell, sorted_pair}
use codenames_llm_bias.Batch.{
  GameRunResult, code_in, transient_provider_codes, classify_error, no_errors, count_error,
  PairingReport, skipped, update, has_report,
}
use codenames_llm_bias.Batch.Wait.{wait_for_provider}

-- A row of the database: RecordedGame.
pub record RecordedGame : Type 0 where
  pub run_id : Option Text
  pub board_id : Text
  pub status : Text

-- The games that are not played again, with their status.
unfoldable pub kept_games : Bool → List (Text × RecordedGame) → List (Text × Text)
kept_games retry_errors [] = []
kept_games retry_errors ((game_id, game) ∷ recorded) =
    let rest = kept_games retry_errors recorded in
    if game.status == codes "completed" || not retry_errors
    then (game_id, game.status) ∷ rest
    else rest

abbrev pub in_pairing : ℕ → BatchCell → Bool
in_pairing p c = c.pairing_ordinal == p

unfoldable pub new_report : List BatchCell → BatchCell → PairingReport
new_report schedule c = record {
  pairing_ordinal = c.pairing_ordinal;
  pairing_key = sorted_pair (model_id c.seat0_spec) (model_id c.seat1_spec);
  total_cells = count_if (in_pairing c.pairing_ordinal) schedule;
  attempted = 0;
  completed = 0;
  errored = 0;
  previously_completed = 0;
  previously_errored = 0;
  abort_reason = none;
  error_kinds = no_errors;
}

-- How a game that was kept counts.
unfoldable pub note_kept : Option Text → PairingReport → PairingReport
note_kept none r = r
note_kept (some status) r =
    if status == codes "completed"
    then record r { previously_completed = r.previously_completed + 1 }
    else record r { previously_errored = r.previously_errored + 1 }

-- How a game that was played counts, before the threshold is looked at.
unfoldable pub note_played : GameRunResult → PairingReport → PairingReport
note_played result r =
    if result.status == codes "completed"
    then record r { attempted = r.attempted + 1; completed = r.completed + 1 }
    else record r {
      attempted = r.attempted + 1;
      errored = r.errored + 1;
      error_kinds = count_error (classify_error result.error result.error_code) r.error_kinds;
    }

unfoldable pub note_aborted : ℕ → PairingReport → PairingReport
note_aborted consecutive r = record r { abort_reason = some (consecutive, skipped r) }

-- `played` has the games that were run and `forgotten` those whose row was deleted, the last one
-- first. `outage` is the code of the error after which the provider did not come back.
pub record Batch (W : Type 0) : Type 0 where
  pub world : W
  pub played : List Text
  pub forgotten : List Text
  pub reports : List PairingReport
  pub current_p : Option ℕ
  pub consecutive : ℕ
  pub aborted_pairings : List ℕ
  pub outage : Option (Option Text)

-- The last result of a game, after its replays.
pub record Played (W : Type 0) : Type 0 where
  pub result : GameRunResult
  pub gave_up : Bool
  pub after : Batch W

module _ (kept : List (Text × Text)) (schedule : List BatchCell) where
  -- `for c in schedule`: a report is opened for the first game of each pairing, and the kept games are counted.
  unfoldable pub open_reports : List BatchCell → List PairingReport → List PairingReport
  open_reports [] rs = rs
  open_reports (c ∷ cs) rs =
      let p = c.pairing_ordinal in
      let opened = if has_report p rs then rs else rs ++ (new_report schedule c ∷ []) in
      open_reports cs (update p (note_kept (get_item c.game_id kept)) opened)

-- What the loop is given: the calls that are not of this file, and the arguments of `run_batch`.
pub record Setting (W : Type 0) : Type 0 where
  pub run_single_game : W → BatchCell → GameRunResult × W
  pub health_check : W → SeatSpec → Bool × W
  pub sleep : ℕ → W → W
  pub delete_error_game : Text → W → W
  pub kept : List (Text × Text)
  pub recorded : List (Text × RecordedGame)
  pub persist : Bool
  pub threshold : ℕ
  pub provider_wait : ℕ
  pub provider_replays : ℕ

abbrev pub is_lost : GameRunResult → Bool
is_lost result =
    result.status == codes "error" && code_in transient_provider_codes result.error_code

module _ {W : Type 0} (b : Setting W) where
  -- `_provider_healthy`: the second seat is asked when the first one answers.
  unfoldable pub provider_healthy : BatchCell → W → Bool × W
  provider_healthy c w =
      let (healthy, w') = b.health_check w c.seat0_spec in
      if healthy then b.health_check w' c.seat1_spec else (false, w')

  abbrev pub forget : Text → Batch W → Batch W
  forget game_id s = record s {
    world = b.delete_error_game game_id s.world;
    forgotten = game_id ∷ s.forgotten;
  }

  abbrev pub run_once : BatchCell → Batch W → GameRunResult × Batch W
  run_once c s =
      let (result, w) = b.run_single_game s.world c in
      (result, record s { world = w; played = c.game_id ∷ s.played })

  -- `while True`, with the replays that are left.
  unfoldable pub play_cell : ℕ → BatchCell → Batch W → Option (Played W)
  play_cell zero c s =
      let (result, s') = run_once c s in
      some (record { result = result; gave_up = false; after = s' })
  play_cell (suc left) c s =
      let (result, s') = run_once c s in
      if not (is_lost result)
      then some (record { result = result; gave_up = false; after = s' })
      else elim (wait_for_provider (provider_healthy c) b.sleep b.provider_wait s'.world) [
        | none ↦ none
        | some r ↦
            let s'' = record s' { world = r.world } in
            let again = play_cell left c (if b.persist then forget c.game_id s'' else s'') in
            if r.answers
            then again
            else some (record { result = result; gave_up = true; after = s'' })
      ]

  -- What the loop does with the result; the answer is whether it goes on.
  unfoldable pub settle : BatchCell → Played W → Bool × Batch W
  settle c r =
      let p = c.pairing_ordinal in
      let s = record r.after { reports = update p (note_played r.result) r.after.reports } in
      let consecutive = s.consecutive + 1 in
      let counted = record s { consecutive = consecutive } in
      let aborted = record counted {
        reports = update p (note_aborted consecutive) counted.reports;
        aborted_pairings = p ∷ counted.aborted_pairings;
      } in
      if r.result.status == codes "completed"
      then (true, record s { consecutive = 0 })
      else if r.gave_up
      then (false, record s { outage = some r.result.error_code })
      else if leb b.threshold consecutive
      then (true, aborted)
      else (true, counted)

  -- The pairing boundary.
  unfoldable pub enter : ℕ → Batch W → Batch W
  enter p s =
      let same : Bool = elim s.current_p [ none ↦ false | some q ↦ p == q ] in
      if same then s else record s { current_p = some p; consecutive = 0 }

  unfoldable pub visit : BatchCell → Batch W → Option (Bool × Batch W)
  visit c s =
      let s' = enter c.pairing_ordinal s in
      let is_recorded : Bool = elim (get_item c.game_id b.recorded) [
        | none ↦ false
        | some g ↦ true
      ] in
      elim (get_item c.game_id b.kept) [
        | some status ↦
            some (true, if status == codes "completed" then record s' { consecutive = 0 } else s')
        | none ↦
            if contains c.pairing_ordinal s'.aborted_pairings
            then some (true, s')
            else elim (play_cell b.provider_replays c
                (if is_recorded then forget c.game_id s' else s')) [
                  | none ↦ none
                  | some r ↦ some (settle c r)
                ]
      ]

  -- `for cell in schedule`
  unfoldable pub play_schedule : List BatchCell → Batch W → Option (Batch W)
  play_schedule [] s = some s
  play_schedule (c ∷ cs) s = elim (visit c s) [
    | none ↦ none
    | some (goes_on, s') ↦ let rest = play_schedule cs s' in if goes_on then rest else some s'
  ]
