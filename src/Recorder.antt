-- ===== src/Recorder.antt =====
-- backend/app/db/recorder.py: the in-memory record of one game. The fields that the runner copies
-- through (ids, seats, reasoning, call records, times) are left out.
use codenames_llm_bias.Shared.{
  ℕ, zero, suc, Bool, true, false, Option, none, some, List, [], ◌∷◌, ◌++◌, Text, length,
}
use codenames_llm_bias.Shared.Int.{ℤ}
use codenames_llm_bias.Schemas.Card.{CardRole, agent, assassin, civilian, Seat, seat0, seat1}
use codenames_llm_bias.Schemas.State.{
  ClueEntry, ConfidenceRanking, ResolvedTarget, Confidence, GameResult,
}
use codenames_llm_bias.Engine.{GuessResult}

-- backend/app/models/llm_schemas.py: `GuessProposal`, without the reasons that are only stored.
pub record GuessProposal : Type 0 where
  pub proposals : List Text
  pub confidence : List Confidence

-- `none` stands for the ValueError on a string that names no role.
unfoldable pub result_role_of : GuessResult → Option CardRole
result_role_of GuessResult.agent = some agent
result_role_of GuessResult.agent_turn_end = some agent
result_role_of GuessResult.victory = some agent
result_role_of GuessResult.victory_sd = some agent
result_role_of GuessResult.assassin = some assassin
result_role_of GuessResult.civilian = some civilian
result_role_of (GuessResult.loss_role_sd assassin) = some assassin
result_role_of (GuessResult.loss_role_sd civilian) = some civilian
result_role_of (GuessResult.loss_role_sd agent) = none

pub record ClueRecord : Type 0 where
  pub clue_word : Text
  pub count : ℤ
  pub targets_raw : List Text
  pub targets_resolved : List ResolvedTarget
  pub invalid_reason : Option Text

pub record RevealRecord : Type 0 where
  pub card_id : ℕ
  pub result_role : CardRole
  pub timer_tokens_after : ℤ
  pub ended_turn : Bool
  pub ended_game : Bool
  pub proposal_index : ℕ
  pub acting_seat : Seat

pub data TurnPhase : Type 0 where
  normal sudden_death : TurnPhase

-- A dict by seat, which has two keys at most.
pub record BySeat (A : Type 0) : Type 0 where
  pub of_seat0 : Option A
  pub of_seat1 : Option A

abbrev pub no_seats : {A : Type 0} → BySeat A
no_seats = record { of_seat0 = none; of_seat1 = none }

abbrev pub set_seat : {A : Type 0} → Seat → A → BySeat A → BySeat A
set_seat seat0 a d = record d { of_seat0 = some a }
set_seat seat1 a d = record d { of_seat1 = some a }

pub record TurnRecord : Type 0 where
  pub turn_number : ℕ
  pub phase : TurnPhase
  pub clue_giver_seat : Seat
  pub clue : Option ClueRecord
  pub play_proposal : Option GuessProposal
  pub measurement : Option ConfidenceRanking
  pub reveals : List RevealRecord
  pub sd_play_by_seat : BySeat GuessProposal
  pub sd_measurement_by_seat : BySeat ConfidenceRanking

-- `sd_turn` is the position in `turns` of the turn that `_sd_turn` refers to.
pub record GameRecorder : Type 0 where
  pub turns : List TurnRecord
  pub sd_turn : Option ℕ
  pub result : Option GameResult
  pub timer_tokens_final : Option ℤ
  pub error_code : Option Text
  pub flushed : Bool

unfoldable pub new_recorder : GameRecorder
new_recorder = record {
  turns = [];
  sd_turn = none;
  result = none;
  timer_tokens_final = none;
  error_code = none;
  flushed = false;
}

abbrev new_turn : ℕ → TurnPhase → Seat → Option ClueRecord → TurnRecord
new_turn n phase giver clue = record {
  turn_number = n;
  phase = phase;
  clue_giver_seat = giver;
  clue = clue;
  play_proposal = none;
  measurement = none;
  reveals = [];
  sd_play_by_seat = no_seats;
  sd_measurement_by_seat = no_seats;
}

unfoldable pub record_clue : ClueEntry → GameRecorder → GameRecorder
record_clue c r =
    let clue : ClueRecord = record {
      clue_word = c.clue;
      count = c.count;
      targets_raw = c.targets;
      targets_resolved = c.targets_resolved;
      invalid_reason = c.invalid_reason;
    } in
    record r { turns = r.turns ++ new_turn (length r.turns) normal c.clue_giver (some clue) ∷ [] }

-- A write to the turn at a position, and to the last one.
abbrev pub update_turn : ℕ → (TurnRecord → TurnRecord) → List TurnRecord → List TurnRecord
update_turn i f [] = []
update_turn zero f (t ∷ ts) = f t ∷ ts
update_turn (suc i) f (t ∷ ts) = t ∷ update_turn i f ts

abbrev pub update_last : (TurnRecord → TurnRecord) → List TurnRecord → Option (List TurnRecord)
update_last f [] = none
update_last f (t ∷ []) = some (f t ∷ [])
update_last f (t ∷ u ∷ ts) = elim (update_last f (u ∷ ts)) [
  | none ↦ none
  | some rest ↦ some (t ∷ rest)
]

-- `_current_turn` and a write to it; `none` stands for the RuntimeError when no turn is open.
abbrev pub on_current : (TurnRecord → TurnRecord) → GameRecorder → Option GameRecorder
on_current f r = elim (update_last f r.turns) [
  | none ↦ none
  | some ts ↦ some (record r { turns = ts })
]

unfoldable pub record_play_proposal : GuessProposal → GameRecorder → Option GameRecorder
record_play_proposal p r = on_current (λ t. record t { play_proposal = some p }) r

unfoldable pub record_measurement : Option ConfidenceRanking → GameRecorder → Option GameRecorder
record_measurement none r = some r
record_measurement (some m) r = on_current (λ t. record t { measurement = some m }) r

-- `result_str != "agent"`
abbrev pub ends_turn : GuessResult → Bool
ends_turn GuessResult.agent = false
ends_turn _ = true

abbrev pub add_reveal : RevealRecord → TurnRecord → TurnRecord
add_reveal v t = record t { reveals = t.reveals ++ v ∷ [] }

unfoldable pub reveal_record : ℕ → GuessResult → CardRole → ℤ → Bool → ℕ → Seat → RevealRecord
reveal_record card_id result role tokens ended index seat = record {
  card_id = card_id;
  result_role = role;
  timer_tokens_after = tokens;
  ended_turn = ends_turn result;
  ended_game = ended;
  proposal_index = index;
  acting_seat = seat;
}

unfoldable pub record_reveal : RevealRecord → GameRecorder → Option GameRecorder
record_reveal v r = on_current (add_reveal v) r

unfoldable pub ensure_sudden_death_turn : Seat → GameRecorder → GameRecorder × ℕ
ensure_sudden_death_turn giver r = elim r.sd_turn [
  | some i ↦ (r, i)
  | none ↦ (
    record r {
      turns = r.turns ++ new_turn (length r.turns) sudden_death giver none ∷ [];
      sd_turn = some (length r.turns);
    },
    length r.turns,
  )
]

abbrev pub on_sd_turn : Seat → (TurnRecord → TurnRecord) → GameRecorder → GameRecorder
on_sd_turn giver f r =
    let (r', i) = ensure_sudden_death_turn giver r in record r' { turns = update_turn i f r'.turns }

unfoldable pub record_sd_measurement :
    Option ConfidenceRanking → Seat → Seat → GameRecorder → GameRecorder
record_sd_measurement none giver guesser r = r
record_sd_measurement (some m) giver guesser r =
    on_sd_turn giver
      (λ t. record t { sd_measurement_by_seat = set_seat guesser m t.sd_measurement_by_seat }) r

unfoldable pub record_sd_play_proposal : GuessProposal → Seat → Seat → GameRecorder → GameRecorder
record_sd_play_proposal p giver guesser r =
    on_sd_turn giver (λ t. record t { sd_play_by_seat = set_seat guesser p t.sd_play_by_seat }) r

unfoldable pub record_sd_reveal : Seat → RevealRecord → GameRecorder → GameRecorder
record_sd_reveal giver v r = on_sd_turn giver (add_reveal v) r

unfoldable pub set_outcome : Option GameResult → ℤ → GameRecorder → GameRecorder
set_outcome result tokens r = record r { result = result; timer_tokens_final = some tokens }

unfoldable pub set_error : Option Text → GameRecorder → GameRecorder
set_error code r = record r { error_code = code }
