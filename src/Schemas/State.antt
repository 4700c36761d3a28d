-- ===== src/Schemas/State.antt =====
-- backend/app/models/game_schemas.py: the clue, the rankings and `GameState`. Left out are the
-- opaque payloads that are only passed on (`raw_payload`, `llm_call`).
use codenames_llm_bias.Shared.{ℕ, ◌≡◌, ◌↔◌, Bool, true, false, Option, List, Eq, Text, arith}
use codenames_llm_bias.Shared.Int.{ℤ}
use codenames_llm_bias.Schemas.Card.{CardRole, Seat}
use codenames_llm_bias.Schemas.Board.{Board}

pub data GamePhase : Type 0 where
  giving_clue guessing game_over sudden_death_human sudden_death_llm : GamePhase

abbrev pub phase_beq : GamePhase → GamePhase → Bool
phase_beq giving_clue giving_clue = true
phase_beq guessing guessing = true
phase_beq game_over game_over = true
phase_beq sudden_death_human sudden_death_human = true
phase_beq sudden_death_llm sudden_death_llm = true
phase_beq _ _ = false

pub phase_beq_iff : (a b : GamePhase) → (phase_beq a b ≡ true) ↔ (a ≡ b)
phase_beq_iff a b = ground arith

instance abbrev pub phase_eq : Eq GamePhase
phase_eq = record { is_same = phase_beq; decides = phase_beq_iff }

-- The result strings. `loss_role_sd r` is f"loss_{r.value}_sd".
pub data GameResult : Type 0 where
  victory loss_assassin victory_sd loss_stopped_sd : GameResult
  loss_role_sd : CardRole → GameResult

pub record ResolvedTarget : Type 0 where
  pub word : Text
  pub card_id : Option ℕ
  pub giver_role : Option CardRole
  pub revealed_at_clue : Option Bool

-- A finite double of [0, 1] is mantissa / 2 ^ exponent.
pub record Confidence : Type 0 where
  pub mantissa : ℕ
  pub exponent : ℕ

pub record RankedCard : Type 0 where
  pub word : Text
  pub confidence : Confidence

pub record ConfidenceRanking : Type 0 where
  pub reasoning : Option Text
  pub rankings : List RankedCard

pub record ClueEntry : Type 0 where
  pub clue : Text
  pub count : ℤ
  pub clue_giver : Seat
  pub turn_number : ℕ
  pub targets : List Text
  pub targets_resolved : List ResolvedTarget
  pub confidence_ranking : Option ConfidenceRanking
  pub invalid_reason : Option Text

-- The dict of rankings by seat, which has two keys at most.
pub record SuddenDeathEntry : Type 0 where
  pub ranking0 : Option ConfidenceRanking
  pub ranking1 : Option ConfidenceRanking

-- The two entries of the list `pending_words`.
pub record Pending : Type 0 where
  pub pending0 : ℤ
  pub pending1 : ℤ

pub record GameState : Type 0 where
  pub game_id : Text
  pub board : Board
  pub current_phase : GamePhase
  pub clue_giver : Seat
  pub guesser : Seat
  pub turn_number : ℕ
  pub current_clue : Option ClueEntry
  pub guesses_made_this_turn : ℕ
  pub timer_tokens : ℤ
  pub bystander_tokens : ℕ
  pub check_tokens : ℕ
  pub penalty_tokens : ℕ
  pub pending_words : Pending
  pub clue_history : List ClueEntry
  pub sudden_death : Option SuddenDeathEntry
  pub sd_measurement_pending : Bool
  pub is_game_over : Bool
  pub result : Option GameResult
