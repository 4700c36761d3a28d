-- ===== src/Writer.antt =====
-- backend/app/db/writer.py: what storing a game adds to the tables, and what deleting one takes from them.
-- A table is the list of its rows, and one sequence gives the ids of all tables. Call records, seats and
-- the columns that are only copied are left out.
use codenames_llm_bias.Shared.{
  ℕ, zero, suc, ◌-◌, Bool, true, false, not, ◌&&◌, ◌||◌, Option, none, some, List, [], ◌∷◌, ◌++◌,
  map, if◌then◌else◌, ◌==◌, nat_eq, text_eq, leb, Text, codes, lower, length, filter, count_if,
  get_item, set_item,
}
use codenames_llm_bias.Shared.Int.{ℤ}
use codenames_llm_bias.Schemas.Card.{CardRole, Seat, seat0, seat1}
use codenames_llm_bias.Schemas.State.{
  GameResult, ConfidenceRanking, RankedCard, ResolvedTarget, Confidence,
}
use codenames_llm_bias.Recorder.{
  GuessProposal, ClueRecord, RevealRecord, TurnPhase, normal, sudden_death, BySeat, TurnRecord,
  GameRecorder,
}
pub mod Turns
pub mod Store
pub mod Grows
pub mod Over
pub mod Flush
pub mod Keyed
pub mod Rows
pub mod Revealed
pub mod Open
pub mod Cascade
pub mod Parents
pub mod Undone
pub mod Table
pub mod Writable
pub mod Drops
pub mod Refines

pub record GameRow : Type 0 where
  pub id : Text
  pub run_id : Option Text
  pub board_id : Text
  pub game_status : Text
  pub result : Option GameResult
  pub timer_tokens_final : Option ℤ
  pub error_code : Option Text
  pub error_message : Option Text

pub record TurnRow : Type 0 where
  pub id : ℕ
  pub game_id : Text
  pub turn_number : ℕ
  pub clue_giver_seat : Seat
  pub phase : TurnPhase

pub record ClueRow : Type 0 where
  pub id : ℕ
  pub turn_id : ℕ
  pub clue_word : Text
  pub count : ℤ
  pub targets_raw : List Text
  pub invalid_reason : Option Text

pub record TargetRow : Type 0 where
  pub clue_id : ℕ
  pub position : ℕ
  pub target : ResolvedTarget

pub data ProposalKind : Type 0 where
  play measurement : ProposalKind

pub record ProposalRow : Type 0 where
  pub id : ℕ
  pub turn_id : ℕ
  pub guesser_seat : Seat
  pub kind : ProposalKind

pub record ItemRow : Type 0 where
  pub id : ℕ
  pub guess_proposal_id : ℕ
  pub position : ℕ
  pub word : Text
  pub confidence : Confidence
  pub resolved_card_id : Option ℕ
  pub reveal_event_id : Option ℕ

pub record RevealRow : Type 0 where
  pub id : ℕ
  pub turn_id : ℕ
  pub position_in_turn : ℕ
  pub card_id : ℕ
  pub acting_seat : Seat
  pub result_role : CardRole
  pub ended_turn : Bool
  pub ended_game : Bool
  pub timer_tokens_after : ℤ

-- `word_cards` has the board, the text and the id of each card.
pub record Database : Type 0 where
  pub next_id : ℕ
  pub boards : List Text
  pub word_cards : List (Text × (Text × ℕ))
  pub runs : List Text
  pub games : List GameRow
  pub turns : List TurnRow
  pub clues : List ClueRow
  pub clue_targets : List TargetRow
  pub proposals : List ProposalRow
  pub items : List ItemRow
  pub reveals : List RevealRow

unfoldable pub truncated : Option Text → ℕ → Option Text
truncated none limit = none
truncated (some text) limit =
    if leb (length text) limit then some text else some (cut (limit - 1) text ++ (8230 ∷ []))
  where
    cut : ℕ → Text → Text
    cut zero t = []
    cut (suc n) [] = []
    cut (suc n) (c ∷ t) = c ∷ cut n t

-- `word_map`: a later card of the same word takes the place of an earlier one.
unfoldable pub word_map : Text → List (Text × (Text × ℕ)) → List (Text × ℕ) → List (Text × ℕ)
word_map board_id [] d = d
word_map board_id ((b, card) ∷ rows) d =
    word_map board_id rows (if b == board_id then set_item (lower card.0) card.1 d else d)
