-- ===== src/Game/Service.antt =====
-- backend/app/core/llm_service.py: what `LLMService` asks of a model and makes of its answer, and
-- the proposals of backend/app/models/llm_schemas.py. The prompts and the client are the parameter
-- `Model`: any answer, or any error, for each state and seat (which fix the seed of the call).
use codenames_llm_bias.Shared.{
  Bool, true, false, not, ◌&&◌, Option, none, some, List, map, filter, all_of, ◌==◌, nat_eq, length,
  Text, strip, leb, ◌^◌, if◌then◌else◌,
}
use codenames_llm_bias.Shared.Int.{ℤ, pos, ltb_ℤ}
use codenames_llm_bias.Schemas.Card.{Seat, seat_eq}
use codenames_llm_bias.Schemas.State.{
  GameState, giving_clue, guessing, phase_eq, Confidence, RankedCard, ConfidenceRanking,
}
use codenames_llm_bias.Engine.{attach_confidence_ranking, attach_sudden_death_ranking}
use codenames_llm_bias.Engine.Guesses.{sd_phase_of}
use codenames_llm_bias.Recorder.{GuessProposal}
use codenames_llm_bias.Game.Table.{
  Failure, raised_by, value_error, Act, pure, raise, ◌>>=◌, ◌>>◌, gets, or_raise, engine_call,
}

-- The formats that an answer is validated against.
pub record ClueFormat : Type 0 where
  pub clue : Text
  pub count : ℤ
  pub targets : List Text

pub record ProposalFormat : Type 0 where
  pub word : Text
  pub confidence : Confidence

pub record GuessFormat : Type 0 where
  pub proposals : List ProposalFormat

pub record RankingFormat : Type 0 where
  pub reasoning : Text
  pub rankings : List RankedCard

pub data Degenerate : Type 0 where
  blank_clue non_positive_count empty_proposals blank_word : Degenerate

abbrev pub is_blank : Text → Bool
is_blank t = length (strip t) == 0

-- `degenerate_reason` of the two formats that have one.
unfoldable pub clue_degenerate_reason : ClueFormat → Option Degenerate
clue_degenerate_reason a =
    if is_blank a.clue
    then some blank_clue
    else if ltb_ℤ a.count (pos 1)
    then some non_positive_count
    else none

unfoldable pub guess_degenerate_reason : GuessFormat → Option Degenerate
guess_degenerate_reason a =
    if length a.proposals == 0
    then some empty_proposals
    else if not (all_of (λ p. not (is_blank (ProposalFormat.word p))) a.proposals)
    then some blank_word
    else none

-- `ClueProposal`, without the fields that are only stored.
pub record ClueProposal : Type 0 where
  pub clue : Text
  pub count : ℤ
  pub targets : List Text

-- The validation of `ClueProposal` and of `GuessProposal`.
unfoldable pub is_valid_clue_proposal : ClueProposal → Bool
is_valid_clue_proposal p = not (ltb_ℤ p.count (pos 1)) && not (is_blank p.clue)

-- 0.0 <= score <= 1.0
abbrev pub is_score : Confidence → Bool
is_score c = leb c.mantissa (2 ^ c.exponent)

unfoldable pub is_valid_guess_proposal : GuessProposal → Bool
is_valid_guess_proposal p =
    leb 1 (length p.proposals)
    && (leb 1 (length p.confidence)
        && (all_of (λ w. not (is_blank w)) p.proposals
            && ((length p.proposals == length p.confidence) && all_of is_score p.confidence)))

-- `_build_clue_proposal` and `_build_guess_proposal`; a ValidationError is a ValueError.
unfoldable pub build_clue_proposal : ClueFormat → Option ClueProposal
build_clue_proposal a =
    let p : ClueProposal = record { clue = strip a.clue; count = a.count; targets = a.targets } in
    if is_valid_clue_proposal p then some p else none

unfoldable pub build_guess_proposal : GuessFormat → Option GuessProposal
build_guess_proposal a =
    let p : GuessProposal = record {
      proposals = map (λ x. strip (ProposalFormat.word x)) a.proposals;
      confidence = map ProposalFormat.confidence a.proposals;
    } in
    if is_valid_guess_proposal p then some p else none

-- `_build_confidence_ranking`
unfoldable pub build_confidence_ranking : RankingFormat → ConfidenceRanking
build_confidence_ranking a =
    let stripped = λ (r : RankedCard). record r { word = strip r.word } in
    record {
      reasoning = some (strip a.reasoning);
      rankings = map stripped (filter (λ r. not (is_blank (RankedCard.word r))) a.rankings);
    }

-- A model behind its client: an answer in the format that was asked for, or an error.
pub data Answer (A : Type 0) : Type 0 where
  answered : A → Answer A
  failed : Failure → Answer A

pub record Model : Type 0 where
  pub clue : GameState → Seat → Answer ClueFormat
  pub guess : GameState → Seat → Answer GuessFormat
  pub guess_sd : GameState → Seat → Answer GuessFormat
  pub ranking : GameState → Seat → Answer RankingFormat
  pub ranking_sd : GameState → Seat → Answer RankingFormat

abbrev pub require : Bool → Act (Unit {0})
require true = pure tt
require false = raise value_error

abbrev pub answer : {A : Type 0} → Answer A → Act A
answer (answered a) = pure a
answer (failed x) = raise (raised_by x)

-- The clue of this turn is there.
abbrev pub has_clue : GameState → Bool
has_clue s = elim s.current_clue [ none ↦ false | some c ↦ c.turn_number == s.turn_number ]

module _ (m : Model) where
  unfoldable pub propose_clue : Seat → Act ClueProposal
  propose_clue p = do
    s ← gets (λ t. t.engine.state)
    require (s.current_phase == giving_clue)
    require (s.clue_giver == p)
    a ← answer (m.clue s p)
    or_raise (build_clue_proposal a) value_error

  unfoldable pub propose_guess : Seat → Act GuessProposal
  propose_guess p = do
    s ← gets (λ t. t.engine.state)
    require (s.current_phase == guessing)
    require (s.guesser == p)
    require (has_clue s)
    a ← answer (m.guess s p)
    or_raise (build_guess_proposal a) value_error

  unfoldable pub propose_guess_sd : Seat → Act GuessProposal
  propose_guess_sd p = do
    s ← gets (λ t. t.engine.state)
    require (s.current_phase == sd_phase_of p)
    a ← answer (m.guess_sd s p)
    or_raise (build_guess_proposal a) value_error

  -- `measure_and_attach_confidence_ranking` and its sudden-death form, with the elicitation that
  -- each begins with.
  unfoldable pub measure_and_attach : Seat → Act (Unit {0})
  measure_and_attach p = do
    s ← gets (λ t. t.engine.state)
    require (s.current_phase == guessing)
    require (s.guesser == p)
    require (has_clue s)
    a ← answer (m.ranking s p)
    engine_call (attach_confidence_ranking (build_confidence_ranking a))

  unfoldable pub measure_and_attach_sd : Seat → Act (Unit {0})
  measure_and_attach_sd p = do
    s ← gets (λ t. t.engine.state)
    require (s.current_phase == sd_phase_of p)
    a ← answer (m.ranking_sd s p)
    engine_call (attach_sudden_death_ranking (build_confidence_ranking a) p)
