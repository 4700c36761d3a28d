-- ===== src/Game/Asks.antt =====
-- backend/app/core/llm_service.py: asking the model for a clue, a guess or a ranking in a sound game.
use codenames_llm_bias.Shared.{◌≡◌, refl, Bool, true, false, ◌==◌, arith}
use codenames_llm_bias.Schemas.Card.{Seat, seat_eq}
use codenames_llm_bias.Schemas.State.{GameState, giving_clue, guessing, phase_eq, ConfidenceRanking}
use codenames_llm_bias.Engine.{Engine, attach_confidence_ranking, attach_sudden_death_ranking}
use codenames_llm_bias.Engine.Guesses.{sd_phase_of}
use codenames_llm_bias.Invariants.Sound.{IsSound}
use codenames_llm_bias.Invariants.Calls.{
  attach_confidence_ranking-IsSound, attach_sudden_death_ranking-IsSound,
}
use codenames_llm_bias.Play.Left.{dispatches_left}
use codenames_llm_bias.Game.Table.{
  Failure, llm_failure, value_failure, other_failure, raised_by, value_error, Act, ◌>>=◌, ◌>>◌,
  gets,
}
use codenames_llm_bias.Game.Service.{
  Model, Answer, answered, failed, require, answer, has_clue, build_clue_proposal,
  build_guess_proposal, build_confidence_ranking, propose_clue, propose_guess, propose_guess_sd,
  measure_and_attach, measure_and_attach_sd,
}
use codenames_llm_bias.Game.Onward.{
  is_expected, IsSteady, >>=-IsSteady, pure-IsSteady, raise-IsSteady, or_raise-IsSteady,
  gets-IsSteady, IsForward, engine_call-IsSteady,
}

require-IsSteady : (b : Bool) → IsSteady (require b)
require-IsSteady true = pure-IsSteady tt
require-IsSteady false = raise-IsSteady value_error refl

pub raised_by_expected : (x : Failure) → is_expected (raised_by x) ≡ true
raised_by_expected (llm_failure code) = refl
raised_by_expected value_failure = refl
raised_by_expected other_failure = refl

answer-IsSteady : {A : Type 0} (a : Answer A) → IsSteady (answer a)
answer-IsSteady (answered a) = pure-IsSteady a
answer-IsSteady (failed x) = raise-IsSteady (raised_by x) (raised_by_expected x)

require->>-IsSteady : {B : Type 0} (b : Bool) (k : Act B) → IsSteady k → IsSteady (require b >> k)
require->>-IsSteady b k h = >>=-IsSteady (require b) (λ _. k) (require-IsSteady b) (λ _. h)

answer->>=-IsSteady :
    {A B : Type 0} (a : Answer A) (f : A → Act B)
    → ((x : A) → IsSteady (f x))
    → IsSteady (answer a >>= f)
answer->>=-IsSteady a f h = >>=-IsSteady (answer a) f (answer-IsSteady a) h

pub state->>=-IsSteady :
    {A : Type 0} (k : GameState → Act A)
    → ((s : GameState) → IsSteady (k s))
    → IsSteady (gets (λ t. t.engine.state) >>= k)
state->>=-IsSteady k h =
    >>=-IsSteady (gets (λ t. t.engine.state)) k (gets-IsSteady (λ t. t.engine.state)) h

ranked-IsForward :
    (r : ConfidenceRanking) (e : Engine) → IsSound e → IsForward e (attach_confidence_ranking r e)
unfolding attach_confidence_ranking dispatches_left
ranked-IsForward r e h =
    (attach_confidence_ranking-IsSound r e h, ground arith, ground arith, ground arith)

ranked_sd-IsForward :
    (r : ConfidenceRanking) (p : Seat) (e : Engine)
    → IsSound e
    → IsForward e (attach_sudden_death_ranking r p e)
unfolding attach_sudden_death_ranking dispatches_left
ranked_sd-IsForward r p e h =
    (attach_sudden_death_ranking-IsSound r p e h, ground arith, ground arith, ground arith)

module _ (m : Model) (p : Seat) where
  pub propose_clue-IsSteady : IsSteady (propose_clue m p)
  unfolding propose_clue
  propose_clue-IsSteady = state->>=-IsSteady _ (λ s.
      require->>-IsSteady (s.current_phase == giving_clue) _ (
        require->>-IsSteady (s.clue_giver == p) _ (
          answer->>=-IsSteady (m.clue s p) _
            (λ a. or_raise-IsSteady (build_clue_proposal a) value_error refl))))

  pub propose_guess-IsSteady : IsSteady (propose_guess m p)
  unfolding propose_guess
  propose_guess-IsSteady = state->>=-IsSteady _ (λ s.
      require->>-IsSteady (s.current_phase == guessing) _ (
        require->>-IsSteady (s.guesser == p) _ (
          require->>-IsSteady (has_clue s) _ (
            answer->>=-IsSteady (m.guess s p) _
              (λ a. or_raise-IsSteady (build_guess_proposal a) value_error refl)))))

  pub propose_guess_sd-IsSteady : IsSteady (propose_guess_sd m p)
  unfolding propose_guess_sd
  propose_guess_sd-IsSteady = state->>=-IsSteady _ (λ s.
      require->>-IsSteady (s.current_phase == sd_phase_of p) _ (
        answer->>=-IsSteady (m.guess_sd s p) _
          (λ a. or_raise-IsSteady (build_guess_proposal a) value_error refl)))

  pub measure_and_attach-IsSteady : IsSteady (measure_and_attach m p)
  unfolding measure_and_attach
  measure_and_attach-IsSteady = state->>=-IsSteady _ (λ s.
      require->>-IsSteady (s.current_phase == guessing) _ (
        require->>-IsSteady (s.guesser == p) _ (
          require->>-IsSteady (has_clue s) _ (
            answer->>=-IsSteady (m.ranking s p) _
              (λ a. engine_call-IsSteady _ (ranked-IsForward (build_confidence_ranking a)))))))

  pub measure_and_attach_sd-IsSteady : IsSteady (measure_and_attach_sd m p)
  unfolding measure_and_attach_sd
  measure_and_attach_sd-IsSteady = state->>=-IsSteady _ (λ s.
      require->>-IsSteady (s.current_phase == sd_phase_of p) _ (
        answer->>=-IsSteady (m.ranking_sd s p) _
          (λ a. engine_call-IsSteady _ (ranked_sd-IsForward (build_confidence_ranking a) p))))
