-- ===== src/Invariants/Silent.antt =====
-- backend/app/core/invariants.py: `check_invariants` on a sound engine.
use codenames_llm_bias.Shared.{◌≡◌, refl, List, [], ◌∷◌, All, subset_of_refl, Text, text_eq, arith}
use codenames_llm_bias.Schemas.Card.{civilian, Seat, other, WordCard, side}
use codenames_llm_bias.Schemas.State.{GameState, GamePhase, giving_clue}
use codenames_llm_bias.Engine.{Engine}
use codenames_llm_bias.Invariants.Check.{
  check_invariants, token_problems, pending_problems, visible_problems, over_problems,
  phase_problems, cards_problems, marker_problems, visible,
}
use codenames_llm_bias.Invariants.Sound.{
  IsSoundCard, HasTokens, MatchesBoard, FitsPhase, IsOver, IsSound,
}

token_problems_nil : (e : Engine) → HasTokens e.state → MatchesBoard e → token_problems e.state ≡ []
unfolding token_problems
token_problems_nil e t m = ground arith

pending_problems_nil : (e : Engine) → MatchesBoard e → pending_problems e.state ≡ []
unfolding pending_problems
pending_problems_nil e m = ground arith

marker_problems_nil :
    (c : WordCard) (gs : List Seat)
    → All (λ g. side c (other g) ≡ civilian) gs
    → marker_problems c gs ≡ []
marker_problems_nil c [] h = refl
marker_problems_nil c (g ∷ gs) h = ground (arith, marker_problems_nil c gs)

cards_problems_nil : (cards : List WordCard) → All IsSoundCard cards → cards_problems cards ≡ []
cards_problems_nil [] h = refl
cards_problems_nil (c ∷ cs) h =
    ground (arith, marker_problems_nil c c.time_marker_by, cards_problems_nil cs)

visible_problems_nil : (e : Engine) → MatchesBoard e → visible_problems e ≡ []
unfolding visible_problems
visible_problems_nil e m = ground (arith, subset_of_refl {A = Text} (visible e.state.board.cards))

over_problems_nil : (s : GameState) → IsOver s → over_problems s ≡ []
unfolding over_problems
over_problems_nil s h = ground arith

phase_problems_nil : (f : GamePhase) (s : GameState) → FitsPhase f s → phase_problems f s ≡ []
unfolding phase_problems
phase_problems_nil giving_clue s h = ground arith
phase_problems_nil _ s h = ground arith

pub check_invariants-nil : (e : Engine) → IsSound e → check_invariants e ≡ []
unfolding check_invariants
check_invariants-nil e h = ground (
  arith,
  token_problems_nil e,
  pending_problems_nil e,
  cards_problems_nil e.state.board.cards,
  visible_problems_nil e,
  over_problems_nil e.state,
  phase_problems_nil e.state.current_phase e.state,
)
