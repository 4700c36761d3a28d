-- ===== src/Invariants/Check.antt =====
-- backend/app/core/invariants.py: `check_invariants`, with one problem for each message.
use codenames_llm_bias.Shared.{
  ℕ, ◌+◌, Bool, not, ◌&&◌, ◌||◌, Option, none, some, List, [], ◌∷◌, ◌++◌, map, ◌==◌, nat_eq,
  text_eq, if◌then◌else◌, true, false, length, Text, filter, count_if, is_distinct, subset_of, ltb,
}
use codenames_llm_bias.Shared.Int.{pos, pos_part, neg_part, sub_ℕ, leb_ℤ, int_eq}
use codenames_llm_bias.Schemas.Card.{
  agent, civilian, role_eq, Seat, seat0, seat1, seat_eq, other, WordCard, side, key, is_covered,
}
use codenames_llm_bias.Schemas.State.{
  GameState, GamePhase, game_over, sudden_death_human, sudden_death_llm, phase_eq, GameResult,
  victory, victory_sd, loss_role_sd,
}
use codenames_llm_bias.Engine.{Engine, pending}

pub data Problem : Type 0 where
  tokens_do_not_add_up reserve_out_of_range tokens_on_words pending_differs : Problem
  repeated_marker : Text → Problem
  marker_not_civilian : Text → Seat → Problem
  covered_not_green : Text → Problem
  visible_words_differ unknown_result won_differs_from_pending : Problem
  reserve_empty same_seat_twice guesser_without_pending : Problem
  sd_llm_without_pending sd_human_pending : Problem

-- `if b: problems.append(p)`
abbrev pub report : Bool → Problem → List Problem
report true p = p ∷ []
report false p = []

-- A word that seat p still has to find: green on the other seat's side, and not covered.
abbrev pub is_pending : Seat → WordCard → Bool
is_pending p c = side c (other p) == agent && not c.revealed

-- `_pending_on_board`
abbrev pub pending_on_board : Seat → List WordCard → ℕ
pending_on_board p cards = count_if (is_pending p) cards

-- `sum(len(c.time_marker_by) for c in cards)`
abbrev pub tokens_on : List WordCard → ℕ
tokens_on [] = 0
tokens_on (c ∷ cs) = length c.time_marker_by + tokens_on cs

abbrev pub marker_problems : WordCard → List Seat → List Problem
marker_problems c [] = []
marker_problems c (g ∷ gs) =
    report (not (side c (other g) == civilian)) (marker_not_civilian c.text g)
    ++ marker_problems c gs

abbrev pub card_problems : WordCard → List Problem
card_problems c =
    report (ltb 2 (length c.time_marker_by) || not (is_distinct c.time_marker_by))
      (repeated_marker c.text)
    ++ marker_problems c c.time_marker_by
    ++ report (c.revealed && not (side c seat0 == agent || side c seat1 == agent))
        (covered_not_green c.text)

abbrev pub cards_problems : List WordCard → List Problem
cards_problems [] = []
cards_problems (c ∷ cs) = card_problems c ++ cards_problems cs

abbrev pub visible : List WordCard → List Text
visible cards = map key (filter (λ c. not (is_covered c)) cards)

-- GAME_RESULTS
abbrev pub is_game_result : Option GameResult → Bool
is_game_result none = false
is_game_result (some (loss_role_sd agent)) = false
is_game_result (some _) = true

abbrev pub is_won : Option GameResult → Bool
is_won (some victory) = true
is_won (some victory_sd) = true
is_won _ = false

abbrev pub nothing_pending : GameState → Bool
nothing_pending s = s.pending_words.pending0 == pos 0 && s.pending_words.pending1 == pos 0

abbrev xor : Bool → Bool → Bool
xor true b = not b
xor false b = b

unfoldable pub token_problems : GameState → List Problem
token_problems s =
    let spent = s.bystander_tokens + s.check_tokens + s.penalty_tokens in
    report (not (sub_ℕ (pos_part s.timer_tokens + spent) (neg_part s.timer_tokens) == pos 9))
      tokens_do_not_add_up
    ++ report (not (leb_ℤ (pos 0) s.timer_tokens && leb_ℤ s.timer_tokens (pos 9)))
        reserve_out_of_range
    ++ report (not (tokens_on s.board.cards == s.bystander_tokens)) tokens_on_words

unfoldable pub pending_problems : GameState → List Problem
pending_problems s =
    report
      (not (
        s.pending_words.pending0 == pos (pending_on_board seat0 s.board.cards)
        && s.pending_words.pending1 == pos (pending_on_board seat1 s.board.cards)))
      pending_differs

unfoldable pub visible_problems : Engine → List Problem
visible_problems e =
    let on_board = visible e.state.board.cards in
    let validator = e.clue_validator.visible_words in
    report (not (subset_of on_board validator && subset_of validator on_board)) visible_words_differ

unfoldable pub over_problems : GameState → List Problem
over_problems s =
    report (not (is_game_result s.result)) unknown_result
    ++ report (xor (is_won s.result) (nothing_pending s)) won_differs_from_pending

-- The rules of a game that goes on, by its phase.
unfoldable pub phase_problems : GamePhase → GameState → List Problem
phase_problems sudden_death_llm s =
    report (s.pending_words.pending0 == pos 0) sd_llm_without_pending
phase_problems sudden_death_human s =
    report (s.pending_words.pending1 == pos 0 || not (s.pending_words.pending0 == pos 0))
      sd_human_pending
phase_problems game_over s = report (s.timer_tokens == pos 0) reserve_empty
phase_problems _ s =
    report (s.timer_tokens == pos 0) reserve_empty
    ++ report (s.clue_giver == s.guesser) same_seat_twice
    ++ report (pending s.guesser s == pos 0) guesser_without_pending

unfoldable pub check_invariants : Engine → List Problem
check_invariants e =
    let s = e.state in
    token_problems s
    ++ pending_problems s
    ++ cards_problems s.board.cards
    ++ visible_problems e
    ++ (if s.is_game_over then over_problems s else phase_problems s.current_phase s)
