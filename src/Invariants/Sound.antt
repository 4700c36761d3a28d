-- ===== src/Invariants/Sound.antt =====
-- What holds of an engine between two calls: the rules that `check_invariants` reads, in the form
-- in which the calls keep them.
use codenames_llm_bias.Shared.{
  ◌+◌, ◌≤◌, ◌<◌, ◌≡◌, ◌≢◌, ◌⊎◌, true, false, none, map, text_eq, All, length, has_no_space,
  is_distinct,
}
use codenames_llm_bias.Shared.Int.{pos, pos_part, neg_part}
use codenames_llm_bias.Schemas.Card.{
  agent, civilian, seat_eq, seat0, seat1, other, WordCard, side, key,
}
use codenames_llm_bias.Schemas.State.{
  GameState, GamePhase, giving_clue, guessing, game_over, sudden_death_human, sudden_death_llm,
}
use codenames_llm_bias.Engine.{Engine, pending}
use codenames_llm_bias.Invariants.Check.{
  pending_on_board, tokens_on, visible, is_game_result, is_won, nothing_pending,
}

pub record IsSoundCard (c : WordCard) : Type 0 where
  pub spaceless : has_no_space c.text ≡ true
  pub one_each : is_distinct c.time_marker_by ≡ true
  pub two_at_most : length c.time_marker_by ≤ 2
  pub on_bystanders : All (λ g. side c (other g) ≡ civilian) c.time_marker_by
  pub on_agents : c.revealed ≡ true → (side c seat0 ≡ agent) ⊎ (side c seat1 ≡ agent)

-- The tokens in the reserve and those spent are nine.
pub record HasTokens (s : GameState) : Type 0 where
  pub reserve : neg_part s.timer_tokens ≡ 0
  pub nine : pos_part s.timer_tokens + s.bystander_tokens + s.check_tokens + s.penalty_tokens ≡ 9

-- The counters and the visible words are those of the board.
pub record MatchesBoard (e : Engine) : Type 0 where
  pub on_words : tokens_on e.state.board.cards ≡ e.state.bystander_tokens
  pub pending0 : e.state.pending_words.pending0 ≡ pos (pending_on_board seat0 e.state.board.cards)
  pub pending1 : e.state.pending_words.pending1 ≡ pos (pending_on_board seat1 e.state.board.cards)
  pub sound_cards : All IsSoundCard e.state.board.cards
  pub distinct_words : is_distinct (map key e.state.board.cards) ≡ true
  pub visible_words : e.clue_validator.visible_words ≡ visible e.state.board.cards

-- A turn can be played: a token is left, the seats differ, and the guesser has a word to find.
abbrev pub HasTurn : GameState → Type 0
HasTurn s =
    (0 < pos_part s.timer_tokens) × (s.guesser ≡ other s.clue_giver) × (pending s.guesser s ≢ pos 0)

abbrev pub FitsPhase : GamePhase → GameState → Type 0
FitsPhase giving_clue s = HasTurn s
FitsPhase guessing s = HasTurn s
FitsPhase game_over s = ⊥
FitsPhase sudden_death_llm s = (pos_part s.timer_tokens ≡ 0) × (s.pending_words.pending0 ≢ pos 0)
FitsPhase sudden_death_human s =
    (pos_part s.timer_tokens ≡ 0)
    × (s.pending_words.pending0 ≡ pos 0)
    × (s.pending_words.pending1 ≢ pos 0)

abbrev pub IsOver : GameState → Type 0
IsOver s =
    (s.is_game_over ≡ true)
    × (s.current_phase ≡ game_over)
    × (is_game_result s.result ≡ true)
    × (is_won s.result ≡ nothing_pending s)

abbrev pub IsRunning : GameState → Type 0
IsRunning s = (s.is_game_over ≡ false) × (s.result ≡ none) × FitsPhase s.current_phase s

pub record IsSound (e : Engine) : Type 0 where
  pub tokens : HasTokens e.state
  pub on_board : MatchesBoard e
  pub progress : IsRunning e.state ⊎ IsOver e.state
