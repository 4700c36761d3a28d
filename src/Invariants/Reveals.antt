-- ===== src/Invariants/Reveals.antt =====
-- backend/app/core/engine.py: a revealed word and the invariant of the engine.
use codenames_llm_bias.Shared.{
  none, ◌≤◌, ◌<◌, ◌≡◌, inl, inr, true, false, arith, ◌==◌, nat_eq, contains, ◌&&◌, Bool-cases,
}
use codenames_llm_bias.Shared.Int.{pos, pos_part, int_eq}
use codenames_llm_bias.Schemas.Card.{
  agent, civilian, role_eq, Seat, seat0, seat1, seat_eq, other, WordCard, side,
}
use codenames_llm_bias.Schemas.State.{
  GameState, GamePhase, guessing, sudden_death_llm, sudden_death_human, phase_eq,
}
use codenames_llm_bias.Engine.{
  Engine, GuessResult, ok, pure, ◌>>◌, pending, switch_roles, pass_turn, finish_game,
}
use codenames_llm_bias.Engine.Turns.{spend_check}
use codenames_llm_bias.Engine.Guesses.{
  hand_off, after_reveal, win, reveal_agent, cover, cover_agent, place_token, hit_bystander,
}
use codenames_llm_bias.Invariants.Check.{nothing_pending, is_pending}
use codenames_llm_bias.Invariants.Cards
use codenames_llm_bias.Invariants.Sound.{HasTokens, MatchesBoard, IsSound}
use codenames_llm_bias.Invariants.Books.{
  IsInPlay, cover_agent-MatchesBoard, place_token-MatchesBoard,
}
use codenames_llm_bias.Invariants.Turns.{CanSwitch, switch_roles-IsSound}

-- The phase lets this seat guess, and a turn or the sudden death is under way.
abbrev pub MayGuess : Seat → GamePhase → GameState → Type 0
MayGuess p guessing s =
    (0 < pos_part s.timer_tokens) × (s.guesser ≡ other s.clue_giver) × (p ≡ s.guesser)
MayGuess p sudden_death_llm s = (pos_part s.timer_tokens ≡ 0) × (p ≡ seat0)
MayGuess p sudden_death_human s =
    (pos_part s.timer_tokens ≡ 0) × (p ≡ seat1) × (s.pending_words.pending0 ≡ pos 0)
MayGuess p _ s = ⊥

-- The state while a guess is resolved: it is counted, and the game has not ended.
pub record IsGuessing (p : Seat) (s : GameState) : Type 0 where
  pub running : s.is_game_over ≡ false
  pub unfinished : s.result ≡ none
  pub counted : 1 ≤ s.guesses_made_this_turn
  pub seat : MayGuess p s.current_phase s

-- The forced stop of `_reveal_agent` never raises.
abbrev pub stopped : Engine → Engine
stopped e = record e { state = switch_roles (spend_check e.state) }

pub stop_lem :
    (p : Seat) (e : Engine)
    → IsGuessing p e.state
    → e.state.current_phase ≡ guessing
    → (pass_turn p >> pure GuessResult.agent_turn_end) e
      ≡ (ok GuessResult.agent_turn_end, stopped e)
unfolding pass_turn
stop_lem p e g h = ground arith

module _ (p : Seat) (e : Engine) (g : IsGuessing p e.state) (t : HasTokens e.state)
    (m : MatchesBoard e) where
  win-IsSound : nothing_pending e.state ≡ true → IsSound (record e { state = win e.state })
  unfolding win finish_game
  win-IsSound n = ground arith

  stop-IsSound :
      e.state.current_phase ≡ guessing → nothing_pending e.state ≡ false → IsSound (stopped e)
  stop-IsSound h n =
      switch_roles-IsSound (record e { state = spend_check e.state }) (ground arith) (ground arith)
        (ground arith)

  hand_off-IsSound :
      nothing_pending e.state ≡ false
      → ((e.state.current_phase == guessing) && (pending p e.state == pos 0)) ≡ false
      → IsSound (record e { state = hand_off e.state })
  unfolding hand_off
  hand_off-IsSound n h = ground arith

  pub after_reveal-IsSound : IsSound (after_reveal p e).1
  unfolding after_reveal
  after_reveal-IsSound = elim (Bool-cases (nothing_pending e.state)) [
    | inl n ↦ rw n (win-IsSound n)
    | inr n ↦
        rw n
          (elim (Bool-cases ((e.state.current_phase == guessing) && (pending p e.state == pos 0))) [
            | inl h ↦
                let guesses : e.state.current_phase ≡ guessing = ground arith in
                rw h (rw (stop_lem p e g guesses) (stop-IsSound guesses n))
            | inr h ↦ rw h (hand_off-IsSound n h)
          ])
  ]

module _ (c : WordCard) (p : Seat) (e : Engine) where
  -- A covered word leaves the game as it was, but for the board and the counts.
  pub cover_agent-IsGuessing :
      IsInPlay c e → MatchesBoard e → IsGuessing p e.state → IsGuessing p (cover_agent c p e).state
  unfolding cover_agent
  cover_agent-IsGuessing i m g = ground (
    arith,
    Cards.count_if-update_cards c.id (cover p) c (is_pending seat0) e.state.board.cards i.found,
  )

  cover_agent-HasTokens : HasTokens e.state → HasTokens (cover_agent c p e).state
  unfolding cover_agent
  cover_agent-HasTokens t = ground arith

  pub reveal_agent-IsSound :
      IsInPlay c e
      → side c (other p) ≡ agent
      → IsGuessing p e.state
      → HasTokens e.state
      → MatchesBoard e
      → IsSound (reveal_agent c p e).1
  unfolding reveal_agent
  reveal_agent-IsSound i a g t m =
      after_reveal-IsSound p (cover_agent c p e) (cover_agent-IsGuessing i m g)
        (cover_agent-HasTokens t) (cover_agent-MatchesBoard c p e i a m)

module _ (c : WordCard) (e : Engine) where
  place_token-HasTokens :
      HasTokens e.state → 0 < pos_part e.state.timer_tokens → HasTokens (place_token c e).state
  unfolding place_token
  place_token-HasTokens t h = ground arith

  place_token-CanSwitch : CanSwitch e.state → CanSwitch (place_token c e).state
  unfolding place_token
  place_token-CanSwitch h = ground arith

  pub hit_bystander-IsSound :
      IsInPlay c e
      → contains e.state.guesser c.time_marker_by ≡ false
      → side c (other e.state.guesser) ≡ civilian
      → 0 < pos_part e.state.timer_tokens
      → CanSwitch e.state
      → HasTokens e.state
      → MatchesBoard e
      → IsSound (hit_bystander c e).1
  unfolding hit_bystander
  hit_bystander-IsSound i k b r s t m =
      switch_roles-IsSound (place_token c e) (place_token-CanSwitch s) (place_token-HasTokens t r)
        (place_token-MatchesBoard c e i k b m)
