-- ===== src/Play/Left.antt =====
-- How many dispatches a game can still take, before and after a guess.
use codenames_llm_bias.Shared.{
  ℕ, ◌+◌, ◌*◌, ◌≤◌, ◌<◌, ◌≡◌, ◌≢◌, ◌⊎◌, inl, inr, refl, false, some, Text, Bool-cases, subst, ◌&&◌,
  ◌==◌, Option, none, arith,
}
use codenames_llm_bias.Shared.Int.{pos, pos_part, int_eq, ◌-ℤ◌}
use codenames_llm_bias.Schemas.Card.{
  CardRole, agent, assassin, civilian, Seat, seat_eq, other, WordCard, side,
}
use codenames_llm_bias.Schemas.State.{
  GameState, GamePhase, giving_clue, guessing, game_over, sudden_death_human, sudden_death_llm,
  phase_eq, GameResult,
}
use codenames_llm_bias.Engine.{
  Engine, EngineError, GuessResult, Result, ok, err, pure, ◌>>◌, pending, switch_roles, pass_turn,
  resolve_guess, finish_game,
}
use codenames_llm_bias.Engine.Turns.{next_turn, start_sudden_death, spend_check}
use codenames_llm_bias.Engine.Clues.{penalize}
use codenames_llm_bias.Engine.Guesses.{
  hand_off, after_reveal, win, reveal_agent, cover_agent, place_token, hit_bystander, lose,
  count_guess, resolve_card, resolve_guess_normal, resolve_guess_sudden_death, is_sudden_death,
}
use codenames_llm_bias.Invariants.Check.{nothing_pending}
use codenames_llm_bias.Invariants.Sound.{IsSound}
use codenames_llm_bias.Invariants.Reveals.{IsGuessing, stop_lem, cover_agent-IsGuessing}
use codenames_llm_bias.Invariants.Guesses.{
  IsAllowed, allowed-IsInPlay, allowed-IsGuessing, counted-IsSound, resolve_guess_lem,
}

-- Two dispatches for each token in the reserve, one for each seat in sudden death, and one more for
-- the step into each.
pub left : GamePhase → ℕ → ℕ
left giving_clue t = 2 * t + 3
left guessing t = 2 * t + 2
left sudden_death_llm t = 2
left sudden_death_human t = 1
left game_over t = 0

unfoldable pub dispatches_left : GameState → ℕ
unfolding left
dispatches_left s = left s.current_phase (pos_part s.timer_tokens)

-- A new turn costs no more than the clue phase with the reserve that is left.
pub switch_roles_left :
    (s : GameState) → dispatches_left (switch_roles s) ≤ 2 * pos_part s.timer_tokens + 3
unfolding dispatches_left switch_roles next_turn start_sudden_death
switch_roles_left s = ground arith

pub switch_roles_turn : (s : GameState) → (switch_roles s).turn_number ≡ s.turn_number + 1
unfolding switch_roles next_turn start_sudden_death
switch_roles_turn s = ground arith

-- A new turn is not a guessing phase.
pub switch_roles_phase : (s : GameState) → (switch_roles s).current_phase ≢ guessing
unfolding switch_roles next_turn start_sudden_death
switch_roles_phase s = ground arith

pub penalize_left :
    (r : Option Text) (s : GameState)
    → s.current_phase ≡ guessing
    → dispatches_left (penalize r s) ≤ 2 * pos_part s.timer_tokens + 2
unfolding penalize dispatches_left
penalize_left none s h = ground arith
penalize_left (some r) s h =
    let t = record s {
      timer_tokens = s.timer_tokens -ℤ pos 1;
      penalty_tokens = s.penalty_tokens + 1;
    } in
    ground (arith, switch_roles_left t)

-- What a guess does to the course of the game: a hit that leaves the phase as it was, or the end of
-- this phase, with fewer dispatches left. In normal play a plain hit never ends the turn.
abbrev pub Moves : GameState → Result GuessResult × Engine → Type 0
Moves s (ok g, e) =
    ((e.state.current_phase ≡ s.current_phase)
      × (g ≡ GuessResult.agent)
      × (dispatches_left e.state ≡ dispatches_left s)
      × (s.turn_number ≤ e.state.turn_number))
    ⊎ ((e.state.current_phase ≢ s.current_phase)
        × (dispatches_left e.state < dispatches_left s)
        × ((s.current_phase ≢ guessing) ⊎ (g ≢ GuessResult.agent))
        × (s.turn_number ≤ e.state.turn_number))
Moves s (err x, e) = ⊥

module _ (p : Seat) (e : Engine) (g : IsGuessing p e.state) where
  win-Moves :
      (o : GuessResult)
      → o ≢ GuessResult.agent
      → Moves e.state (ok o, record e { state = win e.state })
  unfolding win finish_game dispatches_left
  win-Moves o n = inr (ground arith, ground arith, inr n, ground arith)

  hand_off-Moves :
      ((e.state.current_phase == guessing) && (pending p e.state == pos 0)) ≡ false
      → Moves e.state (ok GuessResult.agent, record e { state = hand_off e.state })
  unfolding hand_off dispatches_left
  hand_off-Moves h = ground arith

  stop-Moves :
      e.state.current_phase ≡ guessing
      → Moves e.state ((pass_turn p >> pure GuessResult.agent_turn_end) e)
  unfolding dispatches_left
  stop-Moves h =
      let s = spend_check e.state in
      rw (stop_lem p e g h) (
        inr (
          ground (arith, switch_roles_phase s),
          ground (arith, switch_roles_left s),
          inr (ground arith),
          omega (arith, switch_roles_turn s),
        ))

  after_reveal-Moves : Moves e.state (after_reveal p e)
  unfolding after_reveal
  after_reveal-Moves = elim (Bool-cases (nothing_pending e.state)) [
    | inl n ↦ rw n (win-Moves _ (ground arith))
    | inr n ↦
        rw n
          (elim (Bool-cases ((e.state.current_phase == guessing) && (pending p e.state == pos 0))) [
            | inl h ↦ rw h (stop-Moves (ground arith))
            | inr h ↦ rw h (hand_off-Moves h)
          ])
  ]

-- A covered word leaves the phase and the reserve alone.
cover_agent_left :
    (c : WordCard) (p : Seat) (e : Engine)
    → (dispatches_left (cover_agent c p e).state ≡ dispatches_left e.state)
      × ((cover_agent c p e).state.current_phase ≡ e.state.current_phase)
      × ((cover_agent c p e).state.turn_number ≡ e.state.turn_number)
unfolding cover_agent dispatches_left
cover_agent_left c p e = (refl, refl, refl)

Moves-of_same :
    (s s' : GameState) (x : Result GuessResult × Engine)
    → dispatches_left s' ≡ dispatches_left s
    → s'.current_phase ≡ s.current_phase
    → s'.turn_number ≡ s.turn_number
    → Moves s' x
    → Moves s x
Moves-of_same s s' (ok g, e) l f n m = ground arith
Moves-of_same s s' (err x, e) l f n m = m

module _ (c : WordCard) (p : Seat) (e : Engine) (g : IsGuessing p e.state) where
  lose-Moves :
      (r : GameResult) (o : GuessResult) → o ≢ GuessResult.agent → Moves e.state (lose r o e)
  unfolding lose finish_game dispatches_left
  lose-Moves r o n = inr (ground arith, ground arith, inr n, ground arith)

  hit_bystander-Moves : e.state.current_phase ≡ guessing → Moves e.state (hit_bystander c e)
  unfolding hit_bystander place_token dispatches_left
  hit_bystander-Moves h =
      let s = (place_token c e).state in
      inr (
        ground (arith, switch_roles_phase s),
        ground (arith, switch_roles_left s),
        inr (ground arith),
        omega (arith, switch_roles_turn s),
      )

  reveal_agent-Moves : IsGuessing p (cover_agent c p e).state → Moves e.state (reveal_agent c p e)
  unfolding reveal_agent
  reveal_agent-Moves h =
      let (l, f, n) = cover_agent_left c p e in
      Moves-of_same e.state (cover_agent c p e).state _ l f n
        (after_reveal-Moves p (cover_agent c p e) h)

  sudden_death-Moves :
      (r : CardRole)
      → IsGuessing p (cover_agent c p e).state
      → Moves e.state (resolve_guess_sudden_death c r p e)
  unfolding resolve_guess_sudden_death
  sudden_death-Moves agent h = reveal_agent-Moves h
  sudden_death-Moves assassin h = lose-Moves _ _ (ground arith)
  sudden_death-Moves civilian h = lose-Moves _ _ (ground arith)

  normal-Moves :
      (r : CardRole)
      → IsGuessing p (cover_agent c p e).state
      → e.state.current_phase ≡ guessing
      → p ≡ e.state.guesser
      → Moves e.state (resolve_guess_normal c r e)
  unfolding resolve_guess_normal
  normal-Moves agent h f q =
      subst (λ x. Moves e.state (reveal_agent c x e)) q (reveal_agent-Moves h)
  normal-Moves assassin h f q = lose-Moves _ _ (ground arith)
  normal-Moves civilian h f q = hit_bystander-Moves f

count_guess_left :
    (e : Engine)
    → (dispatches_left (count_guess e).state ≡ dispatches_left e.state)
      × ((count_guess e).state.current_phase ≡ e.state.current_phase)
      × ((count_guess e).state.turn_number ≡ e.state.turn_number)
unfolding count_guess dispatches_left
count_guess_left e = (refl, refl, refl)

-- In a phase that is no sudden death, the seat that may guess is the guesser.
guesses_in_turn :
    (p : Seat) (s : GameState)
    → IsGuessing p s
    → is_sudden_death s.current_phase ≡ false
    → (s.current_phase ≡ guessing) × (p ≡ s.guesser)
guesses_in_turn p s g d = ground arith

pub resolve_card-Moves :
    (card_id : ℕ) (p : Seat) (c : WordCard) (e : Engine)
    → IsAllowed card_id p c e
    → IsSound e
    → Moves e.state (resolve_card c p (count_guess e))
unfolding resolve_card
resolve_card-Moves card_id p c e a h =
    let t = count_guess e in
    let g = allowed-IsGuessing card_id p c e a h in
    let covered =
      cover_agent-IsGuessing c p t (allowed-IsInPlay card_id p c e a h)
        (counted-IsSound card_id p c e a h).on_board g in
    let (l, f, n) = count_guess_left e in
    Moves-of_same e.state t.state _ l f n
      (elim (Bool-cases (is_sudden_death t.state.current_phase)) [
        | inl d ↦ rw d (sudden_death-Moves c p t g (side c (other p)) covered)
        | inr d ↦ rw d (
            normal-Moves c p t g (side c (other p)) covered (guesses_in_turn p t.state g d).0
              (guesses_in_turn p t.state g d).1)
      ])

-- In a sound state, a guess that returns moves the game on in one of two ways: a hit after which
-- the same phase goes on, or the end of the phase with fewer dispatches left, which in normal play
-- is no plain hit. A guess that raises leaves the engine as it was.
pub resolve_guess-Moves :
    (card_id : ℕ) (p : Seat) (e : Engine)
    → IsSound e
    → ((x : EngineError) × (resolve_guess card_id p e ≡ (err x, e)))
      ⊎ Moves e.state (resolve_guess card_id p e)
resolve_guess-Moves card_id p e h = elim (resolve_guess_lem card_id p e) [
  | inl refused ↦ inl refused
  | inr (c, a, q) ↦ inr (rw q (resolve_card-Moves card_id p c e a h))
]
