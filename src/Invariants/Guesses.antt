-- ===== src/Invariants/Guesses.antt =====
-- backend/app/core/engine.py: `resolve_guess` and the invariant of the engine.
use codenames_llm_bias.Shared.{
  ℕ, ◌≡◌, ◌⊎◌, inl, inr, refl, sym, ◌∙◌, true, false, List, arith, some, ◌==◌, nat_eq, length,
  contains, [], ◌∷◌,
}
use codenames_llm_bias.Shared.Int.{int_eq}
use codenames_llm_bias.Schemas.Card.{
  CardRole, agent, assassin, civilian, role_eq, Seat, seat0, seat1, seat_eq, other, WordCard, side,
}
use codenames_llm_bias.Schemas.Board.{get_card_by_id, find_card}
use codenames_llm_bias.Schemas.State.{
  guessing, sudden_death_llm, sudden_death_human, GameResult, phase_eq,
}
use codenames_llm_bias.Engine.{Engine, EngineError, GuessResult, Result, ok, err, resolve_guess}
use codenames_llm_bias.Engine.Guesses.{
  lose, check_guess, count_guess, resolve_card, resolve_guess_normal, resolve_guess_sudden_death,
}
use codenames_llm_bias.Invariants.Check.{is_won, is_game_result}
use codenames_llm_bias.Invariants.Sound.{IsRunning, IsSound}
use codenames_llm_bias.Invariants.Books.{IsInPlay}
use codenames_llm_bias.Invariants.Calls.{finish_game-IsSound, IsRunning-pending}
use codenames_llm_bias.Invariants.Reveals.{IsGuessing, reveal_agent-IsSound, hit_bystander-IsSound}

-- The card that is found by an id has that id.
find_card-id :
    (card_id : ℕ) (c : WordCard) (cards : List WordCard)
    → find_card (λ x. x.id == card_id) cards ≡ some c
    → c.id ≡ card_id
find_card-id card_id c [] h = ground arith
find_card-id card_id c (x ∷ xs) h = ground (arith, find_card-id card_id c xs)

get_card_by_id-found :
    (card_id : ℕ) (c : WordCard) (e : Engine)
    → get_card_by_id card_id e.state.board ≡ some c
    → find_card (λ x. x.id == c.id) e.state.board.cards ≡ some c
unfolding get_card_by_id
get_card_by_id-found card_id c e h = simp (find_card-id card_id c e.state.board.cards h) h

-- What the guards of `resolve_guess` let through.
pub record IsAllowed (card_id : ℕ) (p : Seat) (c : WordCard) (e : Engine) : Type 0 where
  pub found : get_card_by_id card_id e.state.board ≡ some c
  pub revealed : c.revealed ≡ false
  pub two : (length c.time_marker_by == 2) ≡ false
  pub own : contains p c.time_marker_by ≡ false
  pub phase :
      ((e.state.current_phase ≡ guessing) × (p ≡ e.state.guesser))
      ⊎ (((e.state.current_phase ≡ sudden_death_llm) × (p ≡ seat0))
          ⊎ ((e.state.current_phase ≡ sudden_death_human) × (p ≡ seat1)))

pub check_guess-IsAllowed :
    (card_id : ℕ) (p : Seat) (c : WordCard) (e : Engine)
    → (check_guess card_id p e).0 ≡ ok c
    → IsAllowed card_id p c e
unfolding check_guess
check_guess-IsAllowed card_id p c e h = ground arith

pub check_guess-unchanged : (card_id : ℕ) (p : Seat) (e : Engine) → (check_guess card_id p e).1 ≡ e
unfolding check_guess
check_guess-unchanged card_id p e = ground arith

-- A counted guess at a card in play, resolved by its role on the partner's side.
module _ (c : WordCard) (p : Seat) (e : Engine) (i : IsInPlay c e) (g : IsGuessing p e.state)
    (h : IsSound e) where
  lose-IsSound :
      (r : GameResult) (o : GuessResult)
      → is_game_result (some r) ≡ true
      → is_won (some r) ≡ false
      → IsSound (lose r o e).1
  unfolding lose
  lose-IsSound r o q w =
      let runs : IsRunning e.state = ground arith in
      finish_game-IsSound r e h q (w ∙ sym (IsRunning-pending e runs))

  sudden_death-IsSound :
      (r : CardRole) → side c (other p) ≡ r → IsSound (resolve_guess_sudden_death c r p e).1
  unfolding resolve_guess_sudden_death
  sudden_death-IsSound agent a = reveal_agent-IsSound c p e i a g h.tokens h.on_board
  sudden_death-IsSound assassin a = lose-IsSound _ _ refl refl
  sudden_death-IsSound civilian a = lose-IsSound _ _ refl refl

  normal-IsSound :
      (r : CardRole)
      → p ≡ e.state.guesser
      → e.state.current_phase ≡ guessing
      → contains e.state.guesser c.time_marker_by ≡ false
      → side c (other e.state.guesser) ≡ r
      → IsSound (resolve_guess_normal c r e).1
  unfolding resolve_guess_normal
  normal-IsSound agent q f k a =
      reveal_agent-IsSound c e.state.guesser e i a (ground arith) h.tokens h.on_board
  normal-IsSound assassin q f k a = lose-IsSound _ _ refl refl
  normal-IsSound civilian q f k a =
      hit_bystander-IsSound c e i k a (ground arith) (ground arith) h.tokens h.on_board

-- The card that the guards let through is in play, and the guess is counted.
module _ (card_id : ℕ) (p : Seat) (c : WordCard) (e : Engine) (a : IsAllowed card_id p c e)
    (h : IsSound e) where
  pub allowed-IsInPlay : IsInPlay c (count_guess e)
  unfolding count_guess
  allowed-IsInPlay = record {
    found = get_card_by_id-found card_id c e a.found;
    uncovered = ground (arith, a.revealed, a.two);
  }

  pub allowed-IsGuessing : IsGuessing p (count_guess e).state
  unfolding count_guess
  allowed-IsGuessing = ground arith

  pub counted-IsSound : IsSound (count_guess e)
  unfolding count_guess
  counted-IsSound = ground arith

  resolve_card-IsSound : IsSound (resolve_card c p (count_guess e)).1
  unfolding resolve_card count_guess
  resolve_card-IsSound =
      let i = allowed-IsInPlay in
      let g = allowed-IsGuessing in
      let s = counted-IsSound in
      ground (
        arith,
        sudden_death-IsSound c p (count_guess e) i g s (side c (other p)) refl,
        normal-IsSound c p (count_guess e) i g s (side c (other p)),
      )

-- A guess that is allowed resolves its card; any other raises and changes nothing.
pub resolve_guess_lem :
    (card_id : ℕ) (p : Seat) (e : Engine)
    → ((x : EngineError) × (resolve_guess card_id p e ≡ (err x, e)))
      ⊎ ((c : WordCard) × IsAllowed card_id p c e
          × (resolve_guess card_id p e ≡ resolve_card c p (count_guess e)))
unfolding resolve_guess
resolve_guess_lem card_id p e = by_guards (check_guess card_id p e).0 refl
  where
    by_guards :
        (r : Result WordCard)
        → (check_guess card_id p e).0 ≡ r
        → ((x : EngineError) × (resolve_guess card_id p e ≡ (err x, e)))
          ⊎ ((c : WordCard) × IsAllowed card_id p c e
              × (resolve_guess card_id p e ≡ resolve_card c p (count_guess e)))
    by_guards (err x) q = inl (x, ground (arith, check_guess-unchanged card_id p e))
    by_guards (ok c) q = inr (
      c,
      check_guess-IsAllowed card_id p c e q,
      ground (arith, check_guess-unchanged card_id p e),
    )

pub resolve_guess-IsSound :
    (card_id : ℕ) (p : Seat) (e : Engine) → IsSound e → IsSound (resolve_guess card_id p e).1
resolve_guess-IsSound card_id p e h = elim (resolve_guess_lem card_id p e) [
  | inl (x, q) ↦ rw q h
  | inr (c, a, q) ↦ rw q (resolve_card-IsSound card_id p c e a h)
]

pub resolve_guess-allowed :
    (card_id : ℕ) (p : Seat) (c : WordCard) (e : Engine)
    → (check_guess card_id p e).0 ≡ ok c
    → resolve_guess card_id p e ≡ resolve_card c p (count_guess e)
unfolding resolve_guess
resolve_guess-allowed card_id p c e h = ground (arith, check_guess-unchanged card_id p e)
