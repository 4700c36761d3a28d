-- ===== src/Play/Outcomes.antt =====
-- When a game is won, what a finished game keeps, and which guesses are taken.
use codenames_llm_bias.Shared.{
  ℕ, ◌≡◌, ◌↔◌, ◌⊎◌, inl, inr, refl, Bool, true, not, none, some, List, [], ◌∷◌, Text, All, ◌&&◌,
  ◌||◌, ◌==◌, nat_eq, all_of, arith,
}
use codenames_llm_bias.Shared.Int.{int_eq}
use codenames_llm_bias.Schemas.Card.{
  agent, role_eq, Seat, seat0, seat1, seat_eq, WordCard, side, is_guessable_by,
}
use codenames_llm_bias.Schemas.Board.{Board, validate, get_card_by_id}
use codenames_llm_bias.Schemas.State.{
  GameState, guessing, game_over, sudden_death_llm, sudden_death_human, phase_eq,
}
use codenames_llm_bias.Engine.{
  Engine, GuessResult, Result, ok, err, new_engine, receive_clue, resolve_guess, pass_turn,
  concede_sudden_death, attach_confidence_ranking, attach_sudden_death_ranking,
}
use codenames_llm_bias.Engine.Guesses.{check_guess}
use codenames_llm_bias.Invariants.Check.{pending_on_board, is_won}
use codenames_llm_bias.Invariants.Sound.{IsSound}
use codenames_llm_bias.Invariants.Start.{IsFresh, new_engine-IsSound}
use codenames_llm_bias.Invariants.Guesses.{
  IsAllowed, check_guess-IsAllowed, resolve_guess-allowed, resolve_guess_lem,
}
use codenames_llm_bias.Play.{Call, clue, guess, pass, concede, rank, rank_sd, perform, play}
use codenames_llm_bias.Play.Keeps.{play-IsSound}
use codenames_llm_bias.Play.Left.{Moves, resolve_card-Moves}

-- An agent card lies on the word, if it is green on a side.
abbrev pub is_found : WordCard → Bool
is_found c = c.revealed || not (side c seat0 == agent || side c seat1 == agent)

all_found :
    (cards : List WordCard)
    → ((pending_on_board seat0 cards == 0) && (pending_on_board seat1 cards == 0))
      ≡ all_of is_found cards
all_found [] = refl
all_found (c ∷ cs) = ground (arith, all_found cs)

IsSound-won : (e : Engine) → IsSound e → is_won e.state.result ≡ all_of is_found e.state.board.cards
IsSound-won e h = ground (arith, all_found e.state.board.cards)

-- After any calls on a game begun on a valid board with nothing on its cards, the result is a
-- victory exactly when every word that is green on a side is covered by an agent card.
pub is_won-play :
    (cs : List Call) (b : Board) (start_player : Seat) (game_id : Text)
    → validate b ≡ none
    → All IsFresh b.cards
    → let s = (play cs (new_engine b start_player game_id)).state in
      is_won s.result ≡ all_of is_found s.board.cards
is_won-play cs b p g v f =
    IsSound-won _ (play-IsSound cs (new_engine b p g) (new_engine-IsSound b p g v f))

-- What no call changes once the game is over.
abbrev pub SameEnd : Engine → Engine → Type 0
SameEnd e e' =
    (e'.state.result ≡ e.state.result)
    × (e'.state.board ≡ e.state.board)
    × (e'.state.timer_tokens ≡ e.state.timer_tokens)
    × (e'.state.pending_words ≡ e.state.pending_words)
    × (e'.clue_validator ≡ e.clue_validator)
    × (e'.state.current_phase ≡ game_over)

perform-SameEnd :
    (c : Call) (e : Engine) → e.state.current_phase ≡ game_over → SameEnd e (perform c e)
unfolding perform receive_clue pass_turn concede_sudden_death attach_confidence_ranking
    attach_sudden_death_ranking
perform-SameEnd (clue v w n p ts) e h = ground arith
perform-SameEnd (guess id p) e h = elim (resolve_guess_lem id p e) [
  | inl (x, q) ↦ rw (q, perform) (ground arith)
  | inr (c, a, q) ↦ absurd (ground (arith, a.phase))
]
perform-SameEnd (pass p) e h = ground arith
perform-SameEnd (concede p) e h = ground arith
perform-SameEnd (rank r) e h = ground arith
perform-SameEnd (rank_sd r p) e h = ground arith

-- A finished game stays as it ended, whatever is called: the result, the board, the reserve, the
-- pending words and the visible words.
pub play-SameEnd :
    (cs : List Call) (e : Engine) → e.state.current_phase ≡ game_over → SameEnd e (play cs e)
unfolding play
play-SameEnd [] e h = ground arith
play-SameEnd (c ∷ cs) e h =
    let k = perform-SameEnd c e h in ground (arith, k, play-SameEnd cs (perform c e) k.5)

-- It is this seat's turn to guess.
abbrev pub IsTurnOf : Seat → GameState → Type 0
IsTurnOf p s =
    ((s.current_phase ≡ guessing) × (p ≡ s.guesser))
    ⊎ (((s.current_phase ≡ sudden_death_llm) × (p ≡ seat0))
        ⊎ ((s.current_phase ≡ sudden_death_human) × (p ≡ seat1)))

check_guess-accepts :
    (card_id : ℕ) (p : Seat) (c : WordCard) (e : Engine)
    → IsSound e
    → IsTurnOf p e.state
    → get_card_by_id card_id e.state.board ≡ some c
    → is_guessable_by c p ≡ true
    → (check_guess card_id p e).0 ≡ ok c
unfolding check_guess is_guessable_by
check_guess-accepts card_id p c e h t f g = ground arith

allowed_guessable :
    (card_id : ℕ) (p : Seat) (c : WordCard) (e : Engine)
    → IsAllowed card_id p c e
    → is_guessable_by c p ≡ true
unfolding is_guessable_by
allowed_guessable card_id p c e a = ground (arith, a.revealed, a.two, a.own)

Moves-ok :
    (s : GameState) (x : Result GuessResult × Engine) → Moves s x → (g : GuessResult) × (x.0 ≡ ok g)
Moves-ok s (ok g, e) m = (g, refl)
Moves-ok s (err x, e) m = absurd m

-- In a sound state a guess returns a result exactly when it is the seat's turn to guess and the id
-- is that of a card for which `is_guessable_by` holds.
pub resolve_guess_iff :
    (card_id : ℕ) (p : Seat) (e : Engine)
    → IsSound e
    → ((g : GuessResult) × ((resolve_guess card_id p e).0 ≡ ok g)) ↔ (
        (c : WordCard) × IsTurnOf p e.state
        × (get_card_by_id card_id e.state.board ≡ some c)
        × (is_guessable_by c p ≡ true))
resolve_guess_iff card_id p e h = (
  λ r. elim (resolve_guess_lem card_id p e) [
    | inl (x, q) ↦ absurd (ground (arith, r.1))
    | inr (c, a, q) ↦ (c, a.phase, a.found, allowed_guessable card_id p c e a)
  ],
  λ r. accepted r.0 (check_guess-accepts card_id p r.0 e h r.1 r.2 r.3),
)
  where
    accepted :
        (c : WordCard)
        → (check_guess card_id p e).0 ≡ ok c
        → (g : GuessResult) × ((resolve_guess card_id p e).0 ≡ ok g)
    accepted c q = rw (resolve_guess-allowed card_id p c e q) (
        Moves-ok e.state _
          (resolve_card-Moves card_id p c e (check_guess-IsAllowed card_id p c e q) h))
