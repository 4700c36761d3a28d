-- ===== src/Play/Keeps.antt =====
-- Sequences of calls against the invariant of the engine and `check_invariants`.
use codenames_llm_bias.Shared.{◌≡◌, none, List, [], ◌∷◌, Text, All}
use codenames_llm_bias.Schemas.Card.{Seat}
use codenames_llm_bias.Schemas.Board.{Board, validate}
use codenames_llm_bias.Engine.{Engine, new_engine}
use codenames_llm_bias.Invariants.Check.{check_invariants}
use codenames_llm_bias.Invariants.Sound.{IsSound}
use codenames_llm_bias.Invariants.Calls.{
  pass_turn-IsSound, concede_sudden_death-IsSound, receive_clue-IsSound,
  attach_confidence_ranking-IsSound, attach_sudden_death_ranking-IsSound,
}
use codenames_llm_bias.Invariants.Guesses.{resolve_guess-IsSound}
use codenames_llm_bias.Invariants.Silent.{check_invariants-nil}
use codenames_llm_bias.Invariants.Start.{IsFresh, new_engine-IsSound}
use codenames_llm_bias.Play.{Call, clue, guess, pass, concede, rank, rank_sd, perform, play}

pub perform-IsSound : (c : Call) (e : Engine) → IsSound e → IsSound (perform c e)
unfolding perform
perform-IsSound (clue v w n p ts) e h = receive_clue-IsSound v w n p ts e h
perform-IsSound (guess id p) e h = resolve_guess-IsSound id p e h
perform-IsSound (pass p) e h = pass_turn-IsSound p e h
perform-IsSound (concede p) e h = concede_sudden_death-IsSound p e h
perform-IsSound (rank r) e h = attach_confidence_ranking-IsSound r e h
perform-IsSound (rank_sd r p) e h = attach_sudden_death_ranking-IsSound r p e h

pub play-IsSound : (cs : List Call) (e : Engine) → IsSound e → IsSound (play cs e)
unfolding play
play-IsSound [] e h = h
play-IsSound (c ∷ cs) e h = play-IsSound cs (perform c e) (perform-IsSound c e h)

-- On a board that passes its validators, with nothing lying on its cards, `check_invariants` reports
-- no problem after any sequence of calls on the engine, with any arguments, refused calls included.
pub check_invariants-play :
    (cs : List Call) (b : Board) (start_player : Seat) (game_id : Text)
    → validate b ≡ none
    → All IsFresh b.cards
    → check_invariants (play cs (new_engine b start_player game_id)) ≡ []
check_invariants-play cs b p g v f =
    check_invariants-nil _ (play-IsSound cs (new_engine b p g) (new_engine-IsSound b p g v f))
