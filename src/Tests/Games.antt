-- ===== src/Tests/Games.antt =====
-- Games on the example board.
use codenames_llm_bias.Shared.{
  ◌≡◌, ◌↔◌, ◌⊎◌, refl, true, none, some, List, [], ◌∷◌, codes, all_of, lower, strip,
}
use codenames_llm_bias.Shared.Int.{pos}
use codenames_llm_bias.Schemas.Card.{seat0, seat1, WordCard, is_guessable_by}
use codenames_llm_bias.Schemas.Board.{get_card_by_id}
use codenames_llm_bias.Schemas.State.{loss_assassin}
use codenames_llm_bias.Validator
use codenames_llm_bias.Validator.{IsValidClue, remove_word}
use codenames_llm_bias.Engine.{
  Engine, EngineError, GuessResult, ok, err, new_engine, receive_clue, resolve_guess, pass_turn,
  concede_sudden_death, attach_confidence_ranking, attach_sudden_death_ranking, switch_roles,
  finish_game,
}
use codenames_llm_bias.Engine.Turns.{next_turn, start_sudden_death}
use codenames_llm_bias.Engine.Guesses.{
  check_guess, resolve_card, count_guess, resolve_guess_normal, resolve_guess_sudden_death,
  reveal_agent, after_reveal, cover_agent, hand_off, hit_bystander, lose, mark, place_token, win,
}
use codenames_llm_bias.Engine.Clues.{penalize, new_clue, resolve_targets}
use codenames_llm_bias.Invariants.Check.{
  check_invariants, is_won, token_problems, pending_problems, visible_problems, over_problems,
  phase_problems,
}
use codenames_llm_bias.Invariants.Sound.{IsSound}
use codenames_llm_bias.Invariants.Start.{new_engine-IsSound}
use codenames_llm_bias.Play.{Call, clue, guess, play, perform}
use codenames_llm_bias.Play.Keeps.{check_invariants-play, play-IsSound}
use codenames_llm_bias.Play.Left.{resolve_guess-Moves, Moves}
use codenames_llm_bias.Play.Outcomes.{
  is_won-play, play-SameEnd, resolve_guess_iff, is_found, SameEnd, IsTurnOf,
}
use codenames_llm_bias.Play.Ends.{Ends, receive_clue-Ends}
use codenames_llm_bias.Tests.Boards.{board, board-validate, board-IsFresh}

abbrev lenient : IsValidClue
lenient v c = none

-- A clue, a hit, a hit on a shared agent, a bystander, a clue from the other seat, an assassin.
abbrev calls : List Call
calls =
    clue lenient (codes " fruit ") (pos 2) seat0 []
    ∷ guess 4 seat1
    ∷ guess 0 seat1
    ∷ guess 20 seat1
    ∷ clue lenient (codes "metal") (pos 1) seat1 []
    ∷ guess 3 seat0
    ∷ []

abbrev start : Engine
start = new_engine board seat0 (codes "game")

-- What a run of the engine computes with.
runs : List Call → Engine → Engine
unfolding play perform resolve_guess check_guess receive_clue new_engine strip lower penalize
    get_card_by_id resolve_card count_guess resolve_guess_normal reveal_agent after_reveal
    cover_agent hand_off hit_bystander switch_roles attach_confidence_ranking
    attach_sudden_death_ranking new_clue resolve_targets concede_sudden_death lose mark place_token
    resolve_guess_sudden_death win finish_game next_turn pass_turn start_sudden_death Validator.new
    remove_word check_invariants token_problems pending_problems visible_problems over_problems
    phase_problems is_guessable_by
runs = play

loses :
    let s = (runs calls start).state in
    (s.result ≡ some loss_assassin)
    × (s.timer_tokens ≡ pos 8)
    × (s.pending_words.pending1 ≡ pos 7)
    × (check_invariants (runs calls start) ≡ [])
unfolding runs
loses = (refl, refl, refl, refl)

start-IsSound : IsSound start
start-IsSound = new_engine-IsSound board seat0 (codes "game") board-validate board-IsFresh

-- The state before the first guess.
abbrev guessing_state : Engine
guessing_state = play (clue lenient (codes "fruit") (pos 2) seat0 [] ∷ []) start

guessing_state-IsSound : IsSound guessing_state
guessing_state-IsSound = play-IsSound _ start start-IsSound

check_invariants-play_example : check_invariants (play calls start) ≡ []
check_invariants-play_example =
    check_invariants-play calls board seat0 (codes "game") board-validate board-IsFresh

is_won-play_example :
    is_won (play calls start).state.result ≡ all_of is_found (play calls start).state.board.cards
is_won-play_example = is_won-play calls board seat0 (codes "game") board-validate board-IsFresh

play-SameEnd_example : SameEnd (play calls start) (play calls (play calls start))
unfolding runs
play-SameEnd_example = play-SameEnd calls (play calls start) refl

resolve_guess-Moves_example :
    ((x : EngineError) × (resolve_guess 4 seat1 guessing_state ≡ (err x, guessing_state)))
    ⊎ Moves guessing_state.state (resolve_guess 4 seat1 guessing_state)
resolve_guess-Moves_example = resolve_guess-Moves 4 seat1 guessing_state guessing_state-IsSound

resolve_guess_iff_example :
    ((g : GuessResult) × ((resolve_guess 4 seat1 guessing_state).0 ≡ ok g)) ↔ (
      (c : WordCard) × IsTurnOf seat1 guessing_state.state
      × (get_card_by_id 4 guessing_state.state.board ≡ some c)
      × (is_guessable_by c seat1 ≡ true))
resolve_guess_iff_example = resolve_guess_iff 4 seat1 guessing_state guessing_state-IsSound

receive_clue-Ends_example : Ends start (receive_clue lenient (codes "fruit") (pos 2) seat0 [] start)
receive_clue-Ends_example =
    receive_clue-Ends lenient (codes "fruit") (pos 2) seat0 [] start start-IsSound
