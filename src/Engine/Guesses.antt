-- ===== src/Engine/Guesses.antt =====
-- backend/app/core/engine.py: `resolve_guess` and what it calls, and the way out of sudden death.
use codenames_llm_bias.Shared.{
  ℕ, ◌+◌, Bool, not, ◌&&◌, ◌||◌, Option, none, some, List, [], ◌∷◌, ◌++◌, ◌==◌, nat_eq,
  if◌then◌else◌, true, false, length, contains,
}
use codenames_llm_bias.Shared.Int.{pos, ◌-ℤ◌, ltb_ℤ, int_eq}
use codenames_llm_bias.Schemas.Card.{
  CardRole, agent, assassin, civilian, role_eq, Seat, seat0, seat1, seat_eq, other, WordCard, side,
}
use codenames_llm_bias.Schemas.Board.{get_card_by_id}
use codenames_llm_bias.Schemas.State.{
  GameState, GamePhase, guessing, sudden_death_human, sudden_death_llm, phase_eq, GameResult,
  loss_assassin, victory, victory_sd, loss_stopped_sd, loss_role_sd,
}
use codenames_llm_bias.Validator.{remove_word}
use codenames_llm_bias.Engine.Monad.{
  Engine, EngineError, Action, GuessResult, ok, pure, raise, require, gets, modify, ◌>>=◌, ◌>>◌,
  pending, decrement, guess_out_of_phase, not_guesser, not_human_guess, not_llm_guess,
  no_agents_left, no_such_card, card_covered, card_two_tokens, card_marked, concede_out_of_phase,
  not_conceding_guesser,
}
use codenames_llm_bias.Engine.Turns.{finish_game, switch_roles, spend_check, pass_turn}

-- A write to the card that `get_card_by_id` returned: the first with that id.
abbrev pub update_cards : ℕ → (WordCard → WordCard) → List WordCard → List WordCard
update_cards card_id f [] = []
update_cards card_id f (c ∷ cs) =
    let rest = update_cards card_id f cs in if c.id == card_id then f c ∷ cs else c ∷ rest

abbrev pub update_card : ℕ → (WordCard → WordCard) → GameState → GameState
update_card card_id f s = record s {
  board = record (s.board) { cards = update_cards card_id f s.board.cards };
}

abbrev pub is_sudden_death : GamePhase → Bool
is_sudden_death sudden_death_human = true
is_sudden_death sudden_death_llm = true
is_sudden_death _ = false

-- An agent on both sides.
abbrev pub is_shared : WordCard → Bool
is_shared c =
    c.llm_perspective_role == c.human_perspective_role && c.human_perspective_role == agent

-- The writes of `_reveal_agent` to the card: it is covered, and it has stopped being pending for
-- the guesser, and for the other seat if it is a shared agent.
abbrev pub cover : Seat → WordCard → WordCard
cover guessed_by c = record c {
  revealed = true;
  revealed_by =
      if is_shared c
      then (c.revealed_by ++ guessed_by ∷ []) ++ other guessed_by ∷ []
      else c.revealed_by ++ guessed_by ∷ [];
}

-- The first half of `_reveal_agent`: the card, the visible words and the pending words.
unfoldable pub cover_agent : WordCard → Seat → Engine → Engine
cover_agent card guessed_by e =
    let s = e.state in
    let once = decrement guessed_by s.pending_words in
    record {
      state = record (update_card card.id (cover guessed_by) s) {
        pending_words = if is_shared card then decrement (other guessed_by) once else once;
      };
      clue_validator = remove_word card.text e.clue_validator;
    }

-- The seat 0 to seat 1 handoff.
unfoldable pub hand_off : GameState → GameState
hand_off s =
    if s.current_phase == sudden_death_llm && pending seat0 s == pos 0
    then record s {
      current_phase = sudden_death_human;
      sd_measurement_pending =
          if ltb_ℤ (pos 0) (pending seat1 s) then true else s.sd_measurement_pending;
    }
    else s

-- The second half of `_reveal_agent`: the win, the forced stop and the handoff.
unfoldable pub win : GameState → GameState
win s =
    finish_game (if is_sudden_death s.current_phase then victory_sd else victory)
      (if is_sudden_death s.current_phase then s else spend_check s)

unfoldable pub after_reveal : Seat → Action GuessResult
after_reveal guessed_by e =
    let s = e.state in
    let stopped = (pass_turn guessed_by >> pure GuessResult.agent_turn_end) e in
    if pending seat0 s == pos 0 && pending seat1 s == pos 0
    then (
      ok (if is_sudden_death s.current_phase then GuessResult.victory_sd else GuessResult.victory),
      record e { state = win s },
    )
    else if s.current_phase == guessing && pending guessed_by s == pos 0
    then stopped
    else pure GuessResult.agent (record e { state = hand_off s })

unfoldable pub reveal_agent : WordCard → Seat → Action GuessResult
reveal_agent card guessed_by e = after_reveal guessed_by (cover_agent card guessed_by e)

-- `_finish_game`, with the string that is returned.
unfoldable pub lose : GameResult → GuessResult → Action GuessResult
lose r g e = (ok g, record e { state = finish_game r e.state })

-- The bystander branch: the token on the word, the word out of sight under a second token, the
-- token out of the reserve, and the end of the turn.
unfoldable pub mark : Seat → WordCard → WordCard
mark guesser c = record c { time_marker_by = c.time_marker_by ++ guesser ∷ [] }

unfoldable pub place_token : WordCard → Engine → Engine
place_token card e =
    let s = e.state in
    let marked = mark s.guesser card in
    record {
      state = record (update_card card.id (mark s.guesser) s) {
        timer_tokens = s.timer_tokens -ℤ pos 1;
        bystander_tokens = s.bystander_tokens + 1;
      };
      clue_validator =
          if length marked.time_marker_by == 2
          then remove_word card.text e.clue_validator
          else e.clue_validator;
    }

unfoldable pub hit_bystander : WordCard → Action GuessResult
hit_bystander card e =
    let e' = place_token card e in
    (ok GuessResult.civilian, record e' { state = switch_roles e'.state })

unfoldable pub resolve_guess_normal : WordCard → CardRole → Action GuessResult
resolve_guess_normal card agent e = reveal_agent card e.state.guesser e
resolve_guess_normal card assassin e = lose loss_assassin GuessResult.assassin e
resolve_guess_normal card civilian e = hit_bystander card e

unfoldable pub resolve_guess_sudden_death : WordCard → CardRole → Seat → Action GuessResult
resolve_guess_sudden_death card agent player_id e = reveal_agent card player_id e
resolve_guess_sudden_death card assassin player_id e =
    lose (loss_role_sd assassin) (GuessResult.loss_role_sd assassin) e
resolve_guess_sudden_death card civilian player_id e =
    lose (loss_role_sd civilian) (GuessResult.loss_role_sd civilian) e

-- `raise ... if there is no card`
abbrev pub or_raise : Option WordCard → EngineError → Action WordCard
or_raise none x = raise x
or_raise (some c) x = pure c

-- The guards of `resolve_guess`, which read the state and return the card.
unfoldable pub check_guess : ℕ → Seat → Action WordCard
check_guess card_id player_id = do
  s ← gets Engine.state
  let phase = s.current_phase
  require (phase == guessing || is_sudden_death phase) guess_out_of_phase
  require (not (phase == guessing && not (player_id == s.guesser))) not_guesser
  require (not (phase == sudden_death_human && not (player_id == seat1))) not_human_guess
  require (not (phase == sudden_death_llm && not (player_id == seat0))) not_llm_guess
  require (not (is_sudden_death phase && pending player_id s == pos 0)) no_agents_left
  card ← or_raise (get_card_by_id card_id s.board) no_such_card
  require (not card.revealed) card_covered
  require (not (length card.time_marker_by == 2)) card_two_tokens
  require (not (contains player_id card.time_marker_by)) card_marked
  pure card

-- `guesses_made_this_turn += 1`
unfoldable pub count_guess : Engine → Engine
count_guess e = record e {
  state = record (e.state) { guesses_made_this_turn = e.state.guesses_made_this_turn + 1 };
}

-- The card is resolved by its role on the partner's side.
unfoldable pub resolve_card : WordCard → Seat → Action GuessResult
resolve_card card player_id e =
    let role = side card (other player_id) in
    if is_sudden_death e.state.current_phase
    then resolve_guess_sudden_death card role player_id e
    else resolve_guess_normal card role e

unfoldable pub resolve_guess : ℕ → Seat → Action GuessResult
resolve_guess card_id player_id = do
  card ← check_guess card_id player_id
  modify count_guess
  resolve_card card player_id

-- `_SD_PHASE_BY_SEAT`
abbrev pub sd_phase_of : Seat → GamePhase
sd_phase_of seat0 = sudden_death_llm
sd_phase_of seat1 = sudden_death_human

unfoldable pub concede_sudden_death : Seat → Action GameResult
concede_sudden_death player_id = do
  s ← gets Engine.state
  require (is_sudden_death s.current_phase) concede_out_of_phase
  require (s.current_phase == sd_phase_of player_id) not_conceding_guesser
  modify (λ e. record e { state = finish_game loss_stopped_sd e.state })
  pure loss_stopped_sd
