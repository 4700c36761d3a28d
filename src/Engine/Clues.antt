-- ===== src/Engine/Clues.antt =====
-- backend/app/core/engine.py: the start of a game, `receive_clue` and the rankings.
use codenames_llm_bias.Shared.{
  ◌+◌, Bool, not, ◌||◌, Option, none, some, List, [], map, ◌==◌, nat_eq, text_eq, if◌then◌else◌,
  false, length, Text, lower, strip,
}
use codenames_llm_bias.Shared.Int.{ℤ, pos, ◌-ℤ◌, ltb_ℤ, int_eq}
use codenames_llm_bias.Schemas.Card.{Seat, seat0, seat1, seat_eq, other, WordCard, side, key}
use codenames_llm_bias.Schemas.Board.{Board, find_card}
use codenames_llm_bias.Schemas.State.{
  GameState, giving_clue, guessing, phase_eq, ClueEntry, ResolvedTarget, ConfidenceRanking,
  SuddenDeathEntry,
}
use codenames_llm_bias.Validator
use codenames_llm_bias.Validator.{ClueValidator, IsValidClue}
use codenames_llm_bias.Engine.Monad.{
  Engine, Action, ok, pure, raise, require, gets, modify, ◌>>=◌, ◌>>◌, clue_out_of_phase,
  not_clue_giver, malformed_clue, no_current_clue,
}
use codenames_llm_bias.Engine.Turns.{switch_roles}

-- `__init__`; `start_player` is what the generator chose of [0, 1].
unfoldable pub new_engine : Board → Seat → Text → Engine
new_engine board start_player game_id = record {
  state = record {
    game_id = game_id;
    board = board;
    current_phase = giving_clue;
    clue_giver = start_player;
    guesser = other start_player;
    turn_number = 1;
    current_clue = none;
    guesses_made_this_turn = 0;
    timer_tokens = pos 9;
    bystander_tokens = 0;
    check_tokens = 0;
    penalty_tokens = 0;
    pending_words = record { pending0 = pos 9; pending1 = pos 9 };
    clue_history = [];
    sudden_death = none;
    sd_measurement_pending = false;
    is_game_over = false;
    result = none;
  };
  clue_validator = Validator.new board.cards;
}

resolve_target : List WordCard → Seat → Text → ResolvedTarget
resolve_target cards player_id word = elim (find_card (λ c. key c == lower word) cards) [
  | none ↦ record { word = word; card_id = none; giver_role = none; revealed_at_clue = none }
  | some c ↦ record {
    word = word;
    card_id = some c.id;
    giver_role = some (side c player_id);
    revealed_at_clue = some c.revealed;
  }
]

-- `_resolve_targets`
unfoldable pub resolve_targets : List Text → Seat → Board → List ResolvedTarget
unfolding resolve_target
resolve_targets targets player_id board = map (resolve_target board.cards player_id) targets

-- The constraints of `ClueEntry`: a character that is no space, which a stripped text has unless it
-- is empty, and a count of at least 1.
abbrev pub is_malformed : Text → ℤ → Bool
is_malformed clue count = length (strip clue) == 0 || ltb_ℤ count (pos 1)

unfoldable pub new_clue : Text → ℤ → Seat → List Text → GameState → ClueEntry
new_clue clue count player_id targets s = record {
  clue = strip clue;
  count = count;
  clue_giver = player_id;
  turn_number = s.turn_number;
  targets = targets;
  targets_resolved = resolve_targets targets player_id s.board;
  confidence_ranking = none;
  invalid_reason = none;
}

-- The clue is stored, and the guessing phase begins.
abbrev pub store_clue : ClueEntry → GameState → GameState
store_clue c s = record s {
  current_clue = some c;
  guesses_made_this_turn = 0;
  current_phase = guessing;
}

-- The penalty for an invalid clue.
unfoldable pub penalize : Option Text → GameState → GameState
penalize none s = s
penalize (some reason) s =
    let t = record s {
      timer_tokens = s.timer_tokens -ℤ pos 1;
      penalty_tokens = s.penalty_tokens + 1;
    } in
    if t.timer_tokens == pos 0 then switch_roles t else t

unfoldable pub receive_clue : IsValidClue → Text → ℤ → Seat → List Text → Action ClueEntry
receive_clue is_valid clue count player_id targets = do
  s ← gets Engine.state
  require (s.current_phase == giving_clue) clue_out_of_phase
  require (player_id == s.clue_giver) not_clue_giver
  require (not (is_malformed clue count)) malformed_clue
  v ← gets Engine.clue_validator
  let entry = new_clue clue count player_id targets s
  let reason = is_valid v entry
  let judged = record entry { invalid_reason = reason }
  modify (λ e. record e { state = penalize reason (store_clue judged e.state) })
  pure judged

unfoldable pub attach_confidence_ranking : ConfidenceRanking → Action (Unit {0})
attach_confidence_ranking ranking e = elim e.state.current_clue [
  | none ↦ raise no_current_clue e
  | some c ↦ (
    ok tt,
    record e {
      state = record (e.state) {
        current_clue = some (record c { confidence_ranking = some ranking });
      };
    },
  )
]

abbrev set_ranking : Seat → ConfidenceRanking → SuddenDeathEntry → SuddenDeathEntry
set_ranking seat0 r d = record d { ranking0 = some r }
set_ranking seat1 r d = record d { ranking1 = some r }

abbrev entry_or_new : Option SuddenDeathEntry → SuddenDeathEntry
entry_or_new none = record { ranking0 = none; ranking1 = none }
entry_or_new (some d) = d

unfoldable pub attach_sudden_death_ranking : ConfidenceRanking → Seat → Action (Unit {0})
attach_sudden_death_ranking ranking player_id = modify (λ e. record e {
  state = record (e.state) {
    sudden_death = some (set_ranking player_id ranking (entry_or_new e.state.sudden_death));
    sd_measurement_pending = false;
  };
})
