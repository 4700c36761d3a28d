-- ===== src/Tests/Runs.antt =====
-- Runs of whole games between models with fixed answers.
use codenames_llm_bias.Shared.{
  ◌≡◌, ◌≢◌, ◌↔◌, refl, true, Option, none, some, [], ◌∷◌, codes, lower, strip, Text, arith,
}
use codenames_llm_bias.Shared.Int.{pos}
use codenames_llm_bias.Schemas.Card.{WordCard, assassin, seat0, is_guessable_by}
use codenames_llm_bias.Schemas.Board.{get_card_by_id, get_card_id_by_word, rules_validation}
use codenames_llm_bias.Schemas.State.{game_over, loss_assassin, GameResult}
use codenames_llm_bias.Validator
use codenames_llm_bias.Validator.{IsValidClue, remove_word}
use codenames_llm_bias.Engine.{
  new_engine, receive_clue, resolve_guess, pass_turn, concede_sudden_death,
  attach_confidence_ranking, attach_sudden_death_ranking, switch_roles, finish_game,
}
use codenames_llm_bias.Engine.Turns.{next_turn, start_sudden_death}
use codenames_llm_bias.Engine.Guesses.{
  check_guess, resolve_card, count_guess, resolve_guess_normal, resolve_guess_sudden_death,
  reveal_agent, after_reveal, cover_agent, hand_off, hit_bystander, lose, mark, place_token, win,
}
use codenames_llm_bias.Engine.Clues.{penalize, new_clue, resolve_targets}
use codenames_llm_bias.Invariants.{check_invariants}
use codenames_llm_bias.Invariants.Check.{
  token_problems, pending_problems, visible_problems, over_problems, phase_problems,
}
use codenames_llm_bias.Recorder.{
  result_role_of, new_recorder, record_clue, record_play_proposal, record_measurement,
  reveal_record, record_reveal, set_outcome, set_error,
}
use codenames_llm_bias.Guard.{new_guard, problems_of, check, check_final}
use codenames_llm_bias.Game.Table.{Table, ◌>>=◌, llm_failure}
use codenames_llm_bias.Game.Service.{
  Model, ClueFormat, GuessFormat, answered, failed, is_valid_clue_proposal, is_valid_guess_proposal,
  build_clue_proposal, build_guess_proposal, build_confidence_ranking, propose_clue, propose_guess,
  measure_and_attach, clue_degenerate_reason, guess_degenerate_reason,
}
use codenames_llm_bias.Game.Conductor.{
  keep_reveal, play_card, play_word, play_words, conduct_clue, conduct_guess,
}
use codenames_llm_bias.Game.Runner.{
  completed, GameRunResult, Store, check_guard, check_guard_final, persist_game, record_outcome,
  flush_if_over, error_flush, dispatch_phase, check_running, game_loop, play_game, finish_run,
  run_single_game,
}
use codenames_llm_bias.Game.Runs.{
  start, start-IsGood, dispatch_phase-Yields, play_game-Ended, Ended,
}
use codenames_llm_bias.Game.Onward.{left}
use codenames_llm_bias.Game.Yields.{Yields}
use codenames_llm_bias.Game.Below.{Below}
use codenames_llm_bias.Game.Results.{IsHonest, run_single_game-IsHonest, run_single_game-IsStored}
use codenames_llm_bias.Game.Answers.{build_clue_proposal_iff, build_guess_proposal_iff}
use codenames_llm_bias.Batch.Assassin.{IsAmong, NamesOnly, dry_run_client_factory_lem}
use codenames_llm_bias.Batch.DryRun.{shared_assassin_word, dry_run_client, dry_run_client_factory}
use codenames_llm_bias.Tests.Boards.{board, board-validate, board-IsFresh}

abbrev lenient : IsValidClue
lenient v c = none

abbrev clue_answer : ClueFormat
clue_answer = record { clue = codes "fruit "; count = pos 2; targets = [] }

abbrev guess_answer : Text → GuessFormat
guess_answer w = record {
  proposals = record { word = w; confidence = record { mantissa = 1; exponent = 1 } } ∷ [];
}

-- Its guess is the assassin, and it cannot be measured.
abbrev rash : Model
rash = record {
  clue = λ s p. answered clue_answer;
  guess = λ s p. answered (guess_answer (codes " Piano"));
  guess_sd = λ s p. answered (guess_answer (codes "apple"));
  ranking = λ s p. failed (llm_failure (codes "timeout"));
  ranking_sd = λ s p. failed (llm_failure (codes "timeout"));
}

abbrev keeps : Store
keeps r s = none

-- What a run of a game computes with.
runs : GameRunResult × Table
unfolding run_single_game finish_run play_game game_loop check_running dispatch_phase error_flush
    flush_if_over record_outcome persist_game check_guard check_guard_final conduct_clue
    conduct_guess play_words play_word play_card keep_reveal propose_clue propose_guess
    measure_and_attach build_clue_proposal build_guess_proposal build_confidence_ranking
    is_valid_clue_proposal is_valid_guess_proposal new_guard problems_of check check_final
    result_role_of new_recorder record_clue record_play_proposal record_measurement reveal_record
    record_reveal set_outcome set_error ◌>>=◌ get_card_id_by_word resolve_guess check_guess
    receive_clue new_engine strip lower penalize get_card_by_id resolve_card count_guess
    resolve_guess_normal reveal_agent after_reveal cover_agent hand_off hit_bystander switch_roles
    attach_confidence_ranking attach_sudden_death_ranking new_clue resolve_targets
    concede_sudden_death lose mark place_token resolve_guess_sudden_death win finish_game next_turn
    pass_turn start_sudden_death Validator.new remove_word check_invariants token_problems
    pending_problems visible_problems over_problems phase_problems is_guessable_by
runs = run_single_game keeps true rash lenient board seat0 (codes "game") true

abbrev rash_run : GameRunResult × Table
rash_run = run_single_game keeps true rash lenient board seat0 (codes "game") true

rash_completed : rash_run.0.status ≡ completed
unfolding runs
rash_completed = refl

rash_loses : rash_run.0.result ≡ some loss_assassin
unfolding runs
rash_loses = refl

play_game-Ended_example :
    Ended (play_game keeps true rash lenient (start board seat0 (codes "game") true))
play_game-Ended_example =
    play_game-Ended keeps true rash lenient board seat0 (codes "game") true board-validate
      board-IsFresh

run_single_game-IsHonest_example : IsHonest rash_run
run_single_game-IsHonest_example =
    run_single_game-IsHonest keeps true rash lenient board seat0 (codes "game") true board-validate
      board-IsFresh

run_single_game-IsStored_example : rash_run.1.recorder.flushed ≡ true
run_single_game-IsStored_example =
    run_single_game-IsStored keeps rash lenient board seat0 (codes "game") true board-validate
      board-IsFresh rash_completed

abbrev table : Table
table = start board seat0 (codes "game") true

table_runs : table.engine.state.current_phase ≢ game_over
unfolding new_engine
table_runs = ground arith

dispatch_phase-Yields_example :
    Yields table (Below (left table)) (dispatch_phase keeps true rash lenient table)
dispatch_phase-Yields_example =
    dispatch_phase-Yields keeps true rash lenient table
      (start-IsGood board seat0 (codes "game") true board-validate board-IsFresh) table_runs

build_clue_proposal_iff_example :
    (clue_degenerate_reason clue_answer ≡ none) ↔ (build_clue_proposal clue_answer ≢ none)
build_clue_proposal_iff_example = build_clue_proposal_iff clue_answer

build_guess_proposal_iff_example :
    (guess_degenerate_reason (guess_answer (codes "pear")) ≡ none)
    ↔ (build_guess_proposal (guess_answer (codes "pear")) ≢ none)
build_guess_proposal_iff_example = build_guess_proposal_iff (guess_answer (codes "pear")) refl

-- A dry run on the board ends at the shared assassin, in a completed game.
abbrev dry_run : Option (GameRunResult × Table)
dry_run = elim (dry_run_client_factory board) [
  | none ↦ none
  | some m ↦ some (run_single_game keeps true m lenient board seat0 (codes "game") true)
]

abbrev outcome : Option (GameRunResult × Table) → Option GameResult
outcome none = none
outcome (some r) = r.0.result

dry_run_loses : outcome dry_run ≡ some loss_assassin
unfolding runs dry_run_client_factory dry_run_client shared_assassin_word
dry_run_loses = refl

board_rules : rules_validation board ≡ none
unfolding rules_validation lower
board_rules = refl

dry_run_client_factory_lem_example :
    (m : Model) × (c : WordCard) × (dry_run_client_factory board ≡ some m)
    × IsAmong board.cards c
    × (c.llm_perspective_role ≡ assassin)
    × (c.human_perspective_role ≡ assassin)
    × NamesOnly c.text m
dry_run_client_factory_lem_example = dry_run_client_factory_lem board board_rules
