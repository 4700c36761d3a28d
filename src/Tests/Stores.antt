-- ===== src/Tests/Stores.antt =====
-- backend/app/db/writer.py: a database with one game, and a game that is stored in it.
use codenames_llm_bias.Shared.{
  Text, ℕ, ◌≡◌, refl, Bool, true, false, Option, none, some, List, [], ◌∷◌, codes, text_eq, lower,
  arith,
}
use codenames_llm_bias.Shared.Int.{pos}
use codenames_llm_bias.Schemas.Card.{seat0, seat1, agent}
use codenames_llm_bias.Recorder.{GameRecorder, new_recorder, normal, no_seats}
use codenames_llm_bias.Writer.{ItemRow, Database, word_map, truncated}
use codenames_llm_bias.Writer.Turns.{
  write_turns, write_turn, write_normal, write_clue, add_targets, write_play, write_reveals,
  add_items, backfill,
}
use codenames_llm_bias.Writer.Store.{
  GameHead, stored_game, persist_game, delete_error_game, delete_run,
}
use codenames_llm_bias.Writer.Undone.{delete_error_game-persist_game}
use codenames_llm_bias.Writer.Keyed.{IsKeyed}
use codenames_llm_bias.Writer.Parents.{persist_game-IsKeyed}

abbrev stored : Database
stored = record {
  next_id = 2;
  boards = codes "c1" ∷ [];
  word_cards = (codes "c1", (codes "Apple", 4)) ∷ [];
  runs = codes "r" ∷ [];
  games =
      record {
        id = codes "g0";
        run_id = some (codes "r");
        board_id = codes "c1";
        game_status = codes "completed";
        result = none;
        timer_tokens_final = none;
        error_code = none;
        error_message = none;
      }
      ∷ [];
  turns =
      record {
        id = 0;
        game_id = codes "g0";
        turn_number = 0;
        clue_giver_seat = seat0;
        phase = normal;
      }
      ∷ [];
  clues = [];
  clue_targets = [];
  proposals = [];
  items = [];
  reveals = [];
}

stored-IsKeyed : IsKeyed stored
stored-IsKeyed = record {
  games = ((refl, refl), tt);
  turns = ((refl, omega arith), tt);
  clues = tt;
  clue_targets = tt;
  proposals = tt;
  items = tt;
  links = tt;
  reveals = tt;
}

abbrev head : GameHead
head = record {
  game_id = codes "g1";
  run_id = some (codes "r");
  board_id = codes "c1";
  error_message = none;
}

-- A turn with a clue, two proposed words, and a reveal of the first one.
abbrev one_turn : GameRecorder
one_turn = record new_recorder {
  turns =
      record {
        turn_number = 0;
        phase = normal;
        clue_giver_seat = seat0;
        clue = some (record {
          clue_word = codes "fruit";
          count = pos 1;
          targets_raw = [];
          targets_resolved = [];
          invalid_reason = none;
        });
        play_proposal = some (record {
          proposals = codes "apple" ∷ codes "chair" ∷ [];
          confidence =
              record { mantissa = 1; exponent = 0 } ∷ record { mantissa = 1; exponent = 1 } ∷ [];
        });
        measurement = none;
        reveals =
            record {
              card_id = 4;
              result_role = agent;
              timer_tokens_after = pos 9;
              ended_turn = false;
              ended_game = false;
              proposal_index = 0;
              acting_seat = seat1;
            }
            ∷ [];
        sd_play_by_seat = no_seats;
        sd_measurement_by_seat = no_seats;
      }
      ∷ [];
}

abbrev result : Bool × (GameRecorder × Database)
result = persist_game head one_turn (codes "error") stored

-- The first item has the reveal and the card, and the second one neither.
abbrev links : List ItemRow → List (Option ℕ × Option ℕ)
links [] = []
links (x ∷ xs) = (x.resolved_card_id, x.reveal_event_id) ∷ links xs

result_items : links result.1.1.items ≡ (some 4, some 7) ∷ (none, none) ∷ []
unfolding persist_game stored_game write_turns write_turn write_normal write_clue add_targets
    write_play write_reveals add_items backfill word_map truncated new_recorder lower
result_items = refl

result_done : result.0 ≡ true
unfolding persist_game stored_game write_turns write_turn write_normal write_clue add_targets
    write_play write_reveals add_items backfill word_map truncated new_recorder
result_done = refl

done_as : {A B : Type 0} (x : Bool × (A × B)) → x.0 ≡ true → x ≡ (true, (x.1.0, x.1.1))
done_as x h = λ i. (h i, x.1)

delete_error_game-persist_game_example :
    delete_error_game (codes "g1") (codes "r") result.1.1
    ≡ (true, record stored { next_id = result.1.1.next_id })
delete_error_game-persist_game_example =
    delete_error_game-persist_game stored head one_turn (codes "r") stored-IsKeyed refl result.1.0
      result.1.1 (done_as result result_done)

persist_game-IsKeyed_example :
    ((h : GameHead) (r : GameRecorder) (status : Text)
      → IsKeyed (persist_game h r status stored).1.1)
    × ((game_id run_id : Text) → IsKeyed (delete_error_game game_id run_id stored).1)
    × ((run_id : Text) → IsKeyed (delete_run run_id stored).1)
persist_game-IsKeyed_example = persist_game-IsKeyed stored stored-IsKeyed
