-- ===== src/Tests/Batches.antt =====
-- backend/app/core/batch_runner.py: three games of two pairings, with a provider that fails at first.
use codenames_llm_bias.Shared.{
  ℕ, zero, suc, ◌≡◌, ◌≢◌, ◌↔◌, refl, not, ◌&&◌, if◌then◌else◌, nat_eq, get_item, Bool, true, false,
  Option, none, some, List, [], ◌∷◌, Text, codes, All,
}
use codenames_llm_bias.Schemas.Board.{probe}
use codenames_llm_bias.Schedule.{SeatSpec, BatchCell}
use codenames_llm_bias.Batch.{
  GameRunResult, provider, model, classify_error, code_in, transient_provider_codes,
}
use codenames_llm_bias.Batch.Wait.{Waits, wait_loop, wait_for_provider, wait_for_provider-Waits}
use codenames_llm_bias.Batch.Loop.{
  Setting, Batch, provider_healthy, play_cell, settle, enter, visit, play_schedule,
}
use codenames_llm_bias.Batch.Errors.{is_of_model, classify_error_lem}
use codenames_llm_bias.Client.{degenerate_response, code, retriable, is_bad_draw}
use codenames_llm_bias.Batch.Resume.{StoredRun, resume_problems, manifest_problems}
use codenames_llm_bias.Batch.Resume.Changes.{IsSameBatch, resume_problems_iff}
use codenames_llm_bias.Batch.Resume.Served.{manifest_problems_iff}
use codenames_llm_bias.Batch.Completion.{IsComplete, play_batch-IsComplete}
use codenames_llm_bias.Batch.Outcome.{play_batch, play_batch-EndsWell, EndsWell}

abbrev slow : ℕ → Bool × ℕ
slow zero = (false, 1)
slow n = (true, n)

wait_for_provider-Waits_example :
    Waits slow (λ s w. w) 100 0 (wait_for_provider slow (λ s w. w) 100 0)
wait_for_provider-Waits_example = wait_for_provider-Waits slow (λ s w. w) 100 0

classify_error_lem_example :
    (classify_error none (some (code degenerate_response))
      ≡ (if is_of_model degenerate_response then model else provider))
    × (code_in transient_provider_codes (some (code degenerate_response))
        ≡ (retriable degenerate_response && not (is_bad_draw degenerate_response)))
classify_error_lem_example = classify_error_lem degenerate_response none

abbrev spec : Text → SeatSpec
spec name = record { provider = codes "local"; model_name = name; think = false }

abbrev game : ℕ → ℕ → BatchCell
game index pairing = record {
  game_index = index;
  game_id = index ∷ [];
  pairing_ordinal = pairing;
  k = 0;
  board_id = codes "c1";
  board_type = probe;
  specification = none;
  seat0_spec = spec (codes "a");
  seat1_spec = spec (codes "b");
}

abbrev three_games : List BatchCell
three_games = game 0 0 ∷ game 1 0 ∷ game 2 1 ∷ []

abbrev lost : GameRunResult
lost = record { status = codes "error"; error = none; error_code = some (codes "timeout") }

abbrev done : GameRunResult
done = record { status = codes "completed"; error = none; error_code = none }

-- The first play is lost to the provider, which answers at the second probe. The second game was
-- completed before.
abbrev setting : Setting ℕ
setting = record {
  run_single_game = λ w c. (elim w [ zero ↦ lost | suc n ↦ done ], suc w);
  health_check =
      λ w s. (elim w [ zero ↦ true | suc n ↦ elim n [ zero ↦ false | suc m ↦ true ] ], suc w);
  sleep = λ s w. w;
  delete_error_game = λ g w. w;
  kept = (1 ∷ [], codes "completed") ∷ [];
  recorded =
      (1 ∷ [], record { run_id = none; board_id = codes "c1"; status = codes "completed" }) ∷ [];
  persist = true;
  threshold = 5;
  provider_wait = 20;
  provider_replays = 2;
}

play_batch-EndsWell_example : EndsWell setting three_games (play_batch setting three_games 0)
play_batch-EndsWell_example = play_batch-EndsWell setting three_games 0

abbrev played_of : Option (Batch ℕ) → Option (List Text × List Text)
played_of none = none
played_of (some s) = some (s.played, s.forgotten)

-- The first game is played again, after its row is deleted; the second one is not played.
setting_play :
    played_of (play_batch setting three_games 0)
    ≡ some ((2 ∷ []) ∷ (0 ∷ []) ∷ (0 ∷ []) ∷ [], (0 ∷ []) ∷ [])
unfolding play_batch play_schedule visit enter settle play_cell wait_for_provider wait_loop
    provider_healthy code_in transient_provider_codes
setting_play = refl

abbrev run : StoredRun ℕ
run = record {
  run_id = codes "r";
  master_seed = some 7;
  temperature = 1;
  prompt_template_version = some (codes "t");
  code_version = some (codes "v");
  model_registry_snapshot = some (
      (
        codes "seat0",
        record { provider = codes "local"; model_name = codes "a"; identity = some (codes "i") },
      )
      ∷ []);
  stimulus_manifest = some ((codes "c1", codes "h") ∷ []);
}

resume_problems_iff_example :
    (resume_problems run three_games (spec (codes "a") ∷ []) 7 1 (codes "t") setting.recorded ≡ [])
    ↔ IsSameBatch run three_games (spec (codes "a") ∷ []) 7 1 (codes "t") setting.recorded
resume_problems_iff_example =
    resume_problems_iff run three_games (spec (codes "a") ∷ []) 7 1 (codes "t") setting.recorded

manifest_problems_iff_example : (manifest_problems run ((codes "c1", codes "g") ∷ []) ≡ []) ↔ (
    (minted : List (Text × Text))
    → run.stimulus_manifest ≡ some minted
    → minted ≢ []
    → (k : Text) → get_item k minted ≡ get_item k ((codes "c1", codes "g") ∷ []))
manifest_problems_iff_example = manifest_problems_iff run ((codes "c1", codes "g") ∷ [])

-- Now each game completes.
abbrev calm_setting : Setting ℕ
calm_setting = record setting { run_single_game = λ w c. (done, suc w) }

play_batch-IsComplete_example :
    (s : Batch ℕ) × (play_batch calm_setting three_games 0 ≡ some s)
    × (s.outage ≡ none)
    × All IsComplete s.reports
play_batch-IsComplete_example = play_batch-IsComplete calm_setting (λ w c. refl) three_games 0
