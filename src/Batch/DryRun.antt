-- ===== src/Batch/DryRun.antt =====
-- backend/app/core/batch_runner.py: the client of the dry run, which gives one clue and guesses the shared
-- assassin of its board. The reasons it states and the fields of its response are left out.
use codenames_llm_bias.Shared.{◌&&◌, Option, none, some, [], ◌∷◌, ◌==◌, Text, codes}
use codenames_llm_bias.Shared.Int.{pos}
use codenames_llm_bias.Schemas.Card.{assassin, role_eq}
use codenames_llm_bias.Schemas.Board.{Board, find_card}
use codenames_llm_bias.Schemas.State.{Confidence}
use codenames_llm_bias.Game.Service.{Model, answered}

-- `none` stands for the BatchPreconditionError.
unfoldable pub shared_assassin_word : Board → Option Text
shared_assassin_word b =
    elim (find_card
      (λ c. c.llm_perspective_role == assassin && c.human_perspective_role == assassin) b.cards) [
        | none ↦ none
        | some c ↦ some c.text
      ]

-- 0.99, as a double.
abbrev almost_sure : Confidence
almost_sure = record { mantissa = 4458563631096791; exponent = 52 }

-- DryRunClient, by the format that is asked for.
unfoldable pub dry_run_client : Text → Model
dry_run_client word =
    let guess =
      answered (record { proposals = record { word = word; confidence = almost_sure } ∷ [] }) in
    let ranking = answered (record {
      reasoning = codes "dry-run";
      rankings = record { word = word; confidence = almost_sure } ∷ [];
    }) in
    record {
      clue = λ s p. answered (record { clue = codes "ZZXQJ"; count = pos 1; targets = [] });
      guess = λ s p. guess;
      guess_sd = λ s p. guess;
      ranking = λ s p. ranking;
      ranking_sd = λ s p. ranking;
    }

unfoldable pub dry_run_client_factory : Board → Option Model
dry_run_client_factory b = elim (shared_assassin_word b) [
  | none ↦ none
  | some word ↦ some (dry_run_client word)
]
