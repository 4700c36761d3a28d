-- ===== src/Tests/Seeds.antt =====
-- backend/app/core/game_runner.py: the bytes of a turn and of a seed.
use codenames_llm_bias.Shared.{◌+◌, ◌%◌, ◌^◌, ◌≡◌, refl, [], ◌∷◌, ◌++◌, codes, arith}
use codenames_llm_bias.Schemas.Card.{seat0, seat1}
use codenames_llm_bias.Seeds.{to_bytes, derived_message, play_part}
use codenames_llm_bias.Seeds.Messages.{for_play, part_of, derived_message_inj}

turn_bytes : play_part seat1 770 ≡ codes "seat1" ++ (0 ∷ 0 ∷ 0 ∷ 0 ∷ 0 ∷ 0 ∷ 3 ∷ 2 ∷ [])
unfolding play_part to_bytes
turn_bytes = refl

-- A seed is masked to 64 bits.
masked :
    derived_message 7 (part_of (for_play seat0 3))
    ≡ derived_message (2 ^ 64 + 7) (part_of (for_play seat0 3))
unfolding derived_message
masked = refl

derived_message_inj_example :
    (7 % 2 ^ 64 ≡ (2 ^ 64 + 7) % 2 ^ 64) × (for_play seat0 3 ≡ for_play seat0 3)
derived_message_inj_example =
    derived_message_inj 7 (2 ^ 64 + 7) (for_play seat0 3) (for_play seat0 3) (omega arith)
      (omega arith) masked
