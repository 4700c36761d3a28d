-- ===== src/Seeds.antt =====
-- backend/app/core/game_runner.py: the seeds of a game and of its calls. SHA-256 is a parameter, as the
-- number that its digest is, and so is the UUID of a name in the namespace of the games.
use codenames_llm_bias.Shared.{
  ℕ, zero, suc, ◌+◌, ◌*◌, ◌/◌, ◌%◌, ◌^◌, ◌<◌, ◌≤◌, ◌≡◌, ◌≢◌, refl, sym, ap, ◌∙◌, List, [], ◌∷◌,
  ◌++◌, Text, codes, arith,
}
use codenames_llm_bias.Schemas.Card.{Seat, seat0, seat1}
pub mod Messages

-- Python's `n.to_bytes(w, "big")` of a number that fits, which the source calls, and its inverse, which is for the
-- proofs alone.
unfoldable pub to_bytes : ℕ → ℕ → List ℕ
to_bytes zero n = []
to_bytes (suc w) n = to_bytes w (n / 256) ++ (n % 256 ∷ [])

unfoldable pub from_bytes : ℕ → List ℕ → ℕ
from_bytes acc [] = acc
from_bytes acc (b ∷ bs) = from_bytes (acc * 256 + b) bs

-- f"{seat}"
abbrev pub seat_digit : Seat → ℕ
seat_digit seat0 = b'0'
seat_digit seat1 = b'1'

-- What is hashed: the masked seed in eight bytes, and the parts.
unfoldable pub derived_message : ℕ → List ℕ → List ℕ
derived_message seed parts = to_bytes 8 (seed % 2 ^ 64) ++ parts

abbrev pub engine_part : List ℕ
engine_part = codes "engine"

unfoldable pub play_part : Seat → ℕ → List ℕ
play_part seat turn = codes "seat" ++ (seat_digit seat ∷ to_bytes 8 turn)

unfoldable pub meas_part : Seat → ℕ → List ℕ
meas_part seat turn = codes "meas" ++ (seat_digit seat ∷ to_bytes 8 turn)

module _ (sha256 : List ℕ → ℕ) where
  unfoldable pub derive : ℕ → List ℕ → ℕ
  derive seed parts = sha256 (derived_message seed parts) % 2 ^ 64

  unfoldable pub seed_game : ℕ → Text → ℕ
  seed_game master_seed game_id = derive master_seed game_id

  unfoldable pub seed_engine : ℕ → ℕ
  seed_engine seed = derive seed engine_part

  unfoldable pub seed_play : ℕ → Seat → ℕ → ℕ
  seed_play seed seat turn = derive seed (play_part seat turn)

  unfoldable pub seed_meas : ℕ → Seat → ℕ → ℕ
  seed_meas seed seat turn = derive seed (meas_part seat turn)

  -- `_game_identity`, where `game_uuid` names a game by its master seed and its index.
  unfoldable pub game_identity : (ℕ → ℕ → Text) → ℕ → ℕ → Text × ℕ × ℕ
  game_identity game_uuid master_seed game_index =
      let game_id = game_uuid master_seed game_index in
      let seed = seed_game master_seed game_id in (game_id, seed, seed_engine seed)

from_bytes_append :
    (acc : ℕ) (xs : List ℕ) (b : ℕ) → from_bytes acc (xs ++ (b ∷ [])) ≡ from_bytes acc xs * 256 + b
unfolding from_bytes
from_bytes_append acc [] b = refl
from_bytes_append acc (x ∷ xs) b = from_bytes_append (acc * 256 + x) xs b

-- A number that fits into `w` bytes is read back from them.
pub from_bytes-to_bytes : (w n : ℕ) → n < 256 ^ w → from_bytes 0 (to_bytes w n) ≡ n
unfolding to_bytes from_bytes
from_bytes-to_bytes zero n h = omega (arith, h)
from_bytes-to_bytes (suc w) n h =
    let rest = from_bytes-to_bytes w (n / 256) (omega (arith, h)) in
    from_bytes_append 0 (to_bytes w (n / 256)) (n % 256) ∙ omega (arith, rest)
