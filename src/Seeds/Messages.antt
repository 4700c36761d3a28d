-- ===== src/Seeds/Messages.antt =====
-- backend/app/core/game_runner.py: no two seeds of a game hash the same bytes.
use codenames_llm_bias.Shared.{
  ℕ, zero, suc, ◌/◌, ◌%◌, ◌^◌, ◌<◌, ◌≡◌, refl, sym, ap, ◌∙◌, List, [], ◌∷◌, ◌++◌, length,
  length-append, arith,
}
use codenames_llm_bias.Schemas.Card.{Seat}
use codenames_llm_bias.Seeds.{
  to_bytes, from_bytes, from_bytes-to_bytes, seat_digit, derived_message, engine_part, play_part,
  meas_part,
}

-- What a seed of a game is for.
pub data Purpose : Type 0 where
  for_engine : Purpose
  for_play for_meas : Seat → ℕ → Purpose

abbrev pub part_of : Purpose → List ℕ
part_of for_engine = engine_part
part_of (for_play seat turn) = play_part seat turn
part_of (for_meas seat turn) = meas_part seat turn

-- A turn that fits into eight bytes.
abbrev pub Fits : Purpose → Type 0
Fits for_engine = Unit
Fits (for_play seat turn) = turn < 2 ^ 64
Fits (for_meas seat turn) = turn < 2 ^ 64

length-to_bytes : (w n : ℕ) → length (to_bytes w n) ≡ w
unfolding to_bytes
length-to_bytes zero n = refl
length-to_bytes (suc w) n =
    omega (arith, length-append (to_bytes w (n / 256)) (n % 256 ∷ []), length-to_bytes w (n / 256))

append_inj :
    (xs ys us vs : List ℕ) → length xs ≡ length ys → xs ++ us ≡ ys ++ vs → (xs ≡ ys) × (us ≡ vs)
append_inj [] [] us vs l q = (refl, q)
append_inj [] (y ∷ ys) us vs l q = absurd (omega (arith, l))
append_inj (x ∷ xs) [] us vs l q = absurd (omega (arith, l))
append_inj (x ∷ xs) (y ∷ ys) us vs l q =
    let (a, b) = append_inj xs ys us vs (omega (arith, l)) (ground (arith, q)) in
    (ground (arith, q, a), b)

bytes_inj : (m n : ℕ) → m < 2 ^ 64 → n < 2 ^ 64 → to_bytes 8 m ≡ to_bytes 8 n → m ≡ n
bytes_inj m n h k q =
    sym (from_bytes-to_bytes 8 m h) ∙ ap (from_bytes 0) q ∙ from_bytes-to_bytes 8 n k

seat_digit_inj : (s t : Seat) → seat_digit s ≡ seat_digit t → s ≡ t
seat_digit_inj s t q = ground (arith, q)

-- The parts of two purposes.
part_of_inj : (p q : Purpose) → Fits p → Fits q → part_of p ≡ part_of q → p ≡ q
unfolding play_part meas_part
part_of_inj for_engine for_engine h k e = refl
part_of_inj for_engine (for_play t n) h k e = ground (arith, e)
part_of_inj for_engine (for_meas t n) h k e = ground (arith, e)
part_of_inj (for_play s m) for_engine h k e = ground (arith, e)
part_of_inj (for_play s m) (for_meas t n) h k e = ground (arith, e)
part_of_inj (for_meas s m) for_engine h k e = ground (arith, e)
part_of_inj (for_meas s m) (for_play t n) h k e = ground (arith, e)
part_of_inj (for_play s m) (for_play t n) h k e =
    let seat : s ≡ t = seat_digit_inj s t (ground (arith, e)) in
    let turn : m ≡ n = bytes_inj m n h k (ground (arith, e)) in rw (seat, turn) refl
part_of_inj (for_meas s m) (for_meas t n) h k e =
    let seat : s ≡ t = seat_digit_inj s t (ground (arith, e)) in
    let turn : m ≡ n = bytes_inj m n h k (ground (arith, e)) in rw (seat, turn) refl

-- The bytes that are hashed for the engine, for a call of a seat in a turn, and for a measurement tell
-- the seed (up to 64 bits) and the purpose apart, for turns that fit into eight bytes.
pub derived_message_inj :
    (seed seed' : ℕ) (p q : Purpose)
    → Fits p
    → Fits q
    → derived_message seed (part_of p) ≡ derived_message seed' (part_of q)
    → (seed % 2 ^ 64 ≡ seed' % 2 ^ 64) × (p ≡ q)
unfolding derived_message
derived_message_inj seed seed' p q h k e =
    let a = seed % 2 ^ 64 in
    let b = seed' % 2 ^ 64 in
    let same =
      append_inj (to_bytes 8 a) (to_bytes 8 b) (part_of p) (part_of q)
        (length-to_bytes 8 a ∙ sym (length-to_bytes 8 b)) e in
    (bytes_inj a b (omega arith) (omega arith) same.0, part_of_inj p q h k same.1)
