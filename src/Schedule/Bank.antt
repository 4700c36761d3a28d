-- ===== src/Schedule/Bank.antt =====
-- backend/app/core/batch_schedule.py: the boards and the pairings that a schedule is made of.
use codenames_llm_bias.Shared.{
  get_item, ℕ, zero, suc, ◌+◌, ◌*◌, ◌≤◌, ◌≡◌, ◌≢◌, refl, ap, ◌∙◌, Bool, true, false, none, List, [],
  ◌∷◌, ◌++◌, map, nat_eq, text_eq, Text, codes, length, length-append, length-map, filter, All,
  All-sort, All-filter, All-append, length-sort, text_leb, text_beq_iff, if◌then◌else◌, arith,
}
use codenames_llm_bias.Schemas.Board.{Board}
use codenames_llm_bias.Schedule.{
  SeatSpec, ok, sorted_pair, combinations, pair_leb, pairing_keys, is_probe_on, is_control, id_leb,
  bank_of, take, select_boards,
}
use codenames_llm_bias.Schedule.Indices.{HasType, Known}

probe_HasType : (s : Text) (b : Board) → is_probe_on s b ≡ true → HasType b
probe_HasType s b h = ground arith

control_HasType : (b : Board) → is_control b ≡ true → HasType b
control_HasType b h = ground arith

bank_of-HasType :
    (kind : Board → Bool) (bs : List Board)
    → ((b : Board) → kind b ≡ true → HasType b)
    → All HasType (bank_of kind bs)
unfolding bank_of
bank_of-HasType kind bs h = All-sort id_leb HasType (filter kind bs) (All-filter kind HasType bs h)

take-All : (P : Board → Type 0) (n : ℕ) (bs : List Board) → All P bs → All P (take n bs)
take-All P zero bs h = tt
take-All P (suc n) [] h = tt
take-All P (suc n) (b ∷ bs) h = (h.0, take-All P n bs h.1)

length-take : (n : ℕ) (bs : List Board) → n ≤ length bs → length (take n bs) ≡ n
length-take zero bs h = refl
length-take (suc n) [] h = absurd (omega (arith, h))
length-take (suc n) (b ∷ bs) h = ap suc (length-take n bs (omega (arith, h)))

-- The bank holds enough boards of each kind.
abbrev pub career_bank : List Board → List Board
career_bank bs = filter (is_probe_on (codes "gender-career")) bs

abbrev pub science_bank : List Board → List Board
science_bank bs = filter (is_probe_on (codes "gender-science")) bs

abbrev pub IsEnough : List Board → Type 0
IsEnough bs =
    (4 ≤ length (career_bank bs))
    × (4 ≤ length (science_bank bs))
    × (8 ≤ length (filter is_control bs))

length-bank_of :
    (kind : Board → Bool) (bs : List Board) → length (bank_of kind bs) ≡ length (filter kind bs)
unfolding bank_of
length-bank_of kind bs = length-sort id_leb (filter kind bs)

pub select_boards_lem :
    (bs : List Board)
    → IsEnough bs
    → (selected : List Board) × (select_boards bs ≡ ok selected)
      × (length selected ≡ 16)
      × All HasType selected
unfolding select_boards
select_boards_lem bs (c, s, k) =
    let cb = bank_of (is_probe_on (codes "gender-career")) bs in
    let sb = bank_of (is_probe_on (codes "gender-science")) bs in
    let kb = bank_of is_control bs in
    let nc : 4 ≤ length cb =
      omega (arith, length-bank_of (is_probe_on (codes "gender-career")) bs, c) in
    let ns : 4 ≤ length sb =
      omega (arith, length-bank_of (is_probe_on (codes "gender-science")) bs, s) in
    let nk : 8 ≤ length kb = omega (arith, length-bank_of is_control bs, k) in
    (
      take 4 cb ++ (take 4 sb ++ take 8 kb),
      ground (arith, nc, ns, nk),
      omega (
        arith,
        length-append (take 4 cb) (take 4 sb ++ take 8 kb),
        length-append (take 4 sb) (take 8 kb),
        length-take 4 cb nc,
        length-take 4 sb ns,
        length-take 8 kb nk,
      ),
      All-append HasType (take 4 cb) (take 4 sb ++ take 8 kb)
          (take-All HasType 4 cb (bank_of-HasType _ bs (probe_HasType (codes "gender-career"))))
          (All-append HasType (take 4 sb) (take 8 kb)
            (take-All HasType 4 sb (bank_of-HasType _ bs (probe_HasType (codes "gender-science"))))
            (take-All HasType 8 kb (bank_of-HasType _ bs control_HasType))),
    )

pub select_boards_short :
    (bs : List Board) (selected : List Board) → select_boards bs ≡ ok selected → IsEnough bs
unfolding select_boards
select_boards_short bs selected h = ground (
  arith,
  length-bank_of (is_probe_on (codes "gender-career")) bs,
  length-bank_of (is_probe_on (codes "gender-science")) bs,
  length-bank_of is_control bs,
  h,
)

pub length-combinations :
    (ks : List Text) → 2 * length (combinations ks) + length ks ≡ length ks * length ks
length-combinations [] = refl
length-combinations (k ∷ ks) = grind (
  arith,
  length-append (map (sorted_pair k) ks) (combinations ks),
  length-map (sorted_pair k) ks,
  length-combinations ks,
)

-- Every key of a dict can be looked up.
abbrev Known1 : List (Text × SeatSpec) → Text → Type 0
Known1 d k = get_item k d ≢ none

keys-Known : (d : List (Text × SeatSpec)) → All (Known1 d) (map (λ e. e.0) d)
keys-Known [] = tt
keys-Known ((j, w) ∷ d) =
    (ground (arith, text_beq_iff j j), later (map (λ e. e.0) d) (keys-Known d))
  where
    later : (ks : List Text) → All (Known1 d) ks → All (Known1 ((j, w) ∷ d)) ks
    later [] h = tt
    later (k ∷ ks) h = (ground (arith, h.0), later ks h.1)

pairs-Known :
    (d : List (Text × SeatSpec)) (k : Text) (ks : List Text)
    → Known1 d k
    → All (Known1 d) ks
    → All (Known d) (map (sorted_pair k) ks)
pairs-Known d k [] h hs = tt
pairs-Known d k (j ∷ ks) h hs = (by_test (text_leb k j), pairs-Known d k ks h hs.1)
  where
    by_test : (b : Bool) → Known d (if b then (k, j) else (j, k))
    by_test true = (h, hs.0)
    by_test false = (hs.0, h)

combinations-Known :
    (d : List (Text × SeatSpec)) (ks : List Text)
    → All (Known1 d) ks
    → All (Known d) (combinations ks)
combinations-Known d [] h = tt
combinations-Known d (k ∷ ks) h =
    All-append (Known d) (map (sorted_pair k) ks) (combinations ks) (pairs-Known d k ks h.0 h.1)
      (combinations-Known d ks h.1)

-- The pairings of four models are six, of models that the dict has.
pub pairing_keys_lem :
    (d : List (Text × SeatSpec))
    → length d ≡ 4
    → (length (pairing_keys (map (λ e. e.0) d)) ≡ 6)
      × All (Known d) (pairing_keys (map (λ e. e.0) d))
unfolding pairing_keys
pairing_keys_lem d h =
    let ks = map (λ (e : Text × SeatSpec). e.0) d in
    let n : length ks ≡ 4 = length-map (λ (e : Text × SeatSpec). e.0) d ∙ h in
    (
      omega (
        arith,
        length-sort pair_leb (combinations ks),
        length-combinations ks,
        n,
        ap (λ (k : ℕ). k * k) n,
      ),
      All-sort pair_leb (Known d) (combinations ks) (combinations-Known d ks (keys-Known d)),
    )
