-- ===== src/Schedule/Banks.antt =====
-- backend/app/core/batch_schedule.py: the pairings and the selected boards do not depend on an order.
use codenames_llm_bias.Shared.{
  ◌≡◌, ◌⊎◌, inl, inr, Bool, true, false, ◌&&◌, Bool-cases, List, [], ◌∷◌, map, nat_eq, text_eq,
  text_beq_iff, Text, codes, filter, All, contains, is_distinct, if◌then◌else◌, IsOrder, Apart,
  AllApart, sort-Reorders, Reorders, same, swap, skip, chain, Reorders-exchange, Reorders-append,
  map-Reorders, filter-Reorders, text_leb-IsOrder, text_leb_total, text_leb_antisymm, arith,
}
use codenames_llm_bias.Schemas.Board.{Board}
use codenames_llm_bias.Schedule.{
  sorted_pair, combinations, pair_leb, pairing_keys, id_leb, bank_of, is_probe_on, is_control,
  select_boards,
}

pair_leb_total :
    (a b c d : Text) → (pair_leb (a, b) (c, d) ≡ true) ⊎ (pair_leb (c, d) (a, b) ≡ true)
unfolding pair_leb
pair_leb_total a b c d =
    ground (arith, text_beq_iff a c, text_beq_iff c a, text_leb_total a c, text_leb_total b d)

pair_leb_trans :
    (a b c d e f : Text)
    → pair_leb (a, b) (c, d) ≡ true
    → pair_leb (c, d) (e, f) ≡ true
    → pair_leb (a, b) (e, f) ≡ true
unfolding pair_leb
pair_leb_trans a b c d e f h k = ground (
  arith,
  text_beq_iff a c,
  text_beq_iff c e,
  text_beq_iff a e,
  text_leb-IsOrder.trans a c e,
  text_leb-IsOrder.trans b d f,
  text_leb_antisymm a c,
  text_leb_antisymm a e,
  text_leb_antisymm c e,
)

pair_leb-IsOrder : IsOrder pair_leb
pair_leb-IsOrder = record {
  total = λ x y. pair_leb_total x.0 x.1 y.0 y.1;
  trans = λ x y z. pair_leb_trans x.0 x.1 y.0 y.1 z.0 z.1;
}

pair_Apart : (x y : Text × Text) → Apart pair_leb x y
unfolding pair_leb
pair_Apart (a, b) (c, d) = elim (Bool-cases (pair_leb (a, b) (c, d) && pair_leb (c, d) (a, b))) [
  | inl h ↦ inl (
      ground (
        arith,
        text_beq_iff a c,
        text_beq_iff c a,
        text_leb_antisymm a c,
        text_leb_antisymm b d,
        h,
      ))
  | inr h ↦ inr h
]

pairs_AllApart : (ks : List (Text × Text)) → AllApart pair_leb ks
pairs_AllApart [] = tt
pairs_AllApart (k ∷ ks) = (all ks, pairs_AllApart ks)
  where
    all : (ks : List (Text × Text)) → All (Apart pair_leb k) ks
    all [] = tt
    all (j ∷ ks) = (pair_Apart k j, all ks)

sorted_pair_comm : (a b : Text) → sorted_pair a b ≡ sorted_pair b a
sorted_pair_comm a b = ground (arith, text_leb_total a b, text_leb_antisymm a b)

combinations-Reorders :
    {ks js : List Text} → Reorders ks js → Reorders (combinations ks) (combinations js)
combinations-Reorders (same ks) = same (combinations ks)
combinations-Reorders (swap a b ks) = rw (sorted_pair_comm a b) (
    skip (sorted_pair b a)
      (Reorders-exchange (map (sorted_pair a) ks) (map (sorted_pair b) ks) (combinations ks)))
combinations-Reorders (skip a r) =
    Reorders-append (map-Reorders (sorted_pair a) r) (combinations-Reorders r)
combinations-Reorders (chain r s) = chain (combinations-Reorders r) (combinations-Reorders s)

pub pairing_keys-Reorders : {ks js : List Text} → Reorders ks js → pairing_keys ks ≡ pairing_keys js
unfolding pairing_keys
pairing_keys-Reorders {ks} r =
    sort-Reorders pair_leb pair_leb-IsOrder (combinations-Reorders r)
      (pairs_AllApart (combinations ks))

-- Boards with distinct ids.
id_leb-IsOrder : IsOrder id_leb
id_leb-IsOrder = record {
  total = λ a b. text_leb_total a.board_id b.board_id;
  trans = λ a b c. text_leb-IsOrder.trans a.board_id b.board_id c.board_id;
}

abbrev pub HasDistinctIds : List Board → Type 0
HasDistinctIds bs = is_distinct (map (λ b. Board.board_id b) bs) ≡ true

id_Apart :
    (b : Board) (bs : List Board)
    → contains b.board_id (map (λ b. Board.board_id b) bs) ≡ false
    → All (Apart id_leb b) bs
id_Apart b [] h = tt
id_Apart b (c ∷ bs) h = (
  inr (
      ground
        (arith, text_leb_antisymm b.board_id c.board_id, text_beq_iff b.board_id c.board_id, h)),
  id_Apart b bs (ground (arith, h)),
)

boards_AllApart : (bs : List Board) → HasDistinctIds bs → AllApart id_leb bs
boards_AllApart [] h = tt
boards_AllApart (b ∷ bs) h =
    (id_Apart b bs (ground (arith, h)), boards_AllApart bs (ground (arith, h)))

All-filter_of :
    (P : Board → Type 0) (p : Board → Bool) (bs : List Board) → All P bs → All P (filter p bs)
All-filter_of P p [] h = tt
All-filter_of P p (b ∷ bs) h = by_test (p b) (All-filter_of P p bs h.1)
  where
    by_test : (t : Bool) → All P (filter p bs) → All P (if t then b ∷ filter p bs else filter p bs)
    by_test true r = (h.0, r)
    by_test false r = r

AllApart-filter :
    (p : Board → Bool) (bs : List Board) → AllApart id_leb bs → AllApart id_leb (filter p bs)
AllApart-filter p [] h = tt
AllApart-filter p (b ∷ bs) h = by_test (p b) (AllApart-filter p bs h.1)
  where
    by_test :
        (t : Bool)
        → AllApart id_leb (filter p bs)
        → AllApart id_leb (if t then b ∷ filter p bs else filter p bs)
    by_test true r = (All-filter_of (Apart id_leb b) p bs h.0, r)
    by_test false r = r

bank_of-Reorders :
    (p : Board → Bool) {xs ys : List Board}
    → Reorders xs ys
    → HasDistinctIds xs
    → bank_of p xs ≡ bank_of p ys
unfolding bank_of
bank_of-Reorders p {xs} r h =
    sort-Reorders id_leb id_leb-IsOrder (filter-Reorders p r)
      (AllApart-filter p xs (boards_AllApart xs h))

pub select_boards-Reorders :
    {xs ys : List Board} → Reorders xs ys → HasDistinctIds xs → select_boards xs ≡ select_boards ys
unfolding select_boards
select_boards-Reorders r h = ground (
  arith,
  bank_of-Reorders (is_probe_on (codes "gender-career")) r h,
  bank_of-Reorders (is_probe_on (codes "gender-science")) r h,
  bank_of-Reorders is_control r h,
)
