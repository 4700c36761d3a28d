-- ===== src/Schedule/Order.antt =====
-- backend/app/core/batch_schedule.py: the schedule and the order of its inputs.
use codenames_llm_bias.Shared.{
  get_item, ℕ, suc, ◌≡◌, refl, sym, ap, ◌∙◌, true, List, [], ◌∷◌, map, nat_eq, text_eq,
  text_beq_iff, Text, length, length-map, length-Reorders, contains, is_distinct, Reorders, same,
  swap, skip, chain, map-Reorders, arith,
}
use codenames_llm_bias.Schemas.Board.{Board}
use codenames_llm_bias.Schedule.{
  SeatSpec, model_id, Result, ok, err, by_id, pairing_keys, select_boards, batch_cells,
  build_schedule, built_from,
}
use codenames_llm_bias.Schedule.Models.{by_id-entries}
use codenames_llm_bias.Schedule.Banks.{
  HasDistinctIds, pairing_keys-Reorders, select_boards-Reorders,
}

-- Models with distinct ids.
abbrev entries : List SeatSpec → List (Text × SeatSpec)
entries ms = map (λ m. (model_id m, m)) ms

abbrev pub HasDistinctModels : List SeatSpec → Type 0
HasDistinctModels ms = is_distinct (map model_id ms) ≡ true

contains-Reorders : (k : Text) {ks js : List Text} → Reorders ks js → contains k ks ≡ contains k js
contains-Reorders k (same ks) = refl
contains-Reorders k (swap a b ks) = ground arith
contains-Reorders k (skip a r) = ground (arith, contains-Reorders k r)
contains-Reorders k (chain r s) = contains-Reorders k r ∙ contains-Reorders k s

get_item-Reorders :
    (k : Text) {ms ns : List SeatSpec}
    → Reorders ms ns
    → HasDistinctModels ms
    → (get_item k (entries ms) ≡ get_item k (entries ns)) × HasDistinctModels ns
get_item-Reorders k (same ms) h = (refl, h)
get_item-Reorders k (swap m n ms) h = ground (
  arith,
  text_beq_iff (model_id m) k,
  text_beq_iff (model_id n) k,
  text_beq_iff (model_id m) (model_id n),
  text_beq_iff (model_id n) (model_id m),
)
get_item-Reorders k (skip {xs} {ys} m r) h =
    let (p, d) = get_item-Reorders k r (ground (arith, h)) in
    ground (arith, p, d, contains-Reorders (model_id m) (map-Reorders model_id r))
get_item-Reorders k (chain r s) h =
    let (p, d) = get_item-Reorders k r h in let (q, d') = get_item-Reorders k s d in (p ∙ q, d')

entries_keys :
    (ms : List SeatSpec) → map (λ (e : Text × SeatSpec). e.0) (entries ms) ≡ map model_id ms
entries_keys [] = refl
entries_keys (m ∷ ms) = ap (◌∷◌ (model_id m)) (entries_keys ms)

module _ (game_identity : ℕ → ℕ → Text) (master_seed : ℕ) where
  -- The games depend on the dict through its items alone.
  batch_cells_same :
      (d e : List (Text × SeatSpec)) (selected : List Board)
      → ((k : Text) → get_item k d ≡ get_item k e)
      → (p : ℕ) (keys : List (Text × Text))
      → batch_cells game_identity master_seed d selected p keys
        ≡ batch_cells game_identity master_seed e selected p keys
  unfolding batch_cells
  batch_cells_same d e selected h p [] = refl
  batch_cells_same d e selected h p ((x, y) ∷ keys) =
      ground (arith, h x, h y, batch_cells_same d e selected h (suc p) keys)

  built_from_same :
      (d e : List (Text × SeatSpec))
      → ((k : Text) → get_item k d ≡ get_item k e)
      → pairing_keys (map (λ (x : Text × SeatSpec). x.0) d)
        ≡ pairing_keys (map (λ (x : Text × SeatSpec). x.0) e)
      → (r : Result (List Board))
      → built_from game_identity master_seed d r ≡ built_from game_identity master_seed e r
  built_from_same d e h q (err x) = refl
  built_from_same d e h q (ok selected) = ground (
    arith,
    q,
    batch_cells_same d e selected h 0 (pairing_keys (map (λ (x : Text × SeatSpec). x.0) e)),
  )

  -- With distinct models and distinct board ids, the schedule, or the error, does not depend on the
  -- order in which the models and the boards are given.
  pub build_schedule-Reorders :
      {models models' : List SeatSpec} {boards boards' : List Board}
      → Reorders models models'
      → Reorders boards boards'
      → HasDistinctModels models
      → HasDistinctIds boards
      → build_schedule game_identity master_seed models boards
        ≡ build_schedule game_identity master_seed models' boards'
  unfolding build_schedule
  build_schedule-Reorders {models} {models'} {boards} {boards'} r s h k =
      let d = (get_item-Reorders [] r h).1 in
      let e = by_id-entries models h in
      let e' = by_id-entries models' d in
      let keys : pairing_keys (map (λ (x : Text × SeatSpec). x.0) (by_id models))
          ≡ pairing_keys (map (λ (x : Text × SeatSpec). x.0) (by_id models')) =
        rw (e, e', entries_keys models, entries_keys models')
          (pairing_keys-Reorders (map-Reorders model_id r)) in
      let items =
        λ (t : Text). ap (get_item t) e ∙ (get_item-Reorders t r h).0 ∙ sym (ap (get_item t) e') in
      ground (
        arith,
        built_from_same (by_id models) (by_id models') items keys (select_boards boards),
        select_boards-Reorders s k,
        length-Reorders r,
        ap length e ∙ length-map (λ m. (model_id m, m)) models,
        ap length e' ∙ length-map (λ m. (model_id m, m)) models',
      )
