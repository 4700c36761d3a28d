-- ===== src/Schedule/Models.antt =====
-- backend/app/core/batch_schedule.py: the dict of the models by their ids.
use codenames_llm_bias.Shared.{
  set_item, suc, ◌+◌, ◌≤◌, ◌≡◌, ◌↔◌, refl, sym, ap, ◌∙◌, Bool, true, false, not, ◌&&◌, ◌||◌, List,
  [], ◌∷◌, ◌++◌, map, ◌==◌, text_eq, text_beq_iff, Text, length, all_of, contains, is_distinct,
  if◌then◌else◌, arith,
}
use mathlib.Core.List.{append-nil, append_assoc}
use codenames_llm_bias.Schedule.{SeatSpec, model_id, by_id_from, by_id}

abbrev keys : List (Text × SeatSpec) → List Text
keys d = map (λ e. e.0) d

-- None of the models is in the dict.
abbrev all_new : List (Text × SeatSpec) → List SeatSpec → Bool
all_new d ms = all_of (λ m. not (contains (model_id m) (keys d))) ms

contains-set_item :
    (j k : Text) (v : SeatSpec) (d : List (Text × SeatSpec))
    → contains j (keys (set_item k v d)) ≡ (contains j (keys d) || (j == k))
contains-set_item j k v [] = ground arith
contains-set_item j k v ((i, w) ∷ d) =
    ground (arith, contains-set_item j k v d, text_beq_iff i k, text_beq_iff j i, text_beq_iff j k)

length-set_item :
    (k : Text) (v : SeatSpec) (d : List (Text × SeatSpec))
    → length (set_item k v d) ≡ (if contains k (keys d) then length d else suc (length d))
length-set_item k v [] = refl
length-set_item k v ((i, w) ∷ d) =
    ground (arith, length-set_item k v d, text_beq_iff i k, text_beq_iff k i)

all_new-set_item :
    (k : Text) (v : SeatSpec) (d : List (Text × SeatSpec)) (ms : List SeatSpec)
    → all_new (set_item k v d) ms ≡ (all_new d ms && not (contains k (map model_id ms)))
all_new-set_item k v d [] = refl
all_new-set_item k v d (m ∷ ms) = ground (
  arith,
  all_new-set_item k v d ms,
  contains-set_item (model_id m) k v d,
  text_beq_iff (model_id m) k,
  text_beq_iff k (model_id m),
)

length-by_id_from-le :
    (d : List (Text × SeatSpec)) (ms : List SeatSpec)
    → length (by_id_from d ms) ≤ length d + length ms
length-by_id_from-le d [] = omega arith
length-by_id_from-le d (m ∷ ms) =
    let d' = set_item (model_id m) m d in
    ground (arith, length-by_id_from-le d' ms, length-set_item (model_id m) m d)

length-by_id_from :
    (d : List (Text × SeatSpec)) (ms : List SeatSpec)
    → (length (by_id_from d ms) ≡ length d + length ms)
      ↔ ((is_distinct (map model_id ms) && all_new d ms) ≡ true)
length-by_id_from d [] = ((λ _. refl), (λ _. omega arith))
length-by_id_from d (m ∷ ms) =
    let d' = set_item (model_id m) m d in
    ground (
      arith,
      length-by_id_from-le d' ms,
      length-set_item (model_id m) m d,
      length-by_id_from d' ms,
      all_new-set_item (model_id m) m d ms,
    )

all_new-nil : (ms : List SeatSpec) → all_new [] ms ≡ true
all_new-nil [] = refl
all_new-nil (m ∷ ms) = all_new-nil ms

-- The dict keeps the number of the models exactly when their ids are distinct.
pub length-by_id_iff :
    (ms : List SeatSpec) → (length (by_id ms) ≡ length ms) ↔ (is_distinct (map model_id ms) ≡ true)
unfolding by_id
length-by_id_iff ms = ground (arith, length-by_id_from [] ms, all_new-nil ms)

abbrev entries : List SeatSpec → List (Text × SeatSpec)
entries ms = map (λ m. (model_id m, m)) ms

set_item_new :
    (k : Text) (v : SeatSpec) (d : List (Text × SeatSpec))
    → contains k (keys d) ≡ false
    → set_item k v d ≡ d ++ ((k, v) ∷ [])
set_item_new k v [] h = refl
set_item_new k v ((i, w) ∷ d) h =
    ground (arith, h, text_beq_iff i k, text_beq_iff k i, set_item_new k v d)

by_id_from-entries :
    (d : List (Text × SeatSpec)) (ms : List SeatSpec)
    → (is_distinct (map model_id ms) && all_new d ms) ≡ true
    → by_id_from d ms ≡ d ++ entries ms
by_id_from-entries d [] h = sym (append-nil d)
by_id_from-entries d (m ∷ ms) h =
    let new : contains (model_id m) (keys d) ≡ false = ground (arith, h) in
    by_id_from-entries (set_item (model_id m) m d) ms
      (ground (arith, h, all_new-set_item (model_id m) m d ms))
    ∙ ap (λ e. e ++ entries ms) (set_item_new (model_id m) m d new)
    ∙ append_assoc d ((model_id m, m) ∷ []) (entries ms)

-- The dict of distinct models holds each under its id, in their order.
pub by_id-entries :
    (ms : List SeatSpec)
    → is_distinct (map model_id ms) ≡ true
    → by_id ms ≡ map (λ m. (model_id m, m)) ms
unfolding by_id
by_id-entries ms h = by_id_from-entries [] ms (ground (arith, h, all_new-nil ms))
