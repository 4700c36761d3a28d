-- ===== src/Batch/Run/Snapshots.antt =====
-- backend/app/core/batch_runner.py: the models that are read off a stored snapshot.
use codenames_llm_bias.Shared.{
  ℕ, suc, ◌≡◌, refl, sym, ap, ◌∙◌, Bool, true, false, not, ◌||◌, Option, some, List, [], ◌∷◌, ◌++◌,
  append_none, append_one, map, ◌==◌, nat_eq, text_eq, Text, text_beq_iff, contains, is_distinct,
  all_of, dict_from, set_item, arith,
}
use codenames_llm_bias.Schedule.{SeatSpec, model_id}
use codenames_llm_bias.Gate.{Serving, registry_entry, model_registry_snapshot}
use codenames_llm_bias.Batch.Resume.{snapshot_items, snapshot_models}
use codenames_llm_bias.Batch.Site.{keyed}

abbrev pub keys_of : List (Text × Option Text) → List Text
keys_of d = map (λ (e : Text × Option Text). e.0) d

-- None of the items has a key of the dict.
abbrev all_new : List (Text × Option Text) → List (Text × Option Text) → Bool
all_new d items = all_of (λ (e : Text × Option Text). not (contains e.0 (keys_of d))) items

set_item_new :
    (k : Text) (v : Option Text) (d : List (Text × Option Text))
    → contains k (keys_of d) ≡ false
    → set_item k v d ≡ d ++ ((k, v) ∷ [])
set_item_new k v [] h = refl
set_item_new k v ((i, w) ∷ d) h =
    ground (arith, h, text_beq_iff i k, text_beq_iff k i, set_item_new k v d)

contains-snoc :
    (j k : Text) (v : Option Text) (d : List (Text × Option Text))
    → contains j (keys_of (d ++ ((k, v) ∷ []))) ≡ (contains j (keys_of d) || (j == k))
contains-snoc j k v [] = ground arith
contains-snoc j k v (e ∷ d) = ground (arith, contains-snoc j k v d)

all_new-snoc :
    (k : Text) (v : Option Text) (d items : List (Text × Option Text))
    → all_new d items ≡ true
    → contains k (keys_of items) ≡ false
    → all_new (d ++ ((k, v) ∷ [])) items ≡ true
all_new-snoc k v d [] h n = refl
all_new-snoc k v d ((j, w) ∷ items) h n = ground (
  arith,
  h,
  n,
  contains-snoc j k v d,
  all_new-snoc k v d items,
  text_beq_iff j k,
  text_beq_iff k j,
)

-- A dict of distinct keys has its items.
dict_from_distinct :
    (d items : List (Text × Option Text))
    → is_distinct (keys_of items) ≡ true
    → all_new d items ≡ true
    → dict_from d items ≡ d ++ items
dict_from_distinct d [] h n = sym (append_none d)
dict_from_distinct d ((k, v) ∷ items) h n =
    let fresh : set_item k v d ≡ d ++ ((k, v) ∷ []) = set_item_new k v d (ground (arith, n)) in
    ap (λ x. dict_from x items) fresh
    ∙ dict_from_distinct (d ++ ((k, v) ∷ [])) items (ground (arith, h))
        (all_new-snoc k v d items (ground (arith, n)) (ground (arith, h)))
    ∙ append_one d (k, v) items

all_new_empty : (items : List (Text × Option Text)) → all_new [] items ≡ true
all_new_empty [] = refl
all_new_empty (e ∷ items) = all_new_empty items

module _ (s : Serving) where
  entry_name :
      (spec : SeatSpec)
      → ((registry_entry s spec).provider ≡ spec.provider)
        × ((registry_entry s spec).model_name ≡ spec.model_name)
  unfolding registry_entry
  entry_name spec = (ground arith, ground arith)

  keyed_models :
      (i : ℕ) (specs : List SeatSpec)
      → keys_of (snapshot_items (keyed i (model_registry_snapshot s specs))) ≡ map model_id specs
  unfolding model_registry_snapshot
  keyed_models i [] = refl
  keyed_models i (spec ∷ specs) =
      ap (λ p. (p ++ (b':' ∷ (registry_entry s spec).model_name)) ∷ _) (entry_name spec).0
      ∙ ap (λ m. (spec.provider ++ (b':' ∷ m)) ∷ _) (entry_name spec).1
      ∙ ap (◌∷◌ (model_id spec)) (keyed_models (suc i) specs)

  -- The models of a stored snapshot are those it was made for.
  pub snapshot_models_lem :
      (specs : List SeatSpec)
      → is_distinct (map model_id specs) ≡ true
      → keys_of (snapshot_models (some (keyed 0 (model_registry_snapshot s specs))))
        ≡ map model_id specs
  unfolding snapshot_models
  snapshot_models_lem specs h =
      let items = snapshot_items (keyed 0 (model_registry_snapshot s specs)) in
      let same = keyed_models 0 specs in
      ap keys_of (dict_from_distinct [] items (ap is_distinct same ∙ h) (all_new_empty items))
      ∙ same
