-- ===== src/Shared/Dict.antt =====
-- Python's `dict` with texts as keys, as a list of items in the order of insertion.
use mathlib.Core.Option.{Option, none, some}
use mathlib.Core.List.{List, [], ◌∷◌}
use codenames_llm_bias.Shared.Tests.{◌==◌, if◌then◌else◌}
use codenames_llm_bias.Shared.Strings.{Text, text_eq}

module _ {ℓ} {V : Type ℓ} where
  -- `d[k] = v`: a key that is there keeps its place.
  abbrev pub set_item : Text → V → List (Text × V) → List (Text × V)
  set_item k v [] = (k, v) ∷ []
  set_item k v ((j, w) ∷ d) = if j == k then (k, v) ∷ d else (j, w) ∷ set_item k v d

  -- `d.get(k)`
  abbrev pub get_item : Text → List (Text × V) → Option V
  get_item k [] = none
  get_item k ((j, w) ∷ d) = if j == k then some w else get_item k d

  -- The items of `{k: v for ...}`.
  abbrev pub dict_from : List (Text × V) → List (Text × V) → List (Text × V)
  dict_from d [] = d
  dict_from d ((k, v) ∷ items) = dict_from (set_item k v d) items
