-- ===== src/Validator.antt =====
-- backend/app/core/clue_validator.py: the visible words of `ClueValidator`. The dicts of lemmas and
-- analyses have the same keys, and their values depend on the key alone.
use codenames_llm_bias.Shared.{
  List, [], ◌∷◌, map, Option, if◌then◌else◌, contains, remove, Text, text_eq, lower, strip,
}
use codenames_llm_bias.Schemas.Card.{WordCard, key}
use codenames_llm_bias.Schemas.State.{ClueEntry}
pub mod Morphology
pub mod Families
pub mod Words
pub mod Clues
pub mod Legal

-- The keys of `visible_words`, in the order of insertion. The dicts of the lemmas and of the analyses have the same
-- keys, as they are built and shrunk together, and what they hold is computed from the key where it is read.
pub record ClueValidator : Type 0 where
  pub visible_words : List Text

-- A dict comprehension: a key that comes again keeps its first place.
abbrev pub dict_keys : List Text → List Text → List Text
dict_keys seen [] = []
dict_keys seen (w ∷ ws) =
    let rest = dict_keys (w ∷ seen) ws in
    let again = dict_keys seen ws in if contains w seen then again else w ∷ rest

unfoldable pub new : List WordCard → ClueValidator
new cards = record { visible_words = dict_keys [] (map key cards) }

unfoldable pub remove_word : Text → ClueValidator → ClueValidator
remove_word word v = record v { visible_words = remove (lower (strip word)) v.visible_words }

-- `is_valid`, as the reason why a clue is invalid; `none` stands for a valid clue.
abbrev pub IsValidClue : Type 0
IsValidClue = ClueValidator → ClueEntry → Option Text
