-- ===== src/Validator/Morphology.antt =====
-- backend/app/core/clue_validator.py: the segmentations of MorphoLex, read into units. The lookup of a
-- word's segmentation is a parameter.
use codenames_llm_bias.Shared.{
  ℕ, zero, suc, ◌≤◌, ◌≡◌, refl, Bool, true, false, not, ◌&&◌, ◌||◌, Option, none, some, List, [],
  ◌∷◌, ◌++◌, map, if◌then◌else◌, if_cases, ◌==◌, nat_eq, text_eq, leb, ltb, length, Text, codes,
  contains, is_infix, arith,
}

-- _Unit
pub record MorphUnit : Type 0 where
  pub stem : Text
  pub roots : List Text
  pub fused_prefix : Bool

-- _PARTICLES
unfoldable pub particles : List Text
particles =
    codes "after"
    ∷ codes "back"
    ∷ codes "by"
    ∷ codes "cross"
    ∷ codes "down"
    ∷ codes "half"
    ∷ codes "in"
    ∷ codes "off"
    ∷ codes "on"
    ∷ codes "out"
    ∷ codes "over"
    ∷ codes "through"
    ∷ codes "under"
    ∷ codes "up"
    ∷ []

-- f"({root})"
abbrev pub bracketed : Text → Text
bracketed root = b'(' ∷ (root ++ (b')' ∷ []))

-- `_Unit(f"({root})", (root,), False)`
abbrev pub root_of : Text → MorphUnit
root_of root = record { stem = bracketed root; roots = root ∷ []; fused_prefix = false }

-- What stands before `_closing(segmentation, char, i)` and after it: without the character, the last
-- place is taken for it.
unfoldable pub closing : ℕ → Text → Text × Text
closing char [] = ([], [])
closing char (c ∷ rest) =
    let (before, after) = closing char rest in
    if c == char then ([], rest) else elim rest [ [] ↦ ([], []) | d ∷ more ↦ (c ∷ before, after) ]

-- The loop over a root group, `depth` braces inside of it: what stands before the brace that closes it,
-- or before the end of the text, and what stands after.
unfoldable pub group_end : ℕ → Text → Text × Text
group_end depth [] = ([], [])
group_end zero (c ∷ rest) =
    let (deeper, after_deeper) = group_end 1 rest in
    let (same, after_same) = group_end 0 rest in
    if c == b'{'
    then (c ∷ deeper, after_deeper)
    else if c == b'}'
    then ([], rest)
    else (c ∷ same, after_same)
group_end (suc depth) (c ∷ rest) =
    let (deeper, after_deeper) = group_end (suc (suc depth)) rest in
    let (same, after_same) = group_end (suc depth) rest in
    let (out, after_out) = group_end depth rest in
    if c == b'{'
    then (c ∷ deeper, after_deeper)
    else if c == b'}'
    then (c ∷ out, after_out)
    else (c ∷ same, after_same)

abbrev pub is_special : ℕ → Bool
is_special c = c == b'(' || c == b')' || c == b'<' || c == b'>' || c == b'{' || c == b'}'

-- The matches of r"\(([^()<>{}]+)\)" and the text without them; `run` is what was read since an open
-- bracket.
unfoldable pub scan_roots : Option Text → Text → List Text × Text
scan_roots none [] = ([], [])
scan_roots (some run) [] = ([], b'(' ∷ run)
scan_roots none (c ∷ rest) =
    let (roots, left) = scan_roots none rest in
    let opened = scan_roots (some []) rest in if c == b'(' then opened else (roots, c ∷ left)
scan_roots (some run) (c ∷ rest) =
    let (roots, left) = scan_roots none rest in
    let (roots', left') = scan_roots (some []) rest in
    let longer = scan_roots (some (run ++ (c ∷ []))) rest in
    if c == b'('
    then (roots', b'(' ∷ (run ++ left'))
    else if c == b')' && not (length run == 0)
    then (run ∷ roots, left)
    else if is_special c
    then (roots, b'(' ∷ (run ++ (c ∷ left)))
    else longer

abbrev pub any_of : {A : Type 0} → (A → Bool) → List A → Bool
any_of p [] = false
any_of p (x ∷ xs) = p x || any_of p xs

module _ (segmentation_of : Text → Option Text) where
  -- `word in self`
  abbrev pub in_morpholex : Text → Bool
  in_morpholex word = elim (segmentation_of word) [ none ↦ false | some s ↦ true ]

  unfoldable pub group_units : Text → Text → List MorphUnit
  group_units word group =
      let (roots, fused_affixes) = scan_roots none group in
      let parts_of_their_own =
        any_of (λ root. leb 3 (length root) && is_infix root word && in_morpholex root) roots in
      if length roots == 0
      then []
      else if ltb 1 (length roots) && length fused_affixes == 0 && parts_of_their_own
      then map root_of roots
      else record { stem = group; roots = roots; fused_prefix = contains b'<' group } ∷ []

  -- One round of the loop: the units that the character starts, and the text after them.
  unfoldable pub read_unit : Text → ℕ → Text → List MorphUnit × Text
  read_unit word c rest =
      let prefix : List MorphUnit =
        if contains (closing b'<' rest).0 particles
        then root_of (closing b'<' rest).0 ∷ []
        else [] in
      if c == b'<'
      then (prefix, (closing b'<' rest).1)
      else if c == b'{'
      then (group_units word (group_end 0 rest).0, (group_end 0 rest).1)
      else if c == b'('
      then (root_of (closing b')' rest).0 ∷ [], (closing b')' rest).1)
      else if c == b'>'
      then ([], (closing b'>' rest).1)
      else ([], rest)

  -- `while i < len(segmentation)`, on the text that is left and on fuel; `none` means that it ran out.
  unfoldable pub parse_loop : ℕ → Text → Text → Option (List MorphUnit)
  parse_loop zero word [] = some []
  parse_loop zero word (c ∷ rest) = none
  parse_loop (suc fuel) word [] = some []
  parse_loop (suc fuel) word (c ∷ rest) = elim (parse_loop fuel word (read_unit word c rest).1) [
    | none ↦ none
    | some more ↦ some ((read_unit word c rest).0 ++ more)
  ]

  -- `_parse`: `tuple(units) or None`. The fuel is the length of the segmentation.
  unfoldable pub parse : Text → Text → Option (List MorphUnit)
  parse word segmentation = elim (parse_loop (length segmentation) word segmentation) [
    | none ↦ none
    | some us ↦ elim us [ [] ↦ none | u ∷ more ↦ some (u ∷ more) ]
  ]

  -- `units`, without its cache.
  unfoldable pub units : Text → Option (List MorphUnit)
  units word = elim (segmentation_of word) [ none ↦ none | some s ↦ parse word s ]

closing_shorter : (char : ℕ) (s : Text) → length (closing char s).1 ≤ length s
unfolding closing
closing_shorter char [] = omega arith
closing_shorter char (c ∷ []) = ground arith
closing_shorter char (c ∷ d ∷ rest) = ground (arith, closing_shorter char (d ∷ rest))

group_end_shorter : (depth : ℕ) (s : Text) → length (group_end depth s).1 ≤ length s
unfolding group_end
group_end_shorter depth [] = omega arith
group_end_shorter zero (c ∷ rest) =
    ground (arith, group_end_shorter 1 rest, group_end_shorter 0 rest)
group_end_shorter (suc depth) (c ∷ rest) = ground (
  arith,
  group_end_shorter (suc (suc depth)) rest,
  group_end_shorter (suc depth) rest,
  group_end_shorter depth rest,
)

read_unit_shorter :
    (f : Text → Option Text) (word : Text) (c : ℕ) (rest : Text)
    → length (read_unit f word c rest).1 ≤ length rest
unfolding read_unit
read_unit_shorter f word c rest =
    let P : List MorphUnit × Text → Type 0 = λ r. length r.1 ≤ length rest in
    if_cases P (c == b'<') (closing_shorter b'<' rest) (
      if_cases P (c == b'{') (group_end_shorter 0 rest) (
        if_cases P (c == b'(') (closing_shorter b')' rest)
          (if_cases P (c == b'>') (closing_shorter b'>' rest) (omega arith))))

-- The loop over a segmentation ends, since a round takes at least one character: its length is
-- enough fuel.
pub parse_loop_total :
    (segmentation_of : Text → Option Text) (fuel : ℕ) (word s : Text)
    → length s ≤ fuel
    → (us : List MorphUnit) × (parse_loop segmentation_of fuel word s ≡ some us)
unfolding parse_loop
parse_loop_total f zero word [] h = ([], refl)
parse_loop_total f zero word (c ∷ rest) h = absurd (omega (arith, h))
parse_loop_total f (suc fuel) word [] h = ([], refl)
parse_loop_total f (suc fuel) word (c ∷ rest) h =
    let (more, q) =
      parse_loop_total f fuel word (read_unit f word c rest).1
        (omega (arith, h, read_unit_shorter f word c rest)) in
    ((read_unit f word c rest).0 ++ more, rw q refl)
