-- ===== src/Shared/Strings.antt =====
-- Python's `str` as a list of code points, with the methods the source calls.
use Prim.Native.Nat.{ℕ, zero, suc, ◌+◌}
use Prim.Native.Char.{code}
use Prim.Native.String.{String}
use mathlib.Core.Path.{◌≡◌, refl, sym, ◌∙◌}
use mathlib.Core.Logic.{◌↔◌}
use mathlib.Core.Bool.{Bool, true, false, not, ◌&&◌, ◌||◌}
use mathlib.Core.List.{List, [], ◌∷◌, map}
use native.Mathlib.Omega.{arith}
use codenames_llm_bias.Shared.Tests.{Eq, ◌==◌, nat_eq, if◌then◌else◌, leb, nat_beq}
use codenames_llm_bias.Shared.Lists.{all_of, length}

abbrev pub Text : Type 0
Text = List ℕ

abbrev pub codes : String → Text
codes String.[] = []
codes (String.◌∷◌ c s) = code c ∷ codes s

abbrev pub text_beq : Text → Text → Bool
text_beq [] [] = true
text_beq (a ∷ s) (b ∷ t) = nat_beq a b && text_beq s t
text_beq _ _ = false

pub text_beq_iff : (s t : Text) → (text_beq s t ≡ true) ↔ (s ≡ t)
text_beq_iff [] [] = ground arith
text_beq_iff [] (b ∷ t) = ground arith
text_beq_iff (a ∷ s) [] = ground arith
text_beq_iff (a ∷ s) (b ∷ t) = ground (arith, text_beq_iff s t)

instance abbrev pub text_eq : Eq Text
text_eq = record { is_same = text_beq; decides = text_beq_iff }

-- The white space of ASCII: tab to carriage return, the four separators, and the blank.
abbrev pub is_space : ℕ → Bool
is_space c = (leb 9 c && leb c 13) || (leb 28 c && leb c 32)

abbrev pub lower_code : ℕ → ℕ
lower_code c = if leb b'A' c && leb c b'Z' then c + 32 else c

-- `str.lower`
unfoldable pub lower : Text → Text
lower = map lower_code

-- `str.lstrip` and `str.rstrip`
lstrip : Text → Text
lstrip [] = []
lstrip (c ∷ s) = let rest = lstrip s in if is_space c then rest else c ∷ s

rstrip : Text → Text
rstrip [] = []
rstrip (c ∷ s) = elim (rstrip s) [ [] ↦ if is_space c then [] else c ∷ [] | d ∷ t ↦ c ∷ d ∷ t ]

unfoldable pub strip : Text → Text
unfolding lstrip rstrip
strip s = rstrip (lstrip s)

-- No character of the text is a space, and there is one: the pattern `^\S+$`.
abbrev pub has_no_space : Text → Bool
has_no_space s = all_of (λ c. not (is_space c)) s

lstrip_lem : (s : Text) → has_no_space s ≡ true → lstrip s ≡ s
unfolding lstrip
lstrip_lem [] h = refl
lstrip_lem (c ∷ s) h = ground arith

rstrip_lem : (s : Text) → has_no_space s ≡ true → rstrip s ≡ s
unfolding rstrip
rstrip_lem [] h = refl
rstrip_lem (c ∷ []) h = ground arith
rstrip_lem (c ∷ d ∷ s) h = ground (arith, rstrip_lem (d ∷ s))

-- A text without spaces is stripped to itself.
pub strip_lem : (s : Text) → has_no_space s ≡ true → strip s ≡ s
unfolding strip
strip_lem s h = rw (lstrip_lem s h) (rstrip_lem s h)

lstrip_spaces : (s : Text) → all_of is_space (lstrip s) ≡ all_of is_space s
unfolding lstrip
lstrip_spaces [] = refl
lstrip_spaces (c ∷ s) = ground (arith, lstrip_spaces s)

rstrip_spaces :
    (s : Text)
    → (all_of is_space (rstrip s) ≡ all_of is_space s)
      × ((length (rstrip s) == 0) ≡ all_of is_space s)
unfolding rstrip
rstrip_spaces [] = (refl, refl)
rstrip_spaces (c ∷ s) = ground (arith, rstrip_spaces s)

strip_spaces : (s : Text) → all_of is_space (strip s) ≡ all_of is_space s
unfolding strip
strip_spaces s = (rstrip_spaces (lstrip s)).0 ∙ lstrip_spaces s

strip_blank : (s : Text) → (length (strip s) == 0) ≡ all_of is_space s
unfolding strip
strip_blank s = (rstrip_spaces (lstrip s)).1 ∙ lstrip_spaces s

-- A stripped text is blank exactly when the text is.
pub strip-strip_blank : (s : Text) → (length (strip (strip s)) == 0) ≡ (length (strip s) == 0)
strip-strip_blank s = strip_blank (strip s) ∙ strip_spaces s ∙ sym (strip_blank s)

-- `t.startswith(s)`
unfoldable pub starts_with : Text → Text → Bool
starts_with [] t = true
starts_with (a ∷ s) [] = false
starts_with (a ∷ s) (b ∷ t) = nat_beq a b && starts_with s t

-- `s in t`
unfoldable pub is_infix : Text → Text → Bool
is_infix s [] = starts_with s []
is_infix s (b ∷ t) = starts_with s (b ∷ t) || is_infix s t

-- `t.endswith(s)`
unfoldable pub ends_with : Text → Text → Bool
ends_with s [] = text_beq s []
ends_with s (b ∷ t) = text_beq s (b ∷ t) || ends_with s t

-- `a == b` of two lists of texts.
abbrev pub same_texts : List Text → List Text → Bool
same_texts [] [] = true
same_texts (x ∷ xs) (y ∷ ys) = x == y && same_texts xs ys
same_texts _ _ = false

-- `t[n:]`
abbrev pub text_drop : ℕ → Text → Text
text_drop zero t = t
text_drop (suc n) [] = []
text_drop (suc n) (c ∷ t) = text_drop n t
