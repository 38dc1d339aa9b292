-- ===== src/Base/Strings.antt =====
-- Python strings as lists of code points, with the `str` methods the services call.
use Prim.Native.Char.{code}
use Prim.Native.Nat.{ℕ}
use Prim.Native.String.{String}
use mathlib.Core.Bool.{Bool, false, true, ◌&&◌, ◌||◌}
use mathlib.Core.List.{List, [], reverse, ◌∷◌}
use mathlib.Core.Option.{Option, none, some}
use mathlib.Core.Path.{refl, ◌≡◌}
use native.Mathlib.Omega.{arith}
use stapel_chat.Base.Tests.{if◌then◌else◌, leb, ◌==◌}

abbrev pub Text : Type 0
Text = List ℕ

-- The code points of a literal.
abbrev pub codes : String → Text
codes String.[] = []
codes (String.◌∷◌ c s) = code c ∷ codes s

unfoldable pub text_eq : Text → Text → Bool
text_eq [] [] = true
text_eq [] (y ∷ ys) = false
text_eq (x ∷ xs) [] = false
text_eq (x ∷ xs) (y ∷ ys) = x == y && text_eq xs ys

pub text_eq_sound : (xs ys : Text) → text_eq xs ys ≡ true → xs ≡ ys
unfolding text_eq
text_eq_sound [] [] h = refl
text_eq_sound [] (y ∷ ys) h = cc
text_eq_sound (x ∷ xs) [] h = cc
text_eq_sound (x ∷ xs) (y ∷ ys) h = ground (arith, text_eq_sound xs ys)

pub text_eq_self : (xs : Text) → text_eq xs xs ≡ true
unfolding text_eq
text_eq_self [] = refl
text_eq_self (x ∷ xs) = ground (arith, text_eq_self xs)

-- `not s`
abbrev pub is_empty : Text → Bool
is_empty [] = true
is_empty (x ∷ xs) = false

-- `str.isspace` of one code point
unfoldable pub is_space : ℕ → Bool
is_space c =
    leb 9 c && leb c 13
    || leb 28 c && leb c 32
    || c == 133
    || c == 160
    || c == 5760
    || leb 8192 c && leb c 8202
    || c == 8232
    || c == 8233
    || c == 8239
    || c == 8287
    || c == 12288

unfoldable pub drop_spaces : Text → Text
unfolding is_space
drop_spaces [] = []
drop_spaces (c ∷ cs) = if is_space c then drop_spaces cs else c ∷ cs

-- `str.strip()`
unfoldable pub strip : Text → Text
unfolding drop_spaces
strip s = reverse (drop_spaces (reverse (drop_spaces s)))

-- `str.startswith`
unfoldable pub starts_with : Text → Text → Bool
starts_with [] s = true
starts_with (p ∷ ps) [] = false
starts_with (p ∷ ps) (c ∷ cs) = p == c && starts_with ps cs

-- `needle in s`
unfoldable pub has_infix : Text → Text → Bool
unfolding starts_with
has_infix needle [] = is_empty needle
has_infix needle (c ∷ cs) = starts_with needle (c ∷ cs) || has_infix needle cs

-- `c in s`
unfoldable pub has_code : ℕ → Text → Bool
has_code k [] = false
has_code k (c ∷ cs) = c == k || has_code k cs

-- `s.split(c, 1)[0]`
unfoldable pub before_code : ℕ → Text → Text
before_code k [] = []
before_code k (c ∷ cs) = if c == k then [] else c ∷ before_code k cs

-- `s.rpartition(c)`: the parts before and after the last `c`, if there is one
unfoldable pub split_last : ℕ → Text → Option (Text × Text)
split_last k [] = none
split_last k (c ∷ cs) = elim (split_last k cs) [
  | some parts ↦ some (c ∷ parts.0, parts.1)
  | none ↦ if c == k then some ([], cs) else none
]

-- `name in names`
unfoldable pub has_text : Text → List Text → Bool
has_text t [] = false
has_text t (x ∷ xs) = text_eq t x || has_text t xs

-- A `dict` keyed by strings, as a list of entries of which the first that fits counts.
module _ {ℓ} {V : Type ℓ} where
  unfoldable pub lookup : Text → List (Text × V) → Option V
  lookup k [] = none
  lookup k ((j, v) ∷ d) = if text_eq j k then some v else lookup k d
