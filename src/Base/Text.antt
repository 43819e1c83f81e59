-- ===== src/Base/Text.antt =====
-- Texts as lists of code points, with the operations of `str` that the program calls.
pub mod Format
use Prim.Native.Nat.{ℕ, ◌+◌, ◌-◌, ◌*◌, ◌<◌}
use Prim.Native.Char.{code}
use Prim.Native.String.{String}
use mathlib.Core.Path.{◌≡◌, refl}
use mathlib.Core.Bool.{Bool, true, false, ◌&&◌, ◌||◌}
use mathlib.Core.List.{List, [], ◌∷◌, map, reverse}
use mathlib.Core.Logic.{inl, inr}
use mathlib.Core.Option.{Option, none, some}
use native.Mathlib.Omega.{arith}
use macos_c_debugger_rust.Base.Tests.{Option-cases, ltb, leb, ◌==◌, if◌then◌else◌}

abbrev pub Text : Type 0
Text = List ℕ

abbrev pub codes : String → Text
codes String.[] = []
codes (String.◌∷◌ c s) = code c ∷ codes s

unfoldable pub text_eq : Text → Text → Bool
text_eq [] [] = true
text_eq [] (y ∷ ys) = false
text_eq (x ∷ xs) [] = false
text_eq (x ∷ xs) (y ∷ ys) = (x == y) && text_eq xs ys

pub text_eq_refl : (s : Text) → text_eq s s ≡ true
unfolding text_eq
text_eq_refl [] = refl
text_eq_refl (x ∷ xs) = ground (arith, text_eq_refl xs)

pub text_eq→eq : (s t : Text) → text_eq s t ≡ true → s ≡ t
unfolding text_eq
text_eq→eq [] [] h = refl
text_eq→eq [] (y ∷ ys) h = cc
text_eq→eq (x ∷ xs) [] h = cc
text_eq→eq (x ∷ xs) (y ∷ ys) h = ground (arith, text_eq→eq xs ys)

-- `s.strip_prefix(p)`.
unfoldable pub strip_prefix : Text → Text → Option Text
strip_prefix [] s = some s
strip_prefix (p ∷ ps) [] = none
strip_prefix (p ∷ ps) (c ∷ cs) = if p == c then strip_prefix ps cs else none

-- `s.starts_with(p)`, on texts and on byte strings.
unfoldable pub starts_with : Text → Text → Bool
starts_with [] s = true
starts_with (p ∷ ps) [] = false
starts_with (p ∷ ps) (c ∷ cs) = (p == c) && starts_with ps cs

to_lower_ascii : ℕ → ℕ
to_lower_ascii c = if leb b'A' c && leb c b'Z' then c + 32 else c

-- `to_lowercase` on ASCII. A text with a code point above 127 keeps it here.
unfoldable pub lowercase : Text → Text
unfolding to_lower_ascii
lowercase = map to_lower_ascii

unfoldable pub is_space : ℕ → Bool
is_space c = (c == 32) || (leb 9 c && leb c 13)

trim_start : Text → Text
unfolding is_space
trim_start [] = []
trim_start (c ∷ cs) = if is_space c then trim_start cs else c ∷ cs

-- `s.trim()`, of ASCII white space.
unfoldable pub trim : Text → Text
unfolding trim_start
trim s = reverse (trim_start (reverse (trim_start s)))

-- The value of a digit of the radix.
digit : ℕ → ℕ → Option ℕ
digit radix c =
    let v =
      if leb b'0' c && leb c b'9'
      then c - b'0'
      else (if leb b'a' c && leb c b'z'
          then c - b'a' + 10
          else (if leb b'A' c && leb c b'Z' then c - b'A' + 10 else radix)) in
    if ltb v radix then some v else none

-- One step of the digit loop: none on a bad digit or when the value leaves `limit`.
push_digit : ℕ → ℕ → ℕ → ℕ → Option ℕ
unfolding digit
push_digit radix limit acc c = elim (digit radix c) [
  | none ↦ none
  | some d ↦ if ltb (acc * radix + d) limit then some (acc * radix + d) else none
]

parse_digits : ℕ → ℕ → ℕ → Text → Option ℕ
unfolding push_digit
parse_digits radix limit acc [] = some acc
parse_digits radix limit acc (c ∷ cs) = elim (push_digit radix limit acc c) [
  | none ↦ none
  | some v ↦ parse_digits radix limit v cs
]

-- `uN::from_str_radix`: one leading `+` is allowed, the digits must not be empty, and a value of
-- `limit` or more is refused. With radix 10 it is `parse`.
unfoldable pub from_str_radix : ℕ → ℕ → Text → Option ℕ
unfolding parse_digits
from_str_radix limit radix [] = none
from_str_radix limit radix (c ∷ cs) =
    if c == b'+'
    then elim cs [ [] ↦ none | d ∷ ds ↦ parse_digits radix limit 0 (d ∷ ds) ]
    else parse_digits radix limit 0 (c ∷ cs)

-- `s.split_once(c)` and `s.rsplit_once(c)`: the parts before and after the first, or last, `c`.
unfoldable pub split_once : ℕ → Text → Option (Text × Text)
split_once c [] = none
split_once c (x ∷ xs) =
    let later = split_once c xs in
    if x == c then some ([], xs) else elim later [ none ↦ none | some p ↦ some (x ∷ p.0, p.1) ]

unfoldable pub rsplit_once : ℕ → Text → Option (Text × Text)
rsplit_once c [] = none
rsplit_once c (x ∷ xs) = elim (rsplit_once c xs) [
  | some p ↦ some (x ∷ p.0, p.1)
  | none ↦ if x == c then some ([], xs) else none
]

-- The parts between the slashes of a path, the last one last; `name` is the part being read.
path_parts : Text → Text → List Text
path_parts name [] = reverse name ∷ []
path_parts name (c ∷ cs) =
    if c == b'/' then reverse name ∷ path_parts [] cs else path_parts (c ∷ name) cs

-- The last part that is neither empty nor `.`.
last_part : Option Text → List Text → Option Text
unfolding text_eq
last_part best [] = best
last_part best (p ∷ ps) =
    last_part (if text_eq p [] || text_eq p (b'.' ∷ []) then best else some p) ps

-- `Path::new(s).file_name()`.
unfoldable pub file_name : Text → Option Text
unfolding path_parts last_part text_eq
file_name s = elim (last_part none (path_parts [] s)) [
  | none ↦ none
  | some p ↦ if text_eq p (b'.' ∷ b'.' ∷ []) then none else some p
]

push_digit-lt : (radix limit acc c v : ℕ) → push_digit radix limit acc c ≡ some v → v < limit
unfolding push_digit
push_digit-lt radix limit acc c v h = ground arith

parse_digits-lt :
    (radix limit acc : ℕ) (s : Text) (n : ℕ)
    → acc < limit
    → parse_digits radix limit acc s ≡ some n
    → n < limit
unfolding parse_digits
parse_digits-lt radix limit acc [] n h e = ground arith
parse_digits-lt radix limit acc (c ∷ cs) n h e =
    elim (Option-cases (push_digit radix limit acc c)) [
      | inl q ↦ ground (arith, q)
      | inr (v, q) ↦
          parse_digits-lt radix limit v cs n (push_digit-lt radix limit acc c v q)
            (ground (arith, q, e))
    ]

-- A parsed number fits the type.
pub from_str_radix-lt :
    (limit radix : ℕ) (s : Text) (n : ℕ)
    → 0 < limit
    → from_str_radix limit radix s ≡ some n
    → n < limit
unfolding from_str_radix
from_str_radix-lt limit radix [] n h e = cc
from_str_radix-lt limit radix (c ∷ []) n h e =
    ground (arith, parse_digits-lt radix limit 0 (c ∷ []) n h)
from_str_radix-lt limit radix (c ∷ d ∷ ds) n h e = ground (
  arith,
  parse_digits-lt radix limit 0 (c ∷ d ∷ ds) n h,
  parse_digits-lt radix limit 0 (d ∷ ds) n h,
)
