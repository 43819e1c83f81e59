-- ===== src/Base/Text/Format.antt =====
-- Numbers as `format!` writes them, and that they are read back.
use Prim.Native.Nat.{ℕ, zero, suc, ◌+◌, ◌-◌, ◌*◌, ◌/◌, ◌%◌, ◌^◌, ◌<◌, ◌≤◌}
use mathlib.Core.Path.{◌≡◌, refl, ◌∙◌}
use mathlib.Core.List.{List, [], ◌∷◌, ◌++◌, reverse}
use mathlib.Core.Logic.{inl, inr}
use mathlib.Core.Option.{some}
use native.Mathlib.Omega.{arith}
use native.Mathlib.Nat.{pow-succ'}
use macos_c_debugger_rust.Base.Tests.{Bool-cases, ltb, ◌==◌, if◌then◌else◌}
use macos_c_debugger_rust.Base.Lists.{length, replicate}
use macos_c_debugger_rust.Base.Text.{Text, codes, digit, push_digit, parse_digits, from_str_radix}

unfoldable pub digit_char : ℕ → ℕ
digit_char d = if ltb d 10 then b'0' + d else b'a' + (d - 10)

-- The digits of a number in front of a text, `fuel` at most; 64 are enough below 2^64.
unfoldable pub digits : ℕ → ℕ → ℕ → Text → Text
unfolding digit_char
digits zero radix n text = text
digits (suc fuel) radix n text =
    let more = digits fuel radix (n / radix) (digit_char (n % radix) ∷ text) in
    if ltb n radix then digit_char n ∷ text else more

unfoldable pub to_radix : ℕ → ℕ → Text
unfolding digits
to_radix radix n = digits 64 radix n []

-- Zeros in front, up to a width.
unfoldable pub zero_pad : ℕ → Text → Text
zero_pad width s = replicate (width - length s) b'0' ++ s

-- `{:#0widthx}`; `{:#x}` is that of width 0.
unfoldable pub hex : ℕ → ℕ → Text
unfolding zero_pad to_radix
hex width n = codes "0x" ++ zero_pad (width - 2) (to_radix 16 n)

-- `{}`.
unfoldable pub decimal : ℕ → Text
unfolding to_radix
decimal n = to_radix 10 n

-- `{}` of a signed integer with these bits, `bits` wide.
unfoldable pub signed : ℕ → ℕ → Text
unfolding decimal
signed bits n = if ltb n (2 ^ (bits - 1)) then decimal n else b'-' ∷ decimal (2 ^ bits - n)

-- `{:<width}` and, of a number, `{:>width}`.
unfoldable pub pad_right : ℕ → Text → Text
pad_right width s = s ++ replicate (width - length s) 32

unfoldable pub pad_left : ℕ → Text → Text
pad_left width s = replicate (width - length s) 32 ++ s

without_return : Text → Text
without_return [] = []
without_return (c ∷ line) = if c == 13 then line else c ∷ line

-- The lines of a text, as `str::lines` splits it; `line` is what stands before, in reverse.
split_lines : Text → Text → List Text
split_lines [] [] = []
split_lines (c ∷ line) [] = reverse (c ∷ line) ∷ []
split_lines line (c ∷ cs) =
    if c == 10 then reverse (without_return line) ∷ split_lines [] cs else split_lines (c ∷ line) cs

unfoldable pub lines : Text → List Text
unfolding split_lines without_return
lines text = split_lines [] text

digit-digit_char : (radix d : ℕ) → d < radix → radix ≤ 16 → digit radix (digit_char d) ≡ some d
unfolding digit digit_char
digit-digit_char radix d h k = ground arith

push_digit-digit_char :
    (radix limit acc d n : ℕ)
    → d < radix
    → radix ≤ 16
    → n ≡ acc * radix + d
    → n < limit
    → push_digit radix limit acc (digit_char d) ≡ some n
unfolding push_digit
push_digit-digit_char radix limit acc d n h k e l = ground (arith, digit-digit_char radix d h k)

parse_digits-step :
    (radix limit acc c n : ℕ) (text : Text)
    → push_digit radix limit acc c ≡ some n
    → parse_digits radix limit acc (c ∷ text) ≡ parse_digits radix limit n text
unfolding parse_digits
parse_digits-step radix limit acc c n text e = ground (arith, e)

-- What the proofs use of a radix.
record IsRadix (radix : ℕ) : Type 0 where
  small : radix ≤ 16
  halves : (n k : ℕ) → n < 2 * k → n / radix < k
  shrinks : (n : ℕ) → n / radix ≤ n
  last : (n : ℕ) → n % radix < radix
  splits : (n : ℕ) → n ≡ n / radix * radix + n % radix

module _ (radix limit : ℕ) (r : IsRadix radix) where
  parse_digits-digits :
      (fuel n : ℕ) (text : Text)
      → n < 2 ^ fuel
      → n < limit
      → parse_digits radix limit 0 (digits fuel radix n text) ≡ parse_digits radix limit n text
  unfolding digits
  parse_digits-digits zero n text h l = (let z : n ≡ 0 = omega arith in rw z refl)
  parse_digits-digits (suc fuel) n text h l = elim (Bool-cases (ltb n radix)) [
    | inl e ↦ rw e (
        parse_digits-step radix limit 0 (digit_char n) n text
          (push_digit-digit_char radix limit 0 n n (ground (arith, e)) r.small (omega arith) l))
    | inr e ↦ rw e (
        parse_digits-digits fuel (n / radix) (digit_char (n % radix) ∷ text)
          (r.halves n (2 ^ fuel) (rw (pow-succ' 2 fuel) at h)) (omega (arith, r.shrinks n))
        ∙ parse_digits-step radix limit (n / radix) (digit_char (n % radix)) n text (
            push_digit-digit_char radix limit (n / radix) (n % radix) n (r.last n) r.small
              (r.splits n) l))
  ]

radix16 : IsRadix 16
radix16 = record {
  small = omega arith;
  halves = λ n k h. omega arith;
  shrinks = λ n. omega arith;
  last = λ n. omega arith;
  splits = λ n. omega arith;
}

parse_digits-zeros :
    (limit k : ℕ) (s : Text)
    → 0 < limit
    → parse_digits 16 limit 0 (replicate k b'0' ++ s) ≡ parse_digits 16 limit 0 s
unfolding digit_char
parse_digits-zeros limit zero s h = refl
parse_digits-zeros limit (suc k) s h =
    parse_digits-step 16 limit 0 b'0' 0 (replicate k b'0' ++ s)
      (push_digit-digit_char 16 limit 0 0 0 (omega arith) (omega arith) refl h)
    ∙ parse_digits-zeros limit k s h

-- A text that starts with a digit of radix 16.
StartsDigit : Text → Type 0
StartsDigit s = (d : ℕ) × (d < 16) × (t : Text) × (s ≡ digit_char d ∷ t)

digits-StartsDigit :
    (fuel n : ℕ) (text : Text) → StartsDigit text → StartsDigit (digits fuel 16 n text)
unfolding digits StartsDigit
digits-StartsDigit zero n text k = k
digits-StartsDigit (suc fuel) n text k = elim (Bool-cases (ltb n 16)) [
  | inl e ↦ rw e (n, ground (arith, e), text, refl)
  | inr e ↦ rw e (
      digits-StartsDigit fuel (n / 16) (digit_char (n % 16) ∷ text)
        (n % 16, omega arith, text, refl))
]

to_radix-StartsDigit : (n : ℕ) → StartsDigit (to_radix 16 n)
unfolding to_radix digits StartsDigit
to_radix-StartsDigit n = elim (Bool-cases (ltb n 16)) [
  | inl e ↦ rw (e, digits) (n, ground (arith, e), [], refl)
  | inr e ↦
      rw (e, digits)
        (digits-StartsDigit 63 (n / 16) (digit_char (n % 16) ∷ []) (n % 16, omega arith, [], refl))
]

zeros-StartsDigit : (k : ℕ) (s : Text) → StartsDigit s → StartsDigit (replicate k b'0' ++ s)
unfolding StartsDigit digit_char
zeros-StartsDigit zero s h = h
zeros-StartsDigit (suc k) s h = (0, omega arith, replicate k b'0' ++ s, refl)

from_str_radix-StartsDigit :
    (limit : ℕ) (s : Text) → StartsDigit s → from_str_radix limit 16 s ≡ parse_digits 16 limit 0 s
unfolding from_str_radix StartsDigit digit_char
from_str_radix-StartsDigit limit s (d, h, t, e) = ground (arith, e)

-- A padded number of base 16 is read back.
pub from_str_radix-zero_pad :
    (width n : ℕ)
    → n < 2 ^ 64
    → from_str_radix (2 ^ 64) 16 (zero_pad width (to_radix 16 n)) ≡ some n
unfolding zero_pad
from_str_radix-zero_pad width n h =
    let s = to_radix 16 n in
    let k = width - length s in
    from_str_radix-StartsDigit (2 ^ 64) (replicate k b'0' ++ s)
      (zeros-StartsDigit k s (to_radix-StartsDigit n))
    ∙ parse_digits-zeros (2 ^ 64) k s (omega arith)
    ∙ (unfold to_radix parse_digits in parse_digits-digits 16 (2 ^ 64) radix16 64 n [] h h)
