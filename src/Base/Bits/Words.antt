-- ===== src/Base/Bits/Words.antt =====
-- Words by their binary digits.
use Prim.Native.Nat.{
  ℕ, zero, suc, ◌+◌, ◌*◌, ◌/◌, ◌^◌, ◌<◌, min, max, differ, bit_and, bit_or, bit_xor,
}
use native.Mathlib.Nat.{pow-succ', div-div-eq-div-mul, div-le_self}
use native.Mathlib.Omega.{arith}
use mathlib.Core.Path.{◌≡◌, refl, ◌∙◌, sym}
use macos_c_debugger_rust.Base.Bits.{
  bit, bit_and-lt, bit_or-lt, bit_xor-lt, bit-bit_and, bit-bit_or, bit-bit_xor,
}

-- The number with these digits, the lowest first.
unfoldable pub from_digits : ℕ → (ℕ → ℕ) → ℕ
from_digits zero digit = 0
from_digits (suc width) digit = digit 0 + 2 * from_digits width (λ i. digit (suc i))

from_digits-bit : (width v : ℕ) → v < 2 ^ width → from_digits width (bit v) ≡ v
unfolding from_digits bit
from_digits-bit zero v h = omega arith
from_digits-bit (suc width) v h =
    omega (arith, from_digits-bit width (v / 2) (omega (arith, pow-succ' 2 width)))

from_digits-same :
    (width : ℕ) (f g : ℕ → ℕ) → ((i : ℕ) → f i ≡ g i) → from_digits width f ≡ from_digits width g
unfolding from_digits
from_digits-same zero f g h = refl
from_digits-same (suc width) f g h =
    omega (arith, h 0, from_digits-same width (λ i. f (suc i)) (λ i. g (suc i)) (λ i. h (suc i)))

-- A word below the width is the number with its digits, in whatever way they are written.
from_digits-word :
    (width v : ℕ) (digit : ℕ → ℕ)
    → v < 2 ^ width
    → ((i : ℕ) → bit v i ≡ digit i)
    → v ≡ from_digits width digit
from_digits-word width v digit h e =
    sym (from_digits-bit width v h) ∙ from_digits-same width (bit v) digit e

pub bit_and-digits :
    (width a b : ℕ)
    → a < 2 ^ width
    → b < 2 ^ width
    → bit_and a b ≡ from_digits width (λ i. min (bit a i) (bit b i))
bit_and-digits width a b h g =
    from_digits-word width (bit_and a b) _ (bit_and-lt width a b h g) (bit-bit_and a b)

pub bit_or-digits :
    (width a b : ℕ)
    → a < 2 ^ width
    → b < 2 ^ width
    → bit_or a b ≡ from_digits width (λ i. max (bit a i) (bit b i))
bit_or-digits width a b h g =
    from_digits-word width (bit_or a b) _ (bit_or-lt width a b h g) (bit-bit_or a b)

pub bit_xor-digits :
    (width a b : ℕ)
    → a < 2 ^ width
    → b < 2 ^ width
    → bit_xor a b ≡ from_digits width (λ i. differ (bit a i) (bit b i))
bit_xor-digits width a b h g =
    from_digits-word width (bit_xor a b) _ (bit_xor-lt width a b h g) (bit-bit_xor a b)

bit-shift : (k a i : ℕ) → bit (a / 2 ^ k) i ≡ bit a (k + i)
unfolding bit
bit-shift zero a i =
    let one : a / 1 ≡ a = omega arith in let start : 0 + i ≡ i = omega arith in rw (one, start) refl
bit-shift (suc k) a i =
    let half : a / 2 ^ suc k ≡ a / 2 / 2 ^ k =
      (rw (pow-succ' 2 k, div-div-eq-div-mul a 2 (2 ^ k)) refl) in
    let next : suc k + i ≡ suc (k + i) = omega arith in rw (half, next) (bit-shift k (a / 2) i)

pub shift-digits :
    (width a k : ℕ) → a < 2 ^ width → a / 2 ^ k ≡ from_digits width (λ i. bit a (k + i))
shift-digits width a k h =
    from_digits-word width (a / 2 ^ k) _ (omega (arith, div-le_self a (2 ^ k))) (bit-shift k a)
