-- ===== src/Base/Bits.antt =====
-- The binary digits of `&` and `|` on native numbers, and of the words that a table lists.
pub mod Words
use Prim.Native.Nat.{
  ℕ, zero, suc, ◌+◌, ◌-◌, ◌*◌, ◌/◌, ◌%◌, ◌≤◌, ◌<◌, ◌^◌, min, max, bit_and, bit_or, bit_xor, differ,
  digits, bitwise,
}
use Prim.Native.Nat.{bit_and-bitwise, bit_or-bitwise, bit_xor-bitwise}
use native.Mathlib.Nat.{pow-suc, pow-succ'}
use mathlib.Core.Path.{◌≡◌, refl, ◌∙◌}
use mathlib.Core.Bool.{Bool, true, ◌&&◌}
use native.Mathlib.Omega.{arith}
use mathlib.Core.Logic.{inl, inr}
use macos_c_debugger_rust.Base.Tests.{Bool-cases, ◌==◌, ==_iff}

-- A shift left of a 64-bit word.
abbrev pub shl64 : ℕ → ℕ → ℕ
shl64 x k = (x * 2 ^ k) % 2 ^ 64

-- `!x` of a 64-bit word.
abbrev pub not64 : ℕ → ℕ
not64 x = (2 ^ 64 - 1) - x

-- The `i`-th binary digit.
unfoldable pub bit : ℕ → ℕ → ℕ
bit n zero = n % 2
bit n (suc i) = bit (n / 2) i

module _ (z : ℕ → ℕ) (f : ℕ → ℕ → ℕ) where
  -- One round more than the first number needs changes nothing, and so do several.
  digits-once : (rounds x y : ℕ) → x ≤ rounds → digits z f (suc rounds) x y ≡ digits z f rounds x y
  digits-once zero zero y h = refl
  digits-once (suc rounds) zero y h = refl
  digits-once zero (suc x) y h = absurd (omega arith)
  digits-once (suc rounds) (suc x) y h =
      omega (arith, digits-once rounds (suc x / 2) (y / 2) (omega arith))

  digits-several :
      (few many x y : ℕ) → x ≤ few → few ≤ many → digits z f many x y ≡ digits z f few x y
  digits-several few zero x y h g = rw (few-zero) refl
    where
      few-zero : few ≡ 0
      few-zero = omega arith
  digits-several few (suc many) x y h g = elim (Bool-cases (few == suc many)) [
    | inl e ↦ rw ((==_iff _ _).0 e) refl
    | inr e ↦
        digits-once many x y (ground (arith, e)) ∙ digits-several few many x y h (ground (arith, e))
  ]

  -- The operation by the lowest digit and the halves.
  bitwise-halves :
      (x y : ℕ)
      → bitwise z f (suc x) y ≡ bitwise z f (suc x / 2) (y / 2) * 2 + f (suc x % 2) (y % 2)
  bitwise-halves x y =
      omega (arith, digits-several (suc x / 2) x (suc x / 2) (y / 2) (omega arith) (omega arith))

-- An operation on digits gives no longer number than its operands.
module _ (z : ℕ → ℕ) (f : ℕ → ℕ → ℕ) (short : (b : ℕ) → z b ≤ b)
    (digit : (x y : ℕ) → x < 2 → y < 2 → f x y < 2) where
  digits-lt : (n k a b : ℕ) → a < 2 ^ k → b < 2 ^ k → digits z f n a b < 2 ^ k
  digits-lt zero k a b p q = omega (arith, short b)
  digits-lt (suc n) k zero b p q = omega (arith, short b)
  digits-lt (suc n) zero (suc a) b p q = absurd (omega arith)
  digits-lt (suc n) (suc k) (suc a) b p q = omega (
    arith,
    digits-lt n k (suc a / 2) (b / 2) (omega (arith, pow-suc 2 k)) (omega (arith, pow-suc 2 k)),
    digit (suc a % 2) (b % 2) (omega arith) (omega arith),
    pow-suc 2 k,
  )

pub bit_and-lt : (k a b : ℕ) → a < 2 ^ k → b < 2 ^ k → bit_and a b < 2 ^ k
bit_and-lt k a b p q =
    rw (bit_and-bitwise a b)
      (digits-lt (λ _. 0) min (λ b. omega arith) (λ x y h g. omega arith) a k a b p q)

pub bit_or-lt : (k a b : ℕ) → a < 2 ^ k → b < 2 ^ k → bit_or a b < 2 ^ k
bit_or-lt k a b p q =
    rw (bit_or-bitwise a b)
      (digits-lt (λ b. b) max (λ b. omega arith) (λ x y h g. omega arith) a k a b p q)

differ-lt : (x y : ℕ) → x < 2 → y < 2 → differ x y < 2
differ-lt zero zero h g = omega arith
differ-lt zero (suc y) h g = g
differ-lt (suc zero) zero h g = omega arith
differ-lt (suc zero) (suc zero) h g = omega arith
differ-lt (suc zero) (suc (suc y)) h g = absurd (omega arith)
differ-lt (suc (suc x)) y h g = absurd (omega arith)

pub bit_xor-lt : (k a b : ℕ) → a < 2 ^ k → b < 2 ^ k → bit_xor a b < 2 ^ k
bit_xor-lt k a b p q =
    rw (bit_xor-bitwise a b) (digits-lt (λ b. b) differ (λ b. omega arith) differ-lt a k a b p q)

and-halves : (x y : ℕ) → bit_and x y ≡ bit_and (x / 2) (y / 2) * 2 + min (x % 2) (y % 2)
and-halves zero y = omega (arith, bit_and-bitwise 0 y, bit_and-bitwise 0 (y / 2))
and-halves (suc x) y =
    rw (bit_and-bitwise (suc x) y, bit_and-bitwise (suc x / 2) (y / 2))
      (bitwise-halves (λ _. 0) min x y)

or-halves : (x y : ℕ) → bit_or x y ≡ bit_or (x / 2) (y / 2) * 2 + max (x % 2) (y % 2)
or-halves zero y = omega (arith, bit_or-bitwise 0 y, bit_or-bitwise 0 (y / 2))
or-halves (suc x) y =
    rw (bit_or-bitwise (suc x) y, bit_or-bitwise (suc x / 2) (y / 2))
      (bitwise-halves (λ d. d) max x y)

xor-halves : (x y : ℕ) → bit_xor x y ≡ bit_xor (x / 2) (y / 2) * 2 + differ (x % 2) (y % 2)
xor-halves zero y = omega (arith, bit_xor-bitwise 0 y, bit_xor-bitwise 0 (y / 2))
xor-halves (suc x) y =
    rw (bit_xor-bitwise (suc x) y, bit_xor-bitwise (suc x / 2) (y / 2))
      (bitwise-halves (λ d. d) differ x y)

-- The low digits of a number, and numbers that share no digit.
double : (h k : ℕ) → h * 2 ^ suc k ≡ 2 * (h * 2 ^ k)
double h k = rw (pow-succ' 2 k) (omega arith)

and_zero-below : (bound x : ℕ) → x ≤ bound → bit_and x 0 ≡ 0
and_zero-below bound zero h = refl
and_zero-below zero (suc x) h = absurd (omega arith)
and_zero-below (suc bound) (suc x) h =
    omega (arith, and-halves (suc x) 0, and_zero-below bound (suc x / 2) (omega arith))

or_zero-below : (bound x : ℕ) → x ≤ bound → bit_or x 0 ≡ x
or_zero-below bound zero h = refl
or_zero-below zero (suc x) h = absurd (omega arith)
or_zero-below (suc bound) (suc x) h =
    omega (arith, or-halves (suc x) 0, or_zero-below bound (suc x / 2) (omega arith))

pub bit_and_low : (k h l : ℕ) → l < 2 ^ k → bit_and (h * 2 ^ k + l) (2 ^ k - 1) ≡ l
bit_and_low zero h l e = omega (arith, and_zero-below (h * 1 + l) (h * 1 + l) (omega arith))
bit_and_low (suc k) h l e =
    let x = h * 2 ^ suc k + l in
    let half : x / 2 ≡ h * 2 ^ k + l / 2 = omega (arith, double h k) in
    let mask : (2 ^ suc k - 1) / 2 ≡ 2 ^ k - 1 = omega (arith, pow-succ' 2 k) in
    let rest = bit_and_low k h (l / 2) (omega (arith, pow-succ' 2 k)) in
    and-halves x (2 ^ suc k - 1) ∙ rw (half, mask, rest) (omega (arith, double h k, pow-succ' 2 k))

pub bit_or_disjoint : (k h l : ℕ) → l < 2 ^ k → bit_or (h * 2 ^ k) l ≡ h * 2 ^ k + l
bit_or_disjoint zero h l e =
    let z : l ≡ 0 = omega arith in rw z (or_zero-below (h * 1) (h * 1) (omega arith) ∙ omega arith)
bit_or_disjoint (suc k) h l e =
    let half : (h * 2 ^ suc k) / 2 ≡ h * 2 ^ k = omega (arith, double h k) in
    let rest = bit_or_disjoint k h (l / 2) (omega (arith, pow-succ' 2 k)) in
    or-halves (h * 2 ^ suc k) l ∙ rw (half, rest) (omega (arith, double h k, pow-succ' 2 k))

pub bit-bit_and : (a b i : ℕ) → bit (bit_and a b) i ≡ min (bit a i) (bit b i)
unfolding bit
bit-bit_and a b zero = omega (arith, and-halves a b)
bit-bit_and a b (suc i) = rw halves (bit-bit_and (a / 2) (b / 2) i)
  where
    halves : bit_and a b / 2 ≡ bit_and (a / 2) (b / 2)
    halves = omega (arith, and-halves a b)

pub bit-bit_or : (a b i : ℕ) → bit (bit_or a b) i ≡ max (bit a i) (bit b i)
unfolding bit
bit-bit_or a b zero = omega (arith, or-halves a b)
bit-bit_or a b (suc i) = rw halves (bit-bit_or (a / 2) (b / 2) i)
  where
    halves : bit_or a b / 2 ≡ bit_or (a / 2) (b / 2)
    halves = omega (arith, or-halves a b)

pub bit-bit_xor : (a b i : ℕ) → bit (bit_xor a b) i ≡ differ (bit a i) (bit b i)
unfolding bit
bit-bit_xor a b zero =
    omega (arith, xor-halves a b, differ-lt (a % 2) (b % 2) (omega arith) (omega arith))
bit-bit_xor a b (suc i) = rw halves (bit-bit_xor (a / 2) (b / 2) i)
  where
    halves : bit_xor a b / 2 ≡ bit_xor (a / 2) (b / 2)
    halves = omega (arith, xor-halves a b, differ-lt (a % 2) (b % 2) (omega arith) (omega arith))

pub bit-lt : (n i : ℕ) → bit n i < 2
unfolding bit
bit-lt n zero = omega arith
bit-lt n (suc i) = bit-lt (n / 2) i

-- A check of every value below a bound.
unfoldable pub all_below : ℕ → (ℕ → Bool) → Bool
all_below zero test = true
all_below (suc bound) test = all_below bound test && test bound

pub all_below_sound :
    (bound : ℕ) (test : ℕ → Bool) (value : ℕ)
    → all_below bound test ≡ true
    → value < bound
    → test value ≡ true
unfolding all_below
all_below_sound zero test value all h = absurd (omega arith)
all_below_sound (suc bound) test value all h = ground (arith, all_below_sound bound test value)

and-none : (rounds x : ℕ) → digits (λ _. 0) min rounds x 0 ≡ 0
and-none zero x = refl
and-none (suc rounds) zero = refl
and-none (suc rounds) (suc x) = omega (arith, and-none rounds (suc x / 2))

-- `x & 7` is the remainder by 8.
pub bit_and_seven : (x : ℕ) → bit_and x 7 ≡ x % 8
bit_and_seven x =
    let eighth = x / 2 / 2 / 2 in
    omega (
      arith,
      and-halves x 7,
      and-halves (x / 2) 3,
      and-halves (x / 2 / 2) 1,
      bit_and-bitwise eighth 0,
      and-none eighth eighth,
    )
