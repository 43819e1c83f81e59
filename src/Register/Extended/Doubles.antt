-- ===== src/Register/Extended/Doubles.antt =====
-- `st_to_f64` of src/register.rs on the registers that hold a number of 64 bits.
use macos_c_debugger_rust.Base.{
  ℕ, List, ◌++◌, ◌+◌, ◌-◌, ◌*◌, ◌/◌, ◌^◌, ◌<◌, ◌≡◌, arith, take, drop, bit_and, bit_or,
}
use macos_c_debugger_rust.Base.Bits.{shl64, bit_and_low, bit_or_disjoint}
use macos_c_debugger_rust.Base.Bytes.{from_le, to_le, from_le-to_le}
use macos_c_debugger_rust.Register.Extended.{st_to_f64}

-- The bits of a normal number of 64 bits.
unfoldable pub double : ℕ → ℕ → ℕ → ℕ
double sign exponent fraction = sign * 2 ^ 63 + exponent * 2 ^ 52 + fraction

-- The 10 bytes of a register that the processor has loaded that number into: the exponent has another
-- bias, and the digit in front of the fraction is written.
unfoldable pub loaded : ℕ → ℕ → ℕ → List ℕ
loaded sign exponent fraction =
    to_le 8 (2 ^ 63 + fraction * 2 ^ 11) ++ to_le 2 (sign * 2 ^ 15 + exponent + 15360)

take-loaded : (m e : ℕ) → m < 2 ^ 64 → from_le (take 8 (to_le 8 m ++ to_le 2 e)) ≡ m
unfolding to_le
take-loaded m e h = from_le-to_le 8 m h

drop-loaded : (m e : ℕ) → e < 2 ^ 16 → from_le (take 2 (drop 8 (to_le 8 m ++ to_le 2 e))) ≡ e
unfolding to_le
drop-loaded m e h = from_le-to_le 2 e h

fraction-lem : (f : ℕ) → f < 2 ^ 52 → bit_and ((2 ^ 63 + f * 2 ^ 11) / 2 ^ 11) 0xfffffffffffff ≡ f
fraction-lem f h =
    let shifted : (2 ^ 63 + f * 2 ^ 11) / 2 ^ 11 ≡ 1 * 2 ^ 52 + f = omega arith in
    rw shifted (bit_and_low 52 1 f h)

exponent-lem : (s e : ℕ) → e < 2 ^ 15 → bit_and (s * 2 ^ 15 + e) 0x7fff ≡ e
exponent-lem s e h = bit_and_low 15 s e h

joined :
    (s e f : ℕ)
    → s < 2
    → e < 2 ^ 11
    → f < 2 ^ 52
    → bit_or (bit_or (shl64 s 63) (shl64 e 52)) f ≡ s * 2 ^ 63 + e * 2 ^ 52 + f
joined s e f hs he hf =
    let a : shl64 s 63 ≡ s * 2 ^ 63 = omega arith in
    let b : shl64 e 52 ≡ e * 2 ^ 52 = omega arith in
    let c : s * 2 ^ 63 + e * 2 ^ 52 ≡ (s * 2 ^ 11 + e) * 2 ^ 52 = omega arith in
    rw (a, b, bit_or_disjoint 63 s (e * 2 ^ 52) (omega arith), c)
      (bit_or_disjoint 52 (s * 2 ^ 11 + e) f hf)

-- For a register of 80 bits into which the processor has loaded a normal number of 64 bits,
-- st_to_f64 returns the bits of that number.
pub st_to_f64-double :
    (sign exponent fraction : ℕ)
    → sign < 2
    → 0 < exponent
    → exponent < 0x7ff
    → fraction < 2 ^ 52
    → st_to_f64 (loaded sign exponent fraction) ≡ double sign exponent fraction
unfolding st_to_f64 loaded double
st_to_f64-double s e f hs h0 he hf =
    let m = 2 ^ 63 + f * 2 ^ 11 in
    let w = s * 2 ^ 15 + e + 15360 in
    let sum : w ≡ s * 2 ^ 15 + (e + 15360) = omega arith in
    let i : bit_and w 0x7fff ≡ e + 15360 = (rw sum (exponent-lem s (e + 15360) (omega arith))) in
    let q : w / 2 ^ 15 ≡ s = omega arith in
    let t : e + 15360 - 15360 ≡ e = omega arith in
    rw
      (
        take-loaded m w (omega arith),
        drop-loaded m w (omega arith),
        st_to_f64,
        i,
        q,
        t,
        fraction-lem f hf,
      )
      (ground (arith, joined s e f hs (omega arith) hf))
