-- ===== src/Register/Extended.antt =====
-- `st_to_f64` of src/register.rs: the number of 64 bits that stands for one of 80 bits, as its bits.
pub mod Doubles
use macos_c_debugger_rust.Base.{
  ℕ, Bool, List, if◌then◌else◌, ◌==◌, ◌&&◌, ◌+◌, ◌-◌, ◌*◌, ◌/◌, ◌^◌, leb, take, drop, bit_and,
  bit_or,
}
use macos_c_debugger_rust.Base.Bits.{shl64}
use macos_c_debugger_rust.Base.Bytes.{from_le}

-- `f64::NAN`.
abbrev pub nan : ℕ
nan = 0x7ff8000000000000

abbrev pub infinity : ℕ → ℕ
infinity sign = bit_or (shl64 sign 63) 0x7ff0000000000000

-- `-0.0` and `0.0`.
abbrev pub signed_zero : ℕ → ℕ
signed_zero sign = if sign == 0 then 0 else 2 ^ 63

-- `exp64` is signed: it is exp80 - 15360, at most 0 where `exp80` is at most 15360.
unfoldable pub st_to_f64 : List ℕ → ℕ
st_to_f64 reg =
    let mant = from_le (take 8 reg) in
    let exp_sign = from_le (take 2 (drop 8 reg)) in
    let sign = exp_sign / 2 ^ 15 in
    let exp80 = bit_and exp_sign 0x7fff in
    let exp64 = exp80 - 15360 in
    if exp80 == 0x7fff
    then (if bit_and mant 0x7fffffffffffffff == 0 then infinity sign else nan)
    else (if (exp80 == 0) && (mant == 0)
        then signed_zero sign
        else (if leb 0x7ff exp64
            then infinity sign
            else (if exp64 == 0
                then signed_zero sign
                else bit_or (bit_or (shl64 sign 63) (shl64 exp64 52))
                    (bit_and (mant / 2 ^ 11) 0xfffffffffffff))))
