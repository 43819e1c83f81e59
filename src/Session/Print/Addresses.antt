-- ===== src/Session/Print/Addresses.antt =====
-- `parse_addr` of src/main.rs on the addresses that the program prints.
use macos_c_debugger_rust.Base.{ℕ, some, ◌≡◌, ◌+◌, ◌%◌, ◌^◌, ◌<◌, ◌++◌, ◌-◌, ◌>>=?◌, ap}
use macos_c_debugger_rust.Base.Text.{codes, strip_prefix}
use macos_c_debugger_rust.Base.Text.Format.{hex, from_str_radix-zero_pad}
use macos_c_debugger_rust.Session.Place.{parse_addr, number}

number-hex : (width n : ℕ) → n < 2 ^ 64 → number (hex width n) ≡ some n
unfolding hex strip_prefix
number-hex width n h = from_str_radix-zero_pad (width - 2) n h

-- An address below 2^64 that is printed in hexadecimal, of whatever width, is read by parse_addr as
-- that address, and behind base+ as its sum with the image base.
pub parse_addr-hex :
    (width n base : ℕ)
    → n < 2 ^ 64
    → (parse_addr (hex width n) (some base) ≡ some n)
      × (parse_addr (codes "base+" ++ hex width n) (some base) ≡ some ((base + n) % 2 ^ 64))
unfolding parse_addr hex strip_prefix
parse_addr-hex width n base h = (
  number-hex width n h,
  ap (λ o. o >>=? λ offset. some ((base + offset) % 2 ^ 64)) (number-hex width n h),
)
