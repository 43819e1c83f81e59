-- ===== src/Register/Wcr.antt =====
-- The ARM64 watchpoint registers (`wcr_encode` of src/register.rs) digit by digit.
use macos_c_debugger_rust.Base.{
  ℕ, Bool, if◌then◌else◌, ◌-◌, ◌<◌, ◌==◌, ◌≡◌, leb, ltb, true, ◌%◌, arith, refl, ◌+◌, ◌&&◌, ==_iff,
}
use macos_c_debugger_rust.Base.Bits.{
  all_below, bit, not64, bit-bit_and, bit_and_seven, all_below_sound, bit-lt,
}
use macos_c_debugger_rust.Register.Watch.{
  WatchCondition, wcr_encode, WatchLen, as_bytes, execute, write, io_rw, read_write, byte1, word2,
  qword8, dword4,
}

-- The kind of access that WCR.LSC names: 2 for stores, 3 for loads and stores.
abbrev lsc_digit : WatchCondition → ℕ → ℕ
lsc_digit write i = bit 2 (i - 3)
lsc_digit _ i = bit 3 (i - 3)

-- What the architecture asks of digit `i` of WCR to watch `len` bytes from `offset` on in an
-- aligned 8-byte word: E = 1, PAC = 10, LSC, and BAS with one digit for each watched byte.
abbrev pub wcr_digit : ℕ → WatchCondition → WatchLen → ℕ → ℕ
wcr_digit offset c l i =
    if i == 0
    then 1
    else (if leb i 2
        then bit 2 (i - 1)
        else (if leb i 4
            then lsc_digit c i
            else (if leb (5 + offset) i && (ltb i (5 + offset + as_bytes l) && leb i 12)
                then 1
                else 0)))

abbrev wcr_test : WatchCondition → WatchLen → ℕ → ℕ → Bool
wcr_test c l offset i = bit (wcr_encode offset c l).1 i == wcr_digit offset c l i

wcr_table :
    (c : WatchCondition) (l : WatchLen) → all_below 8 (λ o. all_below 64 (wcr_test c l o)) ≡ true
unfolding all_below bit wcr_encode as_bytes
wcr_table execute byte1 = refl
wcr_table execute word2 = refl
wcr_table execute qword8 = refl
wcr_table execute dword4 = refl
wcr_table write byte1 = refl
wcr_table write word2 = refl
wcr_table write qword8 = refl
wcr_table write dword4 = refl
wcr_table io_rw byte1 = refl
wcr_table io_rw word2 = refl
wcr_table io_rw qword8 = refl
wcr_table io_rw dword4 = refl
wcr_table read_write byte1 = refl
wcr_table read_write word2 = refl
wcr_table read_write qword8 = refl
wcr_table read_write dword4 = refl

-- Only the offset in the word matters to WCR.
wcr_encode-offset :
    (addr : ℕ) (c : WatchCondition) (l : WatchLen)
    → (wcr_encode addr c l).1 ≡ (wcr_encode (addr % 8) c l).1
unfolding wcr_encode
wcr_encode-offset addr c l = rw (bit_and_seven addr, bit_and_seven (addr % 8), mod_mod addr)
  where
    mod_mod : (a : ℕ) → a % 8 % 8 ≡ a % 8
    mod_mod a = omega arith

abbrev align_test : ℕ → Bool
align_test i = bit (not64 7) i == (if ltb i 3 then 0 else 1)

align_table : all_below 64 align_test ≡ true
unfolding all_below bit
align_table = refl

-- The digits of wcr_encode's words: the address with its low three digits cleared, and the control
-- word with its enable, privilege, access and byte-select fields.
wcr_encode-digit :
    (addr i : ℕ) (c : WatchCondition) (l : WatchLen)
    → i < 64
    → (bit (wcr_encode addr c l).0 i ≡ (if ltb i 3 then 0 else bit addr i))
      × (bit (wcr_encode addr c l).1 i ≡ wcr_digit (addr % 8) c l i)
wcr_encode-digit addr i c l h = (aligned, mask)
  where
    aligned : bit (wcr_encode addr c l).0 i ≡ (if ltb i 3 then 0 else bit addr i)
    aligned =
        unfold wcr_encode in
        ground (
          arith,
          bit-bit_and addr (not64 7) i,
          (==_iff _ _).0 (all_below_sound 64 align_test i align_table h),
          bit-lt addr i,
        )

    mask : bit (wcr_encode addr c l).1 i ≡ wcr_digit (addr % 8) c l i
    mask = rw (wcr_encode-offset addr c l) (
        (==_iff _ _).0 (
          all_below_sound 64 (wcr_test c l (addr % 8)) i
            (all_below_sound 8 (λ o. all_below 64 (wcr_test c l o)) (addr % 8) (wcr_table c l)
              (omega arith))
            h))
