-- ===== src/Register/Dr7.antt =====
-- DR7 digit by digit (`dr7_set_slot`, `dr7_clear_slot` of src/register.rs).
use macos_c_debugger_rust.Base.{
  ℕ, ◌+◌, ◌*◌, ◌-◌, ◌/◌, Bool, ◌&&◌, ◌||◌, ◌==◌, leb, if◌then◌else◌, ◌<◌, ◌≡◌, ==_iff, arith, true,
  refl,
}
use macos_c_debugger_rust.Base.Bits.{
  bit, all_below, not64, shl64, bit-bit_or, all_below_sound, bit-bit_and, bit-lt,
}
use macos_c_debugger_rust.Register.Watch.{
  WatchCondition, WatchLen, dr7_clear_slot, dr7_set_slot, cond_code, len_code, slot_mask,
}

-- The digits of DR7 that the manual gives to a slot: L and G at 2 * slot, R/W and LEN at
-- 16 + 4 * slot.
abbrev pub owns : ℕ → ℕ → Bool
owns slot i = (i / 2 == slot && leb i 15) || ((i - 16) / 4 == slot && leb 16 i)

-- The digit that the slot's fields hold there: enabled locally, R/W = cond, LEN = len.
abbrev pub field_digit : ℕ → ℕ → ℕ → ℕ → ℕ
field_digit slot c l i =
    if i == slot * 2
    then 1
    else (if leb i 15
        then 0
        else (if leb (i - (16 + slot * 4)) 1
            then bit c (i - (16 + slot * 4))
            else bit l (i - (18 + slot * 4))))

abbrev mask_test : ℕ → ℕ → Bool
mask_test s i = bit (not64 (slot_mask s)) i == (if owns s i then 0 else 1)

mask_table : all_below 4 (λ s. all_below 64 (mask_test s)) ≡ true
unfolding all_below bit
mask_table = refl

mask_digit : (s i : ℕ) → s < 4 → i < 64 → bit (not64 (slot_mask s)) i ≡ (if owns s i then 0 else 1)
mask_digit s i hs hi = (==_iff _ _).0 (
    all_below_sound 64 (mask_test s) i
      (all_below_sound 4 (λ s. all_below 64 (mask_test s)) s mask_table hs) hi)

abbrev enable_test : ℕ → ℕ → Bool
enable_test s i = bit (shl64 1 (s * 2)) i == (if i == s * 2 then 1 else 0)

enable_table : all_below 4 (λ s. all_below 64 (enable_test s)) ≡ true
unfolding all_below bit
enable_table = refl

enable_digit : (s i : ℕ) → s < 4 → i < 64 → bit (shl64 1 (s * 2)) i ≡ (if i == s * 2 then 1 else 0)
enable_digit s i hs hi = (==_iff _ _).0 (
    all_below_sound 64 (enable_test s) i
      (all_below_sound 4 (λ s. all_below 64 (enable_test s)) s enable_table hs) hi)

-- A two-digit field shifted to one of the eight even places from 16 on.
abbrev field_test : ℕ → ℕ → ℕ → Bool
field_test c p i =
    bit (shl64 c (16 + p * 2)) i
    == (if leb (16 + p * 2) i && leb i (17 + p * 2) then bit c (i - (16 + p * 2)) else 0)

field_table : all_below 4 (λ c. all_below 8 (λ p. all_below 64 (field_test c p))) ≡ true
unfolding all_below bit
field_table = refl

field_bit :
    (c p i : ℕ)
    → c < 4
    → p < 8
    → i < 64
    → bit (shl64 c (16 + p * 2)) i
      ≡ (if leb (16 + p * 2) i && leb i (17 + p * 2) then bit c (i - (16 + p * 2)) else 0)
field_bit c p i hc hp hi = (==_iff _ _).0 (
    all_below_sound 64 (field_test c p) i
      (all_below_sound 8 (λ p. all_below 64 (field_test c p)) p
        (all_below_sound 4 (λ c. all_below 8 (λ p. all_below 64 (field_test c p))) c field_table hc)
        hp)
      hi)

cond_code-lt : (c : WatchCondition) → cond_code c < 4
cond_code-lt c = ground arith

len_code-lt : (l : WatchLen) → len_code l < 4
len_code-lt l = ground arith

rw_digit :
    (s c i : ℕ)
    → s < 4
    → c < 4
    → i < 64
    → bit (shl64 c (16 + s * 4)) i
      ≡ (if leb (16 + s * 4) i && leb i (17 + s * 4) then bit c (i - (16 + s * 4)) else 0)
rw_digit s c i hs hc hi =
    let e : s * 2 * 2 ≡ s * 4 = omega arith in rw e at (field_bit c (s * 2) i hc (omega arith) hi)

len_digit :
    (s c i : ℕ)
    → s < 4
    → c < 4
    → i < 64
    → bit (shl64 c (18 + s * 4)) i
      ≡ (if leb (18 + s * 4) i && leb i (19 + s * 4) then bit c (i - (18 + s * 4)) else 0)
len_digit s c i hs hc hi =
    let e : 16 + (s * 2 + 1) * 2 ≡ 18 + s * 4 = omega arith in
    let f : 17 + (s * 2 + 1) * 2 ≡ 19 + s * 4 = omega arith in
    rw (e, f) at (field_bit c (s * 2 + 1) i hc (omega arith) hi)

dr7_set_slot-digit :
    (dr7 s i : ℕ) (c : WatchCondition) (l : WatchLen)
    → s < 4
    → i < 64
    → bit (dr7_set_slot dr7 s c l) i
      ≡ (if owns s i then field_digit s (cond_code c) (len_code l) i else bit dr7 i)
unfolding dr7_set_slot
dr7_set_slot-digit dr7 s i c l hs hi =
    simp (bit-bit_or, bit-bit_and)
      (rw
        (
          mask_digit s i hs hi,
          enable_digit s i hs hi,
          rw_digit s (cond_code c) i hs (cond_code-lt c) hi,
          len_digit s (len_code l) i hs (len_code-lt l) hi,
        )
        (ground (arith, bit-lt dr7 i)))

dr7_clear_slot-digit :
    (dr7 s i : ℕ)
    → s < 4
    → i < 64
    → bit (dr7_clear_slot dr7 s) i ≡ (if owns s i then 0 else bit dr7 i)
unfolding dr7_clear_slot
dr7_clear_slot-digit dr7 s i hs hi =
    ground (arith, bit-bit_and dr7 (not64 (slot_mask s)) i, mask_digit s i hs hi, bit-lt dr7 i)

-- For a slot below 4, each of the 64 digits of dr7_set_slot is that of the slot's local enable,
-- condition and length fields where the slot owns it, and the old one elsewhere; dr7_clear_slot
-- clears the digits that the slot owns and keeps the others.
pub dr7-digit :
    (dr7 s i : ℕ) (c : WatchCondition) (l : WatchLen)
    → s < 4
    → i < 64
    → (bit (dr7_set_slot dr7 s c l) i
        ≡ (if owns s i then field_digit s (cond_code c) (len_code l) i else bit dr7 i))
      × (bit (dr7_clear_slot dr7 s) i ≡ (if owns s i then 0 else bit dr7 i))
dr7-digit dr7 s i c l hs hi =
    (dr7_set_slot-digit dr7 s i c l hs hi, dr7_clear_slot-digit dr7 s i hs hi)
