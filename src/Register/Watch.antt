-- ===== src/Register/Watch.antt =====
-- src/register.rs: what a watchpoint watches for, and the encodings of the debug registers (DR7 of
-- x86_64; WVR and WCR of ARM64).
use macos_c_debugger_rust.Base.{ℕ, ◌+◌, ◌-◌, ◌*◌, ◌==◌, if◌then◌else◌, bit_and, bit_or}
use macos_c_debugger_rust.Base.Bits.{shl64, not64}

pub data WatchCondition : Type 0 where
  execute write io_rw read_write : WatchCondition

pub data WatchLen : Type 0 where
  byte1 word2 qword8 dword4 : WatchLen

-- `cond as u64`.
abbrev pub cond_code : WatchCondition → ℕ
cond_code execute = 0
cond_code write = 1
cond_code io_rw = 2
cond_code read_write = 3

-- `len as u64`.
abbrev pub len_code : WatchLen → ℕ
len_code byte1 = 0
len_code word2 = 1
len_code qword8 = 2
len_code dword4 = 3

unfoldable pub from_bytes : ℕ → WatchLen
from_bytes n =
    if n == 2 then word2 else (if n == 4 then dword4 else (if n == 8 then qword8 else byte1))

unfoldable pub as_bytes : WatchLen → ℕ
as_bytes byte1 = 1
as_bytes word2 = 2
as_bytes dword4 = 4
as_bytes qword8 = 8

-- The bits of DR7 that belong to a slot: its R/W, LEN and local enable fields.
abbrev pub slot_mask : ℕ → ℕ
slot_mask slot =
    bit_or (bit_or (shl64 3 (16 + slot * 4)) (shl64 3 (18 + slot * 4))) (shl64 3 (slot * 2))

unfoldable pub dr7_set_slot : ℕ → ℕ → WatchCondition → WatchLen → ℕ
dr7_set_slot dr7 slot c len =
    let cleared = bit_and dr7 (not64 (slot_mask slot)) in
    bit_or (bit_or (bit_or cleared (shl64 1 (slot * 2))) (shl64 (cond_code c) (16 + slot * 4)))
      (shl64 (len_code len) (18 + slot * 4))

unfoldable pub dr7_clear_slot : ℕ → ℕ → ℕ
dr7_clear_slot dr7 slot = bit_and dr7 (not64 (slot_mask slot))

-- (WVR, WCR) of ARM64.
unfoldable pub wcr_encode : ℕ → WatchCondition → WatchLen → ℕ × ℕ
unfolding as_bytes
wcr_encode addr c len =
    let size = as_bytes len in
    let offset = bit_and addr 7 in
    let bas = bit_and (shl64 (shl64 1 size - 1) offset) 0xff in
    let lsc : ℕ = elim c [ write ↦ 2 | _ ↦ 3 ] in
    let wcr = bit_or (bit_or (bit_or 1 (shl64 2 1)) (shl64 lsc 3)) (shl64 bas 5) in
    (bit_and addr (not64 7), wcr)
