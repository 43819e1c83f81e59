-- ===== src/Arch.antt =====
-- src/arch.rs: the architecture of the debugged program and its breakpoint instruction.
use macos_c_debugger_rust.Base.{ℕ, List, [], ◌∷◌, length}

pub data Arch : Type 0 where
  x86_64 aarch64 : Arch

-- `int3`, and `brk #0` (0xD4200000, least byte first).
unfoldable pub bp_bytes : Arch → List ℕ
bp_bytes x86_64 = 0xcc ∷ []
bp_bytes aarch64 = 0x00 ∷ 0x00 ∷ 0x20 ∷ 0xd4 ∷ []

unfoldable pub bp_size : Arch → ℕ
unfolding bp_bytes
bp_size a = length (bp_bytes a)

-- How far the program counter stands behind the breakpoint after the trap.
unfoldable pub bp_pc_offset : Arch → ℕ
bp_pc_offset x86_64 = 1
bp_pc_offset aarch64 = 0
