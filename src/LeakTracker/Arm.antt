-- ===== src/LeakTracker/Arm.antt =====
-- src/leak_tracker.rs, aarch64: where the calling convention puts arguments, results and the return
-- address.
use macos_c_debugger_rust.Base.{ℕ, none, some, get_elem?}
use macos_c_debugger_rust.Io.{Result, ok, panic}
use macos_c_debugger_rust.Register.Arm.{ThreadState64}

-- `regs.__x[i]` of 29 registers.
abbrev x_register : ThreadState64 → ℕ → Result ℕ
x_register regs i = elim (get_elem? regs.x i) [ none ↦ panic | some v ↦ ok v ]

unfoldable pub arg0 : ThreadState64 → Result ℕ
arg0 regs = x_register regs 0

unfoldable pub arg1 : ThreadState64 → Result ℕ
arg1 regs = x_register regs 1

unfoldable pub retval : ThreadState64 → Result ℕ
retval regs = x_register regs 0

unfoldable pub return_addr : ThreadState64 → Result ℕ
return_addr regs = ok regs.lr
