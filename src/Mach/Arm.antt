-- ===== src/Mach/Arm.antt =====
-- src/mach.rs and src/register.rs, aarch64: the general and debug registers of a thread. The calls of
-- the kernel that take these registers are the fields of a record of their own; all others are those of
-- `Foreign`.
use macos_c_debugger_rust.Base.{ℕ, List, ltb, if◌then◌else◌, set as set_elem}
use macos_c_debugger_rust.Register.Watch.{WatchCondition, WatchLen, wcr_encode}
use macos_c_debugger_rust.Io.{Io, panic, ◌>>=◌}
use macos_c_debugger_rust.Mach.{mach_err}
use macos_c_debugger_rust.Register.Arm.{ThreadState64}

-- Each of the first four fields has sixteen words.
pub record ArmDebugState64 : Type 0 where
  pub bvr : List ℕ
  pub bcr : List ℕ
  pub wvr : List ℕ
  pub wcr : List ℕ
  pub mdscr_el1 : ℕ

abbrev pub hw_bp_bcr_enable : ℕ
hw_bp_bcr_enable = 0x1e5

pub record ArmForeign (W : Type 0) : Type 0 where
  pub thread_get_state : ℕ → W → (ℕ × ThreadState64) × W
  pub thread_set_state : ℕ → ThreadState64 → W → ℕ × W
  pub thread_get_debug : ℕ → W → (ℕ × ArmDebugState64) × W
  pub thread_set_debug : ℕ → ArmDebugState64 → W → ℕ × W

-- A slot out of range is a failed assertion.
module _ {W : Type 0} (G : ArmForeign W) where
  unfoldable pub get_registers : ℕ → Io W ThreadState64
  get_registers port w = let r = G.thread_get_state port w in (mach_err r.0.0 r.0.1, r.1)

  unfoldable pub set_registers : ℕ → ThreadState64 → Io W (Unit {0})
  set_registers port regs w = let r = G.thread_set_state port regs w in (mach_err r.0 tt, r.1)

  unfoldable pub get_debug_state : ℕ → Io W ArmDebugState64
  get_debug_state port w = let r = G.thread_get_debug port w in (mach_err r.0.0 r.0.1, r.1)

  unfoldable pub set_debug_state : ℕ → ArmDebugState64 → Io W (Unit {0})
  set_debug_state port d w = let r = G.thread_set_debug port d w in (mach_err r.0 tt, r.1)

  unfoldable pub write_breakpoint : ℕ → ℕ → ℕ → ℕ → Io W (Unit {0})
  unfolding get_debug_state set_debug_state
  write_breakpoint port slot value control w =
      if ltb slot 16
      then ((get_debug_state port >>= λ d.
            set_debug_state port
              (record d { bvr = set_elem d.bvr slot value; bcr = set_elem d.bcr slot control }))
          w)
      else (panic, w)

  unfoldable pub set_hw_breakpoint_slot : ℕ → ℕ → ℕ → Io W (Unit {0})
  unfolding write_breakpoint
  set_hw_breakpoint_slot port slot addr = write_breakpoint port slot addr hw_bp_bcr_enable

  unfoldable pub clear_hw_breakpoint_slot : ℕ → ℕ → Io W (Unit {0})
  unfolding write_breakpoint
  clear_hw_breakpoint_slot port slot = write_breakpoint port slot 0 0

  unfoldable pub write_watchpoint : ℕ → ℕ → ℕ × ℕ → Io W (Unit {0})
  unfolding get_debug_state set_debug_state
  write_watchpoint port slot words w =
      if ltb slot 4
      then ((get_debug_state port >>= λ d.
            set_debug_state port
              (record d { wvr = set_elem d.wvr slot words.0; wcr = set_elem d.wcr slot words.1 }))
          w)
      else (panic, w)

  unfoldable pub set_hw_watchpoint_slot : ℕ → ℕ → ℕ → WatchCondition → WatchLen → Io W (Unit {0})
  unfolding write_watchpoint wcr_encode
  set_hw_watchpoint_slot port slot addr c len = write_watchpoint port slot (wcr_encode addr c len)

  unfoldable pub clear_hw_watchpoint_slot : ℕ → ℕ → Io W (Unit {0})
  unfolding write_watchpoint
  clear_hw_watchpoint_slot port slot = write_watchpoint port slot (0, 0)
