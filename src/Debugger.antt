-- ===== src/Debugger.antt =====
-- src/debugger.rs, x86_64: the state of a debugging session and the parts of it that every operation
-- uses. A `HashMap` is an association list; a `[Option<_>; 4]` a list of length 4.
pub mod Wait
pub mod Watch
pub mod Break
pub mod Transparent
pub mod Patched
pub mod Rewinding
pub mod Waiting
pub mod Slots
pub mod Hit
pub mod Run
pub mod Kept
pub mod Written
pub mod Refined
pub mod Stepped
pub mod Arm
use macos_c_debugger_rust.Base.{
  ℕ, Bool, true, false, List, Option, none, some, if◌then◌else◌, get_elem?, ◌+◌, ◌%◌, ◌^◌, ◌-◌, leb,
  ltb, ◌&&◌, [], ◌∷◌, suc, set as set_elem, length,
}
use macos_c_debugger_rust.Arch.{Arch}
use macos_c_debugger_rust.Breakpoint.{Breakpoint}
use macos_c_debugger_rust.Io.{Io, Result, ok, err, no_threads, or_fail, ◌>>=◌}
use macos_c_debugger_rust.Mach.{Foreign, get_registers, set_registers}
use macos_c_debugger_rust.Mach.Memory
use macos_c_debugger_rust.Register.Intel.{ThreadState64, pc}
use macos_c_debugger_rust.Register.Watch.{WatchCondition, WatchLen}

pub data WaitStatus : Type 0 where
  stopped : ℕ → ℕ → WaitStatus
  exited signaled unknown : ℕ → WaitStatus

pub data Origin : Type 0 where
  spawned attached : Origin

pub record ThreadEntry : Type 0 where
  pub port : ℕ
  pub tid : ℕ
  pub suspended : Bool

pub record WatchpointInfo : Type 0 where
  pub addr : ℕ
  pub condition : WatchCondition
  pub size : WatchLen

pub record Debugger : Type 0 where
  pub pid : ℕ
  pub origin : Origin
  pub task : ℕ
  pub threads : List ThreadEntry
  pub current_thread : ℕ
  pub breakpoints : List (ℕ × Breakpoint)
  pub last_status : Option WaitStatus
  pub at_breakpoint : Option ℕ
  pub arch : Arch
  pub wp_slots : List (Option WatchpointInfo)
  pub at_watchpoint : Option ℕ

-- The debugger and the world that its calls of the kernel change.
pub record State (W : Type 0) : Type 0 where
  pub dbg : Debugger
  pub world : W

abbrev pub sigtrap : ℕ
sigtrap = 5

abbrev pub is_stopped : WaitStatus → Bool
is_stopped (stopped _ _) = true
is_stopped _ = false

-- One byte of the buffer replaced, if the address lies in it.
unfoldable pub patch_byte : ℕ → ℕ → ℕ → List ℕ → List ℕ
patch_byte addr at byte buf =
    if leb addr at && ltb at ((addr + length buf) % 2 ^ 64)
    then set_elem buf (at - addr) byte
    else buf

-- The saved bytes of a breakpoint put back into the buffer.
unfoldable pub patch_saved : ℕ → ℕ → List ℕ → List ℕ → List ℕ
patch_saved addr at [] buf = buf
patch_saved addr at (b ∷ bs) buf =
    patch_saved addr ((at + 1) % 2 ^ 64) bs (patch_byte addr at b buf)

unfoldable pub unpatch : ℕ → List (ℕ × Breakpoint) → List ℕ → List ℕ
unfolding patch_saved
unpatch addr [] buf = buf
unpatch addr ((k, b) ∷ m) buf =
    unpatch addr m (if b.enabled then patch_saved addr k b.saved_bytes buf else buf)

module _ {W A : Type 0} where
  abbrev pub kernel : Io W A → Io (State W) A
  kernel m s = ((m s.world).0, record s { world = (m s.world).1 })

  abbrev pub gets : (Debugger → A) → Io (State W) A
  gets f s = (ok (f s.dbg), s)

module _ {W : Type 0} where
  abbrev pub modify : (Debugger → Debugger) → Io (State W) (Unit {0})
  modify f s = (ok tt, record s { dbg = f s.dbg })

  unfoldable pub current_thread_port : Io (State W) ℕ
  current_thread_port s = elim (get_elem? s.dbg.threads s.dbg.current_thread) [
    | none ↦ (err no_threads, s)
    | some t ↦ (ok t.port, s)
  ]

module _ {W : Type 0} (F : Foreign W) where
  unfoldable pub registers : Io (State W) ThreadState64
  unfolding current_thread_port
  registers = current_thread_port >>= λ port. kernel (get_registers F port)

  unfoldable pub set_current_registers : ThreadState64 → Io (State W) (Unit {0})
  unfolding current_thread_port
  set_current_registers regs = current_thread_port >>= λ port. kernel (set_registers F port regs)

  unfoldable pub current_pc : Io (State W) ℕ
  unfolding registers pc
  current_pc = registers >>= λ r s. (ok (pc r), s)

  -- Memory as the program wrote it, without the breakpoint instructions.
  unfoldable pub read_memory : ℕ → ℕ → Io (State W) (List ℕ)
  unfolding unpatch
  read_memory addr n s =
      (kernel (Memory.read_memory F s.dbg.pid addr n) >>= λ buf s.
      (ok (unpatch addr s.dbg.breakpoints buf), s))
        s

  unfoldable pub write_memory : ℕ → List ℕ → Io (State W) (Unit {0})
  write_memory addr bytes s = kernel (Memory.write_memory F s.dbg.pid addr bytes) s
