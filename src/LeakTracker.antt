-- ===== src/LeakTracker.antt =====
-- src/leak_tracker.rs, x86_64: heap allocations followed by breakpoints on malloc, calloc, realloc
-- and free, and on the addresses to which the first three return.
pub mod Pending
pub mod Stop
pub mod AutoCont
pub mod Disabled
pub mod Arm
pub mod Print
use macos_c_debugger_rust.Base.{
  ℕ, zero, suc, Bool, true, false, List, [], ◌∷◌, Option, none, some, ◌==◌, if◌then◌else◌, min, ◌*◌,
  ◌^◌, ◌-◌, map, is_some, leb, length, take,
}
use macos_c_debugger_rust.Base.Assoc.{lookup, insert, remove}
use macos_c_debugger_rust.Base.Bytes.{from_le}
use macos_c_debugger_rust.Disasm.{Disassembler}
use macos_c_debugger_rust.Io.{
  Io, Result, ok, err, panic, out_of_fuel, for_each, ◌>>=◌, ◌>>◌, attempt,
}
use macos_c_debugger_rust.Mach.{Foreign}
use macos_c_debugger_rust.Register.Intel.{ThreadState64}
use macos_c_debugger_rust.Debugger.{
  State, WaitStatus, is_stopped, registers, current_pc, read_memory,
}
use macos_c_debugger_rust.Debugger.Break.{set_breakpoint, remove_breakpoint, is_at}
use macos_c_debugger_rust.Debugger.Run.{cont}

pub record AllocInfo : Type 0 where
  pub size : ℕ
  pub call_site : ℕ

pub record PendingAlloc : Type 0 where
  pub size : ℕ
  pub call_site : ℕ

-- A stack of pending calls is a list, the last call first.
pub record LeakTracker : Type 0 where
  pub enabled : Bool
  pub live : List (ℕ × AllocInfo)
  pub malloc_addr : Option ℕ
  pub calloc_addr : Option ℕ
  pub realloc_addr : Option ℕ
  pub free_addr : Option ℕ
  pub pending_returns : List (ℕ × List PendingAlloc)

abbrev pub new : LeakTracker
new = record {
  enabled = false;
  live = [];
  malloc_addr = none;
  calloc_addr = none;
  realloc_addr = none;
  free_addr = none;
  pending_returns = [];
}

-- The tracker beside the debugger that it sets breakpoints in.
pub record Tracked (W : Type 0) : Type 0 where
  pub tracker : LeakTracker
  pub session : State W

module _ {W A : Type 0} where
  abbrev pub debug : Io (State W) A → Io (Tracked W) A
  debug m s = ((m s.session).0, record s { session = (m s.session).1 })

module _ {W : Type 0} where
  abbrev pub track : (LeakTracker → LeakTracker) → Io (Tracked W) (Unit {0})
  track f s = (ok tt, record s { tracker = f s.tracker })

-- The addresses that are given: `into_iter().flatten()`.
abbrev pub flatten : List (Option ℕ) → List ℕ
flatten [] = []
flatten (none ∷ more) = flatten more
flatten (some a ∷ more) = a ∷ flatten more

abbrev pub saturating_mul : ℕ → ℕ → ℕ
saturating_mul a b = min (a * b) (2 ^ 64 - 1)

-- The tracker with one more pending call, or one allocation less or more.
unfoldable pub push : ℕ → ℕ → LeakTracker → LeakTracker
push call_site n t = record t {
  pending_returns =
      let above : List PendingAlloc = elim (lookup call_site t.pending_returns) [
        | none ↦ []
        | some ps ↦ ps
      ] in
      insert call_site (record { size = n; call_site = call_site } ∷ above) t.pending_returns;
}

unfoldable pub forget : ℕ → LeakTracker → LeakTracker
forget ptr t = if ptr == 0 then t else record t { live = remove ptr t.live }

unfoldable pub record_return : ℕ → PendingAlloc → LeakTracker → LeakTracker
record_return ptr p t =
    if ptr == 0
    then t
    else record t { live = insert ptr (record { size = p.size; call_site = p.call_site }) t.live }

module _ {W : Type 0} (F : Foreign W) where
  unfoldable pub enable : Option ℕ → Option ℕ → Option ℕ → Option ℕ → Io (Tracked W) (Unit {0})
  enable malloc calloc realloc free =
      debug (for_each (set_breakpoint F) (flatten (malloc ∷ calloc ∷ realloc ∷ free ∷ [])))
      >> track (λ t. record {
        enabled = true;
        live = [];
        malloc_addr = malloc;
        calloc_addr = calloc;
        realloc_addr = realloc;
        free_addr = free;
        pending_returns = [];
      })

  -- `let _ = dbg.remove_breakpoint(addr)` for each address.
  unfoldable pub remove_all : List ℕ → Io (State W) (Unit {0})
  remove_all = for_each (λ a. attempt (remove_breakpoint F a) >> λ s. (ok tt, s))

  unfoldable pub disable : Io (Tracked W) (Unit {0})
  disable s =
      let t = s.tracker in
      (debug (
            remove_all
              (flatten (t.malloc_addr ∷ t.calloc_addr ∷ t.realloc_addr ∷ t.free_addr ∷ [])))
          >> debug (remove_all (map (λ e. e.0) t.pending_returns))
          >> track (λ t. record t { enabled = false; pending_returns = [] }))
        s

  -- The return address lies on top of the stack at a function's entry.
  unfoldable pub return_addr : ThreadState64 → Io (State W) ℕ
  return_addr regs = read_memory F regs.rsp 8 >>= λ buf s.
      if leb 8 (length buf) then (ok (from_le (take 8 buf)), s) else (panic, s)

  unfoldable pub push_pending : ThreadState64 → ℕ → Io (Tracked W) (Unit {0})
  push_pending regs n = debug (return_addr regs) >>= λ call_site.
      (λ s.
        if is_some (lookup call_site s.tracker.pending_returns)
        then (ok tt, s)
        else debug (set_breakpoint F call_site) s)
      >> track (push call_site n)

  -- A stop at a return address: the last pending call there has returned its pointer.
  unfoldable pub handle_return : ℕ → ThreadState64 → Io (Tracked W) Bool
  handle_return at regs s = elim (lookup at s.tracker.pending_returns) [
    | none ↦ (ok false, s)
    | some [] ↦
        (track (λ t. record t { pending_returns = remove at t.pending_returns })
            >> debug (attempt (remove_breakpoint F at))
            >> λ s. (ok true, s))
          s
    | some (p ∷ []) ↦
        (track (λ t.
              record_return regs.rax p (record t { pending_returns = remove at t.pending_returns }))
            >> debug (attempt (remove_breakpoint F at))
            >> λ s. (ok true, s))
          s
    | some (p ∷ q ∷ ps) ↦
        (track (λ t.
              record_return regs.rax p
                (record t { pending_returns = insert at (q ∷ ps) t.pending_returns }))
            >> λ s. (ok true, s))
          s
  ]

  -- The stop's meaning by its address; `true` where the tracker has handled it.
  unfoldable pub handle_at : ℕ → ThreadState64 → Io (Tracked W) Bool
  handle_at at regs s =
      if is_at s.tracker.malloc_addr at
      then (push_pending regs regs.rdi >> λ s. (ok true, s)) s
      else (if is_at s.tracker.calloc_addr at
          then (push_pending regs (saturating_mul regs.rdi regs.rsi) >> λ s. (ok true, s)) s
          else (if is_at s.tracker.realloc_addr at
              then (track (forget regs.rdi) >> push_pending regs regs.rsi >> λ s. (ok true, s)) s
              else (if is_at s.tracker.free_addr at
                  then (track (forget regs.rdi) >> λ s. (ok true, s)) s
                  else handle_return at regs s)))

  unfoldable pub handle_stop : Io (Tracked W) Bool
  handle_stop s =
      if s.tracker.enabled
      then (debug (current_pc F) >>= λ at. debug (registers F) >>= λ regs. handle_at at regs) s
      else (ok false, s)

  module _ (disasm : Disassembler) (wait_fuel : ℕ) where
    -- With a tracker: continued, `fuel` times at most, while the tracker handles the stop.
    unfoldable pub auto_cont : ℕ → WaitStatus → Io (Tracked W) WaitStatus
    auto_cont zero status s = (out_of_fuel, s)
    auto_cont (suc fuel) status s =
        let again = auto_cont fuel in
        if is_stopped status
        then (handle_stop >>= λ handled.
              if handled then debug (cont F disasm wait_fuel) >>= again else λ s. (ok status, s))
            s
        else (ok status, s)
