-- ===== src/Mach/Debug.antt =====
-- src/mach.rs: the debug registers of a thread of x86_64.
use macos_c_debugger_rust.Base.{
  ℕ, zero, suc, List, [], ◌∷◌, ◌++◌, ◌==◌, if◌then◌else◌, ltb, bit_and,
}
use macos_c_debugger_rust.Base.Bits.{shl64}
use macos_c_debugger_rust.Register.Watch.{WatchCondition, WatchLen, dr7_set_slot, dr7_clear_slot}
use macos_c_debugger_rust.Io.{Io, ok, panic, ◌>>=◌, attempt}
use macos_c_debugger_rust.Mach.{Foreign, X86DebugState64, mach_err}

-- `DRn = addr` for the slots 0 to 3.
unfoldable pub with_address : X86DebugState64 → ℕ → ℕ → X86DebugState64
with_address d zero a = record d { dr0 = a }
with_address d (suc zero) a = record d { dr1 = a }
with_address d (suc (suc zero)) a = record d { dr2 = a }
with_address d (suc (suc (suc n))) a = record d { dr3 = a }

-- The slots whose digit of DR6 is set.
hit_slot : ℕ → ℕ → List ℕ
hit_slot dr6 slot = if bit_and dr6 (shl64 1 slot) == 0 then [] else slot ∷ []

unfoldable pub hit_slots : ℕ → List ℕ
unfolding hit_slot
hit_slots dr6 = hit_slot dr6 0 ++ (hit_slot dr6 1 ++ (hit_slot dr6 2 ++ hit_slot dr6 3))

module _ {W : Type 0} (F : Foreign W) where
  unfoldable pub get_debug_state : ℕ → Io W X86DebugState64
  get_debug_state port w = let r = F.thread_get_debug port w in (mach_err r.0.0 r.0.1, r.1)

  unfoldable pub set_debug_state : ℕ → X86DebugState64 → Io W (Unit {0})
  set_debug_state port d w = let r = F.thread_set_debug port d w in (mach_err r.0 tt, r.1)

  -- A slot above 3 is a failed assertion.
  unfoldable pub set_watchpoint_slot : ℕ → ℕ → ℕ → WatchCondition → WatchLen → Io W (Unit {0})
  set_watchpoint_slot port slot addr c l w =
      if ltb slot 4
      then ((get_debug_state port >>= λ d.
            set_debug_state port
              (record (with_address d slot addr) { dr7 = dr7_set_slot d.dr7 slot c l }))
          w)
      else (panic, w)

  unfoldable pub clear_watchpoint_slot : ℕ → ℕ → Io W (Unit {0})
  clear_watchpoint_slot port slot w =
      if ltb slot 4
      then ((get_debug_state port >>= λ d.
            set_debug_state port
              (record (with_address d slot 0) { dr7 = dr7_clear_slot d.dr7 slot }))
          w)
      else (panic, w)

  -- Reads the hits and clears DR6; a failure to clear is ignored.
  unfoldable pub watchpoint_hit_slots : ℕ → Io W (List ℕ)
  watchpoint_hit_slots port = do
    d ← get_debug_state port
    done ← attempt (set_debug_state port (record d { dr6 = 0 }))
    λ w. (ok (hit_slots d.dr6), w)
