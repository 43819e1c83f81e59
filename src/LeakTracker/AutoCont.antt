-- ===== src/LeakTracker/AutoCont.antt =====
-- `auto_cont` of src/leak_tracker.rs: the loop over the stops that the tracker handles.
use macos_c_debugger_rust.Base.{ℕ, zero, suc, true, false, ◌≡◌, arith, ◌<◌}
use macos_c_debugger_rust.Io.{Result, ok}
use macos_c_debugger_rust.Mach.{Foreign}
use macos_c_debugger_rust.Disasm.{Disassembler}
use macos_c_debugger_rust.Debugger.{WaitStatus, is_stopped}
use macos_c_debugger_rust.Debugger.Run.{cont}
use macos_c_debugger_rust.LeakTracker.{Tracked, debug, handle_stop, auto_cont}

-- The stops that the tracker handles, in a row, each followed by `cont`, and the first status that
-- it leaves to the user.
module _ {W : Type 0} (F : Foreign W) (disasm : Disassembler) (wait_fuel : ℕ) where
  pub data Handled : ℕ → WaitStatus → Tracked W → Result WaitStatus × Tracked W → Type 0 where
    ended : (st : WaitStatus) (s : Tracked W) → is_stopped st ≡ false → Handled 0 st s (ok st, s)
    users :
        (st : WaitStatus) (s : Tracked W)
        → is_stopped st ≡ true
        → (handle_stop F s).0 ≡ ok false
        → Handled 0 st s (ok st, (handle_stop F s).1)
    handled :
        {n : ℕ} {st next : WaitStatus} {s : Tracked W} {r : Result WaitStatus × Tracked W}
        → is_stopped st ≡ true
        → (handle_stop F s).0 ≡ ok true
        → (cont F disasm wait_fuel (handle_stop F s).1.session).0 ≡ ok next
        → Handled n next (debug (cont F disasm wait_fuel) (handle_stop F s).1).1 r
        → Handled (suc n) st s r

  -- With more fuel than stops in a row that the tracker handles, each followed by a cont that
  -- returns ok, auto_cont returns the first status that the tracker leaves to the user.
  pub auto_cont_lem :
      (n fuel : ℕ) (st : WaitStatus) (s : Tracked W) (r : Result WaitStatus × Tracked W)
      → Handled n st s r
      → n < fuel
      → auto_cont F disasm wait_fuel fuel st s ≡ r
  unfolding auto_cont
  auto_cont_lem n zero st s r d h = absurd (omega arith)
  auto_cont_lem zero (suc fuel) st s r (ended _ _ e) h = ground (arith, e)
  auto_cont_lem zero (suc fuel) st s r (users _ _ e f) h = ground (arith, e, f)
  auto_cont_lem (suc n) (suc fuel) st s r (handled e f g d) h =
      let t = debug (cont F disasm wait_fuel) (handle_stop F s).1 in
      ground (arith, e, f, g, auto_cont_lem n fuel _ t.1 r d)
