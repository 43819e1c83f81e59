-- ===== src/Session/Soft.antt =====
-- `check_soft_watches`, `soft_watch_cont` of src/main.rs: watchpoints looked after by single steps.
use macos_c_debugger_rust.Base.{
  ℕ, zero, suc, List, [], ◌∷◌, Option, none, some, if◌then◌else◌, ◌||◌, is_some, unwrap_or,
}
use macos_c_debugger_rust.Base.Text.{text_eq}
use macos_c_debugger_rust.Disasm.{Disassembler}
use macos_c_debugger_rust.Io.{Io, ok, attempt, ◌>>=◌}
use macos_c_debugger_rust.Mach.{Foreign}
use macos_c_debugger_rust.Debugger.{
  State, WaitStatus, stopped, is_stopped, sigtrap, read_memory, current_pc,
}
use macos_c_debugger_rust.Debugger.Run.{step}
use macos_c_debugger_rust.Session.{SoftWatchpoint}

abbrev pub max_steps : ℕ
max_steps = 5000000

-- The watchpoint stays before those that the check of the others leaves.
abbrev pub in_front :
    {W : Type 0}
    → SoftWatchpoint
    → Option ℕ × List SoftWatchpoint
    → Io (State W) (Option ℕ × List SoftWatchpoint)
in_front w r s = (ok (r.0, w ∷ r.1), s)

module _ {W : Type 0} (F : Foreign W) where
  -- The first watchpoint, from number `i` on, whose memory has changed; it keeps the new bytes.
  unfoldable pub check_from :
      ℕ → List SoftWatchpoint → Io (State W) (Option ℕ × List SoftWatchpoint)
  check_from i [] s = (ok (none, []), s)
  check_from i (w ∷ ws) s =
      let later = check_from (suc i) ws >>= in_front w in
      (attempt (read_memory F w.addr w.size) >>= λ found. elim found [
        | none ↦ later
        | some new ↦ if text_eq new w.prev_value then later else λ s.
            (ok (some i, record w { prev_value = new } ∷ ws), s)
      ])
        s

  unfoldable pub check_soft_watches :
      List SoftWatchpoint → Io (State W) (Option ℕ × List SoftWatchpoint)
  unfolding check_from
  check_soft_watches ws = check_from 0 ws

  module _ (disasm : Disassembler) (wait_fuel : ℕ) where
    -- The loop with the steps that are left. A step that fails leaves the watchpoints as they were.
    unfoldable pub soft_loop :
        ℕ → List SoftWatchpoint → Io (State W) (WaitStatus × List SoftWatchpoint)
    soft_loop zero ws s =
        (attempt (current_pc F) >>= λ pc s. (ok (stopped sigtrap (unwrap_or pc 0), ws), s)) s
    soft_loop (suc n) ws s =
        let again = soft_loop n in
        (step F disasm wait_fuel >>= λ status.
        if is_stopped status
        then (check_soft_watches ws >>= λ r s.
            if is_some r.0 || is_some s.dbg.at_breakpoint
            then (ok (status, r.1), s)
            else again r.1 s)
        else λ s. (ok (status, ws), s))
          s

    unfoldable pub soft_watch_cont :
        List SoftWatchpoint → Io (State W) (WaitStatus × List SoftWatchpoint)
    unfolding soft_loop
    soft_watch_cont = soft_loop max_steps
