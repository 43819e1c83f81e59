-- ===== src/Tests/Tracker.antt =====
-- The leak tracker on the machine: `malloc` at 16 is called with the size 24.
use macos_c_debugger_rust.Base.{ℕ, true, false, [], ◌∷◌, none, some, ◌≡◌, refl, arith}
use macos_c_debugger_rust.Base.Assoc.{lookup, insert}
use macos_c_debugger_rust.Base.Bytes.{from_le}
use macos_c_debugger_rust.Arch.{bp_bytes, bp_size}
use macos_c_debugger_rust.Breakpoint
use macos_c_debugger_rust.Disasm.{Disassembler}
use macos_c_debugger_rust.Io.{ok}
use macos_c_debugger_rust.Mach.{get_task, get_registers}
use macos_c_debugger_rust.Mach.Memory
use macos_c_debugger_rust.Register.Intel.{pc}
use macos_c_debugger_rust.Debugger.{
  stopped, spawned, read_memory, unpatch, current_pc, registers, current_thread_port,
}
use macos_c_debugger_rust.Debugger.Break.{set_breakpoint}
use macos_c_debugger_rust.Debugger.Run.{initial}
use macos_c_debugger_rust.LeakTracker
use macos_c_debugger_rust.LeakTracker.{
  LeakTracker, Tracked, handle_at, handle_stop, handle_return, auto_cont, push_pending, return_addr,
  push, enable,
}
use macos_c_debugger_rust.Base.{◌||◌, if◌then◌else◌}
use macos_c_debugger_rust.Debugger.Break.{remove_breakpoint}
use macos_c_debugger_rust.LeakTracker.{disable, remove_all}
use macos_c_debugger_rust.Io.{for_each}
use macos_c_debugger_rust.Base.Assoc.{remove}
use macos_c_debugger_rust.LeakTracker.Disabled.{disable-lookup, entries, returns}
use macos_c_debugger_rust.Debugger.Kept.{has}
use macos_c_debugger_rust.LeakTracker.Pending.{IsValid, pending}
use macos_c_debugger_rust.LeakTracker.Stop.{handle_at-live, handle_stop-IsValid}
use macos_c_debugger_rust.LeakTracker.AutoCont.{auto_cont_lem, users}
use macos_c_debugger_rust.Tests.World.{World, world, machine, thread_at}

abbrev tracker : LeakTracker
tracker = record (LeakTracker.new) { enabled = true; malloc_addr = some 16 }

abbrev called : Tracked World
called = record {
  tracker = tracker;
  session = record {
    dbg = record (initial 7 spawned) {
      threads = (record { port = 1; tid = 101; suspended = false }) ∷ [];
    };
    world = world;
  };
}

tracker-IsValid : IsValid tracker
unfolding lookup
tracker-IsValid = record { filled = λ k e. cc e; sites = λ k. tt }

abbrev blind : Disassembler
blind code at = none

handle_at-live_example :
    let t =
      (handle_at machine 128
        (thread_at 128)
        (handle_at machine 16 (thread_at 16) called).1).1.tracker in
    (lookup 4096 t.live ≡ some (record { size = 24; call_site = 128 }))
    × ((k : ℕ) → pending k t ≡ pending k tracker)
unfolding handle_at push_pending return_addr read_memory Memory.read_memory get_task initial unpatch
    from_le set_breakpoint Breakpoint.enable Breakpoint.new Memory.write_memory Memory.unprotect
    bp_size bp_bytes lookup insert push
handle_at-live_example =
    handle_at-live machine 16 24 128 (thread_at 16) (thread_at 128) called
      (handle_at machine 16 (thread_at 16) called).1 tracker-IsValid refl refl refl refl refl
      (omega arith)

handle_stop-IsValid_example : IsValid (handle_stop machine called).1.tracker
handle_stop-IsValid_example = handle_stop-IsValid machine called tracker-IsValid

auto_cont_lem_example :
    auto_cont machine blind 2 1 (stopped 5 17) called
    ≡ (ok (stopped 5 17), (handle_stop machine called).1)
unfolding handle_stop current_pc registers current_thread_port get_registers initial pc handle_at
    handle_return lookup
auto_cont_lem_example =
    auto_cont_lem machine blind 2 0 1 (stopped 5 17) called
      (ok (stopped 5 17), (handle_stop machine called).1) (users (stopped 5 17) called refl refl)
      (omega arith)

-- After the call the tracker has a breakpoint at the return address 128, and one at 16.
disable-lookup_example :
    let s = (handle_at machine 16 (thread_at 16) called).1 in
    (lookup 128 (disable machine s).1.session.dbg.breakpoints ≡ (
      if has 128 (entries s.tracker) || has 128 (returns s.tracker)
      then none
      else lookup 128 s.session.dbg.breakpoints))
    × ((disable machine s).1.tracker ≡ record (s.tracker) { enabled = false; pending_returns = [] })
unfolding disable remove_all remove_breakpoint for_each Breakpoint.disable handle_at push_pending
    return_addr read_memory Memory.read_memory get_task initial unpatch from_le set_breakpoint
    Breakpoint.enable Breakpoint.new Memory.write_memory Memory.unprotect bp_size bp_bytes lookup
    insert remove push
disable-lookup_example =
    disable-lookup machine (handle_at machine 16 (thread_at 16) called).1 128 refl
