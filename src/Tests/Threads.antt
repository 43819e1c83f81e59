-- ===== src/Tests/Threads.antt =====
-- Threads, watchpoints and waiting on the machine.
use macos_c_debugger_rust.Base.{
  ℕ, true, false, [], ◌∷◌, some, if◌then◌else◌, ◌≡◌, refl, arith, position_from, find, get_elem?,
}
use macos_c_debugger_rust.Base.Assoc.{lookup}
use macos_c_debugger_rust.Arch.{x86_64, bp_pc_offset}
use macos_c_debugger_rust.Io.{for_each}
use macos_c_debugger_rust.Mach.{
  list_threads, thread_unique_id, deallocate_port, get_registers, set_registers,
}
use macos_c_debugger_rust.Register.Watch.{write, qword8}
use macos_c_debugger_rust.Register.Intel.{pc, set_pc}
use macos_c_debugger_rust.Debugger.{State, ThreadEntry, stopped, spawned, sigtrap}
use macos_c_debugger_rust.Debugger.Hit.{handle_breakpoint_hit, rewind}
use macos_c_debugger_rust.Debugger.Rewinding.{
  handle_breakpoint_hit_lem, has_port, set_back, noted, first_trapped,
}
use macos_c_debugger_rust.Debugger.Run.{initial}
use macos_c_debugger_rust.Debugger.Watch.{set_watchpoint}
use macos_c_debugger_rust.Debugger.Slots.{Placed, IsValid, set_watchpoint-Placed}
use macos_c_debugger_rust.Debugger.Wait.{wait_loop, refresh_threads, new_entries, new_entry}
use macos_c_debugger_rust.Debugger.Waiting.{
  wait_loop_lem, done, again, final, refresh_threads-current,
}
use macos_c_debugger_rust.Tests.World.{World, world, machine, register_laws}

abbrev first : ThreadEntry
first = record { port = 1; tid = 101; suspended = false }

abbrev second : ThreadEntry
second = record { port = 2; tid = 102; suspended = true }

-- Both threads stand behind the breakpoint at 16.
abbrev pub trapped : State World
trapped = record {
  dbg = record (initial 7 spawned) {
    task = 7;
    threads = second ∷ first ∷ [];
    breakpoints =
        (16, record { addr = 16; enabled = true; saved_bytes = 0 ∷ []; arch = x86_64 }) ∷ [];
    last_status = some (stopped sigtrap 17);
  };
  world = world;
}

handle_breakpoint_hit_lem_example :
    let t = (handle_breakpoint_hit machine trapped).1 in
    ((q : ℕ)
      → register_laws.regs t.world q ≡ (
          if has_port q trapped.dbg.threads
          then set_back trapped.dbg (register_laws.regs trapped.world q)
          else register_laws.regs trapped.world q))
    × (t.dbg
        ≡ noted trapped.dbg
            (first_trapped trapped.dbg (register_laws.regs trapped.world) 0 trapped.dbg.threads))
unfolding handle_breakpoint_hit rewind get_registers set_registers lookup initial bp_pc_offset pc
    set_pc
handle_breakpoint_hit_lem_example =
    handle_breakpoint_hit_lem register_laws trapped 17 refl (refl, (refl, tt)) refl

set_watchpoint-Placed_example :
    let r = set_watchpoint machine 64 write qword8 trapped in
    Placed 64 trapped.dbg.wp_slots r.1.dbg.wp_slots r.0 × IsValid r.1.dbg.wp_slots
unfolding initial
set_watchpoint-Placed_example =
    set_watchpoint-Placed machine 64 write qword8 trapped (record { four = refl; distinct = tt })

wait_loop_lem_example :
    wait_loop machine 2 7 world ≡ final machine 7 (record world { interruptions = 0 })
wait_loop_lem_example =
    wait_loop_lem machine 7 1 2 world (record world { interruptions = 0 })
      (again refl (done _ (λ e. cc e))) (omega arith)

refresh_threads-current_example :
    let d = (refresh_threads machine trapped).1.dbg in
    (u : ThreadEntry) × (get_elem? d.threads d.current_thread ≡ some u) × (u.tid ≡ 102)
unfolding refresh_threads new_entries new_entry list_threads thread_unique_id deallocate_port
    for_each find position_from initial
refresh_threads-current_example =
    refresh_threads-current machine trapped second refl refl (λ e. cc e)
