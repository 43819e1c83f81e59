-- ===== src/Tests/Steps.antt =====
-- Steps, lines, frames and watched values on the machine: a thread behind address 16.
use macos_c_debugger_rust.Base.{false, [], ◌∷◌, none, some, ◌≡◌, ◌≤◌, refl, arith, length}
use macos_c_debugger_rust.Base.Assoc.{lookup, insert, remove}
use macos_c_debugger_rust.Base.Text.{codes, text_eq}
use macos_c_debugger_rust.Arch.{bp_bytes, bp_size, bp_pc_offset}
use macos_c_debugger_rust.Breakpoint
use macos_c_debugger_rust.Disasm.{Disassembler, step_targets}
use macos_c_debugger_rust.Io.{ok, for_each}
use macos_c_debugger_rust.Mach.{cont, get_task, get_registers, set_registers}
use macos_c_debugger_rust.Mach.Memory
use macos_c_debugger_rust.Register.Intel.{pc, set_pc}
use macos_c_debugger_rust.Debugger.{
  State, stopped, sigtrap, current_pc, registers, current_thread_port, read_memory, unpatch,
  patch_saved, patch_byte,
}
use macos_c_debugger_rust.Debugger.Break.{set_breakpoint, remove_breakpoint}
use macos_c_debugger_rust.Debugger.Hit.{handle_breakpoint_hit, rewind}
use macos_c_debugger_rust.Debugger.Run.{
  initial, install, place_targets, step_off, resume_and_wait, final_status, note_landing, step,
  step_current_thread,
}
use macos_c_debugger_rust.Debugger.Stepped.{step_current_thread-lookup}
use macos_c_debugger_rust.Debugger.Wait.{wait, wait_loop, decode_status}
use macos_c_debugger_rust.Session.{SoftWatchpoint}
use macos_c_debugger_rust.Session.Changed.{
  Changed, looked, found, check_soft_watches-Changed, soft_watch_cont_lem,
}
use macos_c_debugger_rust.Session.Frames.{Linked, backtrace-Linked, left, step_line_lem}
use macos_c_debugger_rust.Session.Lines.{current_line, backtrace, step_line}
use macos_c_debugger_rust.Session.Soft.{check_from, check_soft_watches, soft_watch_cont}
use macos_c_debugger_rust.Symbols.{Symbols, row, end_sequence, slide, find_location, locate}
use macos_c_debugger_rust.Tests.Memory.{broken, broken-IsPatched}
use macos_c_debugger_rust.Tests.World.{World, machine, memory_laws, program}

abbrev blind : Disassembler
blind code at = none

-- One thread at 17, behind a breakpoint at 16.
abbrev behind : State World
behind = record broken {
  dbg = record (broken.dbg) { threads = (record { port = 1; tid = 101; suspended = false }) ∷ [] };
}

step_current_thread-lookup_example :
    lookup 16 (step_current_thread machine blind 2 behind).1.dbg.breakpoints
    ≡ lookup 16 behind.dbg.breakpoints
unfolding step_current_thread place_targets step_off install resume_and_wait final_status
    handle_breakpoint_hit rewind wait wait_loop decode_status current_pc registers
    current_thread_port set_breakpoint remove_breakpoint read_memory unpatch patch_saved patch_byte
    lookup insert remove initial for_each step_targets cont get_task get_registers set_registers
    Memory.read_memory Memory.write_memory Memory.unprotect Breakpoint.new Breakpoint.enable
    Breakpoint.disable bp_bytes bp_size bp_pc_offset pc set_pc
step_current_thread-lookup_example =
    step_current_thread-lookup machine blind 2 behind (stopped sigtrap 16)
      (λ k. unfold lookup in ground arith) refl 16

-- Address 16 stands on the first line, 17 on the second.
abbrev lines : Symbols
lines = record {
  symbols = [];
  text_vmaddr = 0;
  line_rows =
      row (codes "a.c") (codes "/a.c") 1 16 false
      ∷ row (codes "a.c") (codes "/a.c") 2 17 false
      ∷ end_sequence 32
      ∷ [];
  variables = [];
  stubs = [];
  structs = [];
}

step_lands : (step machine blind 2 behind).0 ≡ ok (stopped sigtrap 16)
unfolding step note_landing step_current_thread place_targets step_off install resume_and_wait
    final_status handle_breakpoint_hit rewind wait wait_loop decode_status current_pc registers
    current_thread_port set_breakpoint remove_breakpoint read_memory unpatch patch_saved patch_byte
    lookup insert remove initial for_each step_targets cont get_task get_registers set_registers
    Memory.read_memory Memory.write_memory Memory.unprotect Breakpoint.new Breakpoint.enable
    Breakpoint.disable bp_bytes bp_size bp_pc_offset pc set_pc
step_lands = refl

step_pc : (current_pc machine (step machine blind 2 behind).1).0 ≡ ok 16
unfolding step note_landing step_current_thread place_targets step_off install resume_and_wait
    final_status handle_breakpoint_hit rewind wait wait_loop decode_status current_pc registers
    current_thread_port set_breakpoint remove_breakpoint read_memory unpatch patch_saved patch_byte
    lookup insert remove initial for_each step_targets cont get_task get_registers set_registers
    Memory.read_memory Memory.write_memory Memory.unprotect Breakpoint.new Breakpoint.enable
    Breakpoint.disable bp_bytes bp_size bp_pc_offset pc set_pc
step_pc = refl

other_line :
    current_line machine (some 0) (some lines) (step machine blind 2 behind).1
    ≡ some (codes "/a.c", 1)
unfolding current_line find_location locate slide
other_line = rw (current_line, step_pc) refl

first_line : current_line machine (some 0) (some lines) behind ≡ some (codes "/a.c", 2)
unfolding current_line find_location locate slide current_pc registers current_thread_port
    get_registers pc initial
first_line = refl

step_line_lem_example :
    step_line machine (some 0) (some lines) blind 2 behind
    ≡ (ok (stopped sigtrap 16), (step machine blind 2 behind).1)
unfolding text_eq
step_line_lem_example =
    step_line_lem machine (some 0) (some lines) blind 2 0 (codes "/a.c", 2) (stopped sigtrap 16)
      behind (ok (stopped sigtrap 16), (step machine blind 2 behind).1) first_line step_lands
      (left (rw other_line refl)) (omega arith)

abbrev soft : SoftWatchpoint
soft = record { id = 0; addr = 512; size = 2; desc = codes "x"; prev_value = 0 ∷ 0 ∷ [] }

abbrev changed : SoftWatchpoint
changed = record soft { prev_value = 0x80 ∷ 0 ∷ [] }

check_soft_watches-Changed_example : Changed program 0 (soft ∷ []) (some 0, changed ∷ [])
unfolding check_soft_watches check_from text_eq read_memory unpatch patch_saved patch_byte initial
    get_task Memory.read_memory
check_soft_watches-Changed_example =
    check_soft_watches-Changed memory_laws program (soft ∷ []) broken (some 0) (changed ∷ [])
      broken-IsPatched (omega arith, tt) refl

soft_watch_cont_lem_example :
    soft_watch_cont machine blind 2 (soft ∷ []) behind
    ≡ (ok (stopped sigtrap 16, changed ∷ []), (looked machine blind 2 (soft ∷ []) behind).1)
unfolding check_soft_watches check_from text_eq step note_landing step_current_thread place_targets
    step_off install resume_and_wait final_status handle_breakpoint_hit rewind wait wait_loop
    decode_status current_pc registers current_thread_port set_breakpoint remove_breakpoint
    read_memory unpatch patch_saved patch_byte lookup insert remove initial for_each step_targets
    cont get_task get_registers set_registers Memory.read_memory Memory.write_memory
    Memory.unprotect Breakpoint.new Breakpoint.enable Breakpoint.disable bp_bytes bp_size
    bp_pc_offset pc set_pc
soft_watch_cont_lem_example =
    soft_watch_cont_lem machine blind 2 0 (soft ∷ []) behind
      (ok (stopped sigtrap 16, changed ∷ []), (looked machine blind 2 (soft ∷ []) behind).1)
      (found refl refl refl refl) (omega arith)

backtrace-Linked_example :
    Linked machine (some 0) (some lines) behind (backtrace machine (some 0) (some lines) behind)
    × (length (backtrace machine (some 0) (some lines) behind) ≤ 64)
backtrace-Linked_example = backtrace-Linked machine (some 0) (some lines) behind
