-- ===== src/Tests/Memory.antt =====
-- Breakpoints and memory on the machine.
use macos_c_debugger_rust.Base.{true, [], ◌∷◌, none, ◌==◌, if◌then◌else◌, ◌≡◌, refl, arith}
use macos_c_debugger_rust.Base.Assoc.{lookup, insert}
use macos_c_debugger_rust.Arch.{x86_64, bp_bytes, bp_size}
use macos_c_debugger_rust.Breakpoint
use macos_c_debugger_rust.Breakpoint.{Breakpoint}
use macos_c_debugger_rust.Mach.{get_task}
use macos_c_debugger_rust.Mach.Memory
use macos_c_debugger_rust.Mach.Bytes.{bytes_at}
use macos_c_debugger_rust.Debugger.{State, spawned, read_memory, unpatch, patch_saved, patch_byte}
use macos_c_debugger_rust.Debugger.Break.{set_breakpoint, remove_breakpoint}
use macos_c_debugger_rust.Debugger.Transparent.{IsPatched, read_memory-transparent}
use macos_c_debugger_rust.Debugger.Patched.{
  set_breakpoint-IsPatched, remove_breakpoint-IsPatched, set_twice-remove,
}
use macos_c_debugger_rust.Debugger.Run.{initial}
use macos_c_debugger_rust.Tests.World.{World, world, machine, memory_laws, program}

-- A session without breakpoints, and one with a breakpoint at 16.
abbrev pub fresh : State World
fresh = record { dbg = initial 7 spawned; world = world }

abbrev pub broken : State World
broken = record {
  dbg = record (initial 7 spawned) {
    breakpoints =
        (16, record { addr = 16; enabled = true; saved_bytes = 0 ∷ []; arch = x86_64 }) ∷ [];
  };
  world = record world { memory = λ a. if a == 16 then 0xcc else program a };
}

pub fresh-IsPatched : IsPatched memory_laws program fresh
unfolding lookup initial memory_laws
fresh-IsPatched = record { saved = tt; shown = λ a. refl }

pub broken-IsPatched : IsPatched memory_laws program broken
unfolding lookup initial memory_laws
broken-IsPatched = record {
  saved = ((refl, refl, refl, refl, omega arith), tt);
  shown = λ a. ground arith;
}

set_breakpoint-IsPatched_example : IsPatched memory_laws program (set_breakpoint machine 16 fresh).1
unfolding initial lookup
set_breakpoint-IsPatched_example =
    set_breakpoint-IsPatched memory_laws program 16 fresh (omega arith) refl refl fresh-IsPatched

remove_breakpoint-IsPatched_example :
    IsPatched memory_laws program (remove_breakpoint machine 16 broken).1
    × (memory_laws.mem (remove_breakpoint machine 16 broken).1.world 16 ≡ program 16)
unfolding remove_breakpoint lookup initial Breakpoint.disable Memory.write_memory Memory.unprotect
    get_task
remove_breakpoint-IsPatched_example =
    remove_breakpoint-IsPatched memory_laws program 16 broken refl broken-IsPatched

set_twice-remove_example :
    let t = (remove_breakpoint machine 16 (set_breakpoint machine 16 broken).1).1 in
    (memory_laws.mem t.world 16 ≡ 0xcc) × (lookup 16 t.dbg.breakpoints ≡ none)
unfolding remove_breakpoint set_breakpoint lookup insert initial Breakpoint.disable
    Breakpoint.enable Breakpoint.new Memory.write_memory Memory.read_memory Memory.unprotect
    get_task bp_size bp_bytes
set_twice-remove_example =
    set_twice-remove memory_laws program 16 broken refl (λ e. cc e) broken-IsPatched refl refl

read_memory-transparent_example : 0x80 ∷ 0 ∷ [] ≡ bytes_at program 512 2
unfolding read_memory Memory.read_memory get_task initial unpatch patch_saved patch_byte
read_memory-transparent_example =
    read_memory-transparent memory_laws program broken 512 2 (0x80 ∷ 0 ∷ []) broken-IsPatched
      (omega arith) refl
