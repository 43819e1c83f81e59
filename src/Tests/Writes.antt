-- ===== src/Tests/Writes.antt =====
-- Memory written through the debugger, and a sequence of its operations, on the machine.
use macos_c_debugger_rust.Base.{true, false, List, [], ◌∷◌, none, some, ◌≡◌, refl, arith}
use macos_c_debugger_rust.Base.Assoc.{lookup, insert, remove}
use macos_c_debugger_rust.Arch.{x86_64, bp_bytes, bp_size}
use macos_c_debugger_rust.Breakpoint
use macos_c_debugger_rust.Breakpoint.{Breakpoint}
use macos_c_debugger_rust.Mach.{get_task}
use macos_c_debugger_rust.Mach.Memory
use macos_c_debugger_rust.Debugger.{
  State, read_memory, write_memory, unpatch, patch_saved, patch_byte,
}
use macos_c_debugger_rust.Debugger.Break.{set_breakpoint, remove_breakpoint}
use macos_c_debugger_rust.Debugger.Refined.{
  Op, insert_at, remove_at, peek_at, poke_at, Machine, answers, end_of, perform, perform_all, Shows,
  perform_all-Shows,
}
use macos_c_debugger_rust.Debugger.Run.{initial}
use macos_c_debugger_rust.Debugger.Written.{write_memory-lost}
use macos_c_debugger_rust.Tests.Memory.{fresh, fresh-IsPatched, broken, broken-IsPatched}
use macos_c_debugger_rust.Base.{keep, find}
use macos_c_debugger_rust.Base.Bytes.{to_le}
use macos_c_debugger_rust.Base.Text.{Text, codes, text_eq}
use macos_c_debugger_rust.Debugger.{current_pc, registers, current_thread_port}
use macos_c_debugger_rust.Debugger.Transparent.{IsPatched}
use macos_c_debugger_rust.Expr.{value, eval, variable}
use macos_c_debugger_rust.Io.{Error}
use macos_c_debugger_rust.Mach.{get_registers}
use macos_c_debugger_rust.Mach.Float.{FloatForeign}
use macos_c_debugger_rust.Register.Float.{FloatState64}
use macos_c_debugger_rust.Register.Intel.{pc}
use macos_c_debugger_rust.Session.Commands.Assign.{store}
use macos_c_debugger_rust.Session.Commands.Stored.{store-eval}
use macos_c_debugger_rust.Session.Variables.{
  resolve_variable, variable_of, variable_address, context,
}
use macos_c_debugger_rust.Symbols.{Symbols, addr, register, find_variable, min_by_key, slide}
use macos_c_debugger_rust.Tests.World.{World, machine, memory_laws, program, thread_at}

abbrev at_16 : Breakpoint
at_16 = record { addr = 16; enabled = true; saved_bytes = 0 ∷ []; arch = x86_64 }

write_memory-lost_example :
    let t = (write_memory machine 16 (0x90 ∷ []) broken).1 in
    (memory_laws.mem t.world 16 ≡ 0x90)
    × (lookup 16 t.dbg.breakpoints ≡ some at_16)
    × (0 ∷ [] ≡ program 16 ∷ [])
unfolding lookup initial read_memory write_memory Memory.read_memory Memory.write_memory
    Memory.unprotect get_task unpatch patch_saved patch_byte
write_memory-lost_example =
    write_memory-lost memory_laws program 16 0x90 at_16 (0 ∷ []) broken broken-IsPatched refl
      (omega arith) refl refl

abbrev machine_view : Machine
machine_view = record { bytes = program; stops = λ x. false }

abbrev operations : List Op
operations =
    insert_at 16 ∷ poke_at 64 (1 ∷ 2 ∷ []) ∷ peek_at 16 2 ∷ remove_at 16 ∷ peek_at 64 2 ∷ []

fresh-Shows : Shows memory_laws machine_view fresh
unfolding initial lookup
fresh-Shows = record { patched = fresh-IsPatched; agreed = λ x. refl; intel = refl }

perform_all-Shows_example :
    ([] ∷ [] ∷ (0 ∷ 0 ∷ []) ∷ [] ∷ (1 ∷ 2 ∷ []) ∷ [] ≡ answers operations machine_view)
    × Shows memory_laws (end_of operations machine_view) (perform_all machine operations fresh).1
unfolding perform_all perform set_breakpoint remove_breakpoint read_memory write_memory lookup
    insert remove initial Breakpoint.disable Breakpoint.enable Breakpoint.new Memory.write_memory
    Memory.read_memory Memory.unprotect get_task bp_size bp_bytes unpatch patch_saved patch_byte
perform_all-Shows_example =
    perform_all-Shows memory_laws operations machine_view fresh
      ([] ∷ [] ∷ (0 ∷ 0 ∷ []) ∷ [] ∷ (1 ∷ 2 ∷ []) ∷ [])
      ((omega arith, refl), (λ x l u. ground arith, (omega arith, (tt, (omega arith, tt)))))
      fresh-Shows refl

-- A global variable of two bytes at 512.
abbrev one_variable : Symbols
one_variable = record {
  symbols = [];
  text_vmaddr = 0;
  line_rows = [];
  variables =
      (record {
        name = codes "x";
        scope = none;
        location = addr 512;
        byte_size = 2;
        is_arg = false;
        frame_base = register;
        type_name = codes "short";
        is_pointer = false;
        pointee_type = [];
      })
      ∷ [];
  stubs = [];
  structs = [];
}

abbrev floats : FloatForeign World
floats = record {
  thread_get_float = λ port w. ((1, zeros), w);
  thread_set_float = λ port f w. (1, w);
}
  where
    zeros : FloatState64
    zeros = record {
      fcw = 0;
      fsw = 0;
      ftw = 0;
      fop = 0;
      ip = 0;
      cs = 0;
      dp = 0;
      ds = 0;
      mxcsr = 0;
      mxcsrmask = 0;
      stmm = [];
      xmm = [];
    }

abbrev quiet_message : Error → Text
quiet_message e = []

abbrev running : State World
running = record broken {
  dbg = record (broken.dbg) { threads = (record { port = 1; tid = 101; suspended = false }) ∷ [] };
}

running-IsPatched : IsPatched memory_laws program running
running-IsPatched = record { saved = broken-IsPatched.saved; shown = broken-IsPatched.shown }

store-eval_example :
    eval (variable (codes "x")) (
      context machine quiet_message
        (some 0)
        (some one_variable)
        (thread_at 17)
        (store machine floats (512, 2) 7 running).1)
    ≡ value 7
unfolding lookup initial store resolve_variable variable_of variable_address find_variable
    min_by_key keep find text_eq slide current_pc registers current_thread_port get_registers pc
    read_memory write_memory Memory.read_memory Memory.write_memory Memory.unprotect get_task
    unpatch patch_saved patch_byte to_le
store-eval_example =
    store-eval memory_laws program floats quiet_message (some 0) (some one_variable) (codes "x") 512
      2 7 (7 ∷ 0 ∷ []) (thread_at 17) running running-IsPatched (λ x l u. ground arith)
      (omega arith) (omega arith) refl refl refl
