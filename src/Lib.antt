-- ===== src/Lib.antt =====
-- A verification library for a source-level debugger of C programs on macOS, written in Rust.
--
-- The program. `main.rs` reads commands and holds sessions; each has a `Debugger` (`debugger.rs`), which
-- sets breakpoints (`breakpoint.rs`) and watchpoints (`register.rs`), waits for the process, handles its
-- stops and steps it with the help of a disassembler (`disasm.rs`). All of it calls the kernel through
-- `mach.rs` and `ptrace.rs`. `leak_tracker.rs` follows heap allocations by breakpoints of its own; it
-- learns where those functions are from `stub_finder.rs`. `symbols.rs` answers for names, addresses and
-- lines. `expr.rs` evaluates the expressions that the user types.
--
-- The files, with the source under src/ that each models:
--   Arch                src/arch.rs
--   Register/Intel      src/register.rs: ThreadState64 of x86_64; Names: access by name
--   Register/Float      src/register.rs: FloatState64, ArmNeonState64; Mach/Float: their two calls
--   Register/Arm        src/register.rs: ThreadState64 of aarch64
--   Register/Extended   src/register.rs: st_to_f64; Doubles;  Register/Display: the display functions
--   Register/Watch      src/register.rs: WatchCondition, WatchLen, dr7_set_slot, dr7_clear_slot,
--                       wcr_encode; Dr7 and Wcr: their digits
--   Mach                src/mach.rs and src/ptrace.rs: ports, threads, registers, process control
--   Mach/Memory         src/mach.rs: read_memory, write_memory; Bytes: over a memory that is a function
--   Mach/Debug          src/mach.rs: debug registers;  Mach/Image: get_text_base, detect_arch
--   Mach/Arm            src/mach.rs: registers and debug registers of aarch64
--   Breakpoint          src/breakpoint.rs; Memory: what it writes
--   Disasm              src/disasm.rs: step_targets
--   Debugger            src/debugger.rs: the state, registers and memory of the current thread
--   Debugger/Break      set_breakpoint, remove_breakpoint; Patched, Transparent: the program's bytes
--   Debugger/Watch      set_watchpoint, remove_watchpoint_slot; Slots
--   Debugger/Wait       refresh_threads, wait; Waiting
--   Debugger/Hit        handle_breakpoint_hit, handle_watchpoint_hit; Rewinding
--   Debugger/Run        step, cont, finish, skip_prologue_insns, start, detach, shutdown; Stepped
--   Debugger/Kept       what the operations leave alone; Written: write_memory; Refined: sequences of
--                       operations against a machine with the program's bytes
--   Debugger/Arm        src/debugger.rs, aarch64: slots, breakpoints, watchpoints; Wait, Hit, Run; Loaded:
--                       the debug registers after a loop over the threads; Armed, Disarmed, Twice;
--                       Frame: compute_frame_base of src/main.rs
--   LeakTracker         src/leak_tracker.rs; Pending, Stop, AutoCont, Disabled, Arm; Print: show_leaks
--   Expr                src/expr.rs: eval; Values; Exact: eval against the integers
--   StubFinder          src/stub_finder.rs; Wanted, Fat
--   Symbols             src/symbols.rs: the queries by name, address and line; Innermost, Prologue;
--                       Print: print_symbols, print_lines, print_debug_info
--   Symbols/Dwarf       src/symbols.rs: parse_var_location, parse_frame_base_def, entry_pc_range; Types:
--                       resolve_type_info_full, collect_struct_info; Scopes: collect_variables; Forest,
--                       Stacks and Nested: the nesting of scopes; Rows: load_line_rows, collect_type_names;
--                       Load: load; Integers
--   Session             src/main.rs: a session and the list of them; Selected: the selected one
--   Session/Soft        check_soft_watches, soft_watch_cont; Changed
--   Session/Place       parse_addr, resolve_location, is_identifier, resolve_list_target
--   Session/Variables   compute_frame_base, resolve_variable, read_var_value, eval_expression
--   Session/Lines       current_line, step_line, next_line, print_backtrace; Frames
--   Session/Commands    the commands of a session; Assign: set; Dispatch: the tables, leaks, thread;
--                       Watching: the numbers of watchpoints; Stored: set and evaluation
--   Session/Print       the lines that commands print: print_status, print_vars; Source: list_source,
--                       show_list, show_context, show_disasm, and Window; Show: show_command, memory,
--                       print_threads, print_backtrace; Value: the command print, and Shown: its
--                       strings; Addresses: what is printed and read;
--                       Dispatch: the words of the commands that only look, process list
--   Session/Processes   attach, spawn, process, detach, kill, the interrupt handler; Managed
--   Base, Io            shared lists, numbers, texts; `io::Result` with a state
--   Tests               a small machine, and the theorems at concrete inputs
--
-- The model. The host is x86_64, but for Debugger/Arm, Mach/Arm and Register/Arm. A function that
-- changes the debugger or the process takes a state and returns a result with the new state; an
-- error keeps the changes made before it. The calls of the kernel, of `ptrace` and of `waitpid` are
-- the fields of a record `Foreign` over an unknown world, the disassembler is a function;
-- `HasMemory` and `HasRegisters` say what the kernel documents of memory and registers. A `HashMap`
-- is an association list, a stack of pending calls a list with its top first, a byte or a machine
-- word a number. Sums of addresses wrap at 2^64, as in a release build. Where the source changes a
-- `Breakpoint` in place the model returns the changed one.
-- The loop of `wait` over interrupted calls and that of `auto_cont` run on fuel, which is enough
-- when it exceeds the number of rounds. So does that of a printed string, one unit for each 64
-- bytes. The loop of `get_text_base` has 32 rounds in the source itself, `soft_watch_cont`
-- 5,000,000, `step_line` and `next_line` 100,000 and `print_backtrace` 64. The functions of
-- `main.rs` that only look (expressions, variables, lines, frames) read a state that stays as it is,
-- and the printing commands return their lines, with files and capstone as parameters: what the
-- kernel's world becomes by these reads is not followed. A line that the user types comes as its
-- words and the text behind the first one.
--
-- What the libraries `object` and `gimli` find in a file is the argument of the readers in
-- Symbols/Dwarf: the record `Gimli` has the calls for one unit, where an attribute that is missing
-- and one that cannot be read are the same.
--
-- Not modelled: the parser of expressions, which is generated; the choice of the debug file, which
-- asks the file system; the text of `help`; what the commands that change the session print beside;
-- the commands and the leak tracker over the session of ARM64, which are those of x86_64.
pub mod Base
pub mod Arch
pub mod Register
pub mod Io
pub mod Mach
pub mod Breakpoint
pub mod Disasm
pub mod Debugger
pub mod LeakTracker
pub mod Session
pub mod Expr
pub mod StubFinder
pub mod Symbols
pub mod Tests
