-- ===== src/Session/Print/Show.antt =====
-- `show_command`, `show watch`, the command `memory`, `print_backtrace` and `print_threads` of
-- src/main.rs, with `threads` and `read_word` of src/debugger.rs.
use macos_c_debugger_rust.Base.{
  ℕ, suc, Bool, List, [], ◌∷◌, ◌++◌, Option, none, some, if◌then◌else◌, ◌==◌, ◌-◌, leb, ◌&&◌, map,
  get_elem?, ◌>>=?◌,
}
use macos_c_debugger_rust.Base.Text.{Text, codes, text_eq}
use macos_c_debugger_rust.Base.Text.Format.{hex, decimal, signed, pad_left, pad_right, lines}
use macos_c_debugger_rust.Io.{Result, ok}
use macos_c_debugger_rust.Mach.{Foreign, get_registers}
use macos_c_debugger_rust.Mach.Memory
use macos_c_debugger_rust.Register.Intel.{pc, bp}
use macos_c_debugger_rust.Register.Watch.{
  WatchCondition, write, read_write, execute, io_rw, as_bytes,
}
use macos_c_debugger_rust.Debugger.{State, ThreadEntry, WatchpointInfo, registers, current_pc}
use macos_c_debugger_rust.Debugger.Break.{breakpoint_addrs}
use macos_c_debugger_rust.Symbols.{
  Symbols, Variable, find_symbol_for_addr, find_location, slide, locals_at_pc, args_at_pc,
  global_variables,
}
use macos_c_debugger_rust.Session.{SoftWatchpoint, bytes_to_u64}
use macos_c_debugger_rust.Session.Place.{parse_addr}
use macos_c_debugger_rust.Session.Variables.{minus, ok_value}
use macos_c_debugger_rust.Session.Lines.{frames, max_frames}
use macos_c_debugger_rust.Session.Print.{
  Line, out, note, error_note, Printed, says, either, address, known, place, in_brackets,
  with_offset, brief_offset, print_vars,
}
use macos_c_debugger_rust.Session.Print.Source.{Files}

abbrev pub indented : Option Text → Text
indented none = []
indented (some s) = codes "  " ++ s

-- `i` and what stands at an address, with its symbol and its source line.
abbrev pub entry_line : ℕ → ℕ → Option Text → Option (Text × ℕ) → Line
entry_line i at symbol location = out (
    codes "#"
    ++ pad_right 2 (decimal i)
    ++ codes " "
    ++ address at
    ++ indented symbol
    ++ in_brackets location)

module _ (base : Option ℕ) (syms : Option Symbols) where
  unfoldable pub breakpoint_lines : ℕ → List ℕ → List Line
  breakpoint_lines i [] = []
  breakpoint_lines i (at ∷ rest) =
      entry_line i at
        (known base syms find_symbol_for_addr at >>=? λ e. some (brief_offset (codes " + ") e))
        (known base syms find_location at)
      ∷ breakpoint_lines (suc i) rest

  unfoldable pub frame_lines : ℕ → List ℕ → List Line
  frame_lines i [] = []
  frame_lines i (at ∷ rest) =
      entry_line i at
        (known base syms find_symbol_for_addr at >>=? λ e. some (with_offset (codes " + ") e))
        (known base syms find_location at)
      ∷ frame_lines (suc i) rest

abbrev pub condition_text : WatchCondition → Text
condition_text write = codes "write"
condition_text read_write = codes "read/write"
condition_text execute = codes "execute"
condition_text io_rw = codes "io-rw"

abbrev pub slot_line : ℕ × WatchpointInfo → Line
slot_line w = out (
    codes "HW WP#"
    ++ decimal w.0
    ++ codes " "
    ++ address w.1.addr
    ++ codes "  "
    ++ decimal (as_bytes w.1.size)
    ++ codes " byte(s)  "
    ++ condition_text w.1.condition)

unfoldable pub soft_line : SoftWatchpoint → Line
unfolding bytes_to_u64
soft_line w = out (
    codes "SW WP#"
    ++ decimal w.id
    ++ codes " "
    ++ address w.addr
    ++ codes "  "
    ++ decimal w.size
    ++ codes " byte(s)  ["
    ++ w.desc
    ++ codes "]  current="
    ++ signed 64 (bytes_to_u64 w.prev_value))

abbrev pub or_line : Text → List Line → List Line
or_line message [] = out message ∷ []
or_line message (line ∷ rest) = line ∷ rest

unfoldable pub show_watch : List (ℕ × WatchpointInfo) → List SoftWatchpoint → List Line
unfolding soft_line
show_watch slots soft =
    or_line (codes "No watchpoints.") (map slot_line slots ++ map soft_line soft)

-- A thread as `threads` describes it.
pub record ThreadSummary : Type 0 where
  pub index : ℕ
  pub tid : ℕ
  pub pc_of : Option ℕ
  pub suspended : Bool
  pub current : Bool

module _ {W : Type 0} (F : Foreign W) where
  unfoldable pub summaries : State W → ℕ → List ThreadEntry → List ThreadSummary
  summaries s i [] = []
  summaries s i (t ∷ ts) =
      record {
        index = i;
        tid = t.tid;
        pc_of = ok_value (get_registers F t.port s.world).0 >>=? λ r. some (pc r);
        suspended = t.suspended;
        current = i == s.dbg.current_thread;
      }
      ∷ summaries s (suc i) ts

  unfoldable pub threads : State W → List ThreadSummary
  unfolding summaries
  threads s = summaries s 0 s.dbg.threads

  -- `Debugger::read_word` takes the memory as it is, with the bytes of breakpoints.
  unfoldable pub read_word : ℕ → State W → Result ℕ
  read_word at s = (Memory.read_word F s.dbg.pid at s.world).0

  module _ (base : Option ℕ) (syms : Option Symbols) where
    unfoldable pub memory_command : List Text → State W → Printed
    unfolding read_word
    memory_command (_ ∷ arg ∷ _) s = elim (parse_addr arg base) [
      | none ↦ says (note (codes "invalid address"))
      | some at ↦
          either (read_word at s)
            (λ v. says (out (codes "[" ++ address at ++ codes "] = " ++ hex 10 v)))
            (λ e. says (error_note (codes "failed to read memory: ") e))
    ]
    memory_command _ s = says (note (codes "usage: m <addr>"))

    -- The functions ask the registers once and then the chain of frames.
    unfoldable pub print_backtrace : State W → Printed
    unfolding frame_lines
    print_backtrace s =
        either (registers F s).0
          (λ r. ok (
            frame_lines base syms 0
              (map (λ f. f.0) (frames F base syms max_frames (pc r) (bp r) s))))
          (λ e. says (error_note (codes "failed to read registers: ") e))

    abbrev pub with_debug_info : Text → (Symbols → ℕ → Printed) → Printed
    with_debug_info name f = elim syms [
      | none ↦ says (note (name ++ codes ": no debug info loaded"))
      | some table ↦ elim base [
        | none ↦ says (note (name ++ codes ": image base unknown"))
        | some b ↦ f table (slide table b)
      ]
    ]

    abbrev pub scoped : Text → (Symbols → ℕ → List Variable) → State W → Printed
    scoped name at_pc s = with_debug_info name (λ table slide.
        either (current_pc F s).0 (λ pc. print_vars F (at_pc table (minus pc slide)) slide s)
          (λ e. says (error_note (name ++ codes ": ") e)))

    unfoldable pub show_command : List Text → State W → Printed
    unfolding breakpoint_lines
    show_command (_ ∷ sub ∷ _) s =
        if text_eq sub (codes "bp")
        then ok (
            or_line (codes "No breakpoints.")
              (breakpoint_lines base syms 1 (breakpoint_addrs s.dbg)))
        else (if text_eq sub (codes "locals")
            then scoped (codes "show locals") locals_at_pc s
            else (if text_eq sub (codes "args")
                then scoped (codes "show args") args_at_pc s
                else (if text_eq sub (codes "globals")
                    then with_debug_info (codes "show globals")
                        (λ table slide. print_vars F (global_variables table) slide s)
                    else says (
                        note (
                          codes "show: unknown subcommand '"
                          ++ sub
                          ++ codes "' (bp|locals|args|globals|leaks)")))))
    show_command _ s = says (note (codes "usage: show bp|locals|args|globals"))

    -- The image is taken to be 16 MiB long; the symbols know nothing of an address outside it.
    abbrev pub in_image : ℕ → ℕ → Bool
    in_image b at = leb b at && leb (at - b) 0x1000000

    abbrev pub looked_up : {A : Type 0} → ℕ → (Symbols → ℕ → Option A) → Option A
    looked_up at f = base >>=? λ b. if in_image b at then known base syms f at else none

    abbrev pub where_text : Option Text → Option (Text × ℕ) → List Line
    where_text none none = []
    where_text none (some at) = out (codes "        " ++ place at) ∷ []
    where_text (some f) none = out (codes "        " ++ f) ∷ []
    where_text (some f) (some at) = out (codes "        " ++ f ++ codes " at " ++ place at) ∷ []

    module _ (files : Files) where
      abbrev pub source_line : Text × ℕ → List Line
      source_line at = elim (files at.0 >>=? λ text. get_elem? (lines text) (minus at.1 1)) [
        | none ↦ []
        | some line ↦
            out (codes "        " ++ pad_left 4 (decimal at.1) ++ codes " | " ++ line) ∷ []
      ]

      abbrev pub code_lines : ℕ → List Line
      code_lines at =
          let func =
            looked_up at find_symbol_for_addr >>=? λ e. some (brief_offset (codes "+") e) in
          let location = looked_up at find_location in
          where_text func location ++ elim location [ none ↦ [] | some l ↦ source_line l ]

      abbrev pub thread_lines : ThreadSummary → List Line
      thread_lines t =
          out (
            (if t.current then codes "*" else codes " ")
            ++ codes " #"
            ++ decimal t.index
            ++ codes " tid="
            ++ hex 0 t.tid
            ++ codes " pc="
            ++ elim t.pc_of [ none ↦ codes "?" | some at ↦ address at ]
            ++ (if t.suspended then codes " [suspended]" else []))
          ∷ elim t.pc_of [ none ↦ [] | some at ↦ code_lines at ]

      unfoldable pub all_lines : List ThreadSummary → List Line
      all_lines [] = []
      all_lines (t ∷ ts) = thread_lines t ++ all_lines ts

      unfoldable pub print_threads : State W → List Line
      unfolding all_lines threads
      print_threads s = all_lines (threads s)
