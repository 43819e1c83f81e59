-- ===== src/Session/Print/Dispatch.antt =====
-- The commands of src/main.rs that only look, by their words, and the list of sessions.
use macos_c_debugger_rust.Base.{
  ℕ, suc, List, [], ◌∷◌, ◌++◌, Option, none, some, if◌then◌else◌, ◌==◌, ◌||◌, Bool, map, length,
}
use macos_c_debugger_rust.Base.Text.{Text, codes, text_eq, starts_with}
use macos_c_debugger_rust.Base.Text.Format.{decimal, lines}
use macos_c_debugger_rust.Expr.{Expr, Value}
use macos_c_debugger_rust.Io.{Error, ok}
use macos_c_debugger_rust.LeakTracker.Print.{show_leaks}
use macos_c_debugger_rust.Mach.{Foreign}
use macos_c_debugger_rust.Mach.Float.{FloatForeign}
use macos_c_debugger_rust.Mach.Image.{get_text_base}
use macos_c_debugger_rust.Register.Display.{display_intel, display_float}
use macos_c_debugger_rust.Debugger.{State, WaitStatus, exited, signaled, registers}
use macos_c_debugger_rust.Debugger.Watch.{watchpoint_slots}
use macos_c_debugger_rust.Symbols.{Symbols}
use macos_c_debugger_rust.Symbols.Dwarf.Rows.{DebugInfo}
use macos_c_debugger_rust.Symbols.Print.{print_symbols, print_lines, print_debug_info}
use macos_c_debugger_rust.Session.{Session}
use macos_c_debugger_rust.Session.Commands.Assign.{float_registers}
use macos_c_debugger_rust.Session.Commands.Dispatch.{one_of}
use macos_c_debugger_rust.Session.Print.{
  Line, out, note, error_note, Printed, says, either, above, address,
}
use macos_c_debugger_rust.Session.Print.Source.{Files, Capstone, show_list, show_disasm}
use macos_c_debugger_rust.Session.Print.Show.{
  show_watch, memory_command, print_backtrace, show_command, print_threads,
}
use macos_c_debugger_rust.Session.Print.Value.{print_command}

abbrev pub status_text : Option WaitStatus → Text
status_text (some (exited code)) = codes "exited(" ++ decimal code ++ codes ")"
status_text (some (signaled signal)) = codes "signaled(" ++ decimal signal ++ codes ")"
status_text _ = codes "stopped"

-- `process list`.
unfoldable pub process_lines : ℕ → ℕ → List Session → List Line
process_lines current i [] = []
process_lines current i (x ∷ xs) =
    out (
      (if i == current then codes "*" else codes " ")
      ++ codes " #"
      ++ decimal i
      ++ codes " pid="
      ++ decimal x.dbg.pid
      ++ codes " threads="
      ++ decimal (length x.dbg.threads)
      ++ codes " ["
      ++ status_text x.dbg.last_status
      ++ codes "]  "
      ++ x.program)
    ∷ process_lines current (suc i) xs

abbrev pub first_of : List Text → Option Text
first_of [] = none
first_of (arg ∷ _) = some arg

-- The session's symbols, or the message that there are none.
abbrev pub from_symbols : Session → Text → (Symbols → List Text) → Printed
from_symbols x message f = elim x.syms [
  | none ↦ says (note message)
  | some table ↦ ok (map out (f table))
]

unfoldable pub leak_lines : Session → Printed
leak_lines x = elim x.leak_tracker [
  | none ↦ says (note (codes "leak tracking not enabled (use 'leaks on' to start)"))
  | some t ↦ ok (map out (show_leaks x.syms x.base t))
]

module _ {W : Type 0} (F : Foreign W) (x : Session) where
  abbrev pub state_of : W → State W
  state_of w = record { dbg = x.dbg; world = w }

  abbrev pub is_watch : Option Text → List Line → Printed → Printed
  is_watch none shown other = other
  is_watch (some sub) shown other =
      if text_eq sub (codes "watch")
      then ok shown
      else (if text_eq sub (codes "leaks") then leak_lines x else other)

  unfoldable pub show_word : List Text → W → Printed
  unfolding leak_lines
  show_word parts w =
      let args : List Text = elim parts [ [] ↦ [] | _ ∷ more ↦ more ] in
      is_watch (first_of args) (show_watch (watchpoint_slots x.dbg) x.soft_watches)
        (show_command F x.base x.syms parts (state_of w))

  unfoldable pub base_command : W → Printed
  base_command w =
      either (get_text_base F x.dbg.pid w).0 (λ b. says (out (codes "image base: " ++ address b)))
        (λ e. says (error_note (codes "failed to get image base: ") e))

  unfoldable pub registers_command : FloatForeign W → (ℕ → Text) → W → Printed
  registers_command G scientific w =
      let general =
        either (registers F (state_of w)).0 (λ r. ok (map out (lines (display_intel r))))
          (λ e. says (error_note (codes "failed to read registers: ") e)) in
      let floats =
        either (float_registers F G (state_of w)).0
          (λ r. ok (map out (lines (display_float scientific r))))
          (λ e. says (error_note (codes "failed to read float registers: ") e)) in
      either general (λ shown. above shown floats) (λ e. floats)

module _ {W : Type 0} (F : Foreign W) (G : FloatForeign W) (scientific : ℕ → Text) (files : Files)
    (exists : Text → Bool) (capstone : Capstone) (message : Error → Text)
    (parse : Text → Value Expr) (fuel : ℕ) (debug_file : Text) (info : DebugInfo) where
  -- What the words of the symbols' tables print.
  unfoldable pub table_command : Session → List Text → Text → Option Printed
  table_command x args word =
      if one_of word (codes "syms" ∷ codes "symbols" ∷ [])
      then some (
          from_symbols x (codes "no symbol information loaded")
            (λ table. print_symbols table (first_of args)))
      else (if text_eq word (codes "lines")
          then some (
              from_symbols x (codes "no line information loaded")
                (λ table. print_lines table (first_of args)))
          else (if one_of word (codes "dbg" ∷ codes "info" ∷ [])
              then some (
                  above
                    (out (codes "pid: " ++ decimal x.dbg.pid)
                      ∷ out (codes "program: " ++ x.program)
                      ∷ [])
                    (from_symbols x (codes "no symbol information loaded")
                      (λ table. print_debug_info table debug_file info x.base)))
              else none))

  -- The words that look at the process; `parts` has the word itself in front.
  unfoldable pub process_command : Session → List Text → Text → W → Option Printed
  unfolding show_word base_command registers_command
  process_command x parts word w =
      let s = state_of F x w in
      if one_of word (codes "tb" ∷ codes "bt" ∷ codes "backtrace" ∷ [])
      then some (print_backtrace F x.base x.syms s)
      else (if one_of word (codes "list" ∷ codes "l" ∷ [])
          then some (show_list F files exists capstone x.base x.syms parts s)
          else (if one_of word (codes "r" ∷ codes "regs" ∷ codes "registers" ∷ [])
              then some (registers_command F x G scientific w)
              else (if one_of word (codes "m" ∷ codes "mem" ∷ codes "memory" ∷ [])
                  then some (memory_command F x.base x.syms parts s)
                  else (if one_of word (codes "dis" ∷ codes "disasm" ∷ codes "disassemble" ∷ [])
                      then some (show_disasm F files exists capstone x.base x.syms parts s)
                      else (if text_eq word (codes "show")
                          then some (show_word F x parts w)
                          else (if text_eq word (codes "base")
                              then some (base_command F x w)
                              else (if text_eq word (codes "threads")
                                  then some (ok (print_threads F x.base x.syms files s))
                                  else none)))))))

  abbrev pub is_print : Text → Bool
  is_print word =
      one_of word (codes "p" ∷ codes "print" ∷ [])
      || (starts_with (codes "p/") word || starts_with (codes "print/") word)

  -- `none` where the word is none of these.
  unfoldable pub look_command : Session → List Text → Text → W → Option Printed
  unfolding table_command process_command
  look_command x [] line w = none
  look_command x (word ∷ args) line w = elim (table_command x args word) [
    | some shown ↦ some shown
    | none ↦
        if is_print word
        then some (print_command F message parse x.base x.syms fuel word line (state_of F x w))
        else process_command x (word ∷ args) word w
  ]
