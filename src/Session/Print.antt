-- ===== src/Session/Print.antt =====
-- src/main.rs: the lines that commands print, on the standard output and on that for errors. A text
-- ends where the message of an error, a refusal or a failed evaluation follows, which stands in the
-- line as the value. The functions only look: the state that they read is the one that stays.
pub mod Addresses
pub mod Source
pub mod Show
pub mod Value
pub mod Dispatch
use macos_c_debugger_rust.Base.{
  ℕ, Bool, true, false, List, [], ◌∷◌, ◌++◌, Option, none, some, if◌then◌else◌, ◌==◌, ◌+◌, ◌^◌,
  get_elem?,
}
use macos_c_debugger_rust.Base.Text.{Text, codes}
use macos_c_debugger_rust.Base.Text.Format.{hex, decimal, signed}
use macos_c_debugger_rust.Expr.{EvalError}
use macos_c_debugger_rust.Io.{Result, ok, err, panic, out_of_fuel, Error}
use macos_c_debugger_rust.Mach.{Foreign}
use macos_c_debugger_rust.Debugger.{State, Debugger, WaitStatus, stopped, exited, signaled, unknown}
use macos_c_debugger_rust.Symbols.{Symbols, Variable, find_symbol_for_addr, find_location, slide}
use macos_c_debugger_rust.Session.Place.{Refusal}
use macos_c_debugger_rust.Session.Variables.{read_var_value, minus}

pub data Line : Type 0 where
  out note : Text → Line
  error_note : Text → Error → Line
  refusal_note : Text → Refusal → Line
  eval_note : Text → EvalError → Line

abbrev pub Printed : Type 0
Printed = Result (List Line)

abbrev pub says : Line → Printed
says line = ok (line ∷ [])

-- Both branches of a `match` on a result.
abbrev pub either : {A : Type 0} → Result A → (A → Printed) → (Error → Printed) → Printed
either (ok a) f g = f a
either (err e) f g = g e
either panic f g = panic
either out_of_fuel f g = out_of_fuel

abbrev pub above : List Line → Printed → Printed
above before (ok after) = ok (before ++ after)
above before (err e) = err e
above before panic = panic
above before out_of_fuel = out_of_fuel

-- `{:#018x}`.
abbrev pub address : ℕ → Text
address n = hex 18 n

abbrev pub place : Text × ℕ → Text
place at = at.0 ++ codes ":" ++ decimal at.1

abbrev pub in_brackets : Option (Text × ℕ) → Text
in_brackets none = []
in_brackets (some at) = codes "  (" ++ place at ++ codes ")"

-- `name + 0xoff`, with the text between.
abbrev pub with_offset : Text → Text × ℕ → Text
with_offset plus at = at.0 ++ plus ++ hex 0 at.1

abbrev pub brief_offset : Text → Text × ℕ → Text
brief_offset plus at = if at.1 == 0 then at.0 else with_offset plus at

-- What the symbols know of an address at run time.
abbrev pub known :
    {A : Type 0} → Option ℕ → Option Symbols → (Symbols → ℕ → Option A) → ℕ → Option A
known none syms f at = none
known (some base) none f at = none
known (some base) (some syms) f at = f syms (minus at (slide syms base))

abbrev pub status_line : Debugger → WaitStatus → Text
status_line d (stopped signal pc) =
    codes "Stopped: pid="
    ++ decimal d.pid
    ++ elim (get_elem? d.threads d.current_thread) [
      | none ↦ []
      | some t ↦ codes " thread=#" ++ decimal d.current_thread ++ codes " tid=" ++ hex 0 t.tid
    ]
    ++ codes " signal="
    ++ decimal signal
    ++ codes " pc="
    ++ address pc
status_line d (exited code) =
    codes "Exited: pid=" ++ decimal d.pid ++ codes " code=" ++ decimal code
status_line d (signaled signal) =
    codes "Signaled: pid=" ++ decimal d.pid ++ codes " signal=" ++ decimal signal
status_line d (unknown status) =
    codes "Unknown status: pid=" ++ decimal d.pid ++ codes " " ++ signed 32 status

unfoldable pub print_status : Debugger → WaitStatus → List Line
print_status d status = out (status_line d status) ∷ []

module _ {W : Type 0} (F : Foreign W) where
  abbrev pub var_line : Variable → Option ℕ → Text
  var_line var none = codes "  " ++ var.name ++ codes " = <unavailable>"
  var_line var (some v) =
      codes "  " ++ var.name ++ codes " = " ++ signed 64 v ++ codes "  (" ++ hex 0 v ++ codes ")"

  unfoldable pub var_lines : List Variable → ℕ → State W → Printed
  var_lines [] slide s = ok []
  var_lines (var ∷ vars) slide s =
      let rest = var_lines vars slide s in
      either (read_var_value F var slide s) (λ v. above (out (var_line var v) ∷ []) rest)
        (λ e. err e)

  unfoldable pub print_vars : List Variable → ℕ → State W → Printed
  unfolding var_lines
  print_vars [] slide s = says (out (codes "  (none)"))
  print_vars (var ∷ vars) slide s = var_lines (var ∷ vars) slide s
