-- ===== src/Session/Variables.antt =====
-- `compute_frame_base`, `resolve_variable`, `read_var_value`, `eval_expression` of src/main.rs, x86_64:
-- variables and expressions of the stopped program. These functions only look: the state that they
-- read is the one that stays.
use macos_c_debugger_rust.Base.{
  ℕ, Option, none, some, if◌then◌else◌, ◌+◌, ◌-◌, ◌%◌, ◌^◌, leb, length, take, find, ◌++◌,
}
use macos_c_debugger_rust.Base.Bytes.{from_le}
use macos_c_debugger_rust.Base.Text.{Text, codes, text_eq}
use macos_c_debugger_rust.Expr.{
  Expr, EvalContext, Value, VarType, value, failed, callback, required, clamp, eval, ◌>>=◌,
}
use macos_c_debugger_rust.Io
use macos_c_debugger_rust.Io.{Io, Result, ok, err, panic, out_of_fuel, Error}
use macos_c_debugger_rust.Mach.{Foreign}
use macos_c_debugger_rust.Register.Intel.{ThreadState64, bp}
use macos_c_debugger_rust.Debugger.{State, registers, current_pc, read_memory}
use macos_c_debugger_rust.Symbols.{
  Symbols, Variable, FieldInfo, frame_offset, addr, register, call_frame_cfa, find_variable,
  find_struct, slide,
}

abbrev pub text_of : {A : Type 0} → Option A → Text → Value A
text_of o message = required o (callback message)

-- The value of a read that cannot fail otherwise.
abbrev pub ok_value : {A : Type 0} → Result A → Option A
ok_value (ok a) = some a
ok_value _ = none

abbrev pub minus : ℕ → ℕ → ℕ
minus a b = (a + 2 ^ 64 - b) % 2 ^ 64

module _ {W : Type 0} (F : Foreign W) where
  abbrev pub frame_base_of : Variable → ThreadState64 → ℕ
  frame_base_of var regs = elim var.frame_base [
    | register ↦ bp regs
    | call_frame_cfa ↦ (bp regs + 16) % 2 ^ 64
  ]

  unfoldable pub compute_frame_base : Variable → Io (State W) ℕ
  compute_frame_base var s =
      Io.and_then (registers F s).0 (registers F s).1 (λ regs s. (ok (frame_base_of var regs), s))

  -- The address of a variable: the frame's base and the offset, or the slid address.
  unfoldable pub variable_address : Variable → ℕ → State W → Result ℕ
  variable_address var slide s = elim var.location [
    | addr a ↦ ok ((a + slide) % 2 ^ 64)
    | frame_offset off ↦
        (Io.and_then (compute_frame_base var s).0 (compute_frame_base var s).1
          (λ fb s. (ok ((fb + off) % 2 ^ 64), s))).0
  ]

  -- `copy_from_slice(&bytes[..size])` panics on fewer bytes.
  unfoldable pub read_var_value : Variable → ℕ → State W → Result (Option ℕ)
  read_var_value var slide s = elim (ok_value (variable_address var slide s)) [
    | none ↦ ok none
    | some at ↦ elim (ok_value (read_memory F at (clamp var.byte_size) s).0) [
      | none ↦ ok none
      | some bytes ↦
          if leb (clamp var.byte_size) (length bytes)
          then ok (some (from_le (take (clamp var.byte_size) bytes)))
          else panic
    ]
  ]

  -- `message` is the text of an error; a panic and fuel do not occur in these reads.
  module _ (message : Error → Text) where
    abbrev pub said : {A : Type 0} → Result A → Value A
    said (ok a) = value a
    said (err e) = failed (callback (message e))
    said panic = failed (callback (codes "panic"))
    said out_of_fuel = failed (callback (codes "out of fuel"))

    module _ (base : Option ℕ) (syms : Option Symbols) where
      unfoldable pub variable_of : Symbols → ℕ → Text → State W → Value Variable
      variable_of table slide name s = said (current_pc F s).0 >>= λ pc.
          text_of (find_variable table name (minus pc slide)) (codes "variable not found: " ++ name)

      unfoldable pub resolve_variable : Text → State W → Value (ℕ × ℕ)
      unfolding variable_of
      resolve_variable name s = text_of syms (codes "no debug info loaded") >>= λ table.
          text_of base (codes "image base unknown") >>= λ b.
          variable_of table (slide table b) name s >>= λ var.
          said (variable_address var (slide table b) s) >>= λ at. value (at, var.byte_size)

      unfoldable pub type_of_variable : Text → State W → Value VarType
      unfolding variable_of
      type_of_variable name s = text_of syms (codes "no debug info") >>= λ table.
          text_of base (codes "image base unknown") >>= λ b.
          variable_of table (slide table b) name s >>= λ var.
          value (record {
            name = var.type_name;
            is_pointer = var.is_pointer;
            pointee = var.pointee_type;
          })

      unfoldable pub resolve_field : Text → Text → Value (ℕ × ℕ)
      resolve_field type_name field = text_of syms (codes "no debug info") >>= λ table.
          text_of (find_struct table type_name) (codes "unknown struct type: " ++ type_name)
          >>= λ si.
              text_of (find (λ (f : FieldInfo). text_eq f.name field) si.fields) (
                codes "field '"
                ++ field
                ++ codes "' not found in struct '"
                ++ type_name
                ++ codes "'")
              >>= λ fi. value (fi.offset, fi.byte_size)

      -- The context of an evaluation in the state `s`.
      unfoldable pub context : ThreadState64 → State W → EvalContext
      unfolding resolve_variable type_of_variable resolve_field
      context regs s = record {
        regs = regs;
        base = base;
        read_mem = some (λ at n. said (read_memory F at n s).0);
        resolve_var = some (λ name. resolve_variable name s);
        addr_of_var = some (λ name. resolve_variable name s >>= λ p. value p.0);
        resolve_field = some resolve_field;
        type_of_var = some (λ name. type_of_variable name s);
      }

      unfoldable pub eval_expression : (Text → Value Expr) → Text → State W → Value ℕ
      unfolding context
      eval_expression parse text s =
          parse text >>= λ e. said (registers F s).0 >>= λ regs. eval e (context regs s)
