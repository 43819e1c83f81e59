-- ===== src/Session/Commands/Assign.antt =====
-- The command `set` of src/main.rs: a register, a variable or memory gets a value.
use macos_c_debugger_rust.Base.{
  ℕ, Bool, true, false, [], ◌∷◌, Option, none, some, if◌then◌else◌, take, ◌==◌, ◌||◌,
}
use macos_c_debugger_rust.Base.Bytes.{to_le}
use macos_c_debugger_rust.Base.Text.{Text, text_eq, trim, split_once}
use macos_c_debugger_rust.Expr.{Expr, Value, value, failed, clamp, bind}
use macos_c_debugger_rust.Io.{Io, Error, ok, attempt, ◌>>=◌}
use macos_c_debugger_rust.Mach.{Foreign}
use macos_c_debugger_rust.Mach.Float.{FloatForeign, get_float_registers, set_float_registers}
use macos_c_debugger_rust.Register.Float
use macos_c_debugger_rust.Register.Float.{FloatState64}
use macos_c_debugger_rust.Register.Intel.{set}
use macos_c_debugger_rust.Debugger.{
  State, kernel, registers, set_current_registers, current_thread_port, write_memory,
}
use macos_c_debugger_rust.Session.{Open, debug}
use macos_c_debugger_rust.Session.Commands.{state}
use macos_c_debugger_rust.Session.Place.{is_identifier, is_word_text}
use macos_c_debugger_rust.Session.Variables.{eval_expression, resolve_variable}

-- `$rax`, or a name.
abbrev pub register_name : Text → Option Text
register_name [] = none
register_name (c ∷ cs) =
    if c == b'$'
    then elim cs [ [] ↦ none | d ∷ ds ↦ if is_word_text (d ∷ ds) then some (d ∷ ds) else none ]
    else (if is_identifier (c ∷ cs) then some (c ∷ cs) else none)

module _ {W : Type 0} (F : Foreign W) (G : FloatForeign W) where
  unfoldable pub float_registers : Io (State W) FloatState64
  float_registers = current_thread_port >>= λ port. kernel (get_float_registers G port)

  unfoldable pub set_current_float_registers : FloatState64 → Io (State W) (Unit {0})
  set_current_float_registers regs =
      current_thread_port >>= λ port. kernel (set_float_registers G port regs)

  -- Each says whether the command is done: the name is one of these registers, or the registers
  -- could not be read.
  unfoldable pub set_register : Text → ℕ → Io (State W) Bool
  set_register reg v = attempt (registers F) >>= λ found. elim found [
    | none ↦ λ s. (ok true, s)
    | some regs ↦ elim (set regs reg v) [
      | none ↦ λ s. (ok false, s)
      | some new ↦ attempt (set_current_registers F new) >>= λ _ s. (ok true, s)
    ]
  ]

  unfoldable pub set_float_register : Text → ℕ → Io (State W) Bool
  set_float_register reg v = attempt float_registers >>= λ found. elim found [
    | none ↦ λ s. (ok true, s)
    | some fregs ↦ elim (Float.set fregs reg v) [
      | none ↦ λ s. (ok false, s)
      | some new ↦ attempt (set_current_float_registers new) >>= λ _ s. (ok true, s)
    ]
  ]

  -- The low bytes of the value, between one and eight, at the address.
  unfoldable pub store : ℕ × ℕ → ℕ → Io (State W) (Unit {0})
  store place v =
      attempt (write_memory F place.0 (take (clamp place.1) (to_le 8 v))) >>= λ _ s. (ok tt, s)

  module _ (message : Error → Text) (parse : Text → Value Expr) where
    -- Where the bytes of an lvalue stand and how many they are.
    unfoldable pub lvalue : Text → Open W → Value (ℕ × ℕ)
    lvalue target s =
        let pointed : Text → Value (ℕ × ℕ) = λ text.
          bind (eval_expression F message s.session.base s.session.syms parse text (state s))
            (λ at. value (at, 8)) in
        let named : Text → Value (ℕ × ℕ) =
          λ name. resolve_variable F message s.session.base s.session.syms name (state s) in
        elim target [
          | [] ↦ pointed []
          | c ∷ cs ↦
              if c == b'*'
              then pointed (trim cs)
              else (if c == b'&'
                  then named (trim cs)
                  else (if is_identifier (c ∷ cs) then named (c ∷ cs) else pointed (c ∷ cs)))
        ]

    unfoldable pub assign_memory : Text → ℕ → Io (Open W) (Unit {0})
    unfolding lvalue store
    assign_memory target v s = elim (lvalue target s) [
      | failed _ ↦ (ok tt, s)
      | value place ↦ debug (store place v) s
    ]

    unfoldable pub assign : Text → ℕ → Io (Open W) (Unit {0})
    unfolding assign_memory set_register set_float_register
    assign target v s = elim (register_name target) [
      | none ↦ assign_memory target v s
      | some reg ↦
          (debug (set_register reg v) >>= λ done. elim done [
            | true ↦ λ s. (ok tt, s)
            | false ↦ debug (set_float_register reg v) >>= λ also. elim also [
              | true ↦ λ s. (ok tt, s)
              | false ↦ assign_memory target v
            ]
          ])
            s
    ]

    -- `rest` is the line behind the command.
    unfoldable pub set_command : Text → Io (Open W) (Unit {0})
    unfolding assign
    set_command rest s = elim (split_once b'=' (trim rest)) [
      | none ↦ (ok tt, s)
      | some p ↦
          if text_eq (trim p.0) [] || text_eq (trim p.1) []
          then (ok tt, s)
          else elim (eval_expression F message s.session.base s.session.syms parse (trim p.1)
              (state s)) [ failed _ ↦ (ok tt, s) | value v ↦ assign (trim p.0) v s ]
    ]
