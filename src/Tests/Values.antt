-- ===== src/Tests/Values.antt =====
-- Debug registers, register names and expressions at concrete values.
use macos_c_debugger_rust.Base.{
  ℕ, true, List, [], ◌∷◌, none, some, ◌==◌, if◌then◌else◌, ◌≡◌, refl, arith, ◌<◌, ◌^◌,
}
use macos_c_debugger_rust.Base.Bits.{bit}
use macos_c_debugger_rust.Base.Bytes.{from_le}
use macos_c_debugger_rust.Base.Text.{codes, lowercase, text_eq}
use macos_c_debugger_rust.Register.Watch.{
  write, qword8, dr7_set_slot, dr7_clear_slot, cond_code, len_code,
}
use macos_c_debugger_rust.Register.Dr7.{dr7-digit, owns, field_digit}
use macos_c_debugger_rust.Register.Intel.{
  ThreadState64, get, set, get_table, set_table, arm, read, Reg, reg_rax, reg_rbx, reg_rcx, reg_rdx,
  reg_rdi, reg_rsi, reg_rbp, reg_rsp, reg_r8, reg_r9, reg_r10, reg_r11, reg_r12, reg_r13, reg_r14,
  reg_r15, reg_rip, reg_rflags, reg_cs, reg_fs, reg_gs,
}
use macos_c_debugger_rust.Register.Intel
use macos_c_debugger_rust.Register.Intel.Names.{same_register, get-set_names}
use macos_c_debugger_rust.Expr.{
  Expr, EvalContext, Value, VarType, value, eval, eval_variable, eval_register, eval_binary,
  eval_unary, eval_deref, number, register, variable, unary, binary, ptr_member, add, sub, mul, xor,
  neg, deref,
}
use macos_c_debugger_rust.Expr.Values.{IsBounded, ptr_member-deref}
use macos_c_debugger_rust.Expr.Exact.{exact, exact_binary, exact_unary, wrapped, eval-exact}
use macos_c_debugger_rust.Base.Bits.{bit}
use macos_c_debugger_rust.Base.Bits.Words.{from_digits}
use macos_c_debugger_rust.Tests.World.{thread_at}

dr7-digit_example :
    (bit (dr7_set_slot 255 1 write qword8) 20
      ≡ (if owns 1 20 then field_digit 1 (cond_code write) (len_code qword8) 20 else bit 255 20))
    × (bit (dr7_clear_slot 255 1) 20 ≡ (if owns 1 20 then 0 else bit 255 20))
dr7-digit_example = dr7-digit 255 1 20 write qword8 (omega arith) (omega arith)

-- `$PC` and `$rip` are one register.
abbrev moved : ThreadState64
moved = record (thread_at 16) { rip = 32 }

get-set_names_example : get moved (codes "rip") ≡ (
    if same_register (codes "PC") (codes "rip") then some 32 else get (thread_at 16) (codes "rip"))
unfolding set set_table get_table arm lowercase text_eq Intel.write
get-set_names_example = get-set_names (thread_at 16) moved (codes "PC") (codes "rip") 32 refl

-- A pointer `p` at 64 with the value 0x80, to a structure with a field `n` at offset 16; every byte
-- that is not the pointer's is 0.
abbrev memory : ℕ → ℕ → Value (List ℕ)
memory a n =
    if a == 64
    then value (0x80 ∷ 0 ∷ 0 ∷ 0 ∷ 0 ∷ 0 ∷ 0 ∷ 0 ∷ [])
    else value (7 ∷ 0 ∷ 0 ∷ 0 ∷ 0 ∷ 0 ∷ 0 ∷ 0 ∷ [])

abbrev pointer : VarType
pointer = record { name = codes "node *"; is_pointer = true; pointee = codes "node" }

abbrev ctx : EvalContext
ctx = record {
  regs = thread_at 16;
  base = some 4096;
  read_mem = some memory;
  resolve_var = some (λ name. value (64, 8));
  addr_of_var = some (λ name. value 64);
  resolve_field = some (λ t f. value (16, 8));
  type_of_var = some (λ name. value pointer);
}

ptr_member-deref_example :
    eval (ptr_member (variable (codes "p")) (codes "n")) ctx
    ≡ eval (unary deref (binary add (variable (codes "p")) (number 16))) ctx
unfolding eval eval_variable eval_binary eval_unary eval_deref from_le
ptr_member-deref_example =
    ptr_member-deref ctx (codes "p") (codes "n") pointer 16 (λ name. value pointer)
      (λ t f. value (16, 8)) refl refl refl refl refl

abbrev bare : EvalContext
bare = record {
  regs = thread_at 16;
  base = some 4096;
  read_mem = none;
  resolve_var = none;
  addr_of_var = none;
  resolve_field = none;
  type_of_var = none;
}

bare-registers : (r : Reg) → read (thread_at 16) r < 2 ^ 64
unfolding read
bare-registers reg_rax = omega arith
bare-registers reg_rbx = omega arith
bare-registers reg_rcx = omega arith
bare-registers reg_rdx = omega arith
bare-registers reg_rdi = omega arith
bare-registers reg_rsi = omega arith
bare-registers reg_rbp = omega arith
bare-registers reg_rsp = omega arith
bare-registers reg_r8 = omega arith
bare-registers reg_r9 = omega arith
bare-registers reg_r10 = omega arith
bare-registers reg_r11 = omega arith
bare-registers reg_r12 = omega arith
bare-registers reg_r13 = omega arith
bare-registers reg_r14 = omega arith
bare-registers reg_r15 = omega arith
bare-registers reg_rip = omega arith
bare-registers reg_rflags = omega arith
bare-registers reg_cs = omega arith
bare-registers reg_fs = omega arith
bare-registers reg_gs = omega arith

bare-IsBounded : IsBounded bare
bare-IsBounded = record {
  of_reg = bare-registers;
  of_base = λ v e. ground (arith, e);
  of_read = λ read a n bs e h. absurd (cc e);
  of_addr = λ addr name v e h. absurd (cc e);
}

-- `($rdi - $rax) * -1 + (6 ^ 3)` with 24 and 4096 in the registers.
abbrev mixed : Expr
mixed =
    binary add
      (binary mul (binary sub (register (codes "rdi")) (register (codes "rax")))
        (unary neg (number 1)))
      (binary xor (number 6) (number 3))

eval-exact_example : eval mixed bare ≡ value 4077
unfolding exact exact_binary exact_unary wrapped eval eval_register get get_table arm lowercase
    text_eq read bit from_digits
eval-exact_example =
    eval-exact bare bare-IsBounded mixed (((tt, tt), omega arith), (omega arith, omega arith))
