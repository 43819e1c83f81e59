-- ===== src/Tests/Lookups.antt =====
-- A program with a function at 0x100, whose prologue ends at 0x108, and two variables `x`.
use macos_c_debugger_rust.Base.{ℕ, true, false, [], ◌∷◌, some, ◌≡◌, ◌≤◌, refl, keep}
use macos_c_debugger_rust.Base.Text.{codes, text_eq}
use macos_c_debugger_rust.Symbols.{
  Symbols, Variable, frame_offset, register, row, end_sequence, is_local, range, find_variable,
  min_by_key, best_from, skip_prologue, next_symbol, prologue_end,
}
use macos_c_debugger_rust.Symbols.Innermost.{All, find_variable-innermost}
use macos_c_debugger_rust.Symbols.Prologue.{InFunction, skip_prologue-InFunction}

abbrev x_in : ℕ → ℕ → Variable
x_in low high = record {
  name = codes "x";
  scope = some (low, high);
  location = frame_offset 16;
  byte_size = 4;
  is_arg = false;
  frame_base = register;
  type_name = codes "int";
  is_pointer = false;
  pointee_type = [];
}

abbrev program : Symbols
program = record {
  symbols = (codes "_main", 0x100) ∷ (codes "_next", 0x200) ∷ [];
  text_vmaddr = 0;
  line_rows =
      row (codes "a.c") (codes "/a.c") 1 0x100 false
      ∷ row (codes "a.c") (codes "/a.c") 2 0x108 true
      ∷ end_sequence 0x200
      ∷ [];
  variables = x_in 0x100 0x200 ∷ x_in 0x110 0x120 ∷ [];
  stubs = [];
  structs = [];
}

find_variable-innermost_example :
    (is_local (codes "x") 0x118 (x_in 0x110 0x120) ≡ true)
    × All
        (λ w. range (x_in 0x110 0x120) ≤ range w)
        (keep (is_local (codes "x") 0x118) program.variables)
unfolding find_variable min_by_key best_from keep text_eq
find_variable-innermost_example =
    find_variable-innermost program (codes "x") 0x118 (x_in 0x110 0x120) (λ e. cc e) refl

prologue_skipped : skip_prologue program 0x100 ≡ 0x108
unfolding skip_prologue next_symbol prologue_end min_by_key best_from keep
prologue_skipped = refl

skip_prologue-InFunction_example :
    InFunction (next_symbol program 0x100) 0x100 (skip_prologue program 0x100)
skip_prologue-InFunction_example = skip_prologue-InFunction program 0x100
