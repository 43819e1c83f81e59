-- ===== src/Session/Print/Value.antt =====
-- The command `print` of src/main.rs: its format, the value of the expression in it, and the string
-- behind a pointer. The parser of expressions is a parameter. Letters are those of ASCII.
pub mod Shown
use macos_c_debugger_rust.Base.{
  ℕ, zero, suc, Bool, true, false, List, [], ◌∷◌, ◌++◌, Option, none, some, if◌then◌else◌, ◌==◌,
  ◌+◌, ◌-◌, ◌%◌, ◌^◌, leb, ltb, ◌&&◌, ◌||◌, is_some, not, length, map,
}
use macos_c_debugger_rust.Base.Text.{Text, codes, trim, is_space, starts_with}
use macos_c_debugger_rust.Base.Text.Format.{hex, decimal, signed, zero_pad, to_radix}
use macos_c_debugger_rust.Expr.{Expr, Value, value, failed}
use macos_c_debugger_rust.Io.{Result, ok, err, panic, out_of_fuel, Error}
use macos_c_debugger_rust.Mach.{Foreign}
use macos_c_debugger_rust.Debugger.{State, read_memory}
use macos_c_debugger_rust.Symbols.{Symbols}
use macos_c_debugger_rust.Session.Place.{is_identifier, is_alphabetic}
use macos_c_debugger_rust.Session.Variables.{eval_expression}
use macos_c_debugger_rust.Session.Print.{
  Line, out, note, error_note, eval_note, Printed, says, above, address,
}

-- `char::is_ascii_graphic` or a space.
abbrev pub is_plain : ℕ → Bool
is_plain c = leb 32 c && leb c 126

-- `{:02x}` behind a backslash and `x`.
abbrev pub escaped : ℕ → Text
escaped b = codes "\\x" ++ zero_pad 2 (to_radix 16 b)

abbrev pub shown_byte : ℕ → Text
shown_byte b = if is_plain b then b ∷ [] else escaped b

-- The text of bytes up to the first 0, and whether there was one.
unfoldable pub until_nul : List ℕ → Text × Bool
until_nul [] = ([], false)
until_nul (b ∷ bs) =
    let rest = until_nul bs in if b == 0 then ([], true) else (shown_byte b ++ rest.0, rest.1)

-- `char::from_u32(v as u32)`: a surrogate and what lies behind the last code point are none.
abbrev pub char_of : ℕ → ℕ
char_of v =
    let c = v % 2 ^ 32 in if (leb 0xd800 c && leb c 0xdfff) || leb 0x110000 c then b'?' else c

abbrev pub quoted_char : ℕ → Text
quoted_char v =
    if is_plain (char_of v)
    then codes "'" ++ (char_of v ∷ codes "'")
    else codes "'" ++ escaped (v % 2 ^ 8) ++ codes "'"

abbrev pub uppercase_digit : ℕ → ℕ
uppercase_digit c = if leb b'a' c then c - 32 else c

-- `{:#018X}`.
abbrev pub upper_address : ℕ → Text
upper_address v = codes "0x" ++ map uppercase_digit (zero_pad 16 (to_radix 16 v))

-- What stands behind the first slash.
unfoldable pub behind_slash : Text → Option Text
behind_slash [] = none
behind_slash (c ∷ cs) = let rest = behind_slash cs in if c == b'/' then some cs else rest

abbrev pub first_char : Text → Option ℕ
first_char [] = none
first_char (c ∷ cs) = some c

abbrev pub slash_format : Option Text → Option ℕ
slash_format none = none
slash_format (some s) = first_char s

-- What stands behind the first word of the line.
after_space : Text → Text
after_space [] = []
after_space (c ∷ cs) = if is_space c then cs else after_space cs

unfoldable pub rest_of : Text → Text
unfolding after_space
rest_of line = trim (after_space (trim line))

-- A format in front of the expression, behind a blank.
unfoldable pub spaced_format : Text → Option ℕ × Text
spaced_format (c ∷ f ∷ cs) =
    if (c == b'/') && is_alphabetic f then (some f, trim cs) else (none, c ∷ f ∷ cs)
spaced_format s = (none, s)

unfoldable pub print_args : Text → Text → Option ℕ × Text
unfolding behind_slash rest_of spaced_format
print_args cmd line =
    let format = slash_format (behind_slash cmd) in
    if is_some format then (format, rest_of line) else spaced_format (rest_of line)

-- The formats that need no memory. `none` is an unknown format.
unfoldable pub formatted : ℕ → ℕ → Option Text
formatted f v =
    if f == b'x'
    then some (address v)
    else (if f == b'X'
        then some (upper_address v)
        else (if f == b'd'
            then some (signed 64 v)
            else (if f == b'u'
                then some (decimal v)
                else (if f == b'o'
                    then some (codes "0o" ++ to_radix 8 v)
                    else (if f == b't'
                        then some (codes "0b" ++ to_radix 2 v)
                        else (if f == b'c'
                            then some (signed 64 v ++ codes " " ++ quoted_char v)
                            else (if f == b'a' then some (address v) else none)))))))

abbrev pub plain_value : Text → ℕ → Text
plain_value expr v =
    if is_identifier expr
    then signed 64 v ++ codes "  (" ++ hex 0 v ++ codes ")"
    else address v ++ codes "  (" ++ decimal v ++ codes ")"

abbrev pub behind : Text → Result (Text × Option Error) → Result (Text × Option Error)
behind s (ok rest) = ok (s ++ rest.0, rest.1)
behind s (err e) = err e
behind s panic = panic
behind s out_of_fuel = out_of_fuel

module _ {W : Type 0} (F : Foreign W) where
  -- Behind a chunk without 0 the next one is read; a read that fails ends the string with its error.
  unfoldable pub read_string : ℕ → ℕ → State W → Result (Text × Option Error)
  unfolding until_nul
  read_string zero at s = out_of_fuel
  read_string (suc fuel) at s =
      let again : ℕ → Result (Text × Option Error) = λ n. read_string fuel n s in
      elim (read_memory F at 64 s).0 [
        | ok chunk ↦
            let found = until_nul chunk in
            if found.1
            then ok (found.0, none)
            else behind found.0 (again ((at + length chunk) % 2 ^ 64))
        | err e ↦ ok ([], some e)
        | panic ↦ panic
        | out_of_fuel ↦ out_of_fuel
      ]

  abbrev pub string_lines : Text → ℕ → Result (Text × Option Error) → Printed
  string_lines prefix v (ok (s, none)) =
      says (out (prefix ++ address v ++ codes "  \"" ++ s ++ codes "\""))
  string_lines prefix v (ok (s, some e)) =
      above (error_note (codes "print: failed to read string at " ++ hex 0 v ++ codes ": ") e ∷ [])
        (says (out (prefix ++ address v ++ codes "  \"" ++ s ++ codes "\"")))
  string_lines prefix v (err e) = err e
  string_lines prefix v panic = panic
  string_lines prefix v out_of_fuel = out_of_fuel

  unfoldable pub print_value : ℕ → Option ℕ → Text → ℕ → State W → Printed
  unfolding read_string
  print_value fuel none expr v s = says (out (expr ++ codes " = " ++ plain_value expr v))
  print_value fuel (some f) expr v s =
      if f == b's'
      then string_lines (expr ++ codes " = ") v (read_string fuel v s)
      else (elim (formatted f v) [
        | some text ↦ says (out (expr ++ codes " = " ++ text))
        | none ↦ says (note (codes "print: unknown format '" ++ (f ∷ codes "'")))
      ])

  module _ (message : Error → Text) (parse : Text → Value Expr) (base : Option ℕ)
      (syms : Option Symbols) where
    abbrev pub printed : ℕ → Option ℕ × Text → State W → Printed
    printed fuel (format, []) s =
        says (note (codes "usage: p[/FMT] <expr>  (FMT: x X d u o t c a s)"))
    printed fuel (format, c ∷ cs) s = elim (eval_expression F message base syms parse (c ∷ cs) s) [
      | value v ↦ print_value fuel format (c ∷ cs) v s
      | failed e ↦ says (eval_note (codes "print: ") e)
    ]

    unfoldable pub print_command : ℕ → Text → Text → State W → Printed
    unfolding print_args print_value
    print_command fuel cmd line s = printed fuel (print_args cmd line) s
