-- ===== src/Session/Print/Source.antt =====
-- `list_source`, `print_source`, `show_list`, `show_context`, `print_disasm`, `show_disasm` of
-- src/main.rs and `print` of src/disasm.rs: the source and the instructions around an address. The
-- files and the disassembler are parameters.
pub mod Window
use macos_c_debugger_rust.Base.{
  ℕ, zero, suc, Bool, true, false, List, [], ◌∷◌, ◌++◌, Option, none, some, if◌then◌else◌, ◌==◌,
  ◌+◌, ◌-◌, ◌*◌, ◌%◌, ◌^◌, leb, ltb, ◌||◌, length, take, drop, map, min, max, unwrap_or, ◌>>=?◌,
  get_elem?,
}
use macos_c_debugger_rust.Base.Text.{Text, codes, from_str_radix}
use macos_c_debugger_rust.Base.Text.Format.{decimal, pad_left, pad_right, lines}
use macos_c_debugger_rust.Io.{Result, ok, err, panic, out_of_fuel}
use macos_c_debugger_rust.Mach.{Foreign}
use macos_c_debugger_rust.Debugger.{State, current_pc, read_memory}
use macos_c_debugger_rust.Symbols.{Symbols, find_symbol_for_addr}
use macos_c_debugger_rust.Session.Place.{
  Resolved, resolved, refused, resolve_location, resolve_list_target,
}
use macos_c_debugger_rust.Session.Lines.{current_line}
use macos_c_debugger_rust.Session.Print.{
  Line, out, note, error_note, refusal_note, Printed, says, either, above, address, known, place,
}

-- `fs::read_to_string`.
abbrev pub Files : Type 0
Files = Text → Option Text

abbrev pub marker_of : Bool → Text
marker_of true = codes "=>"
marker_of false = codes "  "

abbrev pub row_text : ℕ → ℕ → ℕ → Text → Text
row_text width cur n line =
    marker_of (n == cur) ++ codes " " ++ pad_left width (decimal n) ++ codes "  " ++ line

abbrev pub row_above : Text → Result (List Text) → Result (List Text)
row_above row (ok rows) = ok (row ∷ rows)
row_above row (err e) = err e
row_above row panic = panic
row_above row out_of_fuel = out_of_fuel

-- `count` lines from number `n` on; an index outside the lines panics.
unfoldable pub rows : ℕ → ℕ → ℕ → ℕ → List Text → Result (List Text)
rows width cur n zero all = ok []
rows width cur n (suc count) all =
    let rest = rows width cur (suc n) count all in
    elim (get_elem? all (n - 1)) [
      | none ↦ panic
      | some line ↦ row_above (row_text width cur n line) rest
    ]

abbrev pub first_line : ℕ → ℕ → ℕ
first_line cur context = max (cur - context) 1

abbrev pub last_line : ℕ → ℕ → ℕ → ℕ
last_line cur context count = min (cur + context) count

abbrev pub listing_of : Text → ℕ → ℕ → List Text → Result (List Text)
listing_of path line context all =
    let last = last_line line context (length all) in
    row_above (place (path, line)) (
      rows (length (decimal last)) line (first_line line context)
        (suc last - first_line line context) all)

abbrev pub as_shown : Result (List Text) → Result (Option (List Text))
as_shown (ok shown) = ok (some shown)
as_shown (err e) = err e
as_shown panic = panic
as_shown out_of_fuel = out_of_fuel

-- `none` is the result `false`.
unfoldable pub list_source : Files → Text → ℕ → ℕ → Result (Option (List Text))
unfolding rows
list_source files path line context = elim (files path) [
  | none ↦ ok none
  | some text ↦
      if (line == 0) || ltb (length (lines text)) line
      then ok none
      else as_shown (listing_of path line context (lines text))
]

unfoldable pub print_source : Files → Text → ℕ → Result (Option (List Text))
print_source files path line = list_source files path line 2

-- An instruction as capstone gives it, and what it answers to bytes, an address and a number of
-- instructions.
pub record CapstoneInsn : Type 0 where
  pub at : ℕ
  pub mnemonic : Option Text
  pub op_str : Option Text

pub data Listing : Type 0 where
  unavailable failed_listing : Text → Listing
  listing : List CapstoneInsn → Listing

abbrev pub Capstone : Type 0
Capstone = List ℕ → ℕ → ℕ → Listing

abbrev pub insn_line : ℕ → CapstoneInsn → Text
insn_line pc insn =
    marker_of (insn.at == pc)
    ++ codes " "
    ++ address insn.at
    ++ codes ": "
    ++ pad_right 8 (unwrap_or insn.mnemonic (codes "?"))
    ++ codes " "
    ++ unwrap_or insn.op_str []

unfoldable pub print_insns : Capstone → List ℕ → ℕ → ℕ → List Line
print_insns capstone code pc count = elim (capstone code pc count) [
  | unavailable e ↦ note (codes "failed to initialize capstone: " ++ e) ∷ []
  | failed_listing e ↦ note (codes "disasm error: " ++ e) ∷ []
  | listing insns ↦ map (λ insn. out (insn_line pc insn)) insns
]

-- The arguments of `dis`: a place, if one is given, and the number of instructions.
abbrev pub default_count : ℕ
default_count = 10

abbrev pub usize : Text → Option ℕ
usize s = from_str_radix (2 ^ 64) 10 s

unfoldable pub disasm_args : List Text → Option Text × ℕ
disasm_args (_ ∷ loc ∷ []) = elim (usize loc) [
  | some c ↦ (none, c)
  | none ↦ (some loc, default_count)
]
disasm_args (_ ∷ loc ∷ n ∷ []) = (some loc, unwrap_or (usize n) default_count)
disasm_args _ = (none, default_count)

module _ {W : Type 0} (F : Foreign W) (files : Files) (exists : Text → Bool) (capstone : Capstone)
    (base : Option ℕ) (syms : Option Symbols) where
  abbrev pub current_file : State W → Option Text
  current_file s = current_line F base syms s >>=? λ at. some at.0

  abbrev pub listed : Resolved (Text × ℕ) → Printed
  listed (refused e) = says (refusal_note (codes "list: ") e)
  listed (resolved at) =
      either (list_source files at.0 at.1 3)
        (λ shown. elim shown [
          | some shown ↦ ok (map out shown)
          | none ↦ says (note (codes "list: failed to read " ++ at.0))
        ])
        (λ e. err e)

  unfoldable pub show_list : List Text → State W → Printed
  show_list (_ ∷ arg ∷ _) s = listed (resolve_list_target exists arg (current_file s) syms)
  show_list _ s = elim (current_line F base syms s) [
    | some at ↦ listed (resolved at)
    | none ↦ says (note (codes "list: no current source location"))
  ]

  unfoldable pub print_disasm : State W → Printed
  unfolding print_insns
  print_disasm s =
      either (current_pc F s).0
        (λ pc.
          either (read_memory F pc 32 s).0 (λ code. ok (print_insns capstone code pc 4))
            (λ e. says (error_note (codes "failed to read memory for disasm: ") e)))
        (λ e. ok [])

  unfoldable pub show_context : State W → Printed
  unfolding print_disasm
  show_context s = elim (current_line F base syms s) [
    | none ↦ print_disasm s
    | some at ↦
        either (print_source files at.0 at.1)
          (λ shown. elim shown [ some shown ↦ ok (map out shown) | none ↦ print_disasm s ])
          (λ e. err e)
  ]

  abbrev pub function_header : ℕ → List Line
  function_header at = elim (known base syms find_symbol_for_addr at) [
    | none ↦ []
    | some e ↦ out (codes "Dump of assembler code for function " ++ e.0 ++ codes ":") ∷ []
  ]

  unfoldable pub dump : ℕ → ℕ → State W → Printed
  unfolding print_insns
  dump at count s = above (function_header at) (
      either (read_memory F at ((count * 15) % 2 ^ 64) s).0
        (λ code. ok (print_insns capstone code at count))
        (λ e. says (error_note (codes "dis: failed to read memory: ") e)))

  unfoldable pub show_disasm : List Text → State W → Printed
  unfolding dump disasm_args
  show_disasm parts s =
      let args = disasm_args parts in
      elim args.0 [
        | none ↦
            either (current_pc F s).0 (λ pc. dump pc args.1 s)
              (λ e. says (error_note (codes "dis: failed to get PC: ") e))
        | some loc ↦ elim (resolve_location loc base syms (current_file s)) [
          | resolved at ↦ dump at args.1 s
          | refused e ↦ says (refusal_note (codes "dis: ") e)
        ]
      ]
