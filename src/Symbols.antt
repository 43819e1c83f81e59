-- ===== src/Symbols.antt =====
-- src/symbols.rs: the questions that the debugger asks of the loaded symbols, line rows and
-- variables. How they are read is in Dwarf.
pub mod Innermost
pub mod Prologue
pub mod Print
pub mod Dwarf
use macos_c_debugger_rust.Base.{
  ℕ, zero, suc, Bool, true, false, List, [], ◌∷◌, Option, none, some, ◌==◌, if◌then◌else◌, ◌+◌, ◌-◌,
  ◌%◌, ◌^◌, leb, ltb, ◌&&◌, ◌||◌, not, find, keep, map, length, take, is_some, bit_and, bit_or,
  ◌>>=?◌,
}
use macos_c_debugger_rust.Base.Bits.{shl64}
use macos_c_debugger_rust.Base.Bytes.{from_le}
use macos_c_debugger_rust.Base.Text.{Text, codes, text_eq, file_name}

-- A frame offset is a 64-bit word in two's complement.
pub data VarLocation : Type 0 where
  frame_offset addr : ℕ → VarLocation

pub data FrameBaseDef : Type 0 where
  register call_frame_cfa : FrameBaseDef

pub record Variable : Type 0 where
  pub name : Text
  pub scope : Option (ℕ × ℕ)
  pub location : VarLocation
  pub byte_size : ℕ
  pub is_arg : Bool
  pub frame_base : FrameBaseDef
  pub type_name : Text
  pub is_pointer : Bool
  pub pointee_type : Text

pub record FieldInfo : Type 0 where
  pub name : Text
  pub offset : ℕ
  pub byte_size : ℕ
  pub type_name : Text
  pub is_pointer : Bool
  pub pointee_type : Text

pub record StructInfo : Type 0 where
  pub byte_size : ℕ
  pub fields : List FieldInfo

-- A row has the file's name and path, its line and address, and whether the prologue ends there.
pub data LineRow : Type 0 where
  row : Text → Text → ℕ → ℕ → Bool → LineRow
  end_sequence : ℕ → LineRow

pub record Symbols : Type 0 where
  pub symbols : List (Text × ℕ)
  pub text_vmaddr : ℕ
  pub line_rows : List LineRow
  pub variables : List Variable
  pub stubs : List (Text × ℕ)
  pub structs : List (Text × StructInfo)

module _ {A : Type 0} where
  unfoldable pub best_from : (A → A → Bool) → A → List A → A
  best_from better best [] = best
  best_from better best (x ∷ xs) = best_from better (if better x best then x else best) xs

  -- `min_by_key`: the first of the smallest.
  unfoldable pub min_by_key : (A → ℕ) → List A → Option A
  unfolding best_from
  min_by_key key [] = none
  min_by_key key (x ∷ xs) = some (best_from (λ y best. ltb (key y) (key best)) x xs)

  -- `max_by_key`: the last of the greatest.
  unfoldable pub max_by_key : (A → ℕ) → List A → Option A
  unfolding best_from
  max_by_key key [] = none
  max_by_key key (x ∷ xs) = some (best_from (λ y best. leb (key best) (key y)) x xs)

abbrev pub scope_contains : ℕ → Option (ℕ × ℕ) → Bool
scope_contains pc none = false
scope_contains pc (some s) = leb s.0 pc && ltb pc s.1

unfoldable pub locals_at_pc : Symbols → ℕ → List Variable
locals_at_pc s pc = keep (λ v. scope_contains pc v.scope) (keep (λ v. not v.is_arg) s.variables)

unfoldable pub args_at_pc : Symbols → ℕ → List Variable
args_at_pc s pc = keep (λ v. scope_contains pc v.scope) (keep (λ v. v.is_arg) s.variables)

unfoldable pub global_variables : Symbols → List Variable
global_variables s = keep (λ v. not (is_some v.scope)) s.variables

abbrev pub is_local : Text → ℕ → Variable → Bool
is_local name pc v = text_eq v.name name && scope_contains pc v.scope

abbrev pub is_global : Text → Variable → Bool
is_global name v = text_eq v.name name && not (is_some v.scope)

-- The length of the scope.
abbrev pub range : Variable → ℕ
range v = elim v.scope [ none ↦ 0 | some s ↦ s.1 - s.0 ]

unfoldable pub find_variable : Symbols → Text → ℕ → Option Variable
unfolding min_by_key
find_variable s name pc = elim (min_by_key range (keep (is_local name pc) s.variables)) [
  | some v ↦ some v
  | none ↦ find (is_global name) s.variables
]

unfoldable pub slide : Symbols → ℕ → ℕ
slide s runtime_base = (runtime_base + 2 ^ 64 - s.text_vmaddr) % 2 ^ 64

abbrev pub value_of : Option (Text × ℕ) → Option ℕ
value_of none = none
value_of (some e) = some e.1

unfoldable pub find_struct : Symbols → Text → Option StructInfo
find_struct s type_name = elim (find (λ (e : Text × StructInfo). text_eq e.0 type_name) s.structs) [
  | none ↦ none
  | some e ↦ some e.1
]

unfoldable pub stub_address : Symbols → Text → ℕ → Option ℕ
unfolding slide
stub_address s name runtime_base = elim (find (λ (e : Text × ℕ). text_eq e.0 name) s.stubs) [
  | none ↦ none
  | some e ↦ some ((e.1 + slide s runtime_base) % 2 ^ 64)
]

unfoldable pub find_symbol : Symbols → Text → Option ℕ
find_symbol s name =
    value_of (find (λ (e : Text × ℕ). text_eq e.0 name || text_eq e.0 (b'_' ∷ name)) s.symbols)

-- A symbol that can hold the address.
abbrev pub is_before : ℕ → Text × ℕ → Bool
is_before vaddr e =
    (leb e.1 vaddr && not (e.1 == 0)) && not (text_eq e.0 (codes "__mh_execute_header"))

unfoldable pub find_symbol_for_addr : Symbols → ℕ → Option (Text × ℕ)
unfolding max_by_key
find_symbol_for_addr s vaddr =
    elim (max_by_key (λ (e : Text × ℕ). e.1) (keep (is_before vaddr) s.symbols)) [
      | none ↦ none
      | some e ↦ some (e.0, vaddr - e.1)
    ]

-- The row with the smallest distance and then the smallest address so far.
abbrev pub closer : Option (ℕ × ℕ) → ℕ → ℕ → Option (ℕ × ℕ)
closer none delta at = some (delta, at)
closer (some b) delta at =
    if ltb b.0 delta || (b.0 == delta && leb b.1 at) then some b else some (delta, at)

unfoldable pub closest : Text → ℕ → Option (ℕ × ℕ) → List LineRow → Option (ℕ × ℕ)
closest want line best [] = best
closest want line best (end_sequence at ∷ rows) = closest want line best rows
closest want line best (row file path l at p ∷ rows) =
    closest want line
      (if not (text_eq file want) || ltb l line then best else closer best (l - line) at) rows

abbrev pub second_of : Option (ℕ × ℕ) → Option ℕ
second_of none = none
second_of (some b) = some b.1

unfoldable pub find_line : Symbols → Text → ℕ → Option ℕ
unfolding closest
find_line s file line = file_name file >>=? λ want. second_of (closest want line none s.line_rows)

-- The row that the last one started, if the address lies before this one.
abbrev pub covers : ℕ → ℕ → Option (Text × ℕ × ℕ) → Bool
covers vaddr at none = false
covers vaddr at (some prev) = leb prev.2 vaddr && ltb vaddr at

abbrev pub place : Option (Text × ℕ × ℕ) → Option (Text × ℕ)
place none = none
place (some prev) = some (prev.0, prev.1)

unfoldable pub locate : ℕ → Option (Text × ℕ × ℕ) → List LineRow → Option (Text × ℕ)
locate vaddr prev [] = none
locate vaddr prev (end_sequence at ∷ rows) =
    let next = locate vaddr none rows in if covers vaddr at prev then place prev else next
locate vaddr prev (row file path l at p ∷ rows) =
    let next = locate vaddr (some (path, l, at)) rows in
    if covers vaddr at prev then place prev else next

unfoldable pub find_location : Symbols → ℕ → Option (Text × ℕ)
unfolding locate
find_location s vaddr = locate vaddr none s.line_rows

-- The start of the next symbol.
unfoldable pub next_symbol : Symbols → ℕ → Option ℕ
unfolding min_by_key
next_symbol s func = min_by_key (λ a. a) (keep (λ a. ltb func a) (map (λ e. e.1) s.symbols))

abbrev pub is_below : ℕ → Option ℕ → Bool
is_below at none = true
is_below at (some bound) = ltb at bound

unfoldable pub prologue_end : Option ℕ → ℕ → Bool → List LineRow → ℕ
prologue_end bound func in_func [] = func
prologue_end bound func in_func (end_sequence at ∷ rows) = prologue_end bound func false rows
prologue_end bound func in_func (row file path l at p ∷ rows) =
    let inside = prologue_end bound func true rows in
    let next = prologue_end bound func in_func rows in
    if at == func
    then (if p then at else inside)
    else (if in_func && ltb func at then (if is_below at bound then at else func) else next)

unfoldable pub skip_prologue : Symbols → ℕ → ℕ
unfolding next_symbol prologue_end
skip_prologue s func = prologue_end (next_symbol s func) func false s.line_rows

-- `decode_sleb128` from the byte `i` on: the word and the number of bytes.
unfoldable pub sleb_from : ℕ → ℕ → ℕ → List ℕ → Option (ℕ × ℕ)
sleb_from result shift i [] = none
sleb_from result shift i (b ∷ bs) =
    let word = bit_or result (shl64 (bit_and b 0x7f) shift) in
    let rest = sleb_from word (shift + 7) (suc i) bs in
    if bit_and b 0x80 == 0
    then some (
      if ltb (shift + 7) 64 && not (bit_and b 0x40 == 0)
          then bit_or word (2 ^ 64 - 2 ^ (shift + 7))
          else word,
      suc i,
    )
    else (if leb 64 (shift + 7) then none else rest)

unfoldable pub decode_sleb128 : List ℕ → Option (ℕ × ℕ)
unfolding sleb_from
decode_sleb128 bytes = sleb_from 0 0 0 bytes

unfoldable pub parse_location_expr : List ℕ → Option VarLocation
unfolding decode_sleb128
parse_location_expr [] = none
parse_location_expr (op ∷ bytes) =
    if op == 0x91
    then (elim (decode_sleb128 bytes) [ none ↦ none | some r ↦ some (frame_offset r.0) ])
    else (if op == 0x03
        then (if ltb (length bytes) 8 then none else some (addr (from_le (take 8 bytes))))
        else none)
