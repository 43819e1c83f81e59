-- ===== src/Symbols/Dwarf.antt =====
-- src/symbols.rs: what is read from the debugging entries of one compilation unit. The library gimli,
-- with the unit and its sections, is the parameter.
pub mod Integers
pub mod Types
pub mod Scopes
pub mod Forest
mod Stacks
pub mod Nested
pub mod Rows
pub mod Load
use macos_c_debugger_rust.Base.{
  ℕ, Bool, true, false, List, [], ◌∷◌, Option, none, some, ◌==◌, if◌then◌else◌, ◌+◌, ◌%◌, ◌^◌,
  ◌>>=?◌,
}
use macos_c_debugger_rust.Base.Text.{Text}
use macos_c_debugger_rust.Symbols.{
  VarLocation, frame_offset, addr, FrameBaseDef, register, call_frame_cfa, parse_location_expr,
}
use macos_c_debugger_rust.Symbols.Dwarf.Integers.{ℤ}

-- The tags that the program tells apart.
pub data Tag : Type 0 where
  subprogram lexical_block variable formal_parameter member pointer_type : Tag
  base_type typedef structure_type union_type class_type enumeration_type interface_type : Tag
  other_tag : ℕ → Tag

pub data Attr : Type 0 where
  at_name at_location at_frame_base at_low_pc at_high_pc at_type at_byte_size : Attr
  at_data_member_location : Attr

-- The forms of a value. A signed value is a word in two's complement; an expression has no bytes
-- where they cannot be read.
pub data AttributeValue : Type 0 where
  address debug_addr_index udata sdata data1 data2 data4 data8 : ℕ → AttributeValue
  exprloc : Option (List ℕ) → AttributeValue
  location_lists_ref debug_loc_lists_index unit_ref other_value : ℕ → AttributeValue

-- What the program calls of gimli, for one unit. An attribute that is missing and one that cannot
-- be read are the same; a sequence ends at its first error.
pub record Gimli (Entry : Type 0) : Type 0 where
  pub tag : Entry → Tag
  pub attr_value : Entry → Attr → Option AttributeValue
  pub attr_string : AttributeValue → Option Text
  pub address_at : ℕ → Option ℕ
  pub locations_offset : ℕ → Option ℕ
  pub locations : ℕ → List (Option (List ℕ))
  pub entry : ℕ → Option Entry
  pub entries : List (ℤ × Entry)
  pub entries_below : Entry → List (ℤ × Entry)

is_fbreg : VarLocation → Bool
is_fbreg (frame_offset o) = true
is_fbreg (addr a) = false

-- `a.or(b)`.
or_else : {A : Type 0} → Option A → Option A → Option A
or_else none b = b
or_else (some a) b = some a

-- One entry of a location list: its place, if it has one.
place_of : Option (List ℕ) → Option VarLocation
unfolding parse_location_expr
place_of none = none
place_of (some bytes) = parse_location_expr bytes

-- The first place, and the first one on the frame.
unfoldable pub pick :
    Option VarLocation → Option VarLocation → List (Option (List ℕ)) → Option VarLocation
unfolding is_fbreg or_else place_of
pick first fbreg [] = or_else fbreg first
pick first fbreg (e ∷ es) = elim (place_of e) [
  | none ↦ pick first fbreg es
  | some loc ↦
      pick (or_else first (some loc)) (if is_fbreg loc then or_else fbreg (some loc) else fbreg) es
]

module _ {Entry : Type 0} (g : Gimli Entry) where
  unfoldable pub attr_to_string : Entry → Attr → Option Text
  attr_to_string e attr = g.attr_value e attr >>=? g.attr_string

  frame_base_of : Option AttributeValue → FrameBaseDef
  frame_base_of (some (exprloc (some (op ∷ bytes)))) =
      if op == 0x9c then call_frame_cfa else register
  frame_base_of other = register

  unfoldable pub parse_frame_base_def : Entry → FrameBaseDef
  unfolding frame_base_of
  parse_frame_base_def e = frame_base_of (g.attr_value e at_frame_base)

  low_pc : AttributeValue → Option ℕ
  low_pc (address a) = some a
  low_pc (debug_addr_index i) = g.address_at i
  low_pc other = none

  high_pc : ℕ → AttributeValue → Option ℕ
  high_pc low (address a) = some a
  high_pc low (udata off) = some ((low + off) % 2 ^ 64)
  high_pc low (data1 off) = some ((low + off) % 2 ^ 64)
  high_pc low (data2 off) = some ((low + off) % 2 ^ 64)
  high_pc low (data4 off) = some ((low + off) % 2 ^ 64)
  high_pc low (data8 off) = some ((low + off) % 2 ^ 64)
  high_pc low other = none

  unfoldable pub entry_pc_range : Entry → Option (ℕ × ℕ)
  unfolding low_pc high_pc
  entry_pc_range e = g.attr_value e at_low_pc >>=? low_pc >>=? λ low.
      g.attr_value e at_high_pc >>=? high_pc low >>=? λ high. some (low, high)

  var_location : AttributeValue → Option VarLocation
  unfolding place_of
  var_location (exprloc bytes) = place_of bytes
  var_location (location_lists_ref offset) = pick none none (g.locations offset)
  var_location (debug_loc_lists_index i) =
      g.locations_offset i >>=? λ offset. pick none none (g.locations offset)
  var_location other = none

  unfoldable pub parse_var_location : Entry → Option VarLocation
  unfolding var_location
  parse_var_location e = g.attr_value e at_location >>=? var_location
