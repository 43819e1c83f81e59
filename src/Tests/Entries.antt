-- ===== src/Tests/Entries.antt =====
-- The entries of a unit with a global variable, a function, an argument, a block and a variable in it.
use macos_c_debugger_rust.Base.{
  ℕ, false, List, [], ◌∷◌, ◌++◌, Option, none, some, ◌≡◌, refl, map, ◌==◌, if◌then◌else◌, find,
}
use macos_c_debugger_rust.Symbols.{
  FieldInfo, register, parse_location_expr, decode_sleb128, sleb_from,
}
use macos_c_debugger_rust.Symbols.Dwarf.{
  Tag, subprogram, lexical_block, variable, formal_parameter, structure_type, member, base_type,
  other_tag, Attr, at_name, at_location, at_frame_base, at_low_pc, at_high_pc, at_type,
  at_byte_size, at_data_member_location, AttributeValue, address, udata, data4, exprloc, unit_ref,
  other_value, Gimli, attr_to_string, parse_frame_base_def, entry_pc_range, parse_var_location,
  pick,
}
use macos_c_debugger_rust.Symbols.Dwarf.Integers.{ℤ, pos, negsuc, sub_nat, ◌+ℤ◌, geb}
use macos_c_debugger_rust.Symbols.Dwarf.Forest.{Forest, empty, node, in_order, deltas, variables_in}
use macos_c_debugger_rust.Symbols.Dwarf.Nested.{collect_variables-nested}
use macos_c_debugger_rust.Symbols.Dwarf.Scopes.{
  pop, variable_of, arrive, visit, walk, collect_variables,
}
use macos_c_debugger_rust.Symbols.Dwarf.Types.{
  resolve_loop, resolve_type_info_full, members, structs_of, collect_struct_info,
}

data Entry : Type 0 where
  root global function argument block inner pair int first second : Entry

abbrev tag_of : Entry → Tag
tag_of root = other_tag 0x11
tag_of global = variable
tag_of function = subprogram
tag_of argument = formal_parameter
tag_of block = lexical_block
tag_of inner = variable
tag_of pair = structure_type
tag_of int = base_type
tag_of first = member
tag_of second = member

-- A name is the number of its only letter; the type of the variables is at 7.
abbrev attribute : Entry → Attr → Option AttributeValue
attribute global at_name = some (other_value b'g')
attribute global at_location = some (exprloc (some (3 ∷ 0 ∷ 1 ∷ 0 ∷ 0 ∷ 0 ∷ 0 ∷ 0 ∷ 0 ∷ [])))
attribute function at_low_pc = some (address 16)
attribute function at_high_pc = some (data4 16)
attribute function at_frame_base = some (exprloc (some (0x9c ∷ [])))
attribute argument at_name = some (other_value b'a')
attribute argument at_location = some (exprloc (some (0x91 ∷ 8 ∷ [])))
attribute block at_low_pc = some (address 20)
attribute block at_high_pc = some (data4 4)
attribute inner at_name = some (other_value b'i')
attribute inner at_location = some (exprloc (some (0x91 ∷ 0x78 ∷ [])))
attribute inner at_type = some (unit_ref 7)
attribute pair at_name = some (other_value b'p')
attribute pair at_byte_size = some (udata 8)
attribute int at_name = some (other_value b'n')
attribute int at_byte_size = some (udata 4)
attribute first at_name = some (other_value b'x')
attribute first at_type = some (unit_ref 7)
attribute second at_name = some (other_value b'y')
attribute second at_type = some (unit_ref 7)
attribute second at_data_member_location = some (udata 4)
attribute e at = none

abbrev string_of : AttributeValue → Option (List ℕ)
string_of (other_value c) = some (c ∷ [])
string_of other = none

abbrev tree : Forest Entry
tree =
    node root
      (node global empty (
        node function (node argument empty (node block (node inner empty empty) empty))
          (node pair (node first empty (node second empty empty)) (node int empty empty))))
      empty

abbrev below : Entry → List (ℤ × Entry)
below pair = (pos 1, first) ∷ (pos 0, second) ∷ (negsuc 0, int) ∷ []
below e = []

abbrev gimli : Gimli Entry
gimli = record {
  tag = tag_of;
  attr_value = attribute;
  attr_string = string_of;
  address_at = λ i. none;
  locations_offset = λ i. none;
  locations = λ o. [];
  entry = λ o. if o == 7 then some int else none;
  entries = deltas 0 (in_order 0 tree);
  entries_below = below;
}

collect_variables-nested_example :
    collect_variables gimli [] ≡ [] ++ variables_in gimli (some none) register tree
collect_variables-nested_example = collect_variables-nested gimli tree [] refl

collected_scopes :
    map {B = List ℕ × Option (ℕ × ℕ)} (λ v. (v.name, v.scope)) (collect_variables gimli [])
    ≡ (b'g' ∷ [], none) ∷ (b'a' ∷ [], some (16, 32)) ∷ (b'i' ∷ [], some (20, 24)) ∷ []
unfolding collect_variables walk visit arrive pop geb ◌+ℤ◌ sub_nat variable_of attr_to_string
    entry_pc_range parse_var_location pick parse_location_expr decode_sleb128 sleb_from
    parse_frame_base_def resolve_type_info_full resolve_loop
collected_scopes = refl

abbrev field : ℕ → ℕ → FieldInfo
field name offset = record {
  name = name ∷ [];
  offset = offset;
  byte_size = 4;
  type_name = b'n' ∷ [];
  is_pointer = false;
  pointee_type = [];
}

collected_fields :
    (collect_struct_info gimli [])
    ≡ (b'p' ∷ [], record { byte_size = 8; fields = field b'x' 0 ∷ field b'y' 4 ∷ [] }) ∷ []
unfolding collect_struct_info structs_of members sub_nat ◌+ℤ◌ geb attr_to_string
    resolve_type_info_full resolve_loop find
collected_fields = refl
