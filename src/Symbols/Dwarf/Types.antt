-- ===== src/Symbols/Dwarf/Types.antt =====
-- src/symbols.rs: the types of variables and the structures of a unit.
use macos_c_debugger_rust.Base.{
  ℕ, zero, suc, Bool, true, false, List, [], ◌∷◌, ◌++◌, Option, none, some, if◌then◌else◌, min, not,
  find, is_some,
}
use macos_c_debugger_rust.Base.Text.{Text, codes, text_eq}
use macos_c_debugger_rust.Symbols.{FieldInfo, StructInfo}
use macos_c_debugger_rust.Symbols.Dwarf.{
  Tag, pointer_type, structure_type, union_type, member, base_type, typedef, class_type,
  enumeration_type, interface_type, at_name, at_type, at_byte_size, at_data_member_location,
  AttributeValue, udata, sdata, unit_ref, Gimli, attr_to_string,
}
use macos_c_debugger_rust.Symbols.Dwarf.Integers.{ℤ, pos, ◌+ℤ◌, geb}

-- A size, a name, whether it is a pointer, and the name behind the pointer.
pub record TypeInfo : Type 0 where
  pub byte_size : ℕ
  pub type_name : Text
  pub is_pointer : Bool
  pub pointee_type : Text

or_empty : Option Text → Text
or_empty none = []
or_empty (some t) = t

-- `if s.is_empty() { t } else { s }`.
if_empty : Text → Text → Text
if_empty [] t = t
if_empty (c ∷ cs) t = c ∷ cs

is_pointer_type : Tag → Bool
is_pointer_type pointer_type = true
is_pointer_type other = false

is_structure : Tag → Bool
is_structure structure_type = true
is_structure union_type = true
is_structure other = false

is_member : Tag → Bool
is_member member = true
is_member other = false

unit_ref_of : Option AttributeValue → Option ℕ
unit_ref_of (some (unit_ref o)) = some o
unit_ref_of other = none

udata_of : Option AttributeValue → Option ℕ
udata_of (some (udata n)) = some n
udata_of other = none

field_offset : Option AttributeValue → ℕ
field_offset (some (udata o)) = o
field_offset (some (sdata o)) = o
field_offset other = 0

unknown : Text → TypeInfo
unknown name = record { byte_size = 8; type_name = name; is_pointer = false; pointee_type = [] }

unfoldable pub format_type_name : Tag → Text → Option Text
format_type_name base_type name = some name
format_type_name typedef name = some (codes "typedef " ++ name)
format_type_name structure_type name = some (codes "struct " ++ name)
format_type_name union_type name = some (codes "union " ++ name)
format_type_name class_type name = some (codes "class " ++ name)
format_type_name enumeration_type name = some (codes "enum " ++ name)
format_type_name interface_type name = some (codes "interface " ++ name)
format_type_name other name = none

module _ {Entry : Type 0} (g : Gimli Entry) where
  pointee : Entry → Text
  unfolding unit_ref_of or_empty attr_to_string
  pointee die = elim (unit_ref_of (g.attr_value die at_type)) [
    | none ↦ []
    | some o ↦ elim (g.entry o) [ none ↦ [] | some e ↦ or_empty (attr_to_string g e at_name) ]
  ]

  pointer_info : Text → Text → TypeInfo
  unfolding if_empty
  pointer_info name behind = record {
    byte_size = 8;
    type_name = if_empty name (behind ++ b'*' ∷ []);
    is_pointer = true;
    pointee_type = behind;
  }

  -- The loop that follows the types, with the rounds that are left.
  unfoldable pub resolve_loop : ℕ → Text → ℕ → TypeInfo
  unfolding is_pointer_type unit_ref_of udata_of unknown pointee pointer_info if_empty or_empty
      attr_to_string
  resolve_loop zero name offset = unknown name
  resolve_loop (suc rounds) name offset = elim (g.entry offset) [
    | none ↦ unknown name
    | some die ↦
        let named = if_empty name (or_empty (attr_to_string g die at_name)) in
        if is_pointer_type (g.tag die)
        then pointer_info named (pointee die)
        else elim (udata_of (g.attr_value die at_byte_size)) [
          | some size ↦ record (unknown named) { byte_size = min size 8 }
          | none ↦ elim (unit_ref_of (g.attr_value die at_type)) [
            | none ↦ unknown named
            | some o ↦ resolve_loop rounds named o
          ]
        ]
  ]

  unfoldable pub resolve_type_info_full : Entry → TypeInfo
  unfolding unit_ref_of unknown resolve_loop
  resolve_type_info_full e = elim (unit_ref_of (g.attr_value e at_type)) [
    | none ↦ unknown []
    | some o ↦ resolve_loop 16 [] o
  ]

  field_of : Text → Entry → FieldInfo
  unfolding resolve_type_info_full field_offset
  field_of name e =
      let t = resolve_type_info_full e in
      record {
        name = name;
        offset = field_offset (g.attr_value e at_data_member_location);
        byte_size = t.byte_size;
        type_name = t.type_name;
        is_pointer = t.is_pointer;
        pointee_type = t.pointee_type;
      }

  -- The members from the depth on, until the structure is left.
  unfoldable pub members : ℤ → List (ℤ × Entry) → List FieldInfo
  unfolding ◌+ℤ◌ geb is_member attr_to_string field_of
  members depth [] = []
  members depth (c ∷ cs) =
      let next = depth +ℤ c.0 in
      let rest = members next cs in
      if geb (pos 0) next
      then []
      else (if not (is_member (g.tag c.1)) then rest else elim (attr_to_string g c.1 at_name) [
        | none ↦ rest
        | some name ↦ field_of name c.1 ∷ rest
      ])

  -- `structs.entry(type_name).or_insert(info)`.
  or_insert : Text → StructInfo → List (Text × StructInfo) → List (Text × StructInfo)
  or_insert name info structs =
      if is_some (find (λ (e : Text × StructInfo). text_eq e.0 name) structs)
      then structs
      else structs ++ (name, info) ∷ []

  add_struct : Entry → List (Text × StructInfo) → List (Text × StructInfo)
  unfolding is_structure udata_of attr_to_string members or_insert
  add_struct e structs =
      if not (is_structure (g.tag e)) then structs else elim (attr_to_string g e at_name) [
        | none ↦ structs
        | some name ↦ elim (udata_of (g.attr_value e at_byte_size)) [
          | none ↦ structs
          | some size ↦
              or_insert name
                (record { byte_size = size; fields = members (pos 0) (g.entries_below e) }) structs
        ]
      ]

  unfoldable pub structs_of : List (ℤ × Entry) → List (Text × StructInfo) → List (Text × StructInfo)
  unfolding add_struct
  structs_of [] structs = structs
  structs_of (e ∷ es) structs = structs_of es (add_struct e.1 structs)

  unfoldable pub collect_struct_info : List (Text × StructInfo) → List (Text × StructInfo)
  unfolding structs_of
  collect_struct_info structs = structs_of g.entries structs
