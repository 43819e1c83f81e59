-- ===== src/Symbols/Dwarf/Rows.antt =====
-- src/symbols.rs, load_line_rows: the rows, directories, type names, variables and structures of all
-- units. The units and their line programs are those that gimli can read.
use macos_c_debugger_rust.Base.{
  ℕ, Bool, true, false, List, [], ◌∷◌, ◌++◌, Option, none, some, ◌==◌, if◌then◌else◌, ◌%◌, ◌^◌, ltb,
}
use macos_c_debugger_rust.Base.Text.{Text, text_eq, starts_with, file_name, trim}
use macos_c_debugger_rust.Symbols.{Variable, StructInfo, LineRow, row, end_sequence}
use macos_c_debugger_rust.Symbols.Dwarf.{at_name, Gimli, attr_to_string}
use macos_c_debugger_rust.Symbols.Dwarf.Integers.{ℤ}
use macos_c_debugger_rust.Symbols.Dwarf.Scopes.{collect_variables}
use macos_c_debugger_rust.Symbols.Dwarf.Types.{collect_struct_info, format_type_name}

-- A row of a line program as gimli gives it. The file has a name and a directory, where these can be
-- read.
pub record ProgramRow : Type 0 where
  pub is_end : Bool
  pub address : ℕ
  pub line : Option ℕ
  pub file : Option (Option Text × Option Text)
  pub prologue_end : Bool

pub record CompilationUnit (Entry : Type 0) : Type 0 where
  pub gimli : Gimli Entry
  pub comp_dir : Option Text
  pub program : Option (List ProgramRow)

-- `DebugInfo`. The sets are sorted lists.
pub record DebugInfo : Type 0 where
  pub line_rows : List LineRow
  pub comp_dirs : List Text
  pub type_names : List Text
  pub variables : List Variable
  pub structs : List (Text × StructInfo)

text_less : Text → Text → Bool
text_less s [] = false
text_less [] (y ∷ ys) = true
text_less (x ∷ xs) (y ∷ ys) = let rest = text_less xs ys in if x == y then rest else ltb x y

-- `BTreeSet::insert`.
unfoldable pub insert_text : Text → List Text → List Text
unfolding text_less
insert_text t [] = t ∷ []
insert_text t (u ∷ us) =
    let rest = insert_text t us in
    if text_less t u then t ∷ u ∷ us else (if text_eq t u then u ∷ us else u ∷ rest)

insert_option : Option Text → List Text → List Text
unfolding insert_text
insert_option none set = set
insert_option (some t) set = insert_text t set

ends_open : Text → Bool
ends_open [] = true
ends_open (c ∷ []) = c == b'/'
ends_open (c ∷ d ∷ cs) = ends_open (d ∷ cs)

is_absolute : Text → Bool
is_absolute path = starts_with (b'/' ∷ []) path

-- `PathBuf::push` of Unix.
unfoldable pub push : Text → Text → Text
unfolding ends_open is_absolute starts_with
push base path =
    if is_absolute path
    then path
    else (if ends_open base then base ++ path else base ++ b'/' ∷ path)

from_option : {A : Type 0} → A → Option A → A
from_option d none = d
from_option d (some a) = a

-- The directory of the unit, and below it the directory of the file.
directory_path : Option Text → Option Text → Text
unfolding push is_absolute starts_with
directory_path comp_dir none = elim comp_dir [ none ↦ [] | some c ↦ push [] c ]
directory_path comp_dir (some d) =
    if is_absolute d then d else push (elim comp_dir [ none ↦ [] | some c ↦ push [] c ]) d

unfoldable pub full_path : Option Text → Option Text → Text → Text
unfolding directory_path push is_absolute starts_with
full_path comp_dir directory name =
    if is_absolute name then name else push (directory_path comp_dir directory) name

-- One row, or none where its line or its file cannot be read.
unfoldable pub row_of : Option Text → ProgramRow → Option LineRow
unfolding full_path file_name from_option
row_of comp_dir r = if r.is_end then some (end_sequence r.address) else elim r.line [
  | none ↦ none
  | some line ↦ elim r.file [
    | none ↦ none
    | some file ↦ elim file.0 [
      | none ↦ none
      | some name ↦ some (
          row (from_option name (file_name name)) (full_path comp_dir file.1 name) (line % 2 ^ 32)
            r.address r.prologue_end)
    ]
  ]
]

unfoldable pub rows_of : Option Text → List ProgramRow → List LineRow
unfolding row_of
rows_of comp_dir [] = []
rows_of comp_dir (r ∷ rs) = elim (row_of comp_dir r) [
  | none ↦ rows_of comp_dir rs
  | some line_row ↦ line_row ∷ rows_of comp_dir rs
]

module _ {Entry : Type 0} where
  -- The name that an entry gives to its type.
  type_name_of : Gimli Entry → Entry → Option Text
  unfolding attr_to_string trim format_type_name
  type_name_of g e = elim (attr_to_string g e at_name) [
    | none ↦ none
    | some name ↦ elim (trim name) [ [] ↦ none | c ∷ cs ↦ format_type_name (g.tag e) (c ∷ cs) ]
  ]

  unfoldable pub names_of : Gimli Entry → List (ℤ × Entry) → List Text → List Text
  unfolding type_name_of insert_option
  names_of g [] names = names
  names_of g (e ∷ es) names = names_of g es (insert_option (type_name_of g e.1) names)

  unfoldable pub collect_type_names : Gimli Entry → List Text → List Text
  unfolding names_of
  collect_type_names g names = names_of g g.entries names

  read_unit : CompilationUnit Entry → DebugInfo → DebugInfo
  unfolding insert_option collect_type_names collect_variables rows_of from_option
  read_unit u info = record {
    line_rows = info.line_rows ++ rows_of u.comp_dir (from_option [] u.program);
    comp_dirs = insert_option u.comp_dir info.comp_dirs;
    type_names = collect_type_names u.gimli info.type_names;
    variables = collect_variables u.gimli info.variables;
    structs = info.structs;
  }

  unfoldable pub read_units : List (CompilationUnit Entry) → DebugInfo → DebugInfo
  unfolding read_unit
  read_units [] info = info
  read_units (u ∷ us) info = read_units us (read_unit u info)

  unfoldable pub read_structs :
      List (CompilationUnit Entry) → List (Text × StructInfo) → List (Text × StructInfo)
  unfolding collect_struct_info
  read_structs [] structs = structs
  read_structs (u ∷ us) structs = read_structs us (collect_struct_info u.gimli structs)

  unfoldable pub load_line_rows : List (CompilationUnit Entry) → DebugInfo
  unfolding read_units read_structs
  load_line_rows units =
      record (read_units units (record {
        line_rows = [];
        comp_dirs = [];
        type_names = [];
        variables = [];
        structs = [];
      })) { structs = read_structs units [] }
