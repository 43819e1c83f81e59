-- ===== src/Symbols/Print.antt =====
-- `print_symbols`, `print_lines` of src/symbols.rs: the lines that they print. A name is compared in
-- lowercase of ASCII.
use macos_c_debugger_rust.Base.{
  ℕ, Bool, true, List, [], ◌∷◌, ◌++◌, Option, none, some, if◌then◌else◌, ◌==◌, ◌||◌, map, length,
}
use macos_c_debugger_rust.Base.Text.{Text, codes, lowercase, starts_with}
use macos_c_debugger_rust.Base.Text.Format.{hex, decimal}
use macos_c_debugger_rust.Symbols.{Symbols, LineRow, row, end_sequence, find_location, slide}
use macos_c_debugger_rust.Symbols.Dwarf.Rows.{DebugInfo}

-- `str::contains`.
unfoldable pub contains : Text → Text → Bool
contains part [] = starts_with part []
contains part (c ∷ cs) = starts_with part (c ∷ cs) || contains part cs

-- What a filter, if there is one, keeps.
unfoldable pub is_kept : Option Text → Text → Bool
unfolding contains
is_kept none name = true
is_kept (some filter) name = contains (lowercase filter) (lowercase name)

abbrev pub symbol_line : Symbols → Text × ℕ → Text
symbol_line s e = hex 18 e.1 ++ codes "  " ++ e.0 ++ elim (find_location s e.1) [
  | none ↦ []
  | some at ↦ codes "  (" ++ at.0 ++ codes ":" ++ decimal at.1 ++ codes ")"
]

unfoldable pub symbol_lines : Symbols → Option Text → List (Text × ℕ) → List Text
unfolding is_kept
symbol_lines s filter [] = []
symbol_lines s filter (e ∷ es) =
    let rest = symbol_lines s filter es in
    if e.1 == 0 then rest else (if is_kept filter e.0 then symbol_line s e ∷ rest else rest)

unfoldable pub print_symbols : Symbols → Option Text → List Text
unfolding symbol_lines
print_symbols s filter = symbol_lines s filter s.symbols

abbrev pub row_line : Text → Text → ℕ → ℕ → Bool → Text
row_line file path line addr prologue_end =
    hex 18 addr
    ++ codes "  "
    ++ path
    ++ codes ":"
    ++ decimal line
    ++ codes "  ["
    ++ file
    ++ codes "]"
    ++ (if prologue_end then codes " (prologue_end)" else [])

unfoldable pub row_lines : Option Text → List LineRow → List Text
unfolding is_kept
row_lines filter [] = []
row_lines filter (end_sequence addr ∷ rows) = row_lines filter rows
row_lines filter (row file path line addr prologue_end ∷ rows) =
    let rest = row_lines filter rows in
    if is_kept filter file || is_kept filter path
    then row_line file path line addr prologue_end ∷ rest
    else rest

unfoldable pub print_lines : Symbols → Option Text → List Text
unfolding row_lines
print_lines s filter = row_lines filter s.line_rows

abbrev pub titled : Text → List Text → List Text
titled title [] = []
titled title (name ∷ names) = title ∷ map (λ n. codes "  " ++ n) (name ∷ names)

-- The debug file, the directories and the names of types are what `load` keeps beside the symbols.
unfoldable pub print_debug_info : Symbols → Text → DebugInfo → Option ℕ → List Text
print_debug_info s debug_file info base =
    (codes "debug file: " ++ debug_file)
      ∷ (codes "text vmaddr: " ++ hex 18 s.text_vmaddr)
      ∷ elim base [
        | none ↦ []
        | some b ↦ (codes "image base: " ++ hex 18 b) ∷ (codes "slide: " ++ hex 18 (slide s b)) ∷ []
      ]
    ++ ((codes "symbols: " ++ decimal (length s.symbols))
          ∷ (codes "line rows: " ++ decimal (length s.line_rows))
          ∷ (codes "types: " ++ decimal (length info.type_names))
          ∷ titled (codes "compilation directories:") info.comp_dirs
        ++ titled (codes "types:") info.type_names)
