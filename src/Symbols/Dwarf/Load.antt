-- ===== src/Symbols/Dwarf/Load.antt =====
-- src/symbols.rs, Symbols::load: everything that is read from an executable. The libraries object and
-- gimli give its symbols and segments, and the units of the debug file where that can be read.
use macos_c_debugger_rust.Base.{ℕ, List, [], ◌∷◌, Option, none, some, if◌then◌else◌}
use macos_c_debugger_rust.Base.Text.{Text, codes, text_eq}
use macos_c_debugger_rust.StubFinder.{find_stubs}
use macos_c_debugger_rust.Symbols.{Symbols}
use macos_c_debugger_rust.Symbols.Dwarf.Rows.{CompilationUnit, DebugInfo, load_line_rows}

-- Names that cannot be read are none.
pub record ObjectFile : Type 0 where
  pub object_symbols : List (Option Text × ℕ)
  pub segments : List (Option Text × ℕ)

unfoldable pub named_symbols : List (Option Text × ℕ) → List (Text × ℕ)
named_symbols [] = []
named_symbols ((none, at) ∷ rest) = named_symbols rest
named_symbols ((some [], at) ∷ rest) = named_symbols rest
named_symbols ((some (c ∷ cs), at) ∷ rest) = (c ∷ cs, at) ∷ named_symbols rest

unfoldable pub text_address : List (Option Text × ℕ) → ℕ
text_address [] = 0
text_address ((none, at) ∷ rest) = text_address rest
text_address ((some name, at) ∷ rest) =
    let next = text_address rest in if text_eq name (codes "__TEXT") then at else next

module _ {Entry : Type 0} where
  -- `load_line_rows(..).unwrap_or_default()`.
  debug_info : Option (List (CompilationUnit Entry)) → DebugInfo
  unfolding load_line_rows
  debug_info none = record {
    line_rows = [];
    comp_dirs = [];
    type_names = [];
    variables = [];
    structs = [];
  }
  debug_info (some units) = load_line_rows units

  unfoldable pub load : List ℕ → ObjectFile → Option (List (CompilationUnit Entry)) → Symbols
  unfolding named_symbols text_address debug_info find_stubs
  load file obj units =
      let info = debug_info units in
      record {
        symbols = named_symbols obj.object_symbols;
        text_vmaddr = text_address obj.segments;
        line_rows = info.line_rows;
        variables = info.variables;
        stubs =
            find_stubs file (codes "malloc" ∷ codes "calloc" ∷ codes "realloc" ∷ codes "free" ∷ []);
        structs = info.structs;
      }
