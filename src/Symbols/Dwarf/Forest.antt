-- ===== src/Symbols/Dwarf/Forest.antt =====
-- src/symbols.rs: nested debugging entries, and the variables that a recursion over them finds.
use macos_c_debugger_rust.Base.{
  ℕ, suc, Bool, true, false, List, [], ◌∷◌, ◌++◌, Option, none, some, if◌then◌else◌,
}
use macos_c_debugger_rust.Symbols.{Variable, FrameBaseDef}
use macos_c_debugger_rust.Symbols.Dwarf.{Gimli, parse_frame_base_def, entry_pc_range}
use macos_c_debugger_rust.Symbols.Dwarf.Integers.{ℤ, sub_nat}
use macos_c_debugger_rust.Symbols.Dwarf.Scopes.{is_subprogram, is_scope, is_variable, variable_of}

-- Entries in a row, each with those below it.
pub data Forest (Entry : Type 0) : Type 0 where
  empty : Forest Entry
  node : Entry → Forest Entry → Forest Entry → Forest Entry

module _ {Entry : Type 0} where
  -- The entries in the order of a depth-first walk, with their depths.
  abbrev pub in_order : ℕ → Forest Entry → List (ℕ × Entry)
  in_order d empty = []
  in_order d (node e below next) = (d, e) ∷ in_order (suc d) below ++ in_order d next

  -- The depths as differences from the entry before.
  abbrev pub deltas : ℕ → List (ℕ × Entry) → List (ℤ × Entry)
  deltas before [] = []
  deltas before (e ∷ es) = (sub_nat e.0 before, e.1) ∷ deltas e.0 es

-- The scope inside an entry with these addresses: an entry without any hides nothing but the top.
abbrev pub enter : Option (ℕ × ℕ) → Option (Option (ℕ × ℕ)) → Option (Option (ℕ × ℕ))
enter (some range) around = some (some range)
enter none (some (some range)) = some (some range)
enter none other = none

abbrev pub optional : Bool → Option Variable → List Variable
optional true (some v) = v ∷ []
optional true none = []
optional false v = []

module _ {Entry : Type 0} (g : Gimli Entry) where
  abbrev pub scope_in : Entry → Option (Option (ℕ × ℕ)) → Option (Option (ℕ × ℕ))
  unfolding entry_pc_range
  scope_in e around = if is_scope (g.tag e) then enter (entry_pc_range g e) around else around

  abbrev pub base_in : Entry → FrameBaseDef → FrameBaseDef
  unfolding parse_frame_base_def
  base_in e around = if is_subprogram (g.tag e) then parse_frame_base_def g e else around

  -- The variables of nested entries, inside a scope and with a frame base.
  abbrev pub variables_in : Option (Option (ℕ × ℕ)) → FrameBaseDef → Forest Entry → List Variable
  unfolding variable_of
  variables_in scope base empty = []
  variables_in scope base (node e below next) =
      optional (is_variable (g.tag e)) (variable_of g e base scope)
      ++ variables_in (scope_in e scope) (base_in e base) below
      ++ variables_in scope base next
