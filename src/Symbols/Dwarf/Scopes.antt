-- ===== src/Symbols/Dwarf/Scopes.antt =====
-- src/symbols.rs, collect_variables: the variables of a unit with the scopes they are in.
use macos_c_debugger_rust.Base.{
  ℕ, Bool, true, false, List, [], ◌∷◌, ◌++◌, Option, none, some, if◌then◌else◌, ◌>>=?◌,
}
use macos_c_debugger_rust.Base.Text.{Text}
use macos_c_debugger_rust.Symbols.{Variable, VarLocation, FrameBaseDef, register}
use macos_c_debugger_rust.Symbols.Dwarf.{
  Tag, subprogram, lexical_block, variable, formal_parameter, at_name, Gimli, attr_to_string,
  parse_frame_base_def, entry_pc_range, parse_var_location,
}
use macos_c_debugger_rust.Symbols.Dwarf.Integers.{ℤ, pos, ◌+ℤ◌, geb}
use macos_c_debugger_rust.Symbols.Dwarf.Types.{resolve_type_info_full}

-- The stacks have their top first.
pub record Walk : Type 0 where
  pub depth : ℤ
  pub scope_stack : List (ℤ × Option (ℕ × ℕ))
  pub fb_stack : List (ℤ × FrameBaseDef)
  pub variables : List Variable

abbrev pub is_subprogram : Tag → Bool
is_subprogram subprogram = true
is_subprogram other = false

abbrev pub is_scope : Tag → Bool
is_scope subprogram = true
is_scope lexical_block = true
is_scope other = false

abbrev pub is_argument : Tag → Bool
is_argument formal_parameter = true
is_argument other = false

abbrev pub is_variable : Tag → Bool
is_variable variable = true
is_variable formal_parameter = true
is_variable other = false

module _ {A : Type 0} where
  -- The entries on top that are as deep as this one, or deeper, go.
  unfoldable pub pop : ℤ → List (ℤ × A) → List (ℤ × A)
  unfolding geb
  pop depth [] = []
  pop depth (s ∷ rest) = let popped = pop depth rest in if geb s.0 depth then popped else s ∷ rest

  abbrev pub push_if : Bool → ℤ → A → List (ℤ × A) → List (ℤ × A)
  push_if false depth a stack = stack
  push_if true depth a stack = (depth, a) ∷ stack

abbrev pub innermost : List (ℤ × Option (ℕ × ℕ)) → Option (ℕ × ℕ)
innermost [] = none
innermost ((depth, some range) ∷ rest) = some range
innermost ((depth, none) ∷ rest) = innermost rest

-- The scope of a variable: none of its own at the top, and no variable where no scope around it has
-- addresses.
abbrev pub scope_of : List (ℤ × Option (ℕ × ℕ)) → Option (Option (ℕ × ℕ))
scope_of [] = some none
scope_of (s ∷ rest) = innermost (s ∷ rest) >>=? λ range. some (some range)

abbrev pub frame_base_of : List (ℤ × FrameBaseDef) → FrameBaseDef
frame_base_of [] = register
frame_base_of (s ∷ rest) = s.1

abbrev pub add_if : Bool → Option Variable → List Variable → List Variable
add_if true (some v) vs = vs ++ v ∷ []
add_if true none vs = vs
add_if false v vs = vs

module _ {Entry : Type 0} (g : Gimli Entry) where
  named : Entry → Text → VarLocation → FrameBaseDef → Option (ℕ × ℕ) → Variable
  unfolding resolve_type_info_full
  named e name location frame_base scope =
      let t = resolve_type_info_full g e in
      record {
        name = name;
        scope = scope;
        location = location;
        byte_size = t.byte_size;
        is_arg = is_argument (g.tag e);
        frame_base = frame_base;
        type_name = t.type_name;
        is_pointer = t.is_pointer;
        pointee_type = t.pointee_type;
      }

  unfoldable pub variable_of : Entry → FrameBaseDef → Option (Option (ℕ × ℕ)) → Option Variable
  unfolding named attr_to_string parse_var_location
  variable_of e frame_base scope = attr_to_string g e at_name >>=? λ name.
      parse_var_location g e >>=? λ location.
      scope >>=? λ s. some (named e name location frame_base s)

  -- One round, at the depth that the entry has.
  unfoldable pub arrive : Walk → Entry → ℤ → Walk
  unfolding pop parse_frame_base_def entry_pc_range variable_of
  arrive w e depth =
      let scopes = pop depth w.scope_stack in
      let bases = pop depth w.fb_stack in
      record {
        depth = depth;
        scope_stack = push_if (is_scope (g.tag e)) depth (entry_pc_range g e) scopes;
        fb_stack = push_if (is_subprogram (g.tag e)) depth (parse_frame_base_def g e) bases;
        variables =
            add_if (is_variable (g.tag e)) (variable_of e (frame_base_of bases) (scope_of scopes))
              w.variables;
      }

  unfoldable pub visit : Walk → ℤ × Entry → Walk
  unfolding ◌+ℤ◌ arrive
  visit w next = arrive w next.1 (w.depth +ℤ next.0)

  unfoldable pub walk : Walk → List (ℤ × Entry) → Walk
  unfolding visit
  walk w [] = w
  walk w (e ∷ es) = walk (visit w e) es

  unfoldable pub collect_variables : List Variable → List Variable
  unfolding walk
  collect_variables variables =
      (walk (record { depth = pos 0; scope_stack = []; fb_stack = []; variables = variables })
        g.entries).variables
