-- ===== src/Symbols/Dwarf/Nested.antt =====
-- src/symbols.rs: that the stacks of collect_variables follow the nesting of the entries.
use macos_c_debugger_rust.Base.{
  ℕ, suc, List, [], ◌∷◌, ◌++◌, Option, none, some, ◌≡◌, refl, sym, ap, subst, ◌∙◌,
}
use mathlib.Core.List.{append-nil, append_assoc}
use macos_c_debugger_rust.Symbols.{FrameBaseDef, Variable, register}
use macos_c_debugger_rust.Symbols.Dwarf.{Gimli, parse_frame_base_def, entry_pc_range}
use macos_c_debugger_rust.Symbols.Dwarf.Integers.{pos, sub_nat, ◌+ℤ◌, add-sub_nat}
use macos_c_debugger_rust.Symbols.Dwarf.Scopes.{
  Walk, is_subprogram, is_scope, is_variable, pop, scope_of, frame_base_of, variable_of, arrive,
  visit, walk, collect_variables,
}
use macos_c_debugger_rust.Symbols.Dwarf.Forest.{
  Forest, empty, node, in_order, deltas, optional, scope_in, base_in, variables_in,
}
use macos_c_debugger_rust.Symbols.Dwarf.Stacks.{
  pop-below, scope_of-below, frame_base_of-below, add_if-append,
}

joined :
    (u own below next : List Variable) {v y z : List Variable}
    → z ≡ y ++ next
    → y ≡ v ++ below
    → v ≡ u ++ own
    → z ≡ u ++ (own ++ below ++ next)
joined u own below next h k l =
    h
    ∙ ap (λ x. x ++ next) (k ∙ ap (λ x. x ++ below) l ∙ append_assoc u own below)
    ∙ append_assoc u (own ++ below) next

module _ {Entry : Type 0} (g : Gimli Entry) where
  walk_at : Walk → List (ℕ × Entry) → Walk
  unfolding arrive
  walk_at w [] = w
  walk_at w (e ∷ es) = walk_at (arrive g w e.1 (pos e.0)) es

  walk_at-append :
      (w : Walk) (xs ys : List (ℕ × Entry)) → walk_at w (xs ++ ys) ≡ walk_at (walk_at w xs) ys
  unfolding walk_at
  walk_at-append w [] ys = refl
  walk_at-append w (x ∷ xs) ys = walk_at-append (arrive g w x.1 (pos x.0)) xs ys

  walk-deltas :
      (w : Walk) (before : ℕ) (es : List (ℕ × Entry))
      → w.depth ≡ pos before
      → walk g w (deltas before es) ≡ walk_at w es
  unfolding walk walk_at visit
  walk-deltas w before [] h = refl
  walk-deltas w before (e ∷ es) h =
      let at_depth : w.depth +ℤ sub_nat e.0 before ≡ pos e.0 =
        ap (λ x. x +ℤ sub_nat e.0 before) h ∙ add-sub_nat before e.0 in
      ap (λ x. walk g (arrive g w e.1 x) (deltas e.0 es)) at_depth
      ∙ walk-deltas (arrive g w e.1 (pos e.0)) e.0 es (unfold arrive in refl)

  -- What a walk over nested entries leaves.
  Followed : Walk → ℕ → Forest Entry → Walk → Type 0
  Followed w d f z =
      let scopes = pop (pos d) w.scope_stack in
      let bases = pop (pos d) w.fb_stack in
      (z.variables ≡ w.variables ++ variables_in g (scope_of scopes) (frame_base_of bases) f)
      × (pop (pos d) z.scope_stack ≡ scopes)
      × (pop (pos d) z.fb_stack ≡ bases)

  same_variables :
      {c k : Option (Option (ℕ × ℕ))} {a b : FrameBaseDef} (f : Forest Entry) (y : List Variable)
      {z : List Variable}
      → z ≡ y ++ variables_in g c a f
      → c ≡ k
      → a ≡ b
      → z ≡ y ++ variables_in g k b f
  same_variables f y h p q = cc

  Followed-node :
      (w y z : Walk) (d : ℕ) (e : Entry) (below next : Forest Entry)
      → Followed (arrive g w e (pos d)) (suc d) below y
      → Followed y d next z
      → Followed w d (node e below next) z
  unfolding Followed arrive
  Followed-node w y z d e below next h k = (
    joined w.variables (optional (is_variable (g.tag e)) (variable_of g e base scope))
        (variables_in g (scope_in g e scope) (base_in g e base) below)
        (variables_in g scope base next)
        (same_variables next y.variables k.0 (ap scope_of scopes) (ap frame_base_of bases))
        (same_variables below (arrive g w e (pos d)).variables h.0
          (scope_of-below (is_scope (g.tag e)) d (entry_pc_range g e) w.scope_stack)
          (frame_base_of-below (is_subprogram (g.tag e)) d (parse_frame_base_def g e) w.fb_stack))
        (add_if-append (is_variable (g.tag e)) (variable_of g e base scope) w.variables),
    k.1 ∙ scopes,
    k.2 ∙ bases,
  )
    where
      scope : Option (Option (ℕ × ℕ))
      scope = scope_of (pop (pos d) w.scope_stack)

      base : FrameBaseDef
      base = frame_base_of (pop (pos d) w.fb_stack)

      scopes : pop (pos d) y.scope_stack ≡ pop (pos d) w.scope_stack
      scopes = pop-below (is_scope (g.tag e)) d (entry_pc_range g e) w.scope_stack y.scope_stack h.1

      bases : pop (pos d) y.fb_stack ≡ pop (pos d) w.fb_stack
      bases =
          pop-below (is_subprogram (g.tag e)) d (parse_frame_base_def g e) w.fb_stack y.fb_stack h.2

  walk_at-Followed :
      (w : Walk) (d : ℕ) (f : Forest Entry) → Followed w d f (walk_at w (in_order d f))
  unfolding walk_at Followed
  walk_at-Followed w d empty = (sym (append-nil w.variables), refl, refl)
  walk_at-Followed w d (node e below next) =
      let v = arrive g w e (pos d) in
      let y = walk_at v (in_order (suc d) below) in
      subst (Followed w d (node e below next))
        (sym (walk_at-append v (in_order (suc d) below) (in_order d next)))
        (Followed-node w y (walk_at y (in_order d next)) d e below next
          (walk_at-Followed v (suc d) below) (walk_at-Followed y d next))

  -- Where the entries of a unit are those of a forest in depth-first order, with their depths as
  -- differences, collect_variables adds the variables that a recursion over the forest finds, in
  -- order: one outside of every scope is global, one in scopes has the addresses of the innermost
  -- of them that has any, and is left out where none has; its frame base is that of the innermost
  -- function.
  pub collect_variables-nested :
      (f : Forest Entry) (vs : List Variable)
      → g.entries ≡ deltas 0 (in_order 0 f)
      → collect_variables g vs ≡ vs ++ variables_in g (some none) register f
  unfolding collect_variables Followed pop
  collect_variables-nested f vs h =
      let start : Walk = record {
        depth = pos 0;
        scope_stack = [];
        fb_stack = [];
        variables = vs;
      } in
      ap (λ es. (walk g start es).variables) h
      ∙ ap (λ w. w.variables) (walk-deltas start 0 (in_order 0 f) refl)
      ∙ found (walk_at start (in_order 0 f)) (walk_at-Followed start 0 f)
    where
      found :
          (z : Walk)
          → Followed
              (record { depth = pos 0; scope_stack = []; fb_stack = []; variables = vs })
              0
              f
              z
          → z.variables ≡ vs ++ variables_in g (some none) register f
      found z k = k.0
