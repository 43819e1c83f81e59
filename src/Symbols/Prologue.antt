-- ===== src/Symbols/Prologue.antt =====
-- `skip_prologue` and `stub_address` of src/symbols.rs.
use macos_c_debugger_rust.Base.{
  ℕ, Bool, true, false, List, [], ◌∷◌, Option, ◌==◌, ◌<◌, ◌≡◌, refl, arith, ltb, ◌&&◌, Bool-cases,
  inl, inr, ◌⊎◌,
}
use macos_c_debugger_rust.Symbols.{
  Symbols, LineRow, row, end_sequence, is_below, prologue_end, skip_prologue, next_symbol,
}

-- The function's own address, or one behind it and before the next symbol.
abbrev pub InFunction : Option ℕ → ℕ → ℕ → Type 0
InFunction bound func at = (at ≡ func) ⊎ ((func < at) × (is_below at bound ≡ true))

prologue_end-InFunction :
    (bound : Option ℕ) (func : ℕ) (in_func : Bool) (rows : List LineRow)
    → InFunction bound func (prologue_end bound func in_func rows)
unfolding prologue_end
prologue_end-InFunction bound func b [] = inl refl
prologue_end-InFunction bound func b (end_sequence at ∷ rows) =
    prologue_end-InFunction bound func false rows
prologue_end-InFunction bound func b (row f path l at p ∷ rows) = elim (Bool-cases (at == func)) [
  | inl e ↦ elim (Bool-cases p) [
    | inl q ↦ rw (prologue_end, e, q) (inl (ground (arith, e)))
    | inr q ↦ rw (prologue_end, e, q) (prologue_end-InFunction bound func true rows)
  ]
  | inr e ↦ elim (Bool-cases (b && ltb func at)) [
    | inl q ↦ elim (Bool-cases (is_below at bound)) [
      | inl r ↦ rw (prologue_end, e, q, r) (inr (ground (arith, q), r))
      | inr r ↦ rw (prologue_end, e, q, r) (inl refl)
    ]
    | inr q ↦ rw (prologue_end, e, q) (prologue_end-InFunction bound func b rows)
  ]
]

-- skip_prologue returns the function's own address or one behind it and before the next symbol.
pub skip_prologue-InFunction :
    (s : Symbols) (func : ℕ) → InFunction (next_symbol s func) func (skip_prologue s func)
unfolding skip_prologue
skip_prologue-InFunction s func =
    prologue_end-InFunction (next_symbol s func) func false s.line_rows
