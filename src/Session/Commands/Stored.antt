-- ===== src/Session/Commands/Stored.antt =====
-- `set` of a variable and its evaluation afterwards (src/main.rs, src/expr.rs).
use macos_c_debugger_rust.Base.{
  ℕ, zero, suc, List, [], ◌∷◌, Option, ◌+◌, ◌^◌, ◌<◌, ◌≤◌, ◌≡◌, refl, ap, sym, ◌∙◌, arith, ◌/◌,
  length, take, length-take,
}
use macos_c_debugger_rust.Base.Bytes.{from_le, to_le, length-to_le, from_le-to_le}
use macos_c_debugger_rust.Base.Text.{Text}
use macos_c_debugger_rust.Expr.{value, clamp, eval, variable, eval_variable}
use macos_c_debugger_rust.Io.{Error, ok}
use macos_c_debugger_rust.Mach.{Foreign}
use macos_c_debugger_rust.Mach.Bytes.{HasMemory}
use macos_c_debugger_rust.Mach.Float.{FloatForeign}
use macos_c_debugger_rust.Register.Intel.{ThreadState64}
use macos_c_debugger_rust.Debugger.{State, read_memory, write_memory}
use macos_c_debugger_rust.Debugger.Transparent.{IsPatched}
use macos_c_debugger_rust.Debugger.Written.{Free, write_memory-read_memory}
use macos_c_debugger_rust.Session.Commands.Assign.{store}
use macos_c_debugger_rust.Session.Variables.{resolve_variable, context}
use macos_c_debugger_rust.Symbols.{Symbols}

take-to_le : (n m v : ℕ) → n ≤ m → take n (to_le m v) ≡ to_le n v
unfolding to_le
take-to_le zero m v h = refl
take-to_le (suc n) zero v h = absurd (omega arith)
take-to_le (suc n) (suc m) v h = ground (arith, take-to_le n m (v / 256) (omega arith))

take-length : {A : Type 0} (n : ℕ) (xs : List A) → length xs ≤ n → take n xs ≡ xs
take-length zero [] h = refl
take-length zero (x ∷ xs) h = absurd (omega arith)
take-length (suc n) [] h = refl
take-length (suc n) (x ∷ xs) h = ap (λ l. x ∷ l) (take-length n xs (omega arith))

-- The bytes that `set` writes.
abbrev pub stored_bytes : ℕ → ℕ → List ℕ
stored_bytes size v = take (clamp size) (to_le 8 v)

length-stored_bytes : (size v : ℕ) → length (stored_bytes size v) ≡ clamp size
length-stored_bytes size v = omega (arith, length-take (clamp size) (to_le 8 v), length-to_le 8 v)

module _ {W : Type 0} {F : Foreign W} (M : HasMemory F) (orig : ℕ → ℕ) (G : FloatForeign W)
    (message : Error → Text) (base : Option ℕ) (syms : Option Symbols) where
  store-write :
      (at size v : ℕ) (s : State W)
      → (write_memory F at (stored_bytes size v) s).0 ≡ ok tt
      → (store F G (at, size) v s).1 ≡ (write_memory F at (stored_bytes size v) s).1
  unfolding store
  store-write at size v s done = ground (arith, done)

  eval_variable-bytes :
      (name : Text) (at size : ℕ) (bs : List ℕ) (regs : ThreadState64) (t : State W)
      → resolve_variable F message base syms name t ≡ value (at, size)
      → (read_memory F at (clamp size) t).0 ≡ ok bs
      → length bs ≡ clamp size
      → eval (variable name) (context F message base syms regs t) ≡ value (from_le bs)
  unfolding eval eval_variable context
  eval_variable-bytes name at size bs regs t e read n =
      ground (arith, e, read, n, take-length (clamp size) bs (omega (arith, n)))

  -- When set writes a value that fits into a variable's size, without a breakpoint at its bytes,
  -- and the variable is still in the same place, evaluating it gives that value.
  pub store-eval :
      (name : Text) (at size v : ℕ) (bs : List ℕ) (regs : ThreadState64) (s : State W)
      → IsPatched M orig s
      → Free s.dbg.breakpoints at (clamp size)
      → at + clamp size < 2 ^ 64
      → v < 256 ^ clamp size
      → (write_memory F at (stored_bytes size v) s).0 ≡ ok tt
      → let t = (store F G (at, size) v s).1 in
        resolve_variable F message base syms name t ≡ value (at, size)
        → (read_memory F at (clamp size) t).0 ≡ ok bs
        → eval (variable name) (context F message base syms regs t) ≡ value v
  store-eval name at size v bs regs s p free small fits done there read =
      let n = length-stored_bytes size v in
      let t = (store F G (at, size) v s).1 in
      let q = store-write at size v s done in
      let seen : bs ≡ stored_bytes size v =
        write_memory-read_memory M orig at (stored_bytes size v) bs s p (rw n free) (rw n small)
          done (rw (n, sym q) read) in
      eval_variable-bytes name at size bs regs t there read (ap length seen ∙ n)
      ∙ ap value (
          ap from_le (seen ∙ take-to_le (clamp size) 8 v (omega arith))
          ∙ from_le-to_le (clamp size) v fits)
