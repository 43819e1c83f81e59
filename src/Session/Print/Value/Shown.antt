-- ===== src/Session/Print/Value/Shown.antt =====
-- The format `s` of the command `print` of src/main.rs: the string that it shows.
use mathlib.Core.List.{append_assoc}
use macos_c_debugger_rust.Base.{
  ℕ, zero, suc, true, false, List, [], ◌∷◌, ◌++◌, none, some, ◌+◌, ◌-◌, ◌*◌, ◌%◌, ◌^◌, ◌<◌, ◌≤◌,
  ltb, ◌≡◌, ◌≢◌, refl, ap, ◌∙◌, inl, inr, arith, Bool-cases, length,
}
use macos_c_debugger_rust.Base.Text.{Text, codes}
use macos_c_debugger_rust.Base.Text.Format.{hex}
use macos_c_debugger_rust.Session.Print.{says, out}
use macos_c_debugger_rust.Io.{ok}
use macos_c_debugger_rust.Mach.{Foreign}
use macos_c_debugger_rust.Mach.Bytes.{HasMemory, bytes_at}
use macos_c_debugger_rust.Debugger.{State, read_memory}
use macos_c_debugger_rust.Debugger.Transparent.{IsPatched, read_memory-transparent}
use macos_c_debugger_rust.Session.Print.Value.{
  until_nul, shown_byte, read_string, string_lines, print_value,
}

-- Every byte of a string as it is shown.
unfoldable pub shown_text : List ℕ → Text
shown_text [] = []
shown_text (b ∷ bs) = shown_byte b ++ shown_text bs

until_nul-found :
    (m : ℕ → ℕ) (at k n : ℕ)
    → k < n
    → m (at + k) ≡ 0
    → ((a : ℕ) → at ≤ a → a < at + k → m a ≢ 0)
    → until_nul (bytes_at m at n) ≡ (shown_text (bytes_at m at k), true)
unfolding until_nul shown_text
until_nul-found m at k zero h z f = absurd (omega arith)
until_nul-found m at zero (suc n) h z f = ground (arith, z)
until_nul-found m at (suc k) (suc n) h z f =
    let e : suc at + k ≡ at + suc k = omega arith in
    let rest =
      until_nul-found m (suc at) k n (omega arith) (rw e z)
        (λ a l u. f a (omega arith) (omega arith)) in
    rw rest (ground (arith, f at (omega arith) (omega arith)))

until_nul-none :
    (m : ℕ → ℕ) (at n : ℕ)
    → ((a : ℕ) → at ≤ a → a < at + n → m a ≢ 0)
    → until_nul (bytes_at m at n) ≡ (shown_text (bytes_at m at n), false)
unfolding until_nul shown_text
until_nul-none m at zero f = refl
until_nul-none m at (suc n) f =
    let rest = until_nul-none m (suc at) n (λ a l u. f a (omega arith) (omega arith)) in
    rw rest (ground (arith, f at (omega arith) (omega arith)))

-- A string that goes on at `mid`.
shown_text-bytes_at :
    (m : ℕ → ℕ) (at n mid k total : ℕ)
    → mid ≡ at + n
    → total ≡ n + k
    → shown_text (bytes_at m at n) ++ shown_text (bytes_at m mid k)
      ≡ shown_text (bytes_at m at total)
unfolding shown_text
shown_text-bytes_at m at zero mid k total e l =
    let x : mid ≡ at = omega arith in let y : total ≡ k = omega arith in rw (x, y) refl
shown_text-bytes_at m at (suc n) mid k zero e l = absurd (omega arith)
shown_text-bytes_at m at (suc n) mid k (suc total) e l =
    append_assoc (shown_byte (m at)) (shown_text (bytes_at m (suc at) n))
      (shown_text (bytes_at m mid k))
    ∙ ap (λ t. shown_byte (m at) ++ t)
        (shown_text-bytes_at m (suc at) n mid k total (omega arith) (omega arith))

module _ {W : Type 0} {F : Foreign W} (M : HasMemory F) (orig : ℕ → ℕ) (s : State W) where
  read_string-found :
      (fuel at : ℕ) (bs : List ℕ) (text : Text)
      → (read_memory F at 64 s).0 ≡ ok bs
      → until_nul bs ≡ (text, true)
      → read_string F (suc fuel) at s ≡ ok (text, none)
  unfolding read_string
  read_string-found fuel at bs text e f = ground (arith, e, f)

  read_string-next :
      (fuel at : ℕ) (bs : List ℕ) (text rest : Text)
      → (read_memory F at 64 s).0 ≡ ok bs
      → until_nul bs ≡ (text, false)
      → at + length bs < 2 ^ 64
      → read_string F fuel (at + length bs) s ≡ ok (rest, none)
      → read_string F (suc fuel) at s ≡ ok (text ++ rest, none)
  unfolding read_string
  read_string-next fuel at bs text rest e f h r =
      let l : (at + length bs) % 2 ^ 64 ≡ at + length bs = omega arith in ground (arith, e, f, l, r)

  -- Every read of 64 bytes that starts in the string succeeds.
  unfoldable pub IsReadable : ℕ → ℕ → Type 0
  IsReadable at k =
      (a : ℕ) → at ≤ a → a ≤ at + k → (bs : List ℕ) × ((read_memory F a 64 s).0 ≡ ok bs)

  chunk :
      (at k : ℕ)
      → IsPatched M orig s
      → at + 64 < 2 ^ 64
      → IsReadable at k
      → (read_memory F at 64 s).0 ≡ ok (bytes_at orig at 64)
  unfolding IsReadable
  chunk at k p h r =
      let got = r at (omega arith) (omega arith) in
      got.1 ∙ ap ok (read_memory-transparent M orig s at 64 got.0 p h got.1)

  read_string-program :
      (fuel at k : ℕ)
      → IsPatched M orig s
      → at + 64 * fuel < 2 ^ 64
      → k < 64 * fuel
      → IsReadable at k
      → orig (at + k) ≡ 0
      → ((a : ℕ) → at ≤ a → a < at + k → orig a ≢ 0)
      → read_string F fuel at s ≡ ok (shown_text (bytes_at orig at k), none)
  unfolding read_string IsReadable
  read_string-program zero at k p h l r z f = absurd (omega arith)
  read_string-program (suc fuel) at k p h l r z f =
      let c = chunk at k p (omega arith) r in
      elim (Bool-cases (ltb k 64)) [
        | inl e ↦
            read_string-found fuel at (bytes_at orig at 64) (shown_text (bytes_at orig at k)) c
              (until_nul-found orig at k 64 (ground (arith, e)) z f)
        | inr e ↦
            let u : at + 64 + (k - 64) ≡ at + k = ground arith in
            let rest =
              read_string-program fuel (at + 64) (k - 64) p (omega arith) (ground (arith, e))
                (λ a l v. r a (omega arith) (ground (arith, e))) (rw u z)
                (λ a l v. f a (omega arith) (ground (arith, e))) in
            read_string-next fuel at (bytes_at orig at 64) (shown_text (bytes_at orig at 64))
              (shown_text (bytes_at orig (at + 64) (k - 64))) c
              (until_nul-none orig at 64 (λ a l v. f a l (ground (arith, e)))) (omega arith) rest
            ∙ ap (λ t. ok (t, none))
                (shown_text-bytes_at orig at 64 (at + 64) (k - 64) k refl (ground (arith, e)))
      ]

  -- Under the invariant of breakpoints, where every read of 64 bytes that starts in a string
  -- succeeds, the format s prints the program's own string up to its first 0, each byte as it is or
  -- escaped, whatever breakpoints stand in it, with fuel of one unit for each 64 bytes.
  pub print_value-string :
      (fuel at k : ℕ) (expr : Text)
      → IsPatched M orig s
      → at + 64 * fuel < 2 ^ 64
      → k < 64 * fuel
      → IsReadable at k
      → orig (at + k) ≡ 0
      → ((a : ℕ) → at ≤ a → a < at + k → orig a ≢ 0)
      → print_value F fuel (some b's') expr at s
        ≡ says (
            out (
              expr
              ++ codes " = "
              ++ hex 18 at
              ++ codes "  \""
              ++ shown_text (bytes_at orig at k)
              ++ codes "\""))
  unfolding print_value
  print_value-string fuel at k expr p h l r z f =
      ap (string_lines F (expr ++ codes " = ") at) (read_string-program fuel at k p h l r z f)
