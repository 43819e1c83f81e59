-- ===== src/Io.antt =====
-- `io::Result` and code that changes a state: what a function returns, and the state it leaves.
-- An error keeps the changes made before it, as `?` does.
use macos_c_debugger_rust.Base.{
  ◌≡◌, refl, ◌⊎◌, inl, inr, ℕ, Bool, true, false, Option, none, some, List, [], ◌∷◌,
}

-- The errors that the program makes itself, and those of the system with their code.
pub data Error : Type 0 where
  mach_error os_error unknown_cpu no_slot : ℕ → Error
  no_threads invalid_thread_index slots_exhausted invalid_slot base_not_found : Error

-- `panic` is a failed `expect`, `unwrap` or index; `out_of_fuel` ends a loop of the model.
pub data Result (A : Type 0) : Type 0 where
  ok : A → Result A
  err : Error → Result A
  panic out_of_fuel : Result A

abbrev pub is_ok : {A : Type 0} → Result A → Bool
is_ok (ok a) = true
is_ok _ = false

abbrev pub Io : Type 0 → Type 0 → Type 0
Io S A = S → Result A × S

module _ {S A : Type 0} where
  abbrev pub pure : A → Io S A
  pure a s = (ok a, s)

  abbrev pub fail : Error → Io S A
  fail e s = (err e, s)

  -- `Option::ok_or`.
  abbrev pub or_fail : Option A → Error → Io S A
  or_fail none e s = (err e, s)
  or_fail (some a) e s = (ok a, s)

  abbrev pub recover : Result A → S → Result (Option A) × S
  recover (ok a) s = (ok (some a), s)
  recover (err e) s = (ok none, s)
  recover panic s = (panic, s)
  recover out_of_fuel s = (out_of_fuel, s)

  -- `.ok()`, `let _ =`, `.is_ok()`: an error becomes a value.
  abbrev pub attempt : Io S A → Io S (Option A)
  attempt m s = recover (m s).0 (m s).1

module _ {S A B : Type 0} where
  abbrev pub and_then : Result A → S → (A → Io S B) → Result B × S
  and_then (ok a) s f = f a s
  and_then (err e) s f = (err e, s)
  and_then panic s f = (panic, s)
  and_then out_of_fuel s f = (out_of_fuel, s)

  infixl 5 ◌>>=◌ ◌>>◌
  abbrev pub ◌>>=◌ : Io S A → (A → Io S B) → Io S B
  ◌>>=◌ m f s = and_then (m s).0 (m s).1 f

  abbrev pub ◌>>◌ : Io S A → Io S B → Io S B
  ◌>>◌ m k s = and_then (m s).0 (m s).1 (λ _. k)

-- `for x in xs { body(x)?; }`.
module _ {S A : Type 0} where
  unfoldable pub for_each : (A → Io S (Unit {0})) → List A → Io S (Unit {0})
  for_each body [] s = (ok tt, s)
  for_each body (x ∷ xs) s =
      let rest = for_each body xs in and_then (body x s).0 (body x s).1 (λ _. rest)

module _ {S A B : Type 0} where
  -- What a successful sequence says of its first part.
  pub and_then-ok :
      (r : Result A) (s : S) (f : A → Io S B) {b : B}
      → (and_then r s f).0 ≡ ok b
      → (a : A) × (r ≡ ok a) × ((f a s).0 ≡ ok b)
  and_then-ok (ok a) s f h = (a, refl, h)
  and_then-ok (err e) s f h = cc
  and_then-ok panic s f h = cc
  and_then-ok out_of_fuel s f h = cc

  -- What both parts of a sequence preserve, the sequence preserves.
  pub and_then-keeps :
      (P : S → Type 0) (r : Result A) (s : S) (f : A → Io S B)
      → P s
      → ((a : A) (t : S) → P t → P (f a t).1)
      → P (and_then r s f).1
  and_then-keeps P (ok a) s f p h = h a s p
  and_then-keeps P (err e) s f p h = p
  and_then-keeps P panic s f p h = p
  and_then-keeps P out_of_fuel s f p h = p

module _ {S A : Type 0} where
  pub recover-keeps : (P : S → Type 0) (r : Result A) (s : S) → P s → P (recover r s).1
  recover-keeps P (ok a) s p = p
  recover-keeps P (err e) s p = p
  recover-keeps P panic s p = p
  recover-keeps P out_of_fuel s p = p

module _ {A : Type 0} where
  -- A result is a value or it is not `ok`.
  pub ok-cases : (r : Result A) → (is_ok r ≡ false) ⊎ ((a : A) × (r ≡ ok a))
  ok-cases (ok a) = inr (a, refl)
  ok-cases (err e) = inl refl
  ok-cases panic = inl refl
  ok-cases out_of_fuel = inl refl
