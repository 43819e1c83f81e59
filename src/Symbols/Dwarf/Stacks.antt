-- ===== src/Symbols/Dwarf/Stacks.antt =====
-- src/symbols.rs: the two stacks of collect_variables, one entry deeper and beside.
use macos_c_debugger_rust.Base.{
  ◌∙◌, ℕ, suc, Bool, true, false, List, [], ◌∷◌, ◌++◌, Option, none, some, ◌≡◌, refl, sym, ap,
  arith, ◌>>=?◌, if◌then◌else◌, Bool-cases, inl, inr,
}
use mathlib.Core.List.{append-nil}
use macos_c_debugger_rust.Symbols.{Variable, FrameBaseDef}
use macos_c_debugger_rust.Symbols.Dwarf.Integers.{ℤ, pos, negsuc, geb}
use macos_c_debugger_rust.Symbols.Dwarf.Scopes.{
  pop, push_if, innermost, scope_of, frame_base_of, add_if,
}
use macos_c_debugger_rust.Symbols.Dwarf.Forest.{enter, optional}

geb_more : (x : ℤ) (d : ℕ) → geb x (pos (suc d)) ≡ true → geb x (pos d) ≡ true
unfolding geb
geb_more (pos m) d h = ground (arith, h)
geb_more (negsuc m) d h = cc

geb_less : (x : ℤ) (d : ℕ) → geb x (pos d) ≡ false → geb x (pos (suc d)) ≡ false
unfolding geb
geb_less (pos m) d h = ground (arith, h)
geb_less (negsuc m) d h = refl

geb_self : (d : ℕ) → geb (pos d) (pos d) ≡ true
unfolding geb
geb_self d = ground arith

module _ {A : Type 0} where
  pop-pop_more : (d : ℕ) (s : List (ℤ × A)) → pop (pos d) (pop (pos (suc d)) s) ≡ pop (pos d) s
  unfolding pop
  pop-pop_more d [] = refl
  pop-pop_more d (x ∷ xs) = elim (Bool-cases (geb x.0 (pos (suc d)))) [
    | inl e ↦ rw (pop, e, geb_more x.0 d e) (pop-pop_more d xs)
    | inr e ↦ rw (pop, e) refl
  ]

  pop-pop_less : (d : ℕ) (s : List (ℤ × A)) → pop (pos (suc d)) (pop (pos d) s) ≡ pop (pos d) s
  unfolding pop
  pop-pop_less d [] = refl
  pop-pop_less d (x ∷ xs) = elim (Bool-cases (geb x.0 (pos d))) [
    | inl e ↦ rw (pop, e) (pop-pop_less d xs)
    | inr e ↦ rw (pop, e, geb_less x.0 d e) refl
  ]

  pop-pop : (d : ℕ) (s : List (ℤ × A)) → pop (pos d) (pop (pos d) s) ≡ pop (pos d) s
  unfolding pop
  pop-pop d [] = refl
  pop-pop d (x ∷ xs) = elim (Bool-cases (geb x.0 (pos d))) [
    | inl e ↦ rw (pop, e) (pop-pop d xs)
    | inr e ↦ let kept : pop (pos d) (x ∷ xs) ≡ x ∷ xs = rw (pop, e) refl in ap (pop (pos d)) kept
  ]

  pop-push_if :
      (b : Bool) (d : ℕ) (a : A) (s : List (ℤ × A))
      → pop (pos (suc d)) (push_if b (pos d) a (pop (pos d) s))
        ≡ push_if b (pos d) a (pop (pos d) s)
  unfolding pop geb
  pop-push_if false d a s = pop-pop_less d s
  pop-push_if true d a s = ground arith

  pop-push_if_self :
      (b : Bool) (d : ℕ) (a : A) (s : List (ℤ × A))
      → pop (pos d) (push_if b (pos d) a (pop (pos d) s)) ≡ pop (pos d) s
  unfolding pop geb
  pop-push_if_self false d a s = pop-pop d s
  pop-push_if_self true d a s = rw (geb_self d) (pop-pop d s)

-- What a walk below an entry has pushed is gone beside it.
pub pop-below :
    {A : Type 0} (b : Bool) (d : ℕ) (a : A) (s t : List (ℤ × A))
    → pop (pos (suc d)) t ≡ pop (pos (suc d)) (push_if b (pos d) a (pop (pos d) s))
    → pop (pos d) t ≡ pop (pos d) s
pop-below b d a s t h =
    sym (pop-pop_more d t)
    ∙ ap (pop (pos d)) h
    ∙ pop-pop_more d (push_if b (pos d) a (pop (pos d) s))
    ∙ pop-push_if_self b d a s

enter-none :
    (o : Option (ℕ × ℕ))
    → (o >>=? (λ range. some (some range))) ≡ enter none (o >>=? (λ range. some (some range)))
enter-none none = refl
enter-none (some range) = refl

scope_of-push_if :
    (b : Bool) (d : ℕ) (r : Option (ℕ × ℕ)) (s : List (ℤ × Option (ℕ × ℕ)))
    → scope_of (push_if b (pos d) r s) ≡ (if b then enter r (scope_of s) else scope_of s)
scope_of-push_if false d r s = refl
scope_of-push_if true d (some r) s = refl
scope_of-push_if true d none [] = refl
scope_of-push_if true d none (x ∷ xs) = enter-none (innermost (x ∷ xs))

frame_base_of-push_if :
    (b : Bool) (d : ℕ) (f : FrameBaseDef) (s : List (ℤ × FrameBaseDef))
    → frame_base_of (push_if b (pos d) f s) ≡ (if b then f else frame_base_of s)
frame_base_of-push_if false d f s = refl
frame_base_of-push_if true d f s = refl

-- The scope and the frame base that the stacks give below an entry.
pub scope_of-below :
    (b : Bool) (d : ℕ) (r : Option (ℕ × ℕ)) (s : List (ℤ × Option (ℕ × ℕ)))
    → scope_of (pop (pos (suc d)) (push_if b (pos d) r (pop (pos d) s)))
      ≡ (if b then enter r (scope_of (pop (pos d) s)) else scope_of (pop (pos d) s))
scope_of-below b d r s = ap scope_of (pop-push_if b d r s) ∙ scope_of-push_if b d r (pop (pos d) s)

pub frame_base_of-below :
    (b : Bool) (d : ℕ) (f : FrameBaseDef) (s : List (ℤ × FrameBaseDef))
    → frame_base_of (pop (pos (suc d)) (push_if b (pos d) f (pop (pos d) s)))
      ≡ (if b then f else frame_base_of (pop (pos d) s))
frame_base_of-below b d f s =
    ap frame_base_of (pop-push_if b d f s) ∙ frame_base_of-push_if b d f (pop (pos d) s)

pub add_if-append :
    (b : Bool) (v : Option Variable) (vs : List Variable) → add_if b v vs ≡ vs ++ optional b v
add_if-append true (some v) vs = refl
add_if-append true none vs = sym (append-nil vs)
add_if-append false v vs = sym (append-nil vs)
