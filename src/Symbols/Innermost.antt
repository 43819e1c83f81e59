-- ===== src/Symbols/Innermost.antt =====
-- What the searches of src/symbols.rs find.
use macos_c_debugger_rust.Base.{
  ℕ, Bool, true, false, List, [], ◌∷◌, none, some, ◌≤◌, ◌≡◌, ◌≢◌, refl, sym, subst, arith, ltb,
  keep, Bool-cases, Option-cases, inl, inr,
}
use macos_c_debugger_rust.Base.Text.{Text}
use macos_c_debugger_rust.Symbols.{
  Symbols, Variable, best_from, min_by_key, is_local, range, find_variable,
}

-- Every element satisfies the predicate.
abbrev pub All : {A : Type 0} → (A → Type 0) → List A → Type 0
All P [] = Unit {0}
All P (x ∷ xs) = P x × All P xs

module _ {A : Type 0} where
  All-keep : (p : A → Bool) (xs : List A) → All (λ x. p x ≡ true) (keep p xs)
  unfolding keep
  All-keep p [] = tt
  All-keep p (x ∷ xs) = elim (Bool-cases (p x)) [
    | inl e ↦ rw (keep, e) (e, All-keep p xs)
    | inr e ↦ rw (keep, e) (All-keep p xs)
  ]

  best_from-All :
      (better : A → A → Bool) (P : A → Type 0) (best : A) (xs : List A)
      → P best
      → All P xs
      → P (best_from better best xs)
  unfolding best_from
  best_from-All better P best [] h all = h
  best_from-All better P best (x ∷ xs) h all = elim (Bool-cases (better x best)) [
    | inl e ↦ rw (best_from, e) (best_from-All better P x xs all.0 all.1)
    | inr e ↦ rw (best_from, e) (best_from-All better P best xs h all.1)
  ]

module _ {A : Type 0} (key : A → ℕ) where
  least : A → List A → A
  least = best_from (λ y b. ltb (key y) (key b))

  least_from :
      (best : A) (xs : List A)
      → (key (least best xs) ≤ key best) × All (λ x. key (least best xs) ≤ key x) xs
  unfolding least best_from
  least_from best [] = (omega arith, tt)
  least_from best (x ∷ xs) = elim (Bool-cases (ltb (key x) (key best))) [
    | inl e ↦
        let h = least_from x xs in
        subst Bound (sym (step-less e)) (ground (arith, h.0, e), (h.0, h.1))
    | inr e ↦
        let h = least_from best xs in
        subst Bound (sym (step-more e)) (h.0, (ground (arith, h.0, e), h.1))
  ]
    where
      Bound : A → Type 0
      Bound r = (key r ≤ key best) × ((key r ≤ key x) × All (λ y. key r ≤ key y) xs)

      step-less : ltb (key x) (key best) ≡ true → least best (x ∷ xs) ≡ least x xs
      step-less e = rw (least, best_from, e) refl

      step-more : ltb (key x) (key best) ≡ false → least best (x ∷ xs) ≡ least best xs
      step-more e = rw (least, best_from, e) refl

  min_by_key-least :
      (xs : List A) (r : A) → min_by_key key xs ≡ some r → All (λ x. key r ≤ key x) xs
  unfolding min_by_key least
  min_by_key-least [] r h = tt
  min_by_key-least (x ∷ xs) r h =
      let q : least x xs ≡ r = ground (arith, h) in
      subst (λ r. (key r ≤ key x) × All (λ y. key r ≤ key y) xs) q (least_from x xs)

  min_by_key-All :
      (P : A → Type 0) (xs : List A) (r : A) → min_by_key key xs ≡ some r → All P xs → P r
  unfolding min_by_key
  min_by_key-All P [] r h all = absurd (cc)
  min_by_key-All P (x ∷ xs) r h all =
      let better : A → A → Bool = λ y b. ltb (key y) (key b) in
      let q : best_from better x xs ≡ r = ground (arith, h) in
      subst P q (best_from-All better P x xs all.0 all.1)

-- Where a local of the name is in scope, find_variable returns one that is in scope under that
-- name, and none of them has a shorter scope.
pub find_variable-innermost :
    (s : Symbols) (name : Text) (pc : ℕ) (v : Variable)
    → keep (is_local name pc) s.variables ≢ []
    → find_variable s name pc ≡ some v
    → (is_local name pc v ≡ true)
      × All (λ w. range v ≤ range w) (keep (is_local name pc) s.variables)
unfolding find_variable
find_variable-innermost s name pc v some_local h =
    let locals = keep (is_local name pc) s.variables in
    elim (Option-cases (min_by_key range locals)) [
      | inl e ↦ absurd (some_local (min_by_key-none locals e))
      | inr (w, e) ↦
          let q : w ≡ v = ground (arith, e, h) in
          subst (λ u. (is_local name pc u ≡ true) × All (λ x. range u ≤ range x) locals) q
            (
              min_by_key-All range (λ x. is_local name pc x ≡ true) locals w e
                  (All-keep (is_local name pc) s.variables),
              min_by_key-least range locals w e,
            )
    ]
  where
    min_by_key-none : (xs : List Variable) → min_by_key range xs ≡ none → xs ≡ []
    min_by_key-none [] e = refl
    min_by_key-none (x ∷ xs) e = absurd (unfold min_by_key in cc e)
