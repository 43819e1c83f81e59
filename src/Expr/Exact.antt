-- ===== src/Expr/Exact.antt =====
-- src/expr.rs: the value of an expression against the integer that it stands for.
use native.Mathlib.Nat.{add-mul-mod_self_left, mul_comm, add-mul, div-le_self, mod-le}
use Prim.Native.Nat.{differ}
use macos_c_debugger_rust.Base.Bits.Words.{
  from_digits, bit_and-digits, bit_or-digits, bit_xor-digits, shift-digits,
}
use macos_c_debugger_rust.Base.{
  ℕ, if◌then◌else◌, ◌+◌, ◌-◌, ◌*◌, ◌/◌, ◌%◌, ◌^◌, ◌<◌, ◌==◌, min, max, ◌≡◌, refl, ap, ◌∙◌, sym,
  arith, Bool-cases, inl, inr,
}
use macos_c_debugger_rust.Base.Bits.{bit, bit_and-lt, bit_or-lt, bit_xor-lt}
use macos_c_debugger_rust.Expr.{
  Op, Expr, EvalContext, Value, value, failed, eval, eval_unary, eval_binary, address_of,
  is_addr_of, unary, binary, add, sub, mul, div, rem, and, or, xor, shl, shr, not, neg, deref,
  addr_of, ◌>>=◌, eval_deref, bad_binary, bad_unary, division_by_zero, modulo_by_zero,
}
use macos_c_debugger_rust.Expr.Values.{IsBounded, Words, eval-lt, eval_deref-lt, address_of-lt}

-- An integer, as the difference of two numbers.
abbrev pub Difference : Type 0
Difference = ℕ × ℕ

-- The word of 64 bits that is congruent to it.
unfoldable pub wrapped : Difference → ℕ
wrapped x = (x.0 + (2 ^ 64 - x.1 % 2 ^ 64)) % 2 ^ 64

abbrev plain : ℕ → Value Difference
plain v = value (v, 0)

-- A word given by its digits.
abbrev of_digits : (ℕ → ℕ) → Value Difference
of_digits digit = plain (from_digits 64 digit)

-- Sums, differences, products and left shifts are those of the integers, without a bound. The other
-- operators work on words, digit by digit but for the division.
unfoldable pub exact_binary : Op → Difference → Difference → Value Difference
unfolding wrapped from_digits bit
exact_binary add x y = value (x.0 + y.0, x.1 + y.1)
exact_binary sub x y = value (x.0 + y.1, x.1 + y.0)
exact_binary mul x y = value (x.0 * y.0 + x.1 * y.1, x.0 * y.1 + x.1 * y.0)
exact_binary shl x y = value (x.0 * 2 ^ (wrapped y % 64), x.1 * 2 ^ (wrapped y % 64))
exact_binary shr x y = of_digits (λ i. bit (wrapped x) (wrapped y % 64 + i))
exact_binary and x y = of_digits (λ i. min (bit (wrapped x) i) (bit (wrapped y) i))
exact_binary or x y = of_digits (λ i. max (bit (wrapped x) i) (bit (wrapped y) i))
exact_binary xor x y = of_digits (λ i. differ (bit (wrapped x) i) (bit (wrapped y) i))
exact_binary div x y =
    if wrapped y == 0 then failed division_by_zero else plain (wrapped x / wrapped y)
exact_binary rem x y =
    if wrapped y == 0 then failed modulo_by_zero else plain (wrapped x % wrapped y)
exact_binary _ x y = failed bad_binary

-- The complement of an integer is one less than its negation.
unfoldable pub exact_unary : EvalContext → Op → Difference → Value Difference
unfolding wrapped
exact_unary ctx neg x = value (x.1, x.0)
exact_unary ctx not x = value (x.1, x.0 + 1)
exact_unary ctx deref x = eval_deref ctx (wrapped x) >>= plain
exact_unary ctx _ x = failed bad_unary

-- The integer that an expression stands for, if nothing in it is wrapped.
unfoldable pub exact : Expr → EvalContext → Value Difference
unfolding exact_binary exact_unary
exact (unary op e) ctx =
    let inner = exact e ctx in
    if is_addr_of op then address_of ctx e >>= plain else inner >>= λ x. exact_unary ctx op x
exact (binary op l r) ctx =
    let left = exact l ctx in
    let right = exact r ctx in left >>= λ x. right >>= λ y. exact_binary op x y
exact e ctx = eval e ctx >>= plain

product-split : (m x y : ℕ) → 0 < m → x * y ≡ (x % m) * y + m * ((x / m) * y)
product-split m x y h = grind arith

product-mod : (m x y z : ℕ) → 0 < m → x % m ≡ z % m → (x * y) % m ≡ (z * y) % m
product-mod m x y z h e =
    rw (product-split m x y h, product-split m z y h, e)
      (add-mul-mod_self_left ((z % m) * y) m ((x / m) * y)
        ∙ sym (add-mul-mod_self_left ((z % m) * y) m ((z / m) * y)))

product-identity : (u n v m : ℕ) → (u + n) * (v + m) + n * m ≡ u * v + (u + n) * m + n * (v + m)
product-identity u n v m = grind arith

-- The number below that the word and the difference share.
wrapped-mod : (x : Difference) → (wrapped x + x.1) % 2 ^ 64 ≡ x.0 % 2 ^ 64
unfolding wrapped
wrapped-mod (p, n) = omega arith

wrapped_unique :
    (x : Difference) (v : ℕ) → (v + x.1) % 2 ^ 64 ≡ x.0 % 2 ^ 64 → v % 2 ^ 64 ≡ wrapped x
unfolding wrapped
wrapped_unique (p, n) v e = omega arith

-- The four products, as numbers.
combined :
    (a b c d e f g h i : ℕ)
    → a + i ≡ b + c + d
    → a % 2 ^ 64 ≡ e % 2 ^ 64
    → c % 2 ^ 64 ≡ f % 2 ^ 64
    → d % 2 ^ 64 ≡ g % 2 ^ 64
    → (b + (f + g)) % 2 ^ 64 ≡ (e + i) % 2 ^ 64
combined a b c d e f g h i s p q r = omega arith

product-mod_right : (m x y z : ℕ) → 0 < m → y % m ≡ z % m → (x * y) % m ≡ (x * z) % m
product-mod_right m x y z h e = rw (mul_comm x y, mul_comm x z) (product-mod m y x z h e)

wrapped-product :
    (x y : Difference)
    → (wrapped x * wrapped y) % 2 ^ 64 ≡ wrapped (x.0 * y.0 + x.1 * y.1, x.0 * y.1 + x.1 * y.0)
wrapped-product (p, n) (q, m) =
    let u = wrapped (p, n) in
    let v = wrapped (q, m) in
    let first = wrapped-mod (p, n) in
    let second = wrapped-mod (q, m) in
    wrapped_unique (p * q + n * m, p * m + n * q) (u * v)
      (combined ((u + n) * (v + m)) (u * v) ((u + n) * m) (n * (v + m)) (p * q) (p * m) (n * q)
        (n * m) (n * m) (product-identity u n v m)
        (product-mod (2 ^ 64) (u + n) (v + m) p (omega arith) first
          ∙ product-mod_right (2 ^ 64) p (v + m) q (omega arith) second)
        (product-mod (2 ^ 64) (u + n) m p (omega arith) first)
        (product-mod_right (2 ^ 64) n (v + m) q (omega arith) second))

wrapped-multiple : (x : Difference) (c : ℕ) → (wrapped x * c) % 2 ^ 64 ≡ wrapped (x.0 * c, x.1 * c)
wrapped-multiple (p, n) c =
    let u = wrapped (p, n) in
    wrapped_unique (p * c, n * c) (u * c)
      (rw (add-mul u n c) at (product-mod (2 ^ 64) (u + n) c p (omega arith) (wrapped-mod (p, n))))

wrapped-lt : (x : Difference) → wrapped x < 2 ^ 64
unfolding wrapped
wrapped-lt x = omega arith

-- The value of an exact result.
abbrev pub as_word : Difference → Value ℕ
as_word x = value (wrapped x)

-- A word stands for itself.
plain-as_word : (o : Value ℕ) → ((v : ℕ) → o ≡ value v → v < 2 ^ 64) → (o >>= plain >>= as_word) ≡ o
unfolding wrapped
plain-as_word (value v) h = ap value (omega (arith, h v refl))
plain-as_word (failed e) h = refl

word-as_word : (v w : ℕ) → v < 2 ^ 64 → v ≡ w → value v ≡ as_word (w, 0)
unfolding wrapped
word-as_word v w h e = ap value (omega (arith, h, e))

eval_binary-exact :
    (op : Op) (x y : Difference)
    → eval_binary op (wrapped x) (wrapped y) ≡ (exact_binary op x y >>= as_word)
unfolding exact_binary eval_binary
eval_binary-exact add x y = (unfold wrapped in ap value (omega arith))
eval_binary-exact sub x y = (unfold wrapped in ap value (omega arith))
eval_binary-exact mul x y = ap value (wrapped-product x y)
eval_binary-exact shl x y = ap value (wrapped-multiple x (2 ^ (wrapped y % 64)))
eval_binary-exact shr x y =
    let a = wrapped x in
    let k = wrapped y % 64 in
    word-as_word (a / 2 ^ k) _ (omega (arith, wrapped-lt x, div-le_self a (2 ^ k)))
      (shift-digits 64 a k (wrapped-lt x))
eval_binary-exact and x y =
    word-as_word _ _ (bit_and-lt 64 (wrapped x) (wrapped y) (wrapped-lt x) (wrapped-lt y))
      (bit_and-digits 64 (wrapped x) (wrapped y) (wrapped-lt x) (wrapped-lt y))
eval_binary-exact or x y =
    word-as_word _ _ (bit_or-lt 64 (wrapped x) (wrapped y) (wrapped-lt x) (wrapped-lt y))
      (bit_or-digits 64 (wrapped x) (wrapped y) (wrapped-lt x) (wrapped-lt y))
eval_binary-exact xor x y =
    word-as_word _ _ (bit_xor-lt 64 (wrapped x) (wrapped y) (wrapped-lt x) (wrapped-lt y))
      (bit_xor-digits 64 (wrapped x) (wrapped y) (wrapped-lt x) (wrapped-lt y))
eval_binary-exact div x y = elim (Bool-cases (wrapped y == 0)) [
  | inl e ↦ rw e refl
  | inr e ↦ rw e (
      word-as_word (wrapped x / wrapped y) _
        (omega (arith, wrapped-lt x, div-le_self (wrapped x) (wrapped y))) refl)
]
eval_binary-exact rem x y = elim (Bool-cases (wrapped y == 0)) [
  | inl e ↦ rw e refl
  | inr e ↦ rw e (
      word-as_word (wrapped x % wrapped y) _
        (omega (arith, wrapped-lt x, mod-le (wrapped x) (wrapped y))) refl)
]
eval_binary-exact not x y = refl
eval_binary-exact neg x y = refl
eval_binary-exact deref x y = refl
eval_binary-exact addr_of x y = refl

-- Two steps whose first results agree.
bind-exact :
    (o : Value ℕ) (x : Value Difference) (f : ℕ → Value ℕ) (g : Difference → Value Difference)
    → o ≡ (x >>= as_word)
    → ((d : Difference) → f (wrapped d) ≡ (g d >>= as_word))
    → (o >>= f) ≡ (x >>= g >>= as_word)
bind-exact o (value d) f g e h = rw e (h d)
bind-exact o (failed m) f g e h = rw e refl

module _ (ctx : EvalContext) (b : IsBounded ctx) where
  eval_unary-exact :
      (op : Op) (x : Difference)
      → eval_unary ctx op (wrapped x) ≡ (exact_unary ctx op x >>= as_word)
  unfolding exact_unary eval_unary
  eval_unary-exact neg x = (unfold wrapped in ap value (omega arith))
  eval_unary-exact not x = (unfold wrapped in ap value (omega arith))
  eval_unary-exact deref x =
      sym (plain-as_word (eval_deref ctx (wrapped x)) (λ v e. eval_deref-lt ctx b (wrapped x) v e))
  eval_unary-exact op x = refl

  -- Where registers, base, bytes and addresses of the context are machine words and the
  -- expression's numbers are below 2^64, eval fails with the error of the exact evaluation or
  -- returns its integer wrapped once, at the end, to 64 bits. The exact evaluation takes sums,
  -- differences, products, negations, complements and left shifts of the integers without wrapping,
  -- gives &, |, ^ and >> by the binary digits of the wrapped operands and / and % by the quotient
  -- and remainder of these, and takes registers, variables, members, & of a variable and the word
  -- behind a pointer as the program reads them.
  pub eval-exact : (e : Expr) → Words e → eval e ctx ≡ (exact e ctx >>= as_word)
  unfolding exact eval
  eval-exact (unary op e) w = elim (Bool-cases (is_addr_of op)) [
    | inl a ↦ rw a (sym (plain-as_word (address_of ctx e) (λ v h. address_of-lt ctx b e v h)))
    | inr a ↦ rw a (
        bind-exact (eval e ctx) (exact e ctx) (eval_unary ctx op) (exact_unary ctx op)
          (eval-exact e w) (eval_unary-exact op))
  ]
  eval-exact (binary op l r) w =
      bind-exact (eval l ctx) (exact l ctx) (λ lv. eval r ctx >>= λ rv. eval_binary op lv rv)
        (λ x. exact r ctx >>= λ y. exact_binary op x y) (eval-exact l w.0)
        (λ x.
          bind-exact (eval r ctx) (exact r ctx) (eval_binary op (wrapped x)) (exact_binary op x)
            (eval-exact r w.1) (eval_binary-exact op x))
  eval-exact e w = sym (plain-as_word (eval e ctx) (λ v h. eval-lt ctx b e v w h))
