-- ===== src/Expr/Values.antt =====
-- Values of src/expr.rs.
use native.Mathlib.Nat.{div-le_self, mod-le}
use macos_c_debugger_rust.Base.{
  ℕ, zero, suc, Bool, true, false, List, [], ◌∷◌, Option, none, some, leb, ◌+◌, ◌%◌, ◌^◌, ◌<◌, ◌≤◌,
  ◌≡◌, refl, arith, Bool-cases, Option-cases, inl, inr, ◌⊎◌, length, take, length-take,
}
use macos_c_debugger_rust.Base.Bits.{all_below, all_below_sound, bit_and-lt, bit_or-lt, bit_xor-lt}
use macos_c_debugger_rust.Base.Bytes.{from_le-lt, AllBytes}
use macos_c_debugger_rust.Base.Text.{Text, lowercase, text_eq, codes}
use macos_c_debugger_rust.Register.Intel.{Reg, get, read, arm, get_table}
use macos_c_debugger_rust.Expr.{
  Op, Expr, EvalContext, Value, VarType, value, failed, is_value, eval, eval_register,
  eval_variable, eval_deref, EvalError, no_memory, no_variables, no_fields, no_types, no_base,
  no_address_of, untyped, unknown_register, member_base, field_type, is_addr_of, var_name, required,
  ◌>>=◌, eval_unary, eval_binary, address_of, eval_member, number, register, variable, unary,
  binary, member, ptr_member, add, sub, mul, div, rem, and, or, xor, shl, shr, not, neg, deref,
  addr_of, low_bytes, clamp,
}

pub Value-cases : {A : Type 0} → (v : Value A) → (is_value v ≡ false) ⊎ ((a : A) × (v ≡ value a))
Value-cases (value a) = inr (a, refl)
Value-cases (failed e) = inl refl

-- For a variable p of a known type, whose pointee has the field f of eight bytes at an offset, p->f
-- evaluates as *(p + offset), wherever that has a value.
pub ptr_member-deref :
    (ctx : EvalContext) (p field : Text) (t : VarType) (offset : ℕ)
    → (type_of : Text → Value VarType) → (resolve_field : Text → Text → Value (ℕ × ℕ))
    → ctx.type_of_var ≡ some type_of
    → type_of p ≡ value t
    → ctx.resolve_field ≡ some resolve_field
    → resolve_field t.pointee field ≡ value (offset, 8)
    → is_value (eval (unary deref (binary add (variable p) (number offset))) ctx) ≡ true
    → eval (ptr_member (variable p) field) ctx
      ≡ eval (unary deref (binary add (variable p) (number offset))) ctx
unfolding eval eval_member member_base eval_unary eval_deref eval_binary
ptr_member-deref ctx p field t offset type_of resolve_field a b c d good =
    elim (Value-cases (eval_variable ctx p)) [
      | inl e ↦ absurd (ground (arith, e, good))
      | inr (v, e) ↦ elim (Option-cases ctx.read_mem) [
        | inl f ↦ absurd (ground (arith, e, f, good))
        | inr (read, f) ↦ elim (Value-cases (read ((v + offset) % 2 ^ 64) 8)) [
          | inl g ↦ absurd (ground (arith, e, f, g, good))
          | inr (bs, g) ↦ ground (arith, a, b, c, d, e, f, g, good)
        ]
      ]
    ]

bind-value :
    {A B : Type 0} (v : Value A) (f : A → Value B) (y : B)
    → (v >>= f) ≡ value y
    → (x : A) × (v ≡ value x) × (f x ≡ value y)
bind-value (value x) f y h = (x, refl, h)
bind-value (failed e) f y h = absurd (cc)

required-value :
    {A : Type 0} (o : Option A) (e : EvalError) (a : A) → required o e ≡ value a → o ≡ some a
required-value none e a h = absurd (cc)
required-value (some x) e a h = cc

-- The callbacks give machine words: addresses below 2^64, at most the bytes that are asked for, and
-- bytes below 256.
pub record IsBounded (ctx : EvalContext) : Type 0 where
  pub of_reg : (r : Reg) → read ctx.regs r < 2 ^ 64
  pub of_base : (v : ℕ) → ctx.base ≡ some v → v < 2 ^ 64
  pub of_read :
      (read : ℕ → ℕ → Value (List ℕ)) (a n : ℕ) (bs : List ℕ)
      → ctx.read_mem ≡ some read
      → read a n ≡ value bs
      → AllBytes bs × (length bs ≤ n)
  pub of_addr :
      (addr_of : Text → Value ℕ) (name : Text) (v : ℕ)
      → ctx.addr_of_var ≡ some addr_of
      → addr_of name ≡ value v
      → v < 2 ^ 64

-- The numbers of the expression are 64-bit words.
abbrev pub Words : Expr → Type 0
Words (number v) = v < 2 ^ 64
Words (register name) = Unit {0}
Words (variable name) = Unit {0}
Words (unary op e) = Words e
Words (binary op l r) = Words l × Words r
Words (member b field) = Words b
Words (ptr_member b field) = Words b

AllBytes-take : (n : ℕ) (bs : List ℕ) → AllBytes bs → AllBytes (take n bs)
AllBytes-take zero bs h = tt
AllBytes-take (suc n) [] h = tt
AllBytes-take (suc n) (b ∷ bs) h = (h.0, AllBytes-take n bs h.1)

powers : all_below 9 (λ k. leb (256 ^ k) (2 ^ 64)) ≡ true
unfolding all_below
powers = refl

pow_256-le : (k : ℕ) → k ≤ 8 → 256 ^ k ≤ 2 ^ 64
pow_256-le k h =
    leb→le (256 ^ k) (2 ^ 64)
      (all_below_sound 9 (λ k. leb (256 ^ k) (2 ^ 64)) k powers (omega arith))
  where
    leb→le : (a b : ℕ) → leb a b ≡ true → a ≤ b
    leb→le a b h = ground arith

low_bytes-lt : (n : ℕ) (bs : List ℕ) → n ≤ 8 → AllBytes bs → low_bytes n bs < 2 ^ 64
low_bytes-lt n bs h g =
    let a = from_le-lt (take n bs) (AllBytes-take n bs g) in
    let b = length-take n bs in
    omega (arith, a, b, pow_256-le (length (take n bs)) (omega (arith, b)))

eval_binary-lt :
    (op : Op) (l r v : ℕ) → l < 2 ^ 64 → r < 2 ^ 64 → eval_binary op l r ≡ value v → v < 2 ^ 64
unfolding eval_binary
eval_binary-lt add l r v h g e = ground arith
eval_binary-lt sub l r v h g e = ground arith
eval_binary-lt mul l r v h g e = ground arith
eval_binary-lt div l r v h g e = ground (arith, h, e, div-le_self l r)
eval_binary-lt rem l r v h g e = ground (arith, h, e, mod-le l r)
eval_binary-lt and l r v h g e = ground (arith, bit_and-lt 64 l r h g)
eval_binary-lt or l r v h g e = ground (arith, bit_or-lt 64 l r h g)
eval_binary-lt xor l r v h g e = ground (arith, bit_xor-lt 64 l r h g)
eval_binary-lt shl l r v h g e = ground arith
eval_binary-lt shr l r v h g e = ground (arith, h, e, div-le_self l (2 ^ (r % 64)))
eval_binary-lt not l r v h g e = cc
eval_binary-lt neg l r v h g e = cc
eval_binary-lt deref l r v h g e = cc
eval_binary-lt addr_of l r v h g e = cc

module _ (ctx : EvalContext) (b : IsBounded ctx) where
  eval_variable-lt : (name : Text) (v : ℕ) → eval_variable ctx name ≡ value v → v < 2 ^ 64
  unfolding eval_variable
  eval_variable-lt name v h =
      let (resolve, _, h1) = bind-value (required ctx.resolve_var no_variables) _ v h in
      let (place, _, h2) = bind-value (resolve name) _ v h1 in
      let (read, r, h3) = bind-value (required ctx.read_mem no_memory) _ v h2 in
      let n = clamp place.1 in
      let (bs, q, h4) = bind-value (read place.0 n) _ v h3 in
      let o = b.of_read read place.0 n bs (required-value ctx.read_mem no_memory read r) q in
      ground (arith, h4, low_bytes-lt n bs (omega arith) o.0)

  pub eval_deref-lt : (x v : ℕ) → eval_deref ctx x ≡ value v → v < 2 ^ 64
  unfolding eval_deref
  eval_deref-lt x v h =
      let (read, r, h) = bind-value (required ctx.read_mem no_memory) _ v h in
      let (bs, q, h) = bind-value (read x 8) _ v h in
      let o = b.of_read read x 8 bs (required-value ctx.read_mem no_memory read r) q in
      ground (arith, h, low_bytes-lt 8 bs (omega arith) o.0)

  eval_unary-lt : (op : Op) (x v : ℕ) → x < 2 ^ 64 → eval_unary ctx op x ≡ value v → v < 2 ^ 64
  unfolding eval_unary
  eval_unary-lt neg x v h e = ground arith
  eval_unary-lt not x v h e = ground arith
  eval_unary-lt deref x v h e = eval_deref-lt x v e
  eval_unary-lt add x v h e = absurd (cc)
  eval_unary-lt sub x v h e = absurd (cc)
  eval_unary-lt mul x v h e = absurd (cc)
  eval_unary-lt div x v h e = absurd (cc)
  eval_unary-lt rem x v h e = absurd (cc)
  eval_unary-lt and x v h e = absurd (cc)
  eval_unary-lt or x v h e = absurd (cc)
  eval_unary-lt xor x v h e = absurd (cc)
  eval_unary-lt shl x v h e = absurd (cc)
  eval_unary-lt shr x v h e = absurd (cc)
  eval_unary-lt addr_of x v h e = absurd (cc)

  eval_member-lt :
      (x : Value ℕ) (base : Option Text) (f : Text) (p : Bool) (v : ℕ)
      → eval_member ctx x base f p ≡ value v
      → v < 2 ^ 64
  unfolding eval_member
  eval_member-lt x base f p v h =
      let (resolve_field, _, h1) = bind-value (required ctx.resolve_field no_fields) _ v h in
      let (a, _, h2) = bind-value (member_base ctx x base p) _ v h1 in
      let (name, _, h3) = bind-value (required base untyped) _ v h2 in
      let (type_of, _, h4) = bind-value (required ctx.type_of_var no_types) _ v h3 in
      let (t, _, h5) = bind-value (type_of name) _ v h4 in
      let (place, _, h6) = bind-value (resolve_field (field_type p t) f) _ v h5 in
      let (read, r, h7) = bind-value (required ctx.read_mem no_memory) _ v h6 in
      let at = (a + place.0) % 2 ^ 64 in
      let n = clamp place.1 in
      let (bs, q, h8) = bind-value (read at n) _ v h7 in
      let o = b.of_read read at n bs (required-value ctx.read_mem no_memory read r) q in
      ground (arith, h8, low_bytes-lt n bs (omega arith) o.0)

  get-lt : (name : Text) (v : ℕ) → get ctx.regs name ≡ some v → v < 2 ^ 64
  unfolding get
  get-lt name v h = elim (Option-cases (arm get_table (lowercase name))) [
    | inl e ↦ absurd (ground (arith, e, h))
    | inr (r, e) ↦ ground (arith, e, h, b.of_reg r)
  ]

  eval_register-lt : (name : Text) (v : ℕ) → eval_register ctx name ≡ value v → v < 2 ^ 64
  unfolding eval_register
  eval_register-lt name v h = elim (Bool-cases (text_eq name (codes "base"))) [
    | inl e ↦ b.of_base v (required-value ctx.base no_base v (rw e at h))
    | inr e ↦
        get-lt name v (required-value (get ctx.regs name) (unknown_register name) v (rw e at h))
  ]

  pub address_of-lt : (e : Expr) (v : ℕ) → address_of ctx e ≡ value v → v < 2 ^ 64
  unfolding address_of
  address_of-lt (variable name) v h =
      let (address, a, h1) = bind-value (required ctx.addr_of_var no_address_of) _ v h in
      b.of_addr address name v (required-value ctx.addr_of_var no_address_of address a) h1
  address_of-lt (number n) v h = absurd (cc)
  address_of-lt (register n) v h = absurd (cc)
  address_of-lt (unary op e) v h = absurd (cc)
  address_of-lt (binary op l r) v h = absurd (cc)
  address_of-lt (member e f) v h = absurd (cc)
  address_of-lt (ptr_member e f) v h = absurd (cc)

  -- Where registers, base, bytes and addresses of the context are machine words and the
  -- expression's numbers are below 2^64, every value that eval returns is below 2^64.
  pub eval-lt : (e : Expr) (v : ℕ) → Words e → eval e ctx ≡ value v → v < 2 ^ 64
  unfolding eval
  eval-lt (number n) v w h = ground (arith, w, h)
  eval-lt (register name) v w h = eval_register-lt name v h
  eval-lt (variable name) v w h = eval_variable-lt name v h
  eval-lt (unary op e) v w h = elim (Bool-cases (is_addr_of op)) [
    | inl a ↦ address_of-lt e v (rw a at h)
    | inr a ↦
        let (x, q, h1) = bind-value (eval e ctx) _ v (rw a at h) in
        eval_unary-lt op x v (eval-lt e x w q) h1
  ]
  eval-lt (binary op l r) v w h =
      let (x, p, h1) = bind-value (eval l ctx) _ v h in
      let (y, q, h2) = bind-value (eval r ctx) _ v h1 in
      eval_binary-lt op x y v (eval-lt l x w.0 p) (eval-lt r y w.1 q) h2
  eval-lt (member e f) v w h = eval_member-lt (eval e ctx) (var_name e) f false v h
  eval-lt (ptr_member e f) v w h = eval_member-lt (eval e ctx) (var_name e) f true v h
