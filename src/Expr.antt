-- ===== src/Expr.antt =====
-- src/expr.rs: expressions and their value. The parser is generated from a grammar and is not
-- modelled. Numbers are 64-bit words; the callbacks of the context are functions.
pub mod Values
pub mod Exact
use macos_c_debugger_rust.Base.{
  ℕ, Bool, true, false, List, [], ◌∷◌, Option, none, some, ◌==◌, if◌then◌else◌, ◌+◌, ◌-◌, ◌*◌, ◌/◌,
  ◌%◌, ◌^◌, min, max, bit_and, bit_or, bit_xor, length, take, ltb,
}
use macos_c_debugger_rust.Base.Bits.{shl64, not64}
use macos_c_debugger_rust.Base.Bytes.{from_le}
use macos_c_debugger_rust.Base.Text.{Text, codes, text_eq}
use macos_c_debugger_rust.Register.Intel.{ThreadState64, get}

pub data Op : Type 0 where
  add sub mul div rem and or xor shl shr not neg deref addr_of : Op

pub data Expr : Type 0 where
  number : ℕ → Expr
  register variable : Text → Expr
  unary : Op → Expr → Expr
  binary : Op → Expr → Expr → Expr
  member ptr_member : Expr → Text → Expr

-- The messages of the source, and those of a callback.
pub data EvalError : Type 0 where
  no_base no_variables no_memory no_address_of no_fields no_types : EvalError
  bad_operand bad_unary bad_binary division_by_zero modulo_by_zero untyped short_read : EvalError
  unknown_register unread callback : Text → EvalError

pub data Value (A : Type 0) : Type 0 where
  value : A → Value A
  failed : EvalError → Value A

abbrev pub is_value : {A : Type 0} → Value A → Bool
is_value (value a) = true
is_value (failed e) = false

pub record VarType : Type 0 where
  pub name : Text
  pub is_pointer : Bool
  pub pointee : Text

pub record EvalContext : Type 0 where
  pub regs : ThreadState64
  pub base : Option ℕ
  pub read_mem : Option (ℕ → ℕ → Value (List ℕ))
  pub resolve_var : Option (Text → Value (ℕ × ℕ))
  pub addr_of_var : Option (Text → Value ℕ)
  pub resolve_field : Option (Text → Text → Value (ℕ × ℕ))
  pub type_of_var : Option (Text → Value VarType)

module _ {A B : Type 0} where
  abbrev pub bind : Value A → (A → Value B) → Value B
  bind (value a) f = f a
  bind (failed e) f = failed e

  infixl 5 ◌>>=◌
  abbrev pub ◌>>=◌ : Value A → (A → Value B) → Value B
  ◌>>=◌ v f = bind v f

module _ {A : Type 0} where
  abbrev pub required : Option A → EvalError → Value A
  required none e = failed e
  required (some a) e = value a

-- `size.clamp(1, 8)`.
abbrev pub clamp : ℕ → ℕ
clamp n = min (max n 1) 8

-- At most `n` of the bytes as a number, the others 0.
abbrev pub low_bytes : ℕ → List ℕ → ℕ
low_bytes n bytes = from_le (take n bytes)

unfoldable pub eval_register : EvalContext → Text → Value ℕ
eval_register ctx name =
    if text_eq name (codes "base")
    then required ctx.base no_base
    else required (get ctx.regs name) (unknown_register name)

unfoldable pub eval_variable : EvalContext → Text → Value ℕ
eval_variable ctx name = required ctx.resolve_var no_variables >>= λ resolve.
    resolve name >>= λ place. required ctx.read_mem no_memory >>= λ read.
    read place.0 (clamp place.1) >>= λ bytes.
    if min (clamp place.1) (length bytes) == 0
    then failed (unread name)
    else value (low_bytes (clamp place.1) bytes)

-- The value at an address.
unfoldable pub eval_deref : EvalContext → ℕ → Value ℕ
eval_deref ctx v = required ctx.read_mem no_memory >>= λ read. read v 8 >>= λ bytes.
    if ltb (length bytes) 8 then failed short_read else value (low_bytes 8 bytes)

unfoldable pub eval_unary : EvalContext → Op → ℕ → Value ℕ
eval_unary ctx neg v = value ((2 ^ 64 - v) % 2 ^ 64)
eval_unary ctx not v = value (not64 v)
eval_unary ctx deref v = eval_deref ctx v
eval_unary ctx _ v = failed bad_unary

-- Shifts take the low six bits of the right operand.
unfoldable pub eval_binary : Op → ℕ → ℕ → Value ℕ
eval_binary add l r = value ((l + r) % 2 ^ 64)
eval_binary sub l r = value ((l + 2 ^ 64 - r) % 2 ^ 64)
eval_binary mul l r = value ((l * r) % 2 ^ 64)
eval_binary div l r = if r == 0 then failed division_by_zero else value (l / r)
eval_binary rem l r = if r == 0 then failed modulo_by_zero else value (l % r)
eval_binary and l r = value (bit_and l r)
eval_binary or l r = value (bit_or l r)
eval_binary xor l r = value (bit_xor l r)
eval_binary shl l r = value (shl64 l (r % 64))
eval_binary shr l r = value (l / 2 ^ (r % 64))
eval_binary _ l r = failed bad_binary

unfoldable pub address_of : EvalContext → Expr → Value ℕ
address_of ctx (variable name) = required ctx.addr_of_var no_address_of >>= λ addr_of. addr_of name
address_of ctx _ = failed bad_operand

abbrev pub var_name : Expr → Option Text
var_name (variable name) = some name
var_name _ = none

-- The address that the field lies behind: the pointer's value, or that of the variable itself.
unfoldable pub member_base : EvalContext → Value ℕ → Option Text → Bool → Value ℕ
member_base ctx base_value none is_ptr = base_value
member_base ctx base_value (some name) is_ptr =
    if is_ptr
    then base_value
    else required ctx.addr_of_var no_address_of >>= λ addr_of. addr_of name

abbrev pub field_type : Bool → VarType → Text
field_type is_ptr t = if is_ptr then t.pointee else (if t.is_pointer then t.pointee else t.name)

-- `eval_member`, with the value of the base expression for the two calls of `eval` there.
unfoldable pub eval_member : EvalContext → Value ℕ → Option Text → Text → Bool → Value ℕ
eval_member ctx base_value base_name field is_ptr =
    required ctx.resolve_field no_fields >>= λ resolve_field.
    member_base ctx base_value base_name is_ptr >>= λ base_addr.
    required base_name untyped >>= λ name. required ctx.type_of_var no_types >>= λ type_of.
    type_of name >>= λ t. resolve_field (field_type is_ptr t) field >>= λ place.
    required ctx.read_mem no_memory >>= λ read.
    read ((base_addr + place.0) % 2 ^ 64) (clamp place.1) >>= λ bytes.
    value (low_bytes (clamp place.1) bytes)

abbrev pub is_addr_of : Op → Bool
is_addr_of addr_of = true
is_addr_of _ = false

unfoldable pub eval : Expr → EvalContext → Value ℕ
eval (number v) ctx = value v
eval (register name) ctx = eval_register ctx name
eval (variable name) ctx = eval_variable ctx name
eval (unary op e) ctx =
    let inner = eval e ctx in
    if is_addr_of op then address_of ctx e else inner >>= λ v. eval_unary ctx op v
eval (binary op l r) ctx =
    let left = eval l ctx in
    let right = eval r ctx in left >>= λ lv. right >>= λ rv. eval_binary op lv rv
eval (member b field) ctx = eval_member ctx (eval b ctx) (var_name b) field false
eval (ptr_member b field) ctx = eval_member ctx (eval b ctx) (var_name b) field true
