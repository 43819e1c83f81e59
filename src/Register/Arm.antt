-- ===== src/Register/Arm.antt =====
-- src/register.rs, aarch64: the general registers and their access by name.
use macos_c_debugger_rust.Base.{
  ℕ, List, [], ◌∷◌, Option, none, some, if◌then◌else◌, leb, ◌%◌, ◌^◌, get_elem?, set as set_elem,
  ◌>>=?◌,
}
use macos_c_debugger_rust.Base.Text.{Text, codes, lowercase, strip_prefix, from_str_radix}
use macos_c_debugger_rust.Register.Intel.{arm}

pub record ThreadState64 : Type 0 where
  pub x : List ℕ
  pub fp : ℕ
  pub lr : ℕ
  pub sp : ℕ
  pub pc : ℕ
  pub cpsr : ℕ

-- A field that has a name.
pub data Reg : Type 0 where
  reg_pc reg_sp reg_fp reg_lr reg_cpsr : Reg

abbrev pub read : ThreadState64 → Reg → ℕ
read s reg_pc = s.pc
read s reg_sp = s.sp
read s reg_fp = s.fp
read s reg_lr = s.lr
read s reg_cpsr = s.cpsr

-- `cpsr` takes the low 32 bits.
abbrev pub write : ThreadState64 → Reg → ℕ → ThreadState64
write s reg_pc v = record s { pc = v }
write s reg_sp v = record s { sp = v }
write s reg_fp v = record s { fp = v }
write s reg_lr v = record s { lr = v }
write s reg_cpsr v = record s { cpsr = v % 2 ^ 32 }

unfoldable pub get_table : List (Text × Reg)
get_table =
    (codes "pc", reg_pc)
    ∷ (codes "sp", reg_sp)
    ∷ (codes "fp", reg_fp)
    ∷ (codes "bp", reg_fp)
    ∷ (codes "lr", reg_lr)
    ∷ (codes "cpsr", reg_cpsr)
    ∷ []

unfoldable pub set_table : List (Text × Reg)
set_table =
    (codes "pc", reg_pc)
    ∷ (codes "sp", reg_sp)
    ∷ (codes "fp", reg_fp)
    ∷ (codes "bp", reg_fp)
    ∷ (codes "lr", reg_lr)
    ∷ (codes "cpsr", reg_cpsr)
    ∷ []

-- The number behind `x`.
abbrev pub x_index : Text → Option ℕ
x_index name = strip_prefix (codes "x") name >>=? from_str_radix (2 ^ 64) 10

unfoldable pub get : ThreadState64 → Text → Option ℕ
get s text = elim (arm get_table (lowercase text)) [
  | some r ↦ some (read s r)
  | none ↦ x_index (lowercase text) >>=? λ n. if leb 29 n then none else get_elem? s.x n
]

unfoldable pub set : ThreadState64 → Text → ℕ → Option ThreadState64
set s text v = elim (arm set_table (lowercase text)) [
  | some r ↦ some (write s r v)
  | none ↦ x_index (lowercase text) >>=? λ n.
      if leb 29 n then none else some (record s { x = set_elem s.x n v })
]
