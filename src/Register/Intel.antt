-- ===== src/Register/Intel.antt =====
-- src/register.rs, x86_64: the general registers and their access by name. `get` and `set` each
-- have a table of names in the source, and so here.
pub mod Names
use macos_c_debugger_rust.Base.{ℕ, List, Option, none, ◌∷◌, [], if◌then◌else◌, some}
use macos_c_debugger_rust.Base.Text.{Text, codes, lowercase, text_eq}

pub record ThreadState64 : Type 0 where
  pub rax : ℕ
  pub rbx : ℕ
  pub rcx : ℕ
  pub rdx : ℕ
  pub rdi : ℕ
  pub rsi : ℕ
  pub rbp : ℕ
  pub rsp : ℕ
  pub r8 : ℕ
  pub r9 : ℕ
  pub r10 : ℕ
  pub r11 : ℕ
  pub r12 : ℕ
  pub r13 : ℕ
  pub r14 : ℕ
  pub r15 : ℕ
  pub rip : ℕ
  pub rflags : ℕ
  pub cs : ℕ
  pub fs : ℕ
  pub gs : ℕ

-- A field of the state.
pub data Reg : Type 0 where
  reg_rax reg_rbx reg_rcx reg_rdx reg_rdi reg_rsi reg_rbp reg_rsp reg_r8 reg_r9 reg_r10 : Reg
  reg_r11 reg_r12 reg_r13 reg_r14 reg_r15 reg_rip reg_rflags reg_cs reg_fs reg_gs : Reg

unfoldable pub read : ThreadState64 → Reg → ℕ
read s reg_rax = s.rax
read s reg_rbx = s.rbx
read s reg_rcx = s.rcx
read s reg_rdx = s.rdx
read s reg_rdi = s.rdi
read s reg_rsi = s.rsi
read s reg_rbp = s.rbp
read s reg_rsp = s.rsp
read s reg_r8 = s.r8
read s reg_r9 = s.r9
read s reg_r10 = s.r10
read s reg_r11 = s.r11
read s reg_r12 = s.r12
read s reg_r13 = s.r13
read s reg_r14 = s.r14
read s reg_r15 = s.r15
read s reg_rip = s.rip
read s reg_rflags = s.rflags
read s reg_cs = s.cs
read s reg_fs = s.fs
read s reg_gs = s.gs

unfoldable pub write : ThreadState64 → Reg → ℕ → ThreadState64
write s reg_rax v = record s { rax = v }
write s reg_rbx v = record s { rbx = v }
write s reg_rcx v = record s { rcx = v }
write s reg_rdx v = record s { rdx = v }
write s reg_rdi v = record s { rdi = v }
write s reg_rsi v = record s { rsi = v }
write s reg_rbp v = record s { rbp = v }
write s reg_rsp v = record s { rsp = v }
write s reg_r8 v = record s { r8 = v }
write s reg_r9 v = record s { r9 = v }
write s reg_r10 v = record s { r10 = v }
write s reg_r11 v = record s { r11 = v }
write s reg_r12 v = record s { r12 = v }
write s reg_r13 v = record s { r13 = v }
write s reg_r14 v = record s { r14 = v }
write s reg_r15 v = record s { r15 = v }
write s reg_rip v = record s { rip = v }
write s reg_rflags v = record s { rflags = v }
write s reg_cs v = record s { cs = v }
write s reg_fs v = record s { fs = v }
write s reg_gs v = record s { gs = v }

unfoldable pub pc : ThreadState64 → ℕ
pc s = s.rip

unfoldable pub set_pc : ThreadState64 → ℕ → ThreadState64
set_pc s v = record s { rip = v }

unfoldable pub sp : ThreadState64 → ℕ
sp s = s.rsp

unfoldable pub bp : ThreadState64 → ℕ
bp s = s.rbp

-- The arm of a `match` on a name.
unfoldable pub arm {ℓ} : {A : Type ℓ} → List (Text × A) → Text → Option A
arm [] n = none
arm ((m, a) ∷ t) n = if text_eq m n then some a else arm t n

unfoldable pub get_table : List (Text × Reg)
get_table =
    (codes "pc", reg_rip)
    ∷ (codes "rip", reg_rip)
    ∷ (codes "sp", reg_rsp)
    ∷ (codes "rsp", reg_rsp)
    ∷ (codes "bp", reg_rbp)
    ∷ (codes "rbp", reg_rbp)
    ∷ (codes "rax", reg_rax)
    ∷ (codes "rbx", reg_rbx)
    ∷ (codes "rcx", reg_rcx)
    ∷ (codes "rdx", reg_rdx)
    ∷ (codes "rdi", reg_rdi)
    ∷ (codes "rsi", reg_rsi)
    ∷ (codes "r8", reg_r8)
    ∷ (codes "r9", reg_r9)
    ∷ (codes "r10", reg_r10)
    ∷ (codes "r11", reg_r11)
    ∷ (codes "r12", reg_r12)
    ∷ (codes "r13", reg_r13)
    ∷ (codes "r14", reg_r14)
    ∷ (codes "r15", reg_r15)
    ∷ (codes "rflags", reg_rflags)
    ∷ (codes "cs", reg_cs)
    ∷ (codes "fs", reg_fs)
    ∷ (codes "gs", reg_gs)
    ∷ []

unfoldable pub set_table : List (Text × Reg)
set_table =
    (codes "pc", reg_rip)
    ∷ (codes "rip", reg_rip)
    ∷ (codes "sp", reg_rsp)
    ∷ (codes "rsp", reg_rsp)
    ∷ (codes "bp", reg_rbp)
    ∷ (codes "rbp", reg_rbp)
    ∷ (codes "rax", reg_rax)
    ∷ (codes "rbx", reg_rbx)
    ∷ (codes "rcx", reg_rcx)
    ∷ (codes "rdx", reg_rdx)
    ∷ (codes "rdi", reg_rdi)
    ∷ (codes "rsi", reg_rsi)
    ∷ (codes "r8", reg_r8)
    ∷ (codes "r9", reg_r9)
    ∷ (codes "r10", reg_r10)
    ∷ (codes "r11", reg_r11)
    ∷ (codes "r12", reg_r12)
    ∷ (codes "r13", reg_r13)
    ∷ (codes "r14", reg_r14)
    ∷ (codes "r15", reg_r15)
    ∷ (codes "rflags", reg_rflags)
    ∷ (codes "cs", reg_cs)
    ∷ (codes "fs", reg_fs)
    ∷ (codes "gs", reg_gs)
    ∷ []

unfoldable pub get : ThreadState64 → Text → Option ℕ
get s name = elim (arm get_table (lowercase name)) [ none ↦ none | some r ↦ some (read s r) ]

unfoldable pub set : ThreadState64 → Text → ℕ → Option ThreadState64
set s name v = elim (arm set_table (lowercase name)) [ none ↦ none | some r ↦ some (write s r v) ]
