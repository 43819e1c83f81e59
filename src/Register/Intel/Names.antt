-- ===== src/Register/Intel/Names.antt =====
-- Reading back what was written to a register of x86_64 by name (src/register.rs).
use macos_c_debugger_rust.Base.{
  set as set_elem, ℕ, List, get_elem?, unwrap_or, Bool, true, false, Bool-cases, ◌==◌,
  if◌then◌else◌, ◌≡◌, ◌≢◌, some, ◌∷◌, [], none, arith, refl, sym, ◌↔◌, ◌∙◌, ap, Option-cases, inl,
  inr, get_elem?-set_ne,
}
use macos_c_debugger_rust.Base.Text.{Text, lowercase}
use macos_c_debugger_rust.Register.Intel.{
  Reg, ThreadState64, read, set, write, arm, get_table, reg_rax, reg_rbx, set_table, get, reg_rcx,
  reg_rdx, reg_rdi, reg_rsi, reg_rbp, reg_rsp, reg_r8, reg_r9, reg_r10, reg_r11, reg_r12, reg_r13,
  reg_r14, reg_r15, reg_rip, reg_rflags, reg_cs, reg_fs, reg_gs,
}

-- The fields in the order of the structure.
fields : ThreadState64 → List ℕ
fields s =
    s.rax ∷ s.rbx ∷ s.rcx ∷ s.rdx ∷ s.rdi ∷ s.rsi ∷ s.rbp ∷ s.rsp ∷ s.r8 ∷ s.r9 ∷ s.r10 ∷ s.r11
    ∷ s.r12 ∷ s.r13 ∷ s.r14 ∷ s.r15 ∷ s.rip ∷ s.rflags ∷ s.cs ∷ s.fs ∷ s.gs ∷ []

index : Reg → ℕ
index reg_rax = 0
index reg_rbx = 1
index reg_rcx = 2
index reg_rdx = 3
index reg_rdi = 4
index reg_rsi = 5
index reg_rbp = 6
index reg_rsp = 7
index reg_r8 = 8
index reg_r9 = 9
index reg_r10 = 10
index reg_r11 = 11
index reg_r12 = 12
index reg_r13 = 13
index reg_r14 = 14
index reg_r15 = 15
index reg_rip = 16
index reg_rflags = 17
index reg_cs = 18
index reg_fs = 19
index reg_gs = 20

of_index : ℕ → Reg
of_index n =
    unwrap_or
      (get_elem?
        (reg_rax ∷ reg_rbx ∷ reg_rcx ∷ reg_rdx ∷ reg_rdi ∷ reg_rsi ∷ reg_rbp ∷ reg_rsp ∷ reg_r8
          ∷ reg_r9 ∷ reg_r10 ∷ reg_r11 ∷ reg_r12 ∷ reg_r13 ∷ reg_r14 ∷ reg_r15 ∷ reg_rip
          ∷ reg_rflags ∷ reg_cs ∷ reg_fs ∷ reg_gs ∷ [])
        n)
      reg_gs

of_index-index : (r : Reg) → of_index (index r) ≡ r
unfolding of_index index
of_index-index reg_rax = refl
of_index-index reg_rbx = refl
of_index-index reg_rcx = refl
of_index-index reg_rdx = refl
of_index-index reg_rdi = refl
of_index-index reg_rsi = refl
of_index-index reg_rbp = refl
of_index-index reg_rsp = refl
of_index-index reg_r8 = refl
of_index-index reg_r9 = refl
of_index-index reg_r10 = refl
of_index-index reg_r11 = refl
of_index-index reg_r12 = refl
of_index-index reg_r13 = refl
of_index-index reg_r14 = refl
of_index-index reg_r15 = refl
of_index-index reg_rip = refl
of_index-index reg_rflags = refl
of_index-index reg_cs = refl
of_index-index reg_fs = refl
of_index-index reg_gs = refl

read-fields : (s : ThreadState64) (r : Reg) → get_elem? (fields s) (index r) ≡ some (read s r)
unfolding fields index read
read-fields s reg_rax = refl
read-fields s reg_rbx = refl
read-fields s reg_rcx = refl
read-fields s reg_rdx = refl
read-fields s reg_rdi = refl
read-fields s reg_rsi = refl
read-fields s reg_rbp = refl
read-fields s reg_rsp = refl
read-fields s reg_r8 = refl
read-fields s reg_r9 = refl
read-fields s reg_r10 = refl
read-fields s reg_r11 = refl
read-fields s reg_r12 = refl
read-fields s reg_r13 = refl
read-fields s reg_r14 = refl
read-fields s reg_r15 = refl
read-fields s reg_rip = refl
read-fields s reg_rflags = refl
read-fields s reg_cs = refl
read-fields s reg_fs = refl
read-fields s reg_gs = refl

fields-write :
    (s : ThreadState64) (r : Reg) (v : ℕ) → fields (write s r v) ≡ set_elem (fields s) (index r) v
unfolding fields index write
fields-write s reg_rax v = refl
fields-write s reg_rbx v = refl
fields-write s reg_rcx v = refl
fields-write s reg_rdx v = refl
fields-write s reg_rdi v = refl
fields-write s reg_rsi v = refl
fields-write s reg_rbp v = refl
fields-write s reg_rsp v = refl
fields-write s reg_r8 v = refl
fields-write s reg_r9 v = refl
fields-write s reg_r10 v = refl
fields-write s reg_r11 v = refl
fields-write s reg_r12 v = refl
fields-write s reg_r13 v = refl
fields-write s reg_r14 v = refl
fields-write s reg_r15 v = refl
fields-write s reg_rip v = refl
fields-write s reg_rflags v = refl
fields-write s reg_cs v = refl
fields-write s reg_fs v = refl
fields-write s reg_gs v = refl

read-write_self : (s : ThreadState64) (r : Reg) (v : ℕ) → read (write s r v) r ≡ v
unfolding read write
read-write_self s reg_rax v = refl
read-write_self s reg_rbx v = refl
read-write_self s reg_rcx v = refl
read-write_self s reg_rdx v = refl
read-write_self s reg_rdi v = refl
read-write_self s reg_rsi v = refl
read-write_self s reg_rbp v = refl
read-write_self s reg_rsp v = refl
read-write_self s reg_r8 v = refl
read-write_self s reg_r9 v = refl
read-write_self s reg_r10 v = refl
read-write_self s reg_r11 v = refl
read-write_self s reg_r12 v = refl
read-write_self s reg_r13 v = refl
read-write_self s reg_r14 v = refl
read-write_self s reg_r15 v = refl
read-write_self s reg_rip v = refl
read-write_self s reg_rflags v = refl
read-write_self s reg_cs v = refl
read-write_self s reg_fs v = refl
read-write_self s reg_gs v = refl

read-write_ne : (s : ThreadState64) (r q : Reg) (v : ℕ) → r ≢ q → read (write s r v) q ≡ read s q
read-write_ne s r q v h = cc (
    sym (read-fields (write s r v) q)
    ∙ ap (λ l. get_elem? l (index q)) (fields-write s r v)
    ∙ get_elem?-set_ne (fields s) (index r) (index q) v
        (λ e. h (sym (of_index-index r) ∙ ap of_index e ∙ of_index-index q))
    ∙ read-fields s q)

-- Two names of registers that are spelled alike but for case, or are aliases in `get`.
abbrev Same : Text → Text → Type 0
Same m n = arm get_table (lowercase m) ≡ arm get_table (lowercase n)

tables-agree : (n : Text) → arm set_table n ≡ arm get_table n
unfolding get_table set_table
tables-agree n = refl

set-arm :
    (s t : ThreadState64) (m : Text) (v : ℕ)
    → set s m v ≡ some t
    → (r : Reg) × (arm get_table (lowercase m) ≡ some r) × (t ≡ write s r v)
unfolding set
set-arm s t m v h = ground (arith, tables-agree (lowercase m))

get_of_arm :
    (s : ThreadState64) (n : Text) (r : Reg)
    → arm get_table (lowercase n) ≡ some r
    → get s n ≡ some (read s r)
unfolding get
get_of_arm s n r e = rw (e, get)

get-set :
    (s t : ThreadState64) (m n : Text) (v : ℕ)
    → set s m v ≡ some t
    → (get s m ≢ none) × (Same m n → get t n ≡ some v) × (¬ Same m n → get t n ≡ get s n)
get-set s t m n v h =
    (found (set-arm s t m v h), same (set-arm s t m v h), other (set-arm s t m v h))
  where
    found : (r : Reg) × (arm get_table (lowercase m) ≡ some r) × (t ≡ write s r v) → get s m ≢ none
    found (r, e, _) = cc (get_of_arm s m r e)

    same :
        (r : Reg) × (arm get_table (lowercase m) ≡ some r) × (t ≡ write s r v)
        → Same m n
        → get t n ≡ some v
    same (r, e, w) k = get_of_arm t n r (sym k ∙ e) ∙ ap some (rw w (read-write_self s r v))

    other :
        (r : Reg) × (arm get_table (lowercase m) ≡ some r) × (t ≡ write s r v)
        → ¬ Same m n
        → get t n ≡ get s n
    other (r, e, w) k = elim (Option-cases (arm get_table (lowercase n))) [
      | inl z ↦ (unfold get in cc z)
      | inr (q, z) ↦
          get_of_arm t n q z
          ∙ ap some (rw w (read-write_ne s r q v (λ d. k (e ∙ ap some d ∙ sym z))))
          ∙ sym (get_of_arm s n q z)
    ]

-- Whether two names are of one register.
pub same_register : Text → Text → Bool
unfolding index
same_register m n = elim (arm get_table (lowercase m)) [
  | none ↦ false
  | some r ↦ elim (arm get_table (lowercase n)) [ none ↦ false | some q ↦ index r == index q ]
]

same_register-Same :
    (s t : ThreadState64) (m n : Text) (v : ℕ)
    → set s m v ≡ some t
    → same_register m n ≡ true
    → Same m n
unfolding same_register
same_register-Same s t m n v h e =
    let (r, f, _) = set-arm s t m v h in
    elim (Option-cases (arm get_table (lowercase n))) [
      | inl z ↦ absurd (ground (arith, e, f, z))
      | inr (q, z) ↦
          let i : index r ≡ index q = ground (arith, e, f, z) in
          f ∙ ap some (sym (of_index-index r) ∙ ap of_index i ∙ of_index-index q) ∙ sym z
    ]

same_register-ne :
    (s t : ThreadState64) (m n : Text) (v : ℕ)
    → set s m v ≡ some t
    → same_register m n ≡ false
    → ¬ Same m n
unfolding same_register
same_register-ne s t m n v h e k =
    let (r, f, _) = set-arm s t m v h in ground (arith, e, f, k, sym k ∙ f)

-- After ThreadState64::set has written a value, get returns it under every name of the same
-- register, and under every other name returns what it did before.
pub get-set_names :
    (s t : ThreadState64) (m n : Text) (v : ℕ)
    → set s m v ≡ some t
    → get t n ≡ (if same_register m n then some v else get s n)
get-set_names s t m n v h = elim (Bool-cases (same_register m n)) [
  | inl e ↦ rw e ((get-set s t m n v h).1 (same_register-Same s t m n v h e))
  | inr e ↦ rw e ((get-set s t m n v h).2 (same_register-ne s t m n v h e))
]

-- ThreadState64::set refuses a name exactly where get does not know it.
set-none_iff : (s : ThreadState64) (n : Text) (v : ℕ) → (set s n v ≡ none) ↔ (get s n ≡ none)
unfolding set get
set-none_iff s n v = ground (arith, tables-agree (lowercase n))
