-- ===== src/Disasm.antt =====
-- src/disasm.rs: where the instruction at the program counter can lead. The disassembler (capstone)
-- is a parameter: it gives the length, the mnemonic and the operands of the first instruction.
use macos_c_debugger_rust.Base.{
  ℕ, Bool, true, false, List, [], ◌∷◌, ◌++◌, Option, none, some, ◌==◌, if◌then◌else◌, ◌+◌, ◌%◌, ◌^◌,
  ◌||◌, not, leb, max,
}
use macos_c_debugger_rust.Base.Text.{
  Text, codes, text_eq, strip_prefix, starts_with, from_str_radix, trim,
}

pub record Insn : Type 0 where
  pub size : ℕ
  pub mnemonic : Text
  pub op_str : Text

abbrev pub Disassembler : Type 0
Disassembler = List ℕ → ℕ → Option Insn

insert_sorted : ℕ → List ℕ → List ℕ
insert_sorted a [] = a ∷ []
insert_sorted a (b ∷ bs) = if leb a b then a ∷ b ∷ bs else b ∷ insert_sorted a bs

-- `sort_unstable` on numbers.
unfoldable pub sort : List ℕ → List ℕ
unfolding insert_sorted
sort [] = []
sort (a ∷ xs) = insert_sorted a (sort xs)

drop_repeats : ℕ → List ℕ → List ℕ
drop_repeats a [] = []
drop_repeats a (b ∷ bs) = if a == b then drop_repeats a bs else b ∷ drop_repeats b bs

-- `dedup`: of equal neighbours the first stays.
unfoldable pub dedup : List ℕ → List ℕ
unfolding drop_repeats
dedup [] = []
dedup (a ∷ xs) = a ∷ drop_repeats a xs

-- The operand of a direct branch: hexadecimal behind `0x`, or else decimal.
unfoldable pub branch_target : Text → Option ℕ
branch_target op = elim (strip_prefix (codes "0x") op) [
  | some h ↦ elim (from_str_radix (2 ^ 64) 16 h) [
    | some t ↦ some t
    | none ↦ from_str_radix (2 ^ 64) 10 op
  ]
  | none ↦ from_str_radix (2 ^ 64) 10 op
]

unfoldable pub is_branch : Text → Bool
is_branch m =
    text_eq m (codes "call") || (starts_with (codes "j") m || starts_with (codes "loop") m)

unfoldable pub is_unconditional : Text → Bool
is_unconditional m = text_eq m (codes "jmp") || text_eq m (codes "call")

unfoldable pub insn_targets : Insn → ℕ → List ℕ
unfolding branch_target is_branch is_unconditional sort dedup
insn_targets i pc =
    let fallthrough = (pc + max i.size 1) % 2 ^ 64 in
    let parsed = (if is_branch i.mnemonic then branch_target (trim i.op_str) else none) in
    let direct : List ℕ = elim parsed [ none ↦ [] | some t ↦ t ∷ [] ] in
    let missing : Bool = elim parsed [ none ↦ true | some t ↦ false ] in
    let all =
      (if not (is_unconditional i.mnemonic) || missing
        then direct ++ fallthrough ∷ []
        else direct) in
    dedup (sort all)

unfoldable pub step_targets : Disassembler → List ℕ → ℕ → List ℕ
unfolding insn_targets
step_targets disasm code pc = elim (disasm code pc) [
  | none ↦ ((pc + 1) % 2 ^ 64) ∷ []
  | some i ↦ insn_targets i pc
]
