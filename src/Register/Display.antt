-- ===== src/Register/Display.antt =====
-- The `display` functions of src/register.rs: what they print, with its line ends. The text that
-- `{:e}` gives a number of 64 bits is a parameter. A register of the wrong length panics in the
-- source, which has arrays for them; here the digits of what is there are shown.
use macos_c_debugger_rust.Base.{
  ℕ, suc, List, [], ◌∷◌, ◌++◌, if◌then◌else◌, ◌==◌, ◌+◌, ◌%◌, take, drop,
}
use macos_c_debugger_rust.Base.Bytes.{from_le}
use macos_c_debugger_rust.Base.Text.{Text, codes}
use macos_c_debugger_rust.Base.Text.Format.{hex, decimal, zero_pad, to_radix}
use macos_c_debugger_rust.Register.Intel
use macos_c_debugger_rust.Register.Arm
use macos_c_debugger_rust.Register.Float.{FloatState64, ArmNeonState64}
use macos_c_debugger_rust.Register.Extended.{st_to_f64}

abbrev line_end : Text
line_end = 10 ∷ []

abbrev pub field : Text → ℕ → Text
field name v = codes "  " ++ name ++ codes ": " ++ hex 18 v

unfoldable pub display_intel : Intel.ThreadState64 → Text
display_intel s =
    (field (codes "RIP") s.rip
      ++ field (codes "RSP") s.rsp
      ++ field (codes "RBP") s.rbp
      ++ line_end)
    ++ (field (codes "RAX") s.rax
        ++ field (codes "RBX") s.rbx
        ++ field (codes "RCX") s.rcx
        ++ field (codes "RDX") s.rdx
        ++ line_end)
    ++ (field (codes "RSI") s.rsi
        ++ field (codes "RDI") s.rdi
        ++ field (codes "R08") s.r8
        ++ field (codes "R09") s.r9
        ++ line_end)
    ++ (field (codes "R10") s.r10
        ++ field (codes "R11") s.r11
        ++ field (codes "R12") s.r12
        ++ field (codes "R13") s.r13
        ++ line_end)
    ++ (field (codes "R14") s.r14
        ++ field (codes "R15") s.r15
        ++ field (codes "RFLAGS") s.rflags
        ++ line_end)

-- A line ends behind every `per_line`-th register.
abbrev pub end_after : ℕ → ℕ → Text
end_after per_line i = if (i + 1) % per_line == 0 then line_end else []

unfoldable pub x_registers : ℕ → List ℕ → Text
x_registers i [] = []
x_registers i (v ∷ vs) =
    (codes " X" ++ zero_pad 2 (decimal i) ++ codes ": " ++ hex 18 v ++ codes " " ++ end_after 4 i)
    ++ x_registers (suc i) vs

unfoldable pub display_arm : Arm.ThreadState64 → Text
unfolding x_registers
display_arm s =
    (codes "  PC:  "
      ++ hex 18 s.pc
      ++ codes "  SP: "
      ++ hex 18 s.sp
      ++ codes "  FP: "
      ++ hex 18 s.fp
      ++ codes "  LR: "
      ++ hex 18 s.lr
      ++ line_end)
    ++ x_registers 0 s.x
    ++ codes "  CPSR: "
    ++ hex 10 s.cpsr
    ++ line_end

abbrev pub low : List ℕ → ℕ
low reg = from_le (take 8 reg)

abbrev pub high : List ℕ → ℕ
high reg = from_le (take 8 (drop 8 reg))

abbrev pub digits16 : ℕ → Text
digits16 v = zero_pad 16 (to_radix 16 v)

unfoldable pub vectors : Text → ℕ → List (List ℕ) → Text
vectors name i [] = []
vectors name i (reg ∷ regs) =
    (name
      ++ zero_pad 2 (decimal i)
      ++ codes ": "
      ++ digits16 (high reg)
      ++ codes "_"
      ++ digits16 (low reg)
      ++ end_after 2 i)
    ++ vectors name (suc i) regs

module _ (scientific : ℕ → Text) where
  unfoldable pub st_lines : ℕ → List (List ℕ) → Text
  st_lines i [] = []
  st_lines i (reg ∷ regs) =
      (codes "  ST"
        ++ decimal i
        ++ codes "/MM"
        ++ decimal i
        ++ codes ": "
        ++ zero_pad 4 (to_radix 16 (from_le (take 2 (drop 8 reg))))
        ++ codes " "
        ++ digits16 (low reg)
        ++ codes "  ("
        ++ scientific (st_to_f64 reg)
        ++ codes ")"
        ++ line_end)
      ++ st_lines (suc i) regs

  unfoldable pub display_float : FloatState64 → Text
  unfolding st_lines vectors
  display_float s =
      (codes "  FCW: "
        ++ hex 6 s.fcw
        ++ codes "  FSW: "
        ++ hex 6 s.fsw
        ++ codes "  FTW: "
        ++ hex 4 s.ftw
        ++ codes "  MXCSR: "
        ++ hex 10 s.mxcsr
        ++ line_end)
      ++ st_lines 0 s.stmm
      ++ vectors (codes " XMM") 0 s.xmm

unfoldable pub display_neon : ArmNeonState64 → Text
unfolding vectors
display_neon s =
    (codes "  FPSR: " ++ hex 10 s.fpsr ++ codes "  FPCR: " ++ hex 10 s.fpcr ++ line_end)
    ++ vectors (codes " V") 0 s.v
