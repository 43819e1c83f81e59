-- ===== src/Session/Lines.antt =====
-- `current_line`, `step_line`, `next_line`, `print_backtrace` of src/main.rs: steps by source lines and
-- the chain of frames.
use macos_c_debugger_rust.Base.{
  ℕ, zero, suc, Bool, true, false, List, [], ◌∷◌, Option, none, some, if◌then◌else◌, ◌==◌, ltb, leb,
  length, take, drop, ◌&&◌, ◌||◌, not, is_some, ◌>>=?◌,
}
use macos_c_debugger_rust.Base.Bytes.{from_le}
use macos_c_debugger_rust.Base.Text.{Text, codes, text_eq}
use macos_c_debugger_rust.Disasm.{Disassembler}
use macos_c_debugger_rust.Io.{Io, ok, attempt, ◌>>=◌}
use macos_c_debugger_rust.Mach.{Foreign}
use macos_c_debugger_rust.Register.Intel.{pc, bp}
use macos_c_debugger_rust.Debugger.{
  State, WaitStatus, is_stopped, registers, current_pc, read_memory,
}
use macos_c_debugger_rust.Debugger.Run.{step, finish}
use macos_c_debugger_rust.Symbols.{Symbols, slide, find_location, find_symbol_for_addr}
use macos_c_debugger_rust.Session.Variables.{minus, ok_value}

abbrev pub same_line : Option (Text × ℕ) → Option (Text × ℕ) → Bool
same_line none none = true
same_line none (some b) = false
same_line (some a) none = false
same_line (some a) (some b) = text_eq a.0 b.0 && (a.1 == b.1)

abbrev pub max_line_steps : ℕ
max_line_steps = 100000

abbrev pub max_frames : ℕ
max_frames = 64

module _ {W : Type 0} (F : Foreign W) (base : Option ℕ) (syms : Option Symbols) where
  unfoldable pub current_line : State W → Option (Text × ℕ)
  current_line s = syms >>=? λ table. base >>=? λ b.
      ok_value (current_pc F s).0 >>=? λ pc. find_location table (minus pc (slide table b))

  -- The frame pointer, 0 where the registers cannot be read.
  abbrev pub frame_pointer : State W → ℕ
  frame_pointer s = elim (ok_value (registers F s).0) [ none ↦ 0 | some r ↦ bp r ]

  module _ (disasm : Disassembler) (wait_fuel : ℕ) where
    -- The loop with the steps that are left.
    unfoldable pub line_loop : ℕ → Option (Text × ℕ) → WaitStatus → Io (State W) WaitStatus
    line_loop zero start status s = (ok status, s)
    line_loop (suc n) start status s =
        let again = line_loop n start in
        let more = (step F disasm wait_fuel >>= again) s in
        if is_stopped status && same_line (current_line s) start then more else (ok status, s)

    unfoldable pub step_line : Io (State W) WaitStatus
    unfolding line_loop
    step_line s =
        let start = current_line s in
        (step F disasm wait_fuel >>= λ status.
        if is_some start then line_loop max_line_steps start status else λ s. (ok status, s))
          s

    -- A frame below the first one is a called function's, which is finished.
    unfoldable pub next_loop : ℕ → Option (Text × ℕ) → ℕ → WaitStatus → Io (State W) WaitStatus
    next_loop zero start start_fp status s = (ok status, s)
    next_loop (suc n) start start_fp status s =
        let again = next_loop n start start_fp in
        let up =
          (attempt (finish F disasm wait_fuel) >>= λ found. elim found [
            | none ↦ λ s. (ok status, s)
            | some st ↦ again st
          ])
            s in
        let more = (step F disasm wait_fuel >>= again) s in
        let now = current_line s in
        if is_stopped status
        then (if ltb (frame_pointer s) start_fp
            then up
            else (if is_some now && not (same_line now start) then (ok status, s) else more))
        else (ok status, s)

    unfoldable pub next_line : Io (State W) WaitStatus
    unfolding next_loop
    next_line s =
        let start = current_line s in
        let start_fp = frame_pointer s in
        (step F disasm wait_fuel >>= next_loop max_line_steps start start_fp) s

  -- The name of the symbol that the address lies behind.
  unfoldable pub symbol_name : ℕ → Option Text
  symbol_name at = syms >>=? λ table.
      base >>=? λ b. find_symbol_for_addr table (minus at (slide table b)) >>=? λ e. some e.0

  abbrev pub is_main : Option Text → Bool
  is_main none = false
  is_main (some name) = text_eq name (codes "_main") || text_eq name (codes "main")

  -- The saved frame pointer and the return address of the frame.
  unfoldable pub caller : ℕ → State W → Option (ℕ × ℕ)
  caller fp s = ok_value (read_memory F fp 16 s).0 >>=? λ buf.
      if leb 16 (length buf)
      then some (from_le (take 8 buf), from_le (take 8 (drop 8 buf)))
      else none

  -- The program counters and frame pointers that are shown, `n` at most.
  unfoldable pub frames : ℕ → ℕ → ℕ → State W → List (ℕ × ℕ)
  frames zero at fp s = []
  frames (suc n) at fp s =
      (at, fp)
      ∷ (if is_main (symbol_name at) || (fp == 0) then [] else elim (caller fp s) [
        | none ↦ []
        | some up ↦ if (up.1 == 0) || leb up.0 fp then [] else frames n up.1 up.0 s
      ])

  -- `print_backtrace`, without the text of its lines.
  unfoldable pub backtrace : State W → List (ℕ × ℕ)
  unfolding frames
  backtrace s = elim (ok_value (registers F s).0) [
    | none ↦ []
    | some r ↦ frames max_frames (pc r) (bp r) s
  ]
