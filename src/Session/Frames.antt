-- ===== src/Session/Frames.antt =====
-- The chain of frames of `print_backtrace`, and how far `step_line` goes (src/main.rs).
use macos_c_debugger_rust.Base.{
  ℕ, zero, suc, true, false, List, [], ◌∷◌, Option, some, ◌<◌, ◌≤◌, ◌≡◌, ◌≢◌, ◌==◌, ◌||◌, ◌&&◌, leb,
  refl, arith, length, Bool-cases, Option-cases, inl, inr,
}
use macos_c_debugger_rust.Base.Text.{Text}
use macos_c_debugger_rust.Disasm.{Disassembler}
use macos_c_debugger_rust.Io.{Result, ok}
use macos_c_debugger_rust.Mach.{Foreign}
use macos_c_debugger_rust.Register.Intel.{pc, bp}
use macos_c_debugger_rust.Debugger.{State, WaitStatus, is_stopped, registers}
use macos_c_debugger_rust.Debugger.Run.{step}
use macos_c_debugger_rust.Symbols.{Symbols}
use macos_c_debugger_rust.Session.Lines.{
  caller, frames, backtrace, is_main, symbol_name, current_line, same_line, line_loop, step_line,
}
use macos_c_debugger_rust.Session.Variables.{ok_value}

module _ {W : Type 0} (F : Foreign W) (base : Option ℕ) (syms : Option Symbols) where
  -- Every frame is the caller's of the one before, whose pointer is smaller.
  pub data Linked (s : State W) : List (ℕ × ℕ) → Type 0 where
    none_left : Linked s []
    last : (frame : ℕ × ℕ) → Linked s (frame ∷ [])
    up :
        {at fp ret above : ℕ} {more : List (ℕ × ℕ)}
        → caller F base syms fp s ≡ some (above, ret)
        → fp < above
        → ret ≢ 0
        → Linked s ((ret, above) ∷ more)
        → Linked s ((at, fp) ∷ (ret, above) ∷ more)

  -- The chain behind a frame whose caller is known.
  frames-on :
      (n at fp : ℕ) (s : State W) (above : ℕ × ℕ)
      → (is_main F base syms (symbol_name F base syms at) || (fp == 0)) ≡ false
      → caller F base syms fp s ≡ some above
      → ((above.1 == 0) || leb above.0 fp) ≡ false
      → frames F base syms (suc n) at fp s ≡ (at, fp) ∷ frames F base syms n above.1 above.0 s
  unfolding frames
  frames-on n at fp s above e f g = rw (frames, e, f, g) refl

  frames-Linked : (n at fp : ℕ) (s : State W) → Linked s (frames F base syms n at fp s)
  frames-Linked zero at fp s = unfold frames in none_left
  frames-Linked (suc n) at fp s =
      elim (Bool-cases (is_main F base syms (symbol_name F base syms at) || (fp == 0))) [
        | inl e ↦ unfold frames in rw e (last (at, fp))
        | inr e ↦ elim (Option-cases (caller F base syms fp s)) [
          | inl f ↦ unfold frames in rw (e, f) (last (at, fp))
          | inr (above, f) ↦ elim (Bool-cases ((above.1 == 0) || leb above.0 fp)) [
            | inl g ↦ unfold frames in rw (e, f, g) (last (at, fp))
            | inr g ↦ rw (frames-on n at fp s above e f g) (
                behind n above (frames-Linked n above.1 above.0 s) f (ground (arith, g))
                  (λ z. ground (arith, g, z)))
          ]
        ]
      ]
    where
      behind :
          (n : ℕ) (above : ℕ × ℕ)
          → Linked s (frames F base syms n above.1 above.0 s)
          → caller F base syms fp s ≡ some above
          → fp < above.0
          → above.1 ≢ 0
          → Linked s ((at, fp) ∷ frames F base syms n above.1 above.0 s)
      behind zero above ih f lt ne = unfold frames in last (at, fp)
      behind (suc n) above ih f lt ne = unfold frames in up f lt ne ih

  frames-length : (n at fp : ℕ) (s : State W) → length (frames F base syms n at fp s) ≤ n
  frames-length zero at fp s = unfold frames in omega arith
  frames-length (suc n) at fp s =
      elim (Bool-cases (is_main F base syms (symbol_name F base syms at) || (fp == 0))) [
        | inl e ↦ unfold frames in rw e (omega arith)
        | inr e ↦ elim (Option-cases (caller F base syms fp s)) [
          | inl f ↦ unfold frames in rw (e, f) (omega arith)
          | inr (above, f) ↦ elim (Bool-cases ((above.1 == 0) || leb above.0 fp)) [
            | inl g ↦ unfold frames in rw (e, f, g) (omega arith)
            | inr g ↦
                rw (frames-on n at fp s above e f g)
                  (omega (arith, frames-length n above.1 above.0 s))
          ]
        ]
      ]

  -- A backtrace has 64 frames at most, and each frame behind the first is the caller that memory
  -- names for the one before it, with a greater frame pointer and a return address that is not 0.
  pub backtrace-Linked :
      (s : State W) → Linked s (backtrace F base syms s) × (length (backtrace F base syms s) ≤ 64)
  unfolding backtrace
  backtrace-Linked s = elim (Option-cases (ok_value (registers F s).0)) [
    | inl e ↦ rw (backtrace, e) (none_left, omega arith)
    | inr (r, e) ↦
        rw (backtrace, e) (frames-Linked 64 (pc r) (bp r) s, frames-length 64 (pc r) (bp r) s)
  ]

  module _ (disasm : Disassembler) (wait_fuel : ℕ) where
    -- Steps on the line `start`, and the first status that ends there.
    pub data Stepped (start : Option (Text × ℕ))
        : ℕ → WaitStatus → State W → Result WaitStatus × State W → Type 0 where
      left :
          {st : WaitStatus} {s : State W}
          → (is_stopped st && same_line (current_line F base syms s) start) ≡ false
          → Stepped start 0 st s (ok st, s)
      stayed :
          {n : ℕ} {st after : WaitStatus} {s : State W} {r : Result WaitStatus × State W}
          → (is_stopped st && same_line (current_line F base syms s) start) ≡ true
          → (step F disasm wait_fuel s).0 ≡ ok after
          → Stepped start n after (step F disasm wait_fuel s).1 r
          → Stepped start (suc n) st s r

    line_loop_lem :
        (start : Option (Text × ℕ)) (n fuel : ℕ) (st : WaitStatus) (s : State W)
        (r : Result WaitStatus × State W)
        → Stepped start n st s r
        → n ≤ fuel
        → line_loop F base syms disasm wait_fuel fuel start st s ≡ r
    unfolding line_loop
    line_loop_lem start zero zero st s r (left e) h = refl
    line_loop_lem start zero (suc fuel) st s r (left e) h = ground (arith, e)
    line_loop_lem start (suc n) zero st s r d h = absurd (omega arith)
    line_loop_lem start (suc n) (suc fuel) st s r (stayed e f d) h =
        ground (arith, e, f, line_loop_lem start n fuel _ (step F disasm wait_fuel s).1 r d)

    -- From a line that is known, step_line ends with the first step after which the process has not
    -- stopped or stands on another line, if there are 100,000 steps at most between the first step
    -- and this one.
    pub step_line_lem :
        (n : ℕ) (at : Text × ℕ) (st : WaitStatus) (s : State W) (r : Result WaitStatus × State W)
        → current_line F base syms s ≡ some at
        → (step F disasm wait_fuel s).0 ≡ ok st
        → Stepped (some at) n st (step F disasm wait_fuel s).1 r
        → n ≤ 100000
        → step_line F base syms disasm wait_fuel s ≡ r
    unfolding step_line
    step_line_lem n at st s r here first d h =
        rw (step_line, here, first)
          (line_loop_lem (some at) n 100000 st (step F disasm wait_fuel s).1 r d h)
