-- ===== src/Debugger/Arm/Run.antt =====
-- src/debugger.rs, aarch64: stepping, continuing and finishing with hardware breakpoints.
use macos_c_debugger_rust.Base.{
  ℕ, Bool, false, List, [], ◌∷◌, ◌++◌, none, some, ◌==◌, if◌then◌else◌, ◌+◌, ◌-◌, ◌%◌, ◌^◌, is_some,
  unwrap_or, leb, length, take, get_elem?, ◌&&◌, ◌||◌,
}
use macos_c_debugger_rust.Base.Bytes.{from_le}
use macos_c_debugger_rust.Base.Text.{starts_with}
use macos_c_debugger_rust.Io.{Io, ok, err, panic, no_slot, for_each, ◌>>=◌, ◌>>◌, attempt}
use macos_c_debugger_rust.Mach
use macos_c_debugger_rust.Mach.{Foreign, get_task}
use macos_c_debugger_rust.Mach.Arm.{ArmForeign, get_registers, clear_hw_breakpoint_slot}
use macos_c_debugger_rust.Mach.Image.{detect_arch}
use macos_c_debugger_rust.Debugger.{WaitStatus, is_stopped, current_thread_port, read_memory}
use macos_c_debugger_rust.Debugger.Break.{armed}
use macos_c_debugger_rust.Debugger.Arm.{
  ArmState, call, lift, change, dbg_of, alloc_hw_slot, release_hw_slot, find_hw_slot, arm_slot,
  clear_slot, set_breakpoint, remove_breakpoint, registers, current_pc,
}
use macos_c_debugger_rust.Debugger.Arm.Hit.{handle_breakpoint_hit, handle_watchpoint_hit}
use macos_c_debugger_rust.Debugger.Arm.Wait.{wait, refresh_threads}

-- `stp x29, x30, [sp, #-16]!` and `mov x29, sp`.
abbrev pub save_frame : List ℕ
save_frame = 0xfd ∷ 0x7b ∷ 0xbf ∷ 0xa9 ∷ []

abbrev pub set_frame : List ℕ
set_frame = 0xfd ∷ 0x03 ∷ 0x00 ∷ 0x91 ∷ []

-- `stp x29, x30, [sp, N]` at the front.
abbrev pub saves_frame : List ℕ → Bool
saves_frame (a ∷ b ∷ c ∷ d ∷ _) = ((a == 0xfd) && (b == 0x7b)) && (d == 0xa9)
saves_frame _ = false

unfoldable pub has_frame_save : List ℕ → Bool
has_frame_save [] = false
has_frame_save (b ∷ bs) = saves_frame (b ∷ bs) || has_frame_save bs

abbrev pub is_byte : List ℕ → ℕ → ℕ → Bool
is_byte code i b = elim (get_elem? code i) [ none ↦ false | some c ↦ c == b ]

unfoldable pub prologue_length : List ℕ → ℕ
prologue_length code =
    if starts_with save_frame code
    then (if starts_with (save_frame ++ set_frame) code
        then (if is_byte code 11 0xd1 && (is_byte code 8 0xff && is_byte code 9 0xff)
            then 12
            else 8)
        else 4)
    else 0

module _ {W : Type 0} where
  unfoldable pub final_status : Io (ArmState W) WaitStatus
  final_status s = elim (dbg_of s).last_status [ none ↦ (panic, s) | some st ↦ (ok st, s) ]

module _ {W : Type 0} (F : Foreign W) (G : ArmForeign W) (fuel : ℕ) where
  unfoldable pub install : List ℕ → Io (ArmState W) (List ℕ)
  unfolding set_breakpoint
  install [] s = (ok [], s)
  install (a ∷ more) s =
      let rest = install more in
      let skip = rest s in
      let place =
        (attempt (set_breakpoint G a) >>= λ done.
        rest >>= λ placed s. (ok (if is_some done then a ∷ placed else placed), s))
          s in
      if armed a (dbg_of s) then skip else place

  unfoldable pub wait_for_stop : Io (ArmState W) (Unit {0})
  unfolding wait
  wait_for_stop s =
      (call (Mach.cont F (dbg_of s).pid)
          >> (wait F G fuel >>= λ status. change (λ d. record d { last_status = some status })))
        s

  unfoldable pub resume_and_wait : Io (ArmState W) (Unit {0})
  unfolding wait_for_stop handle_breakpoint_hit
  resume_and_wait = wait_for_stop >> handle_breakpoint_hit F G

  -- The bytes at the program counter are read and not used.
  unfoldable pub step_current_thread : Io (ArmState W) WaitStatus
  unfolding install resume_and_wait final_status remove_breakpoint current_thread_port read_memory
  step_current_thread = do
    port ← lift current_thread_port
    regs ← call (get_registers G port)
    code ← attempt (lift (read_memory F regs.pc 16))
    installed ← install (((regs.pc + 4) % 2 ^ 64) ∷ [])
    done ← resume_and_wait
    gone ← for_each (λ a. attempt (remove_breakpoint G a) >> λ s. (ok tt, s)) installed
    final_status

  unfoldable pub step_over_breakpoint : ℕ → Io (ArmState W) (Unit {0})
  unfolding find_hw_slot clear_slot arm_slot step_current_thread
  step_over_breakpoint addr s = elim (find_hw_slot addr s) [
    | none ↦ (err (no_slot addr), s)
    | some slot ↦
        (clear_slot G slot (dbg_of s).threads >> step_current_thread >> λ s.
        arm_slot G slot addr (dbg_of s).threads s)
          s
  ]

  unfoldable pub clear_hit : Io (ArmState W) (Unit {0})
  clear_hit = change (λ d. record d { at_breakpoint = none })

  unfoldable pub note_landing : Io (ArmState W) (Unit {0})
  unfolding current_pc
  note_landing = attempt (current_pc G) >>= λ at s. elim at [
    | none ↦ (ok tt, s)
    | some a ↦
        if armed a (dbg_of s)
        then change (λ d. record d { at_breakpoint = some a }) s
        else (ok tt, s)
  ]

  unfoldable pub step : Io (ArmState W) WaitStatus
  unfolding clear_hit step_over_breakpoint step_current_thread note_landing final_status
  step s = elim (dbg_of s).at_breakpoint [
    | some addr ↦ (clear_hit >> step_over_breakpoint addr >> note_landing >> final_status) s
    | none ↦ (step_current_thread >> note_landing >> final_status) s
  ]

  unfoldable pub resume : Io (ArmState W) WaitStatus
  unfolding resume_and_wait handle_watchpoint_hit final_status
  resume = resume_and_wait >> handle_watchpoint_hit F G >> final_status

  -- A breakpoint that the program stands on is stepped over; the rest runs if it has stopped again.
  unfoldable pub over_breakpoint :
      Io (ArmState W) WaitStatus → Io (ArmState W) WaitStatus → Io (ArmState W) WaitStatus
  unfolding clear_hit step_over_breakpoint
  over_breakpoint go ended s = elim (dbg_of s).at_breakpoint [
    | none ↦ go s
    | some addr ↦
        (clear_hit >> step_over_breakpoint addr >> λ s. elim (dbg_of s).last_status [
          | none ↦ ended s
          | some st ↦ if is_stopped st then go s else ended s
        ])
          s
  ]

  unfoldable pub cont : Io (ArmState W) WaitStatus
  unfolding over_breakpoint resume final_status
  cont = over_breakpoint resume final_status

  -- `buf[..8]` of the memory at an address.
  unfoldable pub read_u64 : ℕ → Io (ArmState W) ℕ
  unfolding read_memory
  read_u64 addr = lift (read_memory F addr 8) >>= λ buf s.
      if leb 8 (length buf) then (ok (from_le (take 8 buf)), s) else (panic, s)

  unfoldable pub return_address : Io (ArmState W) ℕ
  unfolding registers read_memory read_u64 has_frame_save
  return_address = do
    regs ← registers G
    instr ← attempt (lift (read_memory F regs.pc 4))
    let saved = read_u64 ((regs.fp + 8) % 2 ^ 64)
    let link : Io (ArmState W) ℕ = λ s. (ok regs.lr, s)
    if starts_with save_frame (unwrap_or instr []) || (regs.fp == 0) then link else λ s.
        elim (dbg_of s).at_breakpoint [
          | none ↦ saved s
          | some start ↦
              if leb start regs.pc
              then ((attempt (lift (read_memory F start (regs.pc - start))) >>= λ code.
                    if has_frame_save (unwrap_or code []) then saved else link)
                  s)
              else saved s
        ]

  -- The slot taken out of the debug registers, failures ignored, and given back.
  unfoldable pub drop_slot : ℕ → Io (ArmState W) (Unit {0})
  unfolding release_hw_slot clear_hw_breakpoint_slot
  drop_slot slot s =
      (for_each (λ t. attempt (call (clear_hw_breakpoint_slot G t.port slot)) >> λ s. (ok tt, s))
            (dbg_of s).threads
          >> release_hw_slot slot)
        s

  unfoldable pub finish_with_hw_bp : ℕ → Io (ArmState W) WaitStatus
  unfolding alloc_hw_slot arm_slot over_breakpoint wait_for_stop drop_slot handle_breakpoint_hit
      final_status
  finish_with_hw_bp ret = alloc_hw_slot ret >>= λ slot s.
      (arm_slot G slot ret (dbg_of s).threads
          >> over_breakpoint
              (wait_for_stop >> drop_slot slot >> handle_breakpoint_hit F G >> final_status)
              (drop_slot slot >> final_status))
        s

  unfoldable pub finish : Io (ArmState W) WaitStatus
  unfolding return_address finish_with_hw_bp
  finish = return_address >>= finish_with_hw_bp

  unfoldable pub skip_prologue_insns : ℕ → Io (ArmState W) ℕ
  unfolding prologue_length read_memory
  skip_prologue_insns addr = attempt (lift (read_memory F addr 16)) >>= λ code s.
      (ok (elim code [ none ↦ addr | some c ↦ (addr + prologue_length c) % 2 ^ 64 ]), s)

  unfoldable pub start : Io (ArmState W) (Unit {0})
  unfolding wait refresh_threads
  start s =
      ((wait F G fuel >>= λ status. change (λ d. record d { last_status = some status }))
          >> (call (detect_arch F (dbg_of s).pid) >>= λ a. change (λ d. record d { arch = a }))
          >> (call (get_task F (dbg_of s).pid) >>= λ t. change (λ d. record d { task = t }))
          >> refresh_threads F G)
        s
