-- ===== src/Debugger/Run.antt =====
-- src/debugger.rs, x86_64: stepping, continuing and finishing. One instruction is stepped by
-- breakpoints at all addresses where it can lead.
use macos_c_debugger_rust.Base.{
  ℕ, List, [], ◌∷◌, ◌++◌, none, some, if◌then◌else◌, ◌+◌, ◌%◌, ◌^◌, is_some, unwrap_or, leb, length,
  take,
}
use macos_c_debugger_rust.Base.Assoc.{lookup}
use macos_c_debugger_rust.Base.Bytes.{from_le}
use macos_c_debugger_rust.Base.Text.{starts_with}
use macos_c_debugger_rust.Breakpoint
use macos_c_debugger_rust.Arch.{x86_64}
use macos_c_debugger_rust.Disasm.{Disassembler, step_targets}
use macos_c_debugger_rust.Io.{Io, ok, panic, for_each, ◌>>=◌, ◌>>◌, attempt}
use macos_c_debugger_rust.Mach
use macos_c_debugger_rust.Mach.Image.{detect_arch}
use macos_c_debugger_rust.Mach.{Foreign, get_task, set_registers, deallocate_port}
use macos_c_debugger_rust.Register.Intel.{set_pc, pc, bp, sp}
use macos_c_debugger_rust.Debugger.{
  State, Debugger, WaitStatus, is_stopped, Origin, spawned, attached, kernel, modify, registers,
  current_thread_port, current_pc, read_memory,
}
use macos_c_debugger_rust.Debugger.Wait.{wait, refresh_threads}
use macos_c_debugger_rust.Debugger.Break.{
  armed, set_breakpoint, remove_breakpoint, store_breakpoint, drop_breakpoint,
}
use macos_c_debugger_rust.Debugger.Hit.{handle_breakpoint_hit, handle_watchpoint_hit}

module _ {W : Type 0} where
  -- `self.last_status.unwrap()`.
  unfoldable pub final_status : Io (State W) WaitStatus
  final_status s = elim s.dbg.last_status [ none ↦ (panic, s) | some st ↦ (ok st, s) ]

-- The fields of `new_internal` before the first stop.
unfoldable pub initial : ℕ → Origin → Debugger
initial pid origin = record {
  pid = pid;
  origin = origin;
  task = 0;
  threads = [];
  current_thread = 0;
  breakpoints = [];
  last_status = none;
  at_breakpoint = none;
  arch = x86_64;
  wp_slots = none ∷ none ∷ none ∷ none ∷ [];
  at_watchpoint = none;
}

module _ {W : Type 0} (F : Foreign W) (disasm : Disassembler) (fuel : ℕ) where
  -- Breakpoints at the candidates that have none yet; those that could be set.
  unfoldable pub install : List ℕ → Io (State W) (List ℕ)
  install [] s = (ok [], s)
  install (a ∷ more) s =
      let rest = install more in
      let skip = rest s in
      let place =
        (attempt (set_breakpoint F a) >>= λ done.
        rest >>= λ placed s. (ok (if is_some done then a ∷ placed else placed), s))
          s in
      if armed a s.dbg then skip else place

  -- `cont` and `wait`, with the status noted and breakpoint hits handled.
  unfoldable pub resume_and_wait : Io (State W) (Unit {0})
  resume_and_wait s =
      (kernel (Mach.cont F s.dbg.pid)
          >> (wait F fuel >>= λ status. modify (λ d. record d { last_status = some status }))
          >> handle_breakpoint_hit F)
        s

  -- The temporary breakpoints of a step.
  unfoldable pub place_targets : Io (State W) (List ℕ)
  unfolding install
  place_targets = do
    port ← current_thread_port
    regs ← kernel (Mach.get_registers F port)
    code ← attempt (read_memory F (pc regs) 16)
    install (step_targets disasm (unwrap_or code []) (pc regs))

  unfoldable pub step_off : List ℕ → Io (State W) WaitStatus
  unfolding resume_and_wait final_status
  step_off installed =
      resume_and_wait
      >> for_each (λ a. attempt (remove_breakpoint F a) >> λ s. (ok tt, s)) installed
      >> final_status

  unfoldable pub step_current_thread : Io (State W) WaitStatus
  unfolding place_targets step_off
  step_current_thread = place_targets >>= step_off

  -- Taken out, stepped, and set again.
  unfoldable pub step_over_breakpoint : ℕ → Io (State W) (Unit {0})
  unfolding step_current_thread
  step_over_breakpoint addr s = elim (lookup addr s.dbg.breakpoints) [
    | none ↦ (panic, s)
    | some b ↦
        (modify (drop_breakpoint addr)
            >> (kernel (Breakpoint.disable F s.dbg.pid b) >>= λ off. registers F >>= λ regs.
                current_thread_port >>= λ port.
                kernel (set_registers F port (set_pc regs addr))
                >> step_current_thread
                >> (kernel (Breakpoint.re_enable F s.dbg.pid off) >>= λ on.
                    modify (store_breakpoint addr on))))
          s
  ]

  abbrev pub clear_hit : Debugger → Debugger
  clear_hit d = record d { at_breakpoint = none }

  -- `at_breakpoint` noted where a step ends on a breakpoint.
  unfoldable pub note_landing : Io (State W) (Unit {0})
  note_landing = attempt (current_pc F) >>= λ at s. elim at [
    | none ↦ (ok tt, s)
    | some a ↦
        if armed a s.dbg then modify (λ d. record d { at_breakpoint = some a }) s else (ok tt, s)
  ]

  unfoldable pub step : Io (State W) WaitStatus
  unfolding step_over_breakpoint step_current_thread note_landing final_status
  step s = elim s.dbg.at_breakpoint [
    | some addr ↦ (modify clear_hit >> step_over_breakpoint addr >> note_landing >> final_status) s
    | none ↦ (step_current_thread >> note_landing >> final_status) s
  ]

  unfoldable pub resume : Io (State W) WaitStatus
  unfolding resume_and_wait final_status
  resume = resume_and_wait >> handle_watchpoint_hit F >> final_status

  unfoldable pub cont : Io (State W) WaitStatus
  unfolding step_over_breakpoint resume
  cont s = elim s.dbg.at_breakpoint [
    | none ↦ resume s
    | some addr ↦
        (modify clear_hit >> step_over_breakpoint addr >> λ s. elim s.dbg.last_status [
          | none ↦ final_status s
          | some st ↦ if is_stopped st then resume s else final_status s
        ])
          s
  ]

  -- `u64::from_le_bytes(buf[..8].try_into().unwrap())` of the memory at an address.
  unfoldable pub read_u64 : ℕ → Io (State W) ℕ
  read_u64 addr = read_memory F addr 8 >>= λ buf s.
      if leb 8 (length buf) then (ok (from_le (take 8 buf)), s) else (panic, s)

  -- `push rbp` and `mov rbp, rsp`.
  abbrev push_rbp : List ℕ
  push_rbp = 0x55 ∷ []

  abbrev mov_rbp_rsp : List ℕ
  mov_rbp_rsp = 0x48 ∷ 0x89 ∷ 0xe5 ∷ []

  -- Where the return address stands, by how far the prologue has run.
  unfoldable pub return_address : Io (State W) ℕ
  unfolding read_u64
  return_address = do
    regs ← registers F
    code ← attempt (read_memory F (pc regs) 3)
    let instr = unwrap_or code []
    if starts_with push_rbp instr
        then read_u64 (sp regs)
        else (if starts_with mov_rbp_rsp instr
            then read_u64 ((sp regs + 8) % 2 ^ 64)
            else read_u64 ((bp regs + 8) % 2 ^ 64))

  unfoldable pub finish : Io (State W) WaitStatus
  unfolding return_address cont
  finish = return_address >>= λ ret s.
      if is_some (lookup ret s.dbg.breakpoints)
      then cont s
      else ((set_breakpoint F ret
            >> (cont >>= λ status.
                (if is_stopped status
                  then remove_breakpoint F ret
                  else modify (drop_breakpoint ret))
                >> λ s. (ok status, s)))
          s)

  -- The address behind `push rbp; mov rbp, rsp; sub rsp, N`, as far as these stand there.
  unfoldable pub prologue_length : List ℕ → ℕ
  prologue_length code =
      if starts_with push_rbp code
      then (if starts_with (0x55 ∷ mov_rbp_rsp) code
          then (if starts_with (0x55 ∷ mov_rbp_rsp ++ 0x48 ∷ 0x83 ∷ 0xec ∷ []) code
              then 8
              else (if starts_with (0x55 ∷ mov_rbp_rsp ++ 0x48 ∷ 0x81 ∷ 0xec ∷ []) code
                  then 11
                  else 4))
          else 1)
      else 0

  unfoldable pub skip_prologue_insns : ℕ → Io (State W) ℕ
  unfolding prologue_length
  skip_prologue_insns addr = attempt (read_memory F addr 16) >>= λ code s.
      (ok (elim code [ none ↦ addr | some c ↦ (addr + prologue_length c) % 2 ^ 64 ]), s)

  -- The first stop of a process that was started or attached to; the task is not known before it.
  unfoldable pub start : Io (State W) (Unit {0})
  start s =
      ((wait F fuel >>= λ status. modify (λ d. record d { last_status = some status }))
          >> (kernel (detect_arch F s.dbg.pid) >>= λ a. modify (λ d. record d { arch = a }))
          >> (kernel (get_task F s.dbg.pid) >>= λ t. modify (λ d. record d { task = t }))
          >> refresh_threads F)
        s

  unfoldable pub detach : Io (State W) (Unit {0})
  detach s =
      (kernel (Mach.detach F s.dbg.pid)
          >> for_each (λ t. kernel (deallocate_port F t.port)) s.dbg.threads
          >> kernel (deallocate_port F s.dbg.task))
        s

  unfoldable pub shutdown : Io (State W) (Unit {0})
  unfolding detach
  shutdown s = elim s.dbg.origin [
    | spawned ↦ kernel (Mach.kill F s.dbg.pid) s
    | attached ↦ detach s
  ]
