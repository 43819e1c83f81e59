-- ===== src/Tests/World.antt =====
-- A machine with a memory and registers: two threads, all memory in one region that is not writable
-- before its protection is changed. A `locked` machine refuses writes and debug registers.
use macos_c_debugger_rust.Base.{
  ℕ, zero, suc, Bool, false, [], ◌∷◌, none, some, ◌==◌, if◌then◌else◌, ◌+◌, refl, arith,
}
use macos_c_debugger_rust.Mach.{Foreign, X86DebugState64}
use macos_c_debugger_rust.Mach.Bytes.{HasMemory, bytes_at, overlay}
use macos_c_debugger_rust.Register.Intel.{ThreadState64}
use macos_c_debugger_rust.Debugger.Rewinding.{HasRegisters}

pub record World : Type 0 where
  pub memory : ℕ → ℕ
  pub registers : ℕ → ThreadState64
  pub interruptions : ℕ
  pub locked : Bool

abbrev pub no_debug : X86DebugState64
no_debug = record { dr0 = 0; dr1 = 0; dr2 = 0; dr3 = 0; dr4 = 0; dr5 = 0; dr6 = 0; dr7 = 0 }

abbrev refusal : World → ℕ
refusal w = if w.locked then 1 else 0

abbrev pub machine : Foreign World
machine = record {
  task_self = 1;
  task_for_pid = λ pid w. ((0, pid), w);
  task_threads = λ task w. ((0, 1 ∷ 2 ∷ []), w);
  thread_identifier = λ port w. ((0, port + 100), w);
  thread_get_state = λ port w. ((0, w.registers port), w);
  thread_set_state =
      λ port r w. (0, record w { registers = λ p. if p == port then r else w.registers p });
  thread_get_debug = λ port w. ((0, no_debug), w);
  thread_set_debug = λ port d w. (refusal w, w);
  thread_suspend = λ port w. (0, w);
  thread_resume = λ port w. (0, w);
  port_deallocate = λ port w. w;
  vm_region = λ task a w. (
    (0, record { start = 0; size = 65536; protection = 5; max_protection = 7; object_name = 0 }),
    w,
  );
  vm_read = λ task a n w. ((0, bytes_at w.memory a n), w);
  vm_write =
      λ task a bs w. if w.locked then (1, w) else (0, record w { memory = overlay w.memory a bs });
  vm_protect = λ task a n p w. (0, w);
  pt_continue = λ pid w. (none, w);
  pt_kill = λ pid w. (none, w);
  pt_detach = λ pid w. (none, w);
  waitpid = λ pid w. elim w.interruptions [
    | zero ↦ ((none, 0x057f), w)
    | suc n ↦ ((some 4, 0), record w { interruptions = n })
  ];
}

unfoldable pub memory_laws : HasMemory machine
memory_laws = record {
  mem = λ w. w.memory;
  read_bytes = λ t a n w e. refl;
  write_bytes = λ t a bs w e. ground (arith, e);
  write_nothing = λ t a bs w e. ground (arith, e);
  read_keeps = λ t a n w. refl;
  task_keeps = λ p w. refl;
  region_keeps = λ t a w. refl;
  protect_keeps = λ t a n p w. refl;
  deallocate_keeps = λ p w. refl;
}

unfoldable pub register_laws : HasRegisters machine
register_laws = record {
  regs = λ w. w.registers;
  get_ok = λ p w. refl;
  get_keeps = λ p q w. refl;
  set_value = λ p r w e. ground arith;
  set_keeps = λ p q r w h. ground (arith, h);
}

-- A thread at the address `at`, with the stack and the result that a call needs.
abbrev pub thread_at : ℕ → ThreadState64
thread_at at = record {
  rax = 4096;
  rbx = 0;
  rcx = 0;
  rdx = 0;
  rdi = 24;
  rsi = 0;
  rbp = 0;
  rsp = 512;
  r8 = 0;
  r9 = 0;
  r10 = 0;
  r11 = 0;
  r12 = 0;
  r13 = 0;
  r14 = 0;
  r15 = 0;
  rip = at;
  rflags = 0;
  cs = 0;
  fs = 0;
  gs = 0;
}

-- The program's bytes: the return address 0x80 on the stack, and zeros.
abbrev pub program : ℕ → ℕ
program a = if a == 512 then 0x80 else 0

abbrev pub world : World
world = record {
  memory = program;
  registers = λ p. thread_at 17;
  interruptions = 1;
  locked = false;
}
