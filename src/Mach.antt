-- ===== src/Mach.antt =====
-- src/mach.rs and src/ptrace.rs, x86_64. The calls of the Mach kernel, of `ptrace` and of `waitpid`
-- are not code of the repository: they are the fields of `Foreign`, which change a world that the
-- model does not look into.
pub mod Memory
pub mod Debug
pub mod Image
pub mod Bytes
pub mod Float
pub mod Arm
use macos_c_debugger_rust.Base.{
  ℕ, List, [], ◌∷◌, Option, none, some, ◌==◌, if◌then◌else◌, ◌+◌, ◌<◌, ◌^◌, ◌%◌, length,
}
use macos_c_debugger_rust.Io.{
  Io, Result, ok, err, mach_error, os_error, no_threads, pure, fail, ◌>>=◌, ◌>>◌,
}
use macos_c_debugger_rust.Register.Intel.{ThreadState64}

-- `X86DebugState64` of src/register.rs.
pub record X86DebugState64 : Type 0 where
  pub dr0 : ℕ
  pub dr1 : ℕ
  pub dr2 : ℕ
  pub dr3 : ℕ
  pub dr4 : ℕ
  pub dr5 : ℕ
  pub dr6 : ℕ
  pub dr7 : ℕ

-- What `mach_vm_region` writes: the region's start and size, its protection and maximal protection,
-- and the object's port.
pub record Region : Type 0 where
  pub start : ℕ
  pub size : ℕ
  pub protection : ℕ
  pub max_protection : ℕ
  pub object_name : ℕ

-- A call returns its `kern_return_t` (0 is success) with what it wrote, and the new world. The calls
-- of the C library return none, or the `errno` of a return value -1.
pub record Foreign (World : Type 0) : Type 0 where
  pub task_self : ℕ
  pub task_for_pid : ℕ → World → (ℕ × ℕ) × World
  pub task_threads : ℕ → World → (ℕ × List ℕ) × World
  pub thread_identifier : ℕ → World → (ℕ × ℕ) × World
  pub thread_get_state : ℕ → World → (ℕ × ThreadState64) × World
  pub thread_set_state : ℕ → ThreadState64 → World → ℕ × World
  pub thread_get_debug : ℕ → World → (ℕ × X86DebugState64) × World
  pub thread_set_debug : ℕ → X86DebugState64 → World → ℕ × World
  pub thread_suspend : ℕ → World → ℕ × World
  pub thread_resume : ℕ → World → ℕ × World
  pub port_deallocate : ℕ → World → World
  pub vm_region : ℕ → ℕ → World → (ℕ × Region) × World
  pub vm_read : ℕ → ℕ → ℕ → World → (ℕ × List ℕ) × World
  pub vm_write : ℕ → ℕ → List ℕ → World → ℕ × World
  pub vm_protect : ℕ → ℕ → ℕ → ℕ → World → ℕ × World
  pub pt_continue : ℕ → World → Option ℕ × World
  pub pt_kill : ℕ → World → Option ℕ × World
  pub pt_detach : ℕ → World → Option ℕ × World
  pub waitpid : ℕ → World → (Option ℕ × ℕ) × World

-- `mach_err` and `check`.
module _ {A : Type 0} where
  abbrev pub mach_err : ℕ → A → Result A
  mach_err ret a = if ret == 0 then ok a else err (mach_error ret)

module _ {W : Type 0} where
  abbrev pub check : Option ℕ × W → Result (Unit {0}) × W
  check (none, w) = (ok tt, w)
  check (some e, w) = (err (os_error e), w)

module _ {W : Type 0} (F : Foreign W) where
  unfoldable pub get_task : ℕ → Io W ℕ
  get_task pid w = let r = F.task_for_pid pid w in (mach_err r.0.0 r.0.1, r.1)

  unfoldable pub list_threads : ℕ → Io W (List ℕ)
  list_threads task w =
      let r = F.task_threads task w in
      if r.0.0 == 0
      then elim r.0.1 [ [] ↦ (err no_threads, r.1) | p ∷ ps ↦ (ok (p ∷ ps), r.1) ]
      else (err (mach_error r.0.0), r.1)

  unfoldable pub thread_unique_id : ℕ → Io W ℕ
  thread_unique_id port w = let r = F.thread_identifier port w in (mach_err r.0.0 r.0.1, r.1)

  unfoldable pub deallocate_port : ℕ → Io W (Unit {0})
  deallocate_port port w = (ok tt, F.port_deallocate port w)

  unfoldable pub suspend_thread : ℕ → Io W (Unit {0})
  suspend_thread port w = let r = F.thread_suspend port w in (mach_err r.0 tt, r.1)

  unfoldable pub resume_thread : ℕ → Io W (Unit {0})
  resume_thread port w = let r = F.thread_resume port w in (mach_err r.0 tt, r.1)

  unfoldable pub get_registers : ℕ → Io W ThreadState64
  get_registers port w = let r = F.thread_get_state port w in (mach_err r.0.0 r.0.1, r.1)

  unfoldable pub set_registers : ℕ → ThreadState64 → Io W (Unit {0})
  set_registers port regs w = let r = F.thread_set_state port regs w in (mach_err r.0 tt, r.1)

  unfoldable pub cont : ℕ → Io W (Unit {0})
  cont pid w = check (F.pt_continue pid w)

  unfoldable pub kill : ℕ → Io W (Unit {0})
  kill pid w = check (F.pt_kill pid w)

  unfoldable pub detach : ℕ → Io W (Unit {0})
  detach pid w = check (F.pt_detach pid w)
