-- ===== src/Mach/Bytes.antt =====
-- src/mach.rs over a task whose memory is a function from addresses to bytes: `read_memory` returns
-- what stands there, and `write_memory` changes the written bytes or nothing.
use macos_c_debugger_rust.Base.{
  ℕ, zero, suc, List, [], ◌∷◌, ◌==◌, if◌then◌else◌, ◌≡◌, ◌≢◌, inl, inr, Bool-cases, arith, bit_and,
}
use macos_c_debugger_rust.Base.Bits.{not64}
use macos_c_debugger_rust.Io.{ok, is_ok}
use macos_c_debugger_rust.Mach.{Foreign, get_task}
use macos_c_debugger_rust.Mach.Memory.{read_memory, write_memory, unprotect, write_protection}

-- The `n` bytes from `a` on.
abbrev pub bytes_at : (ℕ → ℕ) → ℕ → ℕ → List ℕ
bytes_at m a zero = []
bytes_at m a (suc n) = m a ∷ bytes_at m (suc a) n

-- The memory after a write of bytes from `a` on.
abbrev pub overlay : (ℕ → ℕ) → ℕ → List ℕ → ℕ → ℕ
overlay m a [] x = m x
overlay m a (b ∷ bs) x = if a == x then b else overlay m (suc a) bs x

-- What the kernel's documentation says of the calls that the debugger makes: a read returns the
-- bytes, a successful write stores them, a failed write stores nothing, and nothing else writes.
pub record HasMemory {W : Type 0} (F : Foreign W) : Type 0 where
  pub mem : W → ℕ → ℕ
  pub read_bytes :
      (t a n : ℕ) (w : W)
      → (F.vm_read t a n w).0.0 ≡ 0
      → (F.vm_read t a n w).0.1 ≡ bytes_at (mem w) a n
  pub write_bytes :
      (t a : ℕ) (bs : List ℕ) (w : W)
      → (F.vm_write t a bs w).0 ≡ 0
      → mem (F.vm_write t a bs w).1 ≡ overlay (mem w) a bs
  pub write_nothing :
      (t a : ℕ) (bs : List ℕ) (w : W)
      → (F.vm_write t a bs w).0 ≢ 0
      → mem (F.vm_write t a bs w).1 ≡ mem w
  pub read_keeps : (t a n : ℕ) (w : W) → mem (F.vm_read t a n w).1 ≡ mem w
  pub task_keeps : (p : ℕ) (w : W) → mem (F.task_for_pid p w).1 ≡ mem w
  pub region_keeps : (t a : ℕ) (w : W) → mem (F.vm_region t a w).1 ≡ mem w
  pub protect_keeps : (t a n p : ℕ) (w : W) → mem (F.vm_protect t a n p w).1 ≡ mem w
  pub deallocate_keeps : (p : ℕ) (w : W) → mem (F.port_deallocate p w) ≡ mem w

module _ {W : Type 0} (F : Foreign W) (M : HasMemory F) where
  open M use {
    mem, read_bytes, write_bytes, write_nothing, read_keeps, task_keeps, region_keeps,
    protect_keeps, deallocate_keeps,
  }

  pub read_memory-keeps : (pid a n : ℕ) (w : W) → mem (read_memory F pid a n w).1 ≡ mem w
  unfolding read_memory get_task
  read_memory-keeps pid a n w =
      let t = F.task_for_pid pid w in
      let r = F.vm_read t.0.1 a n t.1 in
      ground (arith, task_keeps pid w, read_keeps t.0.1 a n t.1, deallocate_keeps t.0.1 r.1)

  pub read_memory-bytes :
      (pid a n : ℕ) (w : W) (bs : List ℕ)
      → (read_memory F pid a n w).0 ≡ ok bs
      → bs ≡ bytes_at (mem w) a n
  unfolding read_memory get_task
  read_memory-bytes pid a zero w bs h = ground arith
  read_memory-bytes pid a (suc n) w bs h =
      let t = F.task_for_pid pid w in
      ground (arith, read_bytes t.0.1 a (suc n) t.1, task_keeps pid w)

  -- Making the page writable touches no byte.
  unprotect-keeps : (t p o m : ℕ) (w : W) → mem (unprotect F t p o m w).1 ≡ mem w
  unfolding unprotect
  unprotect-keeps t p o m w = elim (Bool-cases (bit_and o 2 == 0)) [
    | inl e ↦ rw e (protect_keeps t p 4096 (write_protection o m) w)
    | inr e ↦ rw e
  ]

  -- A write that returns `ok` has stored the bytes, and one that does not has stored none.
  pub write_memory-mem :
      (pid a : ℕ) (bs : List ℕ) (w : W)
      → mem (write_memory F pid a bs w).1
        ≡ (if is_ok (write_memory F pid a bs w).0 then overlay (mem w) a bs else mem w)
  unfolding write_memory get_task
  write_memory-mem pid a bs w =
      let t = F.task_for_pid pid w in
      let g = F.vm_region t.0.1 a t.1 in
      let d = F.port_deallocate g.0.1.object_name g.1 in
      let p = bit_and a (not64 4095) in
      let o = unprotect F t.0.1 p g.0.1.protection g.0.1.max_protection d in
      let r = F.vm_write t.0.1 a bs o.1 in
      let c = F.vm_protect t.0.1 p 4096 g.0.1.protection r.1 in
      ground (
        arith,
        task_keeps pid w,
        region_keeps t.0.1 a t.1,
        deallocate_keeps t.0.1 g.1,
        deallocate_keeps g.0.1.object_name g.1,
        unprotect-keeps t.0.1 p g.0.1.protection g.0.1.max_protection d,
        write_bytes t.0.1 a bs o.1,
        write_nothing t.0.1 a bs o.1,
        protect_keeps t.0.1 p 4096 g.0.1.protection r.1,
        deallocate_keeps t.0.1 r.1,
        deallocate_keeps t.0.1 c.1,
      )
