-- ===== src/Breakpoint/Memory.antt =====
-- src/breakpoint.rs: what enabling and disabling a breakpoint does to the memory.
use macos_c_debugger_rust.Base.{ℕ, true, false, if◌then◌else◌, ◌≡◌, arith, inl, inr}
use macos_c_debugger_rust.Arch.{bp_bytes, bp_size}
use macos_c_debugger_rust.Breakpoint
use macos_c_debugger_rust.Breakpoint.{Breakpoint}
use macos_c_debugger_rust.Io.{ok, is_ok, ok-cases}
use macos_c_debugger_rust.Mach.{Foreign}
use macos_c_debugger_rust.Mach.Memory
use macos_c_debugger_rust.Mach.Bytes.{
  HasMemory, bytes_at, overlay, read_memory-bytes, read_memory-keeps, write_memory-mem,
}

module _ {W : Type 0} {F : Foreign W} (M : HasMemory F) where
  open M use {mem}

  -- Enabling writes the breakpoint instruction or nothing, and saves the bytes that were there.
  pub enable-mem :
      (pid : ℕ) (b : Breakpoint) (w : W)
      → b.enabled ≡ false
      → mem (Breakpoint.enable F pid b w).1 ≡ (
          if is_ok (Breakpoint.enable F pid b w).0
          then overlay (mem w) b.addr (bp_bytes b.arch)
          else mem w)
  unfolding Breakpoint.enable
  enable-mem pid b w off =
      let r = Memory.read_memory F pid b.addr (bp_size b.arch) w in
      ground (
        arith,
        read_memory-keeps F M pid b.addr (bp_size b.arch) w,
        write_memory-mem F M pid b.addr (bp_bytes b.arch) r.1,
      )

  pub enable-saved :
      (pid : ℕ) (b c : Breakpoint) (w : W)
      → b.enabled ≡ false
      → (Breakpoint.enable F pid b w).0 ≡ ok c
      → c ≡ record b { enabled = true; saved_bytes = bytes_at (mem w) b.addr (bp_size b.arch) }
  unfolding Breakpoint.enable
  enable-saved pid b c w off h =
      let r = Memory.read_memory F pid b.addr (bp_size b.arch) w in
      elim (ok-cases r.0) [
        | inl e ↦ absurd (ground (arith, e, h))
        | inr (bs, e) ↦
            ground (arith, e, h, read_memory-bytes F M pid b.addr (bp_size b.arch) w bs e)
      ]

  pub disable-mem :
      (pid : ℕ) (b : Breakpoint) (w : W)
      → b.enabled ≡ true
      → mem (Breakpoint.disable F pid b w).1 ≡ (
          if is_ok (Breakpoint.disable F pid b w).0
          then overlay (mem w) b.addr b.saved_bytes
          else mem w)
  unfolding Breakpoint.disable
  disable-mem pid b w on = ground (arith, write_memory-mem F M pid b.addr b.saved_bytes w)
