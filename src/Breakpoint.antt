-- ===== src/Breakpoint.antt =====
-- src/breakpoint.rs: a software breakpoint. `enable` and `disable` return the changed breakpoint;
-- after an error every caller drops it.
pub mod Memory
use macos_c_debugger_rust.Base.{ℕ, Bool, true, false, List, [], if◌then◌else◌}
use macos_c_debugger_rust.Arch.{Arch, bp_bytes, bp_size}
use macos_c_debugger_rust.Io.{Io, ok, ◌>>=◌, and_then}
use macos_c_debugger_rust.Mach.{Foreign}
use macos_c_debugger_rust.Mach.Memory.{read_memory, write_memory}

pub record Breakpoint : Type 0 where
  pub addr : ℕ
  pub enabled : Bool
  pub saved_bytes : List ℕ
  pub arch : Arch

unfoldable pub new : ℕ → Arch → Breakpoint
new addr arch = record { addr = addr; enabled = false; saved_bytes = []; arch = arch }

-- A hardware breakpoint of ARM64 writes no code.
unfoldable pub new_hw_enabled : ℕ → Arch → Breakpoint
new_hw_enabled addr arch = record { addr = addr; enabled = true; saved_bytes = []; arch = arch }

module _ {W : Type 0} (F : Foreign W) where
  unfoldable pub enable : ℕ → Breakpoint → Io W Breakpoint
  enable pid b w =
      if b.enabled
      then (ok b, w)
      else ((read_memory F pid b.addr (bp_size b.arch) >>= λ saved.
            write_memory F pid b.addr (bp_bytes b.arch) >>= λ _ w.
            (ok (record b { enabled = true; saved_bytes = saved }), w))
          w)

  unfoldable pub disable : ℕ → Breakpoint → Io W Breakpoint
  disable pid b w =
      if b.enabled
      then ((write_memory F pid b.addr b.saved_bytes >>= λ _ w.
            (ok (record b { enabled = false }), w))
          w)
      else (ok b, w)

  unfoldable pub re_enable : ℕ → Breakpoint → Io W Breakpoint
  unfolding enable
  re_enable pid b w = if b.enabled then (ok b, w) else enable pid b w
