-- ===== src/Mach/Float.antt =====
-- src/mach.rs and src/debugger.rs, x86_64: the floating-point registers of a thread. The two calls of
-- the kernel are the fields of a record of their own.
use macos_c_debugger_rust.Base.{ℕ}
use macos_c_debugger_rust.Io.{Io}
use macos_c_debugger_rust.Mach.{mach_err}
use macos_c_debugger_rust.Register.Float.{FloatState64}

pub record FloatForeign (W : Type 0) : Type 0 where
  pub thread_get_float : ℕ → W → (ℕ × FloatState64) × W
  pub thread_set_float : ℕ → FloatState64 → W → ℕ × W

module _ {W : Type 0} (G : FloatForeign W) where
  unfoldable pub get_float_registers : ℕ → Io W FloatState64
  get_float_registers port w = let r = G.thread_get_float port w in (mach_err r.0.0 r.0.1, r.1)

  unfoldable pub set_float_registers : ℕ → FloatState64 → Io W (Unit {0})
  set_float_registers port state w =
      let r = G.thread_set_float port state w in (mach_err r.0 tt, r.1)
