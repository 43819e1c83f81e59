-- ===== src/Debugger/Break.antt =====
-- src/debugger.rs, x86_64: breakpoints set and removed.
use macos_c_debugger_rust.Base.{ℕ, Bool, false, List, Option, none, some, ◌==◌, if◌then◌else◌, map}
use macos_c_debugger_rust.Base.Assoc.{lookup, insert, remove}
use macos_c_debugger_rust.Breakpoint
use macos_c_debugger_rust.Breakpoint.{Breakpoint}
use macos_c_debugger_rust.Disasm.{sort}
use macos_c_debugger_rust.Io.{Io, ◌>>=◌, ◌>>◌}
use macos_c_debugger_rust.Mach.{Foreign}
use macos_c_debugger_rust.Debugger.{State, Debugger, kernel, modify}

abbrev pub is_at : Option ℕ → ℕ → Bool
is_at none addr = false
is_at (some a) addr = a == addr

-- Whether an enabled breakpoint stands at the address.
abbrev pub armed : ℕ → Debugger → Bool
armed addr d = elim (lookup addr d.breakpoints) [ none ↦ false | some b ↦ b.enabled ]

abbrev pub store_breakpoint : ℕ → Breakpoint → Debugger → Debugger
store_breakpoint addr b d = record d { breakpoints = insert addr b d.breakpoints }

abbrev pub drop_breakpoint : ℕ → Debugger → Debugger
drop_breakpoint addr d = record d { breakpoints = remove addr d.breakpoints }

abbrev pub forget_hit : ℕ → Debugger → Debugger
forget_hit addr d = if is_at d.at_breakpoint addr then record d { at_breakpoint = none } else d

unfoldable pub breakpoint_addrs : Debugger → List ℕ
breakpoint_addrs d = sort (map (λ e. e.0) d.breakpoints)

module _ {W : Type 0} (F : Foreign W) where
  unfoldable pub set_breakpoint : ℕ → Io (State W) (Unit {0})
  set_breakpoint addr s =
      (kernel (Breakpoint.enable F s.dbg.pid (Breakpoint.new addr s.dbg.arch)) >>= λ b.
      modify (store_breakpoint addr b))
        s

  unfoldable pub remove_breakpoint : ℕ → Io (State W) (Unit {0})
  remove_breakpoint addr s = elim (lookup addr s.dbg.breakpoints) [
    | none ↦ modify (forget_hit addr) s
    | some b ↦
        (modify (drop_breakpoint addr)
            >> (kernel (Breakpoint.disable F s.dbg.pid b) >>= λ _. modify (forget_hit addr)))
          s
  ]
