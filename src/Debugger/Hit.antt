-- ===== src/Debugger/Hit.antt =====
-- src/debugger.rs, x86_64: what a stop was caused by.
use macos_c_debugger_rust.Base.{
  ℕ, suc, List, [], ◌∷◌, Option, none, some, ◌==◌, if◌then◌else◌, ◌+◌, ◌-◌, ◌%◌, ◌^◌, get_elem?,
  is_some,
}
use macos_c_debugger_rust.Arch.{bp_pc_offset}
use macos_c_debugger_rust.Io.{Io, ok, ◌>>=◌, ◌>>◌, attempt}
use macos_c_debugger_rust.Mach.{Foreign, get_registers, set_registers}
use macos_c_debugger_rust.Mach.Debug.{watchpoint_hit_slots}
use macos_c_debugger_rust.Register.Intel.{pc, set_pc}
use macos_c_debugger_rust.Debugger.{
  State, Debugger, ThreadEntry, WatchpointInfo, stopped, kernel, modify, sigtrap,
}
use macos_c_debugger_rust.Debugger.Break.{armed}

-- `pc.wrapping_sub(self.arch.bp_pc_offset())`.
abbrev pub trap_address : Debugger → ℕ → ℕ
trap_address d at = (at + 2 ^ 64 - bp_pc_offset d.arch) % 2 ^ 64

-- The thread and breakpoint found first.
abbrev pub or_hit : Option (ℕ × ℕ) → ℕ × ℕ → Option (ℕ × ℕ)
or_hit none h = some h
or_hit (some g) h = some g

abbrev pub record_hit : ℕ → ℕ × ℕ → Debugger → Debugger
record_hit signal (i, addr) d = record d {
  at_breakpoint = some addr;
  current_thread = i;
  last_status = some (stopped signal addr);
}

abbrev pub info_at : List (Option WatchpointInfo) → ℕ → Option WatchpointInfo
info_at ws slot = elim (get_elem? ws slot) [ none ↦ none | some i ↦ i ]

module _ {W : Type 0} (F : Foreign W) where
  -- Every thread behind an enabled breakpoint is set back to it; the first is reported.
  unfoldable pub rewind : ℕ → Option (ℕ × ℕ) → List ThreadEntry → Io (State W) (Option (ℕ × ℕ))
  rewind i hit [] s = (ok hit, s)
  rewind i hit (t ∷ ts) s =
      (attempt (kernel (get_registers F t.port)) >>= λ found. elim found [
        | none ↦ rewind (suc i) hit ts
        | some regs ↦ λ s.
            let at = trap_address s.dbg (pc regs) in
            let back =
              (kernel (set_registers F t.port (set_pc regs at))
                  >> rewind (suc i) (or_hit hit (i, at)) ts)
                s in
            let on = rewind (suc i) hit ts s in if armed at s.dbg then back else on
      ])
        s

  unfoldable pub handle_breakpoint_hit : Io (State W) (Unit {0})
  handle_breakpoint_hit s = elim s.dbg.last_status [
    | some (stopped signal at) ↦
        if signal == sigtrap
        then ((rewind 0 none s.dbg.threads >>= λ hit. elim hit [
          | none ↦ λ s. (ok tt, s)
          | some h ↦ modify (record_hit signal h)
        ])
            s)
        else (ok tt, s)
    | _ ↦ (ok tt, s)
  ]

  -- The first thread whose first hit slot is in use.
  unfoldable pub find_hit : ℕ → List ThreadEntry → Io (State W) (Unit {0})
  find_hit i [] s = (ok tt, s)
  find_hit i (t ∷ ts) s =
      (kernel (watchpoint_hit_slots F t.port) >>= λ hits. elim hits [
        | [] ↦ find_hit (suc i) ts
        | slot ∷ _ ↦ λ s. elim (info_at s.dbg.wp_slots slot) [
          | none ↦ find_hit (suc i) ts s
          | some info ↦
              modify (λ d. record d { at_watchpoint = some info.addr; current_thread = i }) s
        ]
      ])
        s

  unfoldable pub handle_watchpoint_hit : Io (State W) (Unit {0})
  handle_watchpoint_hit = modify (λ d. record d { at_watchpoint = none }) >> λ s.
      elim s.dbg.last_status [
        | some (stopped signal at) ↦
            if (signal == sigtrap)
            then (if is_some s.dbg.at_breakpoint then (ok tt, s) else find_hit 0 s.dbg.threads s)
            else (ok tt, s)
        | _ ↦ (ok tt, s)
      ]
