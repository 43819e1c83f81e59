-- ===== src/Debugger/Arm/Hit.antt =====
-- src/debugger.rs, aarch64: what a stop was caused by. A changed value stands for a watchpoint's hit.
use macos_c_debugger_rust.Base.{
  ℕ, suc, List, [], ◌∷◌, Option, none, some, ◌==◌, if◌then◌else◌, set as set_elem, is_some,
  unwrap_or,
}
use macos_c_debugger_rust.Base.Text.{text_eq}
use macos_c_debugger_rust.Io.{Io, ok, ◌>>=◌, ◌>>◌, attempt}
use macos_c_debugger_rust.Mach.{Foreign}
use macos_c_debugger_rust.Mach.Arm.{ArmForeign, get_registers, set_registers}
use macos_c_debugger_rust.Register.Watch.{as_bytes}
use macos_c_debugger_rust.Debugger.{ThreadEntry, stopped, sigtrap, read_memory}
use macos_c_debugger_rust.Debugger.Break.{armed}
use macos_c_debugger_rust.Debugger.Hit.{trap_address, or_hit, record_hit}
use macos_c_debugger_rust.Debugger.Arm.{
  ArmState, WatchpointInfo, call, lift, change, dbg_of, numbered,
}

module _ {W : Type 0} (F : Foreign W) (G : ArmForeign W) where
  unfoldable pub rewind : ℕ → Option (ℕ × ℕ) → List ThreadEntry → Io (ArmState W) (Option (ℕ × ℕ))
  rewind i hit [] s = (ok hit, s)
  rewind i hit (t ∷ ts) s =
      (attempt (call (get_registers G t.port)) >>= λ found. elim found [
        | none ↦ rewind (suc i) hit ts
        | some regs ↦ λ s.
            let at = trap_address (dbg_of s) regs.pc in
            let back =
              (call (set_registers G t.port (record regs { pc = at }))
                  >> rewind (suc i) (or_hit hit (i, at)) ts)
                s in
            let on = rewind (suc i) hit ts s in if armed at (dbg_of s) then back else on
      ])
        s

  unfoldable pub handle_breakpoint_hit : Io (ArmState W) (Unit {0})
  unfolding rewind
  handle_breakpoint_hit s = elim (dbg_of s).last_status [
    | some (stopped signal at) ↦
        if signal == sigtrap
        then ((rewind 0 none (dbg_of s).threads >>= λ hit. elim hit [
          | none ↦ λ s. (ok tt, s)
          | some h ↦ change (record_hit signal h)
        ])
            s)
        else (ok tt, s)
    | _ ↦ (ok tt, s)
  ]

  -- The bytes at a watchpoint.
  unfoldable pub watched_bytes : WatchpointInfo → Io (ArmState W) (List ℕ)
  unfolding read_memory as_bytes
  watched_bytes info = attempt (lift (read_memory F info.addr (as_bytes info.size))) >>= λ cur s.
      (ok (unwrap_or cur []), s)

  -- The used slot, of those with their numbers, whose bytes have changed.
  unfoldable pub find_change : List (ℕ × WatchpointInfo) → Io (ArmState W) (Option ℕ)
  unfolding watched_bytes
  find_change [] s = (ok none, s)
  find_change (w ∷ ws) s =
      let rest = find_change ws in
      (watched_bytes w.1 >>= λ cur s.
      let on = rest s in
      if text_eq cur (w.1).prev_value then on else (
        ok (some (w.1).addr),
        record s { wp_slots = set_elem s.wp_slots w.0 (some (record (w.1) { prev_value = cur })) },
      ))
        s

  abbrev pub first_used : List (ℕ × WatchpointInfo) → Option ℕ
  first_used [] = none
  first_used (w ∷ ws) = some (w.1).addr

  abbrev pub report : Option ℕ → Io (ArmState W) (Unit {0})
  report none s = (ok tt, s)
  report (some addr) s = change (λ d. record d { at_watchpoint = some addr }) s

  unfoldable pub handle_watchpoint_hit : Io (ArmState W) (Unit {0})
  unfolding find_change numbered
  handle_watchpoint_hit = change (λ d. record d { at_watchpoint = none }) >> λ s.
      elim (dbg_of s).last_status [
        | some (stopped signal at) ↦
            if (signal == sigtrap)
            then (if is_some (dbg_of s).at_breakpoint
                then (ok tt, s)
                else ((find_change (numbered 0 s.wp_slots) >>= λ found s. elim found [
                  | some addr ↦ report (some addr) s
                  | none ↦ report (first_used (numbered 0 s.wp_slots)) s
                ])
                    s))
            else (ok tt, s)
        | _ ↦ (ok tt, s)
      ]
