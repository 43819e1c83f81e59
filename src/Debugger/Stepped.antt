-- ===== src/Debugger/Stepped.antt =====
-- `step_current_thread` of src/debugger.rs: its temporary breakpoints come and go.
use macos_c_debugger_rust.Base.{
  ℕ, suc, true, false, List, [], ◌∷◌, Option, none, some, if◌then◌else◌, ◌≡◌, refl, ap, arith,
  unwrap_or, get_elem?, Bool-cases, Option-cases, inl, inr,
}
use macos_c_debugger_rust.Base.Assoc.{lookup}
use macos_c_debugger_rust.Disasm.{Disassembler, step_targets}
use macos_c_debugger_rust.Io.{ok, is_ok, ok-cases, attempt, for_each, and_then-ok}
use macos_c_debugger_rust.Mach
use macos_c_debugger_rust.Mach.{Foreign, deallocate_port, list_threads, thread_unique_id}
use macos_c_debugger_rust.Register.Intel.{pc, set_pc}
use macos_c_debugger_rust.Debugger.{
  State, ThreadEntry, WaitStatus, current_pc, registers, read_memory, current_thread_port,
}
use macos_c_debugger_rust.Debugger.Break.{armed, set_breakpoint}
use macos_c_debugger_rust.Debugger.Hit.{handle_breakpoint_hit, rewind, trap_address, or_hit}
use macos_c_debugger_rust.Debugger.Kept.{
  has, removing, removing-lookup, set_breakpoint-other, set_breakpoint-failed_lookup,
  set_breakpoint-IsEnabled, read_memory-dbg, IsEnabled,
}
use macos_c_debugger_rust.Debugger.Run.{
  install, resume_and_wait, place_targets, step_off, step_current_thread, final_status,
}
use macos_c_debugger_rust.Debugger.Wait.{wait, wait_loop, refresh_threads, new_entries, new_entry}
use macos_c_debugger_rust.Debugger.Watch.{
  apply_existing_bp_wp_to_thread, for_each-dbg, watchpoint_slots,
}

module _ {W : Type 0} (F : Foreign W) where
  apply-same :
      (port : ℕ) (s : State W)
      → (apply_existing_bp_wp_to_thread F port s).1.dbg.breakpoints ≡ s.dbg.breakpoints
  unfolding apply_existing_bp_wp_to_thread
  apply-same port s = ap (λ d. d.breakpoints) (for_each-dbg _ (watchpoint_slots s.dbg) s)

  new_entry-same :
      (old : List ThreadEntry) (p : ℕ) (s : State W)
      → (new_entry F old p s).1.dbg.breakpoints ≡ s.dbg.breakpoints
  unfolding new_entry
  new_entry-same old p s =
      let t : State W = record s { world = (thread_unique_id F p s.world).1 } in
      ground (arith, apply-same p t)

  new_entries-same :
      (old : List ThreadEntry) (ports : List ℕ) (s : State W)
      → (new_entries F old ports s).1.dbg.breakpoints ≡ s.dbg.breakpoints
  unfolding new_entries
  new_entries-same old [] s = refl
  new_entries-same old (p ∷ ps) s =
      ground (arith, new_entry-same old p s, new_entries-same old ps (new_entry F old p s).1)

  refresh_threads-same : (s : State W) → (refresh_threads F s).1.dbg.breakpoints ≡ s.dbg.breakpoints
  unfolding refresh_threads
  refresh_threads-same s =
      let listed = list_threads F s.dbg.task s.world in
      elim (ok-cases listed.0) [
        | inl e ↦ ground (arith, e)
        | inr (ports, e) ↦
            let t : State W = record { dbg = record (s.dbg) { threads = [] }; world = listed.1 } in
            let n = new_entries F s.dbg.threads ports t in
            ground (
              arith,
              e,
              new_entries-same s.dbg.threads ports t,
              for_each-dbg (λ (x : ThreadEntry). deallocate_port F x.port) s.dbg.threads n.1,
            )
      ]

  current_pc-same : (s : State W) → (current_pc F s).1.dbg.breakpoints ≡ s.dbg.breakpoints
  unfolding current_pc registers current_thread_port
  current_pc-same s = ground arith

  wait-same : (fuel : ℕ) (s : State W) → (wait F fuel s).1.dbg.breakpoints ≡ s.dbg.breakpoints
  unfolding wait
  wait-same fuel s =
      let t : State W = record s { world = (wait_loop F fuel s.dbg.pid s.world).1 } in
      let u = refresh_threads F t in
      ground (arith, refresh_threads-same t, current_pc-same t, current_pc-same u.1)

  rewind-same :
      (i : ℕ) (hit : Option (ℕ × ℕ)) (ts : List ThreadEntry) (s : State W)
      → (rewind F i hit ts s).1.dbg.breakpoints ≡ s.dbg.breakpoints
  unfolding rewind
  rewind-same i hit [] s = refl
  rewind-same i hit (t ∷ ts) s =
      let g = Mach.get_registers F t.port s.world in
      let u : State W = record s { world = g.1 } in
      elim (ok-cases g.0) [
        | inl e ↦ ground (arith, e, rewind-same (suc i) hit ts u)
        | inr (regs, e) ↦
            let at = trap_address s.dbg (pc regs) in
            let v : State W = record s {
              world = (Mach.set_registers F t.port (set_pc regs at) g.1).1;
            } in
            ground (
              arith,
              e,
              rewind-same (suc i) hit ts u,
              rewind-same (suc i) (or_hit hit (i, at)) ts v,
            )
      ]

  handle_breakpoint_hit-same :
      (s : State W) → (handle_breakpoint_hit F s).1.dbg.breakpoints ≡ s.dbg.breakpoints
  unfolding handle_breakpoint_hit
  handle_breakpoint_hit-same s = ground (arith, rewind-same 0 none s.dbg.threads s)

  resume_and_wait-same :
      (disasm : Disassembler) (fuel : ℕ) (s : State W)
      → (resume_and_wait F disasm fuel s).1.dbg.breakpoints ≡ s.dbg.breakpoints
  unfolding resume_and_wait
  resume_and_wait-same disasm fuel s =
      let u : State W = record s { world = (Mach.cont F s.dbg.pid s.world).1 } in
      let w = wait F fuel u in
      elim (ok-cases w.0) [
        | inl e ↦ ground (arith, e, wait-same fuel u)
        | inr (st, e) ↦
            let v : State W = record (w.1) { dbg = record (w.1.dbg) { last_status = some st } } in
            ground (arith, e, wait-same fuel u, handle_breakpoint_hit-same v)
      ]

module _ {W : Type 0} (F : Foreign W) (disasm : Disassembler) (fuel : ℕ) where
  install-skip :
      (a : ℕ) (more : List ℕ) (s : State W)
      → armed a s.dbg ≡ true
      → install F disasm fuel (a ∷ more) s ≡ install F disasm fuel more s
  unfolding install
  install-skip a more s e = ground (arith, e)

  -- A candidate without an enabled breakpoint: it is set, or it could not be.
  install-place :
      (a : ℕ) (more : List ℕ) (s : State W) (placed : List ℕ)
      → armed a s.dbg ≡ false
      → (install F disasm fuel (a ∷ more) s).0 ≡ ok placed
      → let t = (set_breakpoint F a s).1 in
        (rest : List ℕ) × ((install F disasm fuel more t).0 ≡ ok rest)
        × ((install F disasm fuel (a ∷ more) s).1 ≡ (install F disasm fuel more t).1)
        × (placed ≡ (if is_ok (set_breakpoint F a s).0 then a ∷ rest else rest))
  unfolding install
  install-place a more s placed off h =
      let t = (set_breakpoint F a s).1 in
      elim (ok-cases (install F disasm fuel more t).0) [
        | inl f ↦ absurd (ground (arith, off, h, f))
        | inr (rest, f) ↦ (rest, f, ground (arith, off, h, f), ground (arith, off, h, f))
      ]

  -- The installed addresses had no breakpoint, and the other breakpoints are as before.
  install-lookup :
      (cs : List ℕ) (s : State W) (placed : List ℕ)
      → IsEnabled s
      → (install F disasm fuel cs s).0 ≡ ok placed
      → (k : ℕ)
      → (has k placed ≡ true → lookup k s.dbg.breakpoints ≡ none)
        × (has k placed ≡ false
            → lookup k (install F disasm fuel cs s).1.dbg.breakpoints ≡ lookup k s.dbg.breakpoints)
  install-lookup [] s placed v h k =
      unfold install in (λ e. absurd (ground (arith, h, e)), λ e. refl)
  install-lookup (a ∷ more) s placed v h k = elim (Bool-cases (armed a s.dbg)) [
    | inl e ↦ let q = install-skip a more s e in rw q (install-lookup more s placed v (rw q at h) k)
    | inr e ↦
        let t = (set_breakpoint F a s).1 in
        let (rest, f, r, z) = install-place a more s placed e h in
        let ih = install-lookup more t rest (set_breakpoint-IsEnabled F a s v) f k in
        elim (Bool-cases (is_ok (set_breakpoint F a s).0)) [
          | inr bad ↦
              let same = set_breakpoint-failed_lookup F a k s bad in
              (
                λ p. ground (arith, ih.0, same, p, z, bad),
                λ p. rw r (ground (arith, ih.1, same, p, z, bad)),
              )
          | inl done ↦ (
            λ p. ground (arith, ih.0, v k, v a, set_breakpoint-other F a k s, p, z, done, e),
            λ p. rw r (ground (arith, ih.1, set_breakpoint-other F a k s, p, z, done)),
          )
        ]
  ]

  -- The candidates are tried in a state with the same debugger.
  place_targets-install :
      (s : State W) (placed : List ℕ)
      → (place_targets F disasm fuel s).0 ≡ ok placed
      → (cs : List ℕ) × (t : State W) × (t.dbg ≡ s.dbg)
        × (place_targets F disasm fuel s ≡ install F disasm fuel cs t)
  unfolding place_targets current_thread_port
  place_targets-install s placed h =
      elim (Option-cases (get_elem? s.dbg.threads s.dbg.current_thread)) [
        | inl e ↦ absurd (ground (arith, e, h))
        | inr (thread, e) ↦
            let g = Mach.get_registers F thread.port s.world in
            let u : State W = record s { world = g.1 } in
            elim (ok-cases g.0) [
              | inl f ↦ absurd (ground (arith, e, f, h))
              | inr (regs, f) ↦
                  let r = attempt (read_memory F (pc regs) 16) u in
                  elim (ok-cases r.0) [
                    | inl q ↦ absurd (ground (arith, e, f, q, h))
                    | inr (code, q) ↦ (
                      step_targets disasm (unwrap_or code []) (pc regs),
                      r.1,
                      ground (arith, read_memory-dbg F (pc regs) 16 u),
                      rw (place_targets, current_thread_port, e, f, q) refl,
                    )
                  ]
            ]
      ]

  step_off-lookup :
      (installed : List ℕ) (s : State W) (st : WaitStatus) (k : ℕ)
      → (step_off F disasm fuel installed s).0 ≡ ok st
      → lookup k (step_off F disasm fuel installed s).1.dbg.breakpoints
        ≡ (if has k installed then none else lookup k s.dbg.breakpoints)
  unfolding step_off final_status
  step_off-lookup installed s st k h =
      let t = (resume_and_wait F disasm fuel s).1 in
      let u = for_each (removing F) installed t in
      elim (ok-cases (resume_and_wait F disasm fuel s).0) [
        | inl e ↦ absurd (ground (arith, e, h))
        | inr (a, e) ↦ elim (ok-cases u.0) [
          | inl f ↦ absurd (ground (arith, e, f, h))
          | inr (b, f) ↦
              ground (
                arith,
                e,
                f,
                removing-lookup F k installed t f,
                resume_and_wait-same F disasm fuel s,
              )
        ]
      ]

  -- A step_current_thread that returns ok from a session whose breakpoints are all enabled leaves
  -- every breakpoint as it was: those set for the step are gone, and no other is changed.
  pub step_current_thread-lookup :
      (s : State W) (st : WaitStatus)
      → IsEnabled s
      → (step_current_thread F disasm fuel s).0 ≡ ok st
      → (k : ℕ)
      → lookup k (step_current_thread F disasm fuel s).1.dbg.breakpoints
        ≡ lookup k s.dbg.breakpoints
  unfolding step_current_thread
  step_current_thread-lookup s st v h k =
      let p = place_targets F disasm fuel s in
      let (placed, e, f) = and_then-ok p.0 p.1 (step_off F disasm fuel) h in
      let (cs, t, same, q) = place_targets-install s placed e in
      let i = install-lookup cs t placed (rw same v) (rw q at e) k in
      ground (arith, e, q, same, i.0, i.1, step_off-lookup placed p.1 st k f)
