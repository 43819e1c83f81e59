-- ===== src/Debugger/Arm/Twice.antt =====
-- src/debugger.rs, aarch64: what an error and a second breakpoint at an address leave behind.
use macos_c_debugger_rust.Base.{
  ℕ, true, List, none, some, ◌≡◌, ◌≢◌, refl, sym, subst, ◌∙◌, ◌<◌, arith, ◌==◌, if◌then◌else◌,
  set as set_elem, get_elem?, get_elem?-set_self, get_elem?-set_ne, length, inl, inr, Bool-cases,
  Option-cases, position_from, position_from-get,
}
use macos_c_debugger_rust.Base.Assoc.{lookup}
use macos_c_debugger_rust.Breakpoint.{Breakpoint}
use macos_c_debugger_rust.Io.{ok, ok-cases}
use macos_c_debugger_rust.Mach.Arm.{ArmForeign, hw_bp_bcr_enable, set_hw_breakpoint_slot}
use macos_c_debugger_rust.Debugger.{ThreadEntry}
use macos_c_debugger_rust.Debugger.Rewinding.{has_port}
use macos_c_debugger_rust.Debugger.Arm.{
  ArmState, holds, is_free, dbg_of, find_hw_slot, alloc_hw_slot, arm_slot, set_breakpoint,
  remove_breakpoint,
}
use macos_c_debugger_rust.Debugger.Arm.Loaded.{HasDebug, with_slot, for_each-world}
use macos_c_debugger_rust.Debugger.Arm.Armed.{IsArmed, set_breakpoint-parts, with_breakpoint}
use macos_c_debugger_rust.Debugger.Arm.Disarmed.{
  position_from-all, without_breakpoint, forgetting, find_hw_slot-holds, lookup-forgetting,
  remove_breakpoint-parts,
}

module _ {W : Type 0} {G : ArmForeign W} (H : HasDebug G) where
  open H use {debug}

  -- A slot that holds the address and that every listed thread stops at.
  pub record Stray (addr : ℕ) (s : ArmState W) : Type 0 where
    pub slot : ℕ
    pub taken : get_elem? s.hw_bp_slots slot ≡ some (some addr)
    pub armed :
        (q : ℕ)
        → has_port q (dbg_of s).threads ≡ true
        → (get_elem? (debug s.common.world q).bvr slot ≡ some addr)
          × (get_elem? (debug s.common.world q).bcr slot ≡ some hw_bp_bcr_enable)
    pub forgotten : lookup addr (dbg_of s).breakpoints ≡ none

  find_hw_slot-none :
      (addr k : ℕ) (t : ArmState W)
      → find_hw_slot addr t ≡ none
      → get_elem? t.hw_bp_slots k ≢ some (some addr)
  unfolding find_hw_slot
  find_hw_slot-none addr k t e g =
      ground (arith, position_from-all (holds addr) 0 k t.hw_bp_slots (some addr) e g)

  -- A slot that holds the address, with the registers of all listed threads.
  abbrev Holds : ℕ → ℕ → ArmState W → Type 0
  Holds addr k s =
      (get_elem? s.hw_bp_slots k ≡ some (some addr))
      × ((q : ℕ)
          → has_port q (dbg_of s).threads ≡ true
          → (get_elem? (debug s.common.world q).bvr k ≡ some addr)
            × (get_elem? (debug s.common.world q).bcr k ≡ some hw_bp_bcr_enable))

  -- One of two slots is left when another one, or one of them, is taken out.
  Stray-left :
      (addr k m : ℕ) (w : W) (t : ArmState W)
      → m ≢ k
      → m < length t.hw_bp_slots
      → Holds addr k t
      → ((q : ℕ)
          → debug w q ≡ (
              if has_port q (dbg_of t).threads
              then with_slot (debug t.common.world q) m 0 0
              else debug t.common.world q))
      → Stray addr (forgetting addr (without_breakpoint addr m w t))
  Stray-left addr k m w t ne inside h regs = record {
    slot = k;
    taken = get_elem?-set_ne t.hw_bp_slots m k none ne ∙ h.0;
    armed = λ q p.
        let there : has_port q (dbg_of t).threads ≡ true = ground (arith, p) in
        rw (regs q, there)
          (
            get_elem?-set_ne (debug t.common.world q).bvr m k 0 ne ∙ (h.1 q there).0,
            get_elem?-set_ne (debug t.common.world q).bcr m k 0 ne ∙ (h.1 q there).1,
          );
    forgotten = lookup-forgetting addr (without_breakpoint addr m w t) (dbg_of t).breakpoints refl;
  }

  Holds-new :
      (addr slot : ℕ) (w : W) (s : ArmState W)
      → IsArmed H s
      → slot < length s.hw_bp_slots
      → ((q : ℕ)
          → debug w q ≡ (
              if has_port q (dbg_of s).threads
              then with_slot (debug s.common.world q) slot addr hw_bp_bcr_enable
              else debug s.common.world q))
      → Holds addr slot (with_breakpoint addr slot w s)
  Holds-new addr slot w s h inside regs = (
    get_elem?-set_self s.hw_bp_slots slot (some addr) inside,
    λ q p.
        let i : slot < 16 = omega (arith, inside, h.sixteen) in
        rw (regs q, p)
          (
            get_elem?-set_self (debug s.common.world q).bvr slot addr
                (omega (arith, i, (h.shown q p).values)),
            get_elem?-set_self (debug s.common.world q).bcr slot hw_bp_bcr_enable
                (omega (arith, i, (h.shown q p).controls)),
          ),
  )

  Holds-old :
      (addr slot k : ℕ) (w : W) (s : ArmState W)
      → IsArmed H s
      → slot ≢ k
      → get_elem? s.hw_bp_slots k ≡ some (some addr)
      → ((q : ℕ)
          → debug w q ≡ (
              if has_port q (dbg_of s).threads
              then with_slot (debug s.common.world q) slot addr hw_bp_bcr_enable
              else debug s.common.world q))
      → Holds addr k (with_breakpoint addr slot w s)
  Holds-old addr slot k w s h ne g regs = (
    get_elem?-set_ne s.hw_bp_slots slot k (some addr) ne ∙ g,
    λ q p.
        let loaded = rw g at ((h.shown q p).loads k) in
        rw (regs q, p)
          (
            get_elem?-set_ne (debug s.common.world q).bvr slot k addr ne ∙ loaded.0,
            get_elem?-set_ne (debug s.common.world q).bcr slot k hw_bp_bcr_enable ne ∙ loaded.1,
          ),
  )

  -- Two slots with the address, one of which is taken out.
  left :
      (addr : ℕ) (t : ArmState W) (j k : ℕ)
      → j ≢ k
      → Holds addr j t
      → Holds addr k t
      → (remove_breakpoint G addr t).0 ≡ ok tt
      → Stray addr (remove_breakpoint G addr t).1
  left addr t j k ne one two done = elim (Option-cases (find_hw_slot addr t)) [
    | inl e ↦ absurd (ground (arith, find_hw_slot-none addr j t e one.0))
    | inr (m, e) ↦
        let (full, inside) = find_hw_slot-holds H addr m t e in
        let (w, regs, z) = remove_breakpoint-parts H addr m t e done in
        rw z (elim (Bool-cases (m == j)) [
          | inl q ↦ Stray-left addr k m w t (λ p. ne (ground (arith, p, q))) inside two regs
          | inr q ↦ Stray-left addr j m w t (λ p. ground (arith, p, q)) inside one regs
        ])
  ]

  -- On aarch64, under the invariant of slots, breakpoints and debug registers, a second
  -- set_breakpoint at an address that has one, followed by remove_breakpoint, both returning ok,
  -- leaves a slot with the address that every listed thread stops at, without a breakpoint there.
  pub set_twice-Stray :
      (addr : ℕ) (b : Breakpoint) (s : ArmState W)
      → IsArmed H s
      → lookup addr (dbg_of s).breakpoints ≡ some b
      → (set_breakpoint G addr s).0 ≡ ok tt
      → (remove_breakpoint G addr (set_breakpoint G addr s).1).0 ≡ ok tt
      → Stray addr (remove_breakpoint G addr (set_breakpoint G addr s).1).1
  set_twice-Stray addr b s h old set_ok remove_ok =
      let (slot, free, inside, w, regs, z) = set_breakpoint-parts H addr s set_ok in
      let (k, g) = h.placed addr b old in
      let ne : slot ≢ k = λ q. ground (arith, q, free, g) in
      subst (λ t. Stray addr (remove_breakpoint G addr t).1) (sym z)
        (left addr (with_breakpoint addr slot w s) slot k ne (Holds-new addr slot w s h inside regs)
          (Holds-old addr slot k w s h ne g regs)
          (subst (λ t. (remove_breakpoint G addr t).0 ≡ ok tt) z remove_ok))

module _ {W : Type 0} (G : ArmForeign W) where
  arm_slot-world :
      (slot addr : ℕ) (ts : List ThreadEntry) (s : ArmState W)
      → let z = (arm_slot G slot addr ts s).1 in
        z ≡ record s { common = record (s.common) { world = z.common.world } }
  unfolding arm_slot
  arm_slot-world slot addr ts s =
      for_each-world (λ (t : ThreadEntry). set_hw_breakpoint_slot G t.port slot addr) ts s

  pub set_breakpoint-leak :
      (addr slot : ℕ) (s : ArmState W)
      → position_from 0 is_free s.hw_bp_slots ≡ some slot
      → (set_breakpoint G addr s).0 ≢ ok tt
      → (get_elem? (set_breakpoint G addr s).1.hw_bp_slots slot ≡ some (some addr))
        × ((dbg_of (set_breakpoint G addr s).1).breakpoints ≡ (dbg_of s).breakpoints)
  unfolding set_breakpoint alloc_hw_slot
  set_breakpoint-leak addr slot s e failed =
      let s' : ArmState W = record s { hw_bp_slots = set_elem s.hw_bp_slots slot (some addr) } in
      let (x, _, inside, at, free) = position_from-get is_free 0 slot s.hw_bp_slots e in
      let there = get_elem?-set_self s.hw_bp_slots slot (some addr) (omega (arith, inside)) in
      let kept = arm_slot-world slot addr (dbg_of s).threads s' in
      elim (ok-cases (arm_slot G slot addr (dbg_of s).threads s').0) [
        | inl f ↦ ground (arith, e, f, kept, there)
        | inr (u, f) ↦ absurd (failed (ground (arith, e, f)))
      ]
