-- ===== src/Debugger/Arm/Disarmed.antt =====
-- src/debugger.rs, aarch64: breakpoints taken out of their slots.
use macos_c_debugger_rust.Base.{
  ℕ, suc, zero, Bool, true, false, List, [], ◌∷◌, none, some, ◌≡◌, ◌≢◌, refl, ap, ◌∙◌, ◌<◌, arith,
  ◌==◌, if◌then◌else◌, set as set_elem, get_elem?, length, length-set, position_from,
  position_from-get, inl, inr, Bool-cases, Option-cases,
}
use macos_c_debugger_rust.Base.Assoc.{lookup, remove, lookup-remove}
use macos_c_debugger_rust.Breakpoint.{Breakpoint}
use macos_c_debugger_rust.Io.{ok, is_ok, ok-cases}
use macos_c_debugger_rust.Mach.Arm.{ArmForeign}
use macos_c_debugger_rust.Debugger.Break.{forget_hit, is_at}
use macos_c_debugger_rust.Debugger.Rewinding.{has_port}
use macos_c_debugger_rust.Debugger.Arm.{
  ArmState, holds, dbg_of, find_hw_slot, release_hw_slot, clear_slot, free_slot, remove_breakpoint,
}
use macos_c_debugger_rust.Debugger.Arm.Loaded.{HasDebug, with_slot, clear_slot-debug}
use macos_c_debugger_rust.Debugger.Arm.Armed.{Shows-set, get_elem?-set, IsArmed}

pub position_from-all :
    {A : Type 0} (p : A → Bool) (i k : ℕ) (xs : List A) (x : A)
    → position_from i p xs ≡ none
    → get_elem? xs k ≡ some x
    → p x ≡ false
unfolding position_from
position_from-all p i k [] x h g = cc
position_from-all p i zero (y ∷ ys) x h g = ground (arith, h, g)
position_from-all p i (suc k) (y ∷ ys) x h g =
    position_from-all p (suc i) k ys x (ground (arith, h)) g

module _ {W : Type 0} where
  -- The state after the breakpoint of a slot has been taken out.
  abbrev pub without_breakpoint : ℕ → ℕ → W → ArmState W → ArmState W
  without_breakpoint addr slot w s = record s {
    common = record (s.common) {
      world = w;
      dbg = record (dbg_of s) { breakpoints = remove addr (dbg_of s).breakpoints };
    };
    hw_bp_slots = set_elem s.hw_bp_slots slot none;
  }

  abbrev pub forgetting : ℕ → ArmState W → ArmState W
  forgetting addr s = record s { common = record (s.common) { dbg = forget_hit addr (dbg_of s) } }

  pub lookup-forgetting :
      (addr : ℕ) (s : ArmState W) (m : List (ℕ × Breakpoint))
      → (dbg_of s).breakpoints ≡ remove addr m
      → lookup addr (dbg_of (forgetting addr s)).breakpoints ≡ none
  lookup-forgetting addr s m e = ground (arith, e, lookup-remove addr addr m)

module _ {W : Type 0} {G : ArmForeign W} (H : HasDebug G) where
  open H use {debug}

  forgetting-IsArmed : (addr : ℕ) (s : ArmState W) → IsArmed H s → IsArmed H (forgetting addr s)
  forgetting-IsArmed addr s h = elim (Bool-cases (is_at (dbg_of s).at_breakpoint addr)) [
    | inl e ↦ rw e (record {
      sixteen = h.sixteen;
      held = h.held;
      placed = h.placed;
      apart = h.apart;
      shown = h.shown;
    })
    | inr e ↦ rw e (record {
      sixteen = h.sixteen;
      held = h.held;
      placed = h.placed;
      apart = h.apart;
      shown = h.shown;
    })
  ]

  -- The slot that find_hw_slot returns holds the address.
  pub find_hw_slot-holds :
      (addr slot : ℕ) (s : ArmState W)
      → find_hw_slot addr s ≡ some slot
      → (get_elem? s.hw_bp_slots slot ≡ some (some addr)) × (slot < length s.hw_bp_slots)
  unfolding find_hw_slot
  find_hw_slot-holds addr slot s e =
      let (x, _, inside, at, found) = position_from-get (holds addr) 0 slot s.hw_bp_slots e in
      (ground (arith, at, found), omega (arith, inside))

  -- The parts of a remove_breakpoint that returns ok.
  pub remove_breakpoint-parts :
      (addr slot : ℕ) (s : ArmState W)
      → find_hw_slot addr s ≡ some slot
      → (remove_breakpoint G addr s).0 ≡ ok tt
      → (w : W) × ((q : ℕ)
          → debug w q ≡ (
              if has_port q (dbg_of s).threads
              then with_slot (debug s.common.world q) slot 0 0
              else debug s.common.world q))
        × ((remove_breakpoint G addr s).1 ≡ forgetting addr (without_breakpoint addr slot w s))
  unfolding remove_breakpoint free_slot release_hw_slot
  remove_breakpoint-parts addr slot s e done =
      elim (ok-cases (clear_slot G slot (dbg_of s).threads s).0) [
        | inl f ↦ absurd (ground (arith, e, f, done))
        | inr (u, f) ↦
            let (kept, regs) = clear_slot-debug H slot (dbg_of s).threads s (ap is_ok f) in
            (
              (clear_slot G slot (dbg_of s).threads s).1.common.world,
              regs,
              ground (arith, e, f, kept),
            )
      ]

  module _ (addr slot : ℕ) (w : W) (s : ArmState W) (h : IsArmed H s)
      (full : get_elem? s.hw_bp_slots slot ≡ some (some addr))
      (inside : slot < length s.hw_bp_slots) where
    at_freed :
        (k : ℕ)
        → get_elem? (set_elem s.hw_bp_slots slot none) k
          ≡ (if slot == k then some none else get_elem? s.hw_bp_slots k)
    at_freed k = get_elem?-set s.hw_bp_slots slot k none inside

    still-held :
        (k a : ℕ)
        → get_elem? (set_elem s.hw_bp_slots slot none) k ≡ some (some a)
        → (b : Breakpoint) × (lookup a (remove addr (dbg_of s).breakpoints) ≡ some b)
          × (b.enabled ≡ true)
    still-held k a e =
        let g : get_elem? s.hw_bp_slots k ≡ some (some a) = ground (arith, e, at_freed k) in
        let (b, l, on) = h.held k a g in
        let other : addr ≢ a =
          λ q. ground (arith, at_freed k, e, q, h.apart slot k a (rw (← q) full) g) in
        (b, ground (arith, l, other, lookup-remove addr a (dbg_of s).breakpoints), on)

    still-placed :
        (a : ℕ) (b : Breakpoint)
        → lookup a (remove addr (dbg_of s).breakpoints) ≡ some b
        → (k : ℕ) × (get_elem? (set_elem s.hw_bp_slots slot none) k ≡ some (some a))
    still-placed a b e =
        let l : lookup a (dbg_of s).breakpoints ≡ some b =
          ground (arith, e, lookup-remove addr a (dbg_of s).breakpoints) in
        let (k, g) = h.placed a b l in
        (k, ground (arith, e, full, g, at_freed k, lookup-remove addr a (dbg_of s).breakpoints))

    without_breakpoint-IsArmed :
        ((q : ℕ)
          → debug w q ≡ (
              if has_port q (dbg_of s).threads
              then with_slot (debug s.common.world q) slot 0 0
              else debug s.common.world q))
        → IsArmed H (without_breakpoint addr slot w s)
    without_breakpoint-IsArmed regs = record {
      sixteen = length-set s.hw_bp_slots slot none ∙ h.sixteen;
      held = still-held;
      placed = still-placed;
      apart = λ j k a e f. ground (arith, e, f, at_freed j, at_freed k, h.apart j k a);
      shown = λ q p.
          rw (regs q, p)
            (Shows-set (debug s.common.world q) s.hw_bp_slots slot 0 0 none (h.shown q p) refl
              (omega (arith, inside, h.sixteen)) inside);
    }

  -- Without a slot of the address nothing is taken out.
  no_slot-IsArmed :
      (addr : ℕ) (s : ArmState W)
      → IsArmed H s
      → find_hw_slot addr s ≡ none
      → IsArmed H (record s {
        common = record (s.common) {
          dbg = record (dbg_of s) { breakpoints = remove addr (dbg_of s).breakpoints };
        };
      })
  unfolding find_hw_slot
  no_slot-IsArmed addr s h e = record {
    sixteen = h.sixteen;
    held = λ k a g.
        let (b, l, on) = h.held k a g in
        (
          b,
          ground (
            arith,
            l,
            lookup-remove addr a (dbg_of s).breakpoints,
            position_from-all (holds addr) 0 k s.hw_bp_slots (some a) e g,
          ),
          on,
        );
    placed = λ a b l. h.placed a b (ground (arith, l, lookup-remove addr a (dbg_of s).breakpoints));
    apart = h.apart;
    shown = h.shown;
  }

  remove_breakpoint-no_slot :
      (addr : ℕ) (s : ArmState W)
      → find_hw_slot addr s ≡ none
      → (remove_breakpoint G addr s).1
        ≡ forgetting addr (record s {
          common = record (s.common) {
            dbg = record (dbg_of s) { breakpoints = remove addr (dbg_of s).breakpoints };
          };
        })
  unfolding remove_breakpoint free_slot
  remove_breakpoint-no_slot addr s e = ground (arith, e)

  -- On aarch64, a remove_breakpoint that returns ok preserves the same invariant of slots,
  -- breakpoints and debug registers, and no breakpoint is left at the address.
  pub remove_breakpoint-IsArmed :
      (addr : ℕ) (s : ArmState W)
      → IsArmed H s
      → (remove_breakpoint G addr s).0 ≡ ok tt
      → IsArmed H (remove_breakpoint G addr s).1
        × (lookup addr (dbg_of (remove_breakpoint G addr s).1).breakpoints ≡ none)
  remove_breakpoint-IsArmed addr s h done = elim (Option-cases (find_hw_slot addr s)) [
    | inl e ↦
        let bare : ArmState W = record s {
          common = record (s.common) {
            dbg = record (dbg_of s) { breakpoints = remove addr (dbg_of s).breakpoints };
          };
        } in
        rw (remove_breakpoint-no_slot addr s e) (
          forgetting-IsArmed addr bare (no_slot-IsArmed addr s h e),
          lookup-forgetting addr bare (dbg_of s).breakpoints refl,
        )
    | inr (slot, e) ↦
        let (w, regs, z) = remove_breakpoint-parts addr slot s e done in
        let (full, inside) = find_hw_slot-holds addr slot s e in
        let out = without_breakpoint addr slot w s in
        rw z (
          forgetting-IsArmed addr out (without_breakpoint-IsArmed addr slot w s h full inside regs),
          lookup-forgetting addr out (dbg_of s).breakpoints refl,
        )
  ]
