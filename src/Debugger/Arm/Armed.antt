-- ===== src/Debugger/Arm/Armed.antt =====
-- src/debugger.rs, aarch64: the slots, the breakpoints and the debug registers of the threads agree.
use macos_c_debugger_rust.Base.{
  ℕ, true, List, Option, none, some, ◌≡◌, ◌≢◌, refl, sym, ap, subst, ◌∙◌, ◌<◌, arith, ◌==◌, ==_iff,
  if◌then◌else◌, set as set_elem, get_elem?, length, length-set, get_elem?-set_self,
  get_elem?-set_ne, position_from, position_from-get, inl, inr, Bool-cases, Option-cases,
}
use macos_c_debugger_rust.Base.Assoc.{lookup, insert, lookup-insert}
use macos_c_debugger_rust.Breakpoint.{Breakpoint, new_hw_enabled}
use macos_c_debugger_rust.Io.{ok, is_ok, ok-cases}
use macos_c_debugger_rust.Mach.Arm.{ArmForeign, ArmDebugState64, hw_bp_bcr_enable}
use macos_c_debugger_rust.Debugger.Rewinding.{has_port}
use macos_c_debugger_rust.Debugger.Arm.{
  ArmState, is_free, dbg_of, alloc_hw_slot, arm_slot, set_breakpoint,
}
use macos_c_debugger_rust.Debugger.Arm.Loaded.{HasDebug, with_slot, arm_slot-debug}

-- The value and control words of one slot of the registers: those of the address in the table, or a
-- control word of 0.
abbrev pub Loads : Option ℕ → Option ℕ → Option (Option ℕ) → Type 0
Loads v c (some (some a)) = (v ≡ some a) × (c ≡ some hw_bp_bcr_enable)
Loads v c (some none) = c ≡ some 0
Loads v c none = Unit {0}

pub record Shows (d : ArmDebugState64) (slots : List (Option ℕ)) : Type 0 where
  pub values : length d.bvr ≡ 16
  pub controls : length d.bcr ≡ 16
  pub loads : (k : ℕ) → Loads (get_elem? d.bvr k) (get_elem? d.bcr k) (get_elem? slots k)

pub get_elem?-set :
    {A : Type 0} (xs : List A) (i k : ℕ) (v : A)
    → i < length xs
    → get_elem? (set_elem xs i v) k ≡ (if i == k then some v else get_elem? xs k)
get_elem?-set xs i k v h = elim (Bool-cases (i == k)) [
  | inl e ↦
      let q : i ≡ k = (==_iff i k).0 e in
      rw e (subst (λ k. get_elem? (set_elem xs i v) k ≡ some v) q (get_elem?-set_self xs i v h))
  | inr e ↦ rw e (get_elem?-set_ne xs i k v (λ q. ground (arith, q, e)))
]

pub Shows-set :
    (d : ArmDebugState64) (slots : List (Option ℕ)) (slot v c : ℕ) (o : Option ℕ)
    → Shows d slots
    → Loads (some v) (some c) (some o)
    → slot < 16
    → slot < length slots
    → Shows (with_slot d slot v c) (set_elem slots slot o)
Shows-set d slots slot v c o h l i j = record {
  values = length-set d.bvr slot v ∙ h.values;
  controls = length-set d.bcr slot c ∙ h.controls;
  loads = λ k. rw (get_elem?-set d.bvr slot k v (omega (arith, h.values, i))) (
      rw (get_elem?-set d.bcr slot k c (omega (arith, h.controls, i)))
        (rw (get_elem?-set slots slot k o j) (chosen k)));
}
  where
    chosen :
        (k : ℕ)
        → Loads
            (if slot == k then some v else get_elem? d.bvr k)
            (if slot == k then some c else get_elem? d.bcr k)
            (if slot == k then some o else get_elem? slots k)
    chosen k = elim (Bool-cases (slot == k)) [ inl e ↦ rw e l | inr e ↦ rw e (h.loads k) ]

module _ {W : Type 0} where
  -- The state after a breakpoint has been put into a slot.
  abbrev pub with_breakpoint : ℕ → ℕ → W → ArmState W → ArmState W
  with_breakpoint addr slot w s = record s {
    common = record (s.common) {
      world = w;
      dbg = record (dbg_of s) {
        breakpoints = insert addr (new_hw_enabled addr (dbg_of s).arch) (dbg_of s).breakpoints;
      };
    };
    hw_bp_slots = set_elem s.hw_bp_slots slot (some addr);
  }

module _ {W : Type 0} {G : ArmForeign W} (H : HasDebug G) where
  open H use {debug}

  pub record IsArmed (s : ArmState W) : Type 0 where
    pub sixteen : length s.hw_bp_slots ≡ 16
    pub held :
        (k a : ℕ)
        → get_elem? s.hw_bp_slots k ≡ some (some a)
        → (b : Breakpoint) × (lookup a (dbg_of s).breakpoints ≡ some b) × (b.enabled ≡ true)
    pub placed :
        (a : ℕ) (b : Breakpoint)
        → lookup a (dbg_of s).breakpoints ≡ some b
        → (k : ℕ) × (get_elem? s.hw_bp_slots k ≡ some (some a))
    pub apart :
        (j k a : ℕ)
        → get_elem? s.hw_bp_slots j ≡ some (some a)
        → get_elem? s.hw_bp_slots k ≡ some (some a)
        → j ≡ k
    pub shown :
        (q : ℕ)
        → has_port q (dbg_of s).threads ≡ true
        → Shows (debug s.common.world q) s.hw_bp_slots

  -- The parts of a set_breakpoint that returns ok.
  pub set_breakpoint-parts :
      (addr : ℕ) (s : ArmState W)
      → (set_breakpoint G addr s).0 ≡ ok tt
      → (slot : ℕ) × (get_elem? s.hw_bp_slots slot ≡ some none)
        × (slot < length s.hw_bp_slots)
        × (w : W) × ((q : ℕ)
            → debug w q ≡ (
                if has_port q (dbg_of s).threads
                then with_slot (debug s.common.world q) slot addr hw_bp_bcr_enable
                else debug s.common.world q))
        × ((set_breakpoint G addr s).1 ≡ with_breakpoint addr slot w s)
  unfolding set_breakpoint alloc_hw_slot
  set_breakpoint-parts addr s done = elim (Option-cases (position_from 0 is_free s.hw_bp_slots)) [
    | inl e ↦ absurd (ground (arith, e, done))
    | inr (slot, e) ↦
        let (x, _, inside, at, free) = position_from-get is_free 0 slot s.hw_bp_slots e in
        let s' : ArmState W = record s { hw_bp_slots = set_elem s.hw_bp_slots slot (some addr) } in
        elim (ok-cases (arm_slot G slot addr (dbg_of s).threads s').0) [
          | inl f ↦ absurd (ground (arith, e, f, done))
          | inr (u, f) ↦
              let (kept, regs) = arm_slot-debug H slot addr (dbg_of s).threads s' (ap is_ok f) in
              (
                slot,
                ground (arith, at, free),
                omega (arith, inside),
                (arm_slot G slot addr (dbg_of s).threads s').1.common.world,
                regs,
                ground (arith, e, f, kept),
              )
        ]
  ]

  module _ (addr slot : ℕ) (w : W) (s : ArmState W) (h : IsArmed s)
      (new : lookup addr (dbg_of s).breakpoints ≡ none)
      (free : get_elem? s.hw_bp_slots slot ≡ some none) (inside : slot < length s.hw_bp_slots) where
    at_slot :
        (k : ℕ)
        → get_elem? (set_elem s.hw_bp_slots slot (some addr)) k
          ≡ (if slot == k then some (some addr) else get_elem? s.hw_bp_slots k)
    at_slot k = get_elem?-set s.hw_bp_slots slot k (some addr) inside

    not_held : (k : ℕ) → get_elem? s.hw_bp_slots k ≢ some (some addr)
    not_held k e = let (b, l, _) = h.held k addr e in cc

    new-held :
        (k a : ℕ)
        → get_elem? (set_elem s.hw_bp_slots slot (some addr)) k ≡ some (some a)
        → (b : Breakpoint) × (lookup a (with_breakpoint addr slot w s).common.dbg.breakpoints
            ≡ some b)
          × (b.enabled ≡ true)
    unfolding new_hw_enabled
    new-held k a e = elim (Bool-cases (slot == k)) [
      | inl q ↦ (
        new_hw_enabled addr (dbg_of s).arch,
        ground (
          arith,
          e,
          at_slot k,
          q,
          lookup-insert addr a (new_hw_enabled addr (dbg_of s).arch) (dbg_of s).breakpoints,
        ),
        refl,
      )
      | inr q ↦
          let g : get_elem? s.hw_bp_slots k ≡ some (some a) = ground (arith, e, at_slot k, q) in
          let (b, l, on) = h.held k a g in
          (
            b,
            ground (
              arith,
              l,
              new,
              lookup-insert addr a (new_hw_enabled addr (dbg_of s).arch) (dbg_of s).breakpoints,
            ),
            on,
          )
    ]

    new-placed :
        (a : ℕ) (b : Breakpoint)
        → lookup a (with_breakpoint addr slot w s).common.dbg.breakpoints ≡ some b
        → (k : ℕ) × (get_elem? (set_elem s.hw_bp_slots slot (some addr)) k ≡ some (some a))
    new-placed a b e = elim (Bool-cases (addr == a)) [
      | inl q ↦ (slot, ground (arith, at_slot slot, q))
      | inr q ↦
          let l : lookup a (dbg_of s).breakpoints ≡ some b = ground (
            arith,
            e,
            q,
            lookup-insert addr a (new_hw_enabled addr (dbg_of s).arch) (dbg_of s).breakpoints,
          ) in
          let (k, g) = h.placed a b l in (k, ground (arith, at_slot k, g, free))
    ]

    new-apart :
        (j k a : ℕ)
        → get_elem? (set_elem s.hw_bp_slots slot (some addr)) j ≡ some (some a)
        → get_elem? (set_elem s.hw_bp_slots slot (some addr)) k ≡ some (some a)
        → j ≡ k
    new-apart j k a e f =
        ground (arith, at_slot j, at_slot k, h.apart j k a, not_held j, not_held k)

    with_breakpoint-IsArmed :
        ((q : ℕ)
          → debug w q ≡ (
              if has_port q (dbg_of s).threads
              then with_slot (debug s.common.world q) slot addr hw_bp_bcr_enable
              else debug s.common.world q))
        → IsArmed (with_breakpoint addr slot w s)
    with_breakpoint-IsArmed regs = record {
      sixteen = length-set s.hw_bp_slots slot (some addr) ∙ h.sixteen;
      held = new-held;
      placed = new-placed;
      apart = new-apart;
      shown = λ q p.
          rw (regs q, p)
            (Shows-set (debug s.common.world q) s.hw_bp_slots slot addr hw_bp_bcr_enable (some addr)
              (h.shown q p) (refl, refl) (omega (arith, inside, h.sixteen)) inside);
    }

  -- On aarch64, a set_breakpoint that returns ok at an address without a breakpoint preserves that
  -- the sixteen slots hold exactly the addresses of the breakpoints, each once and each enabled,
  -- and that in every listed thread the debug registers have the address and the enabling control
  -- word of each used slot and a control word of 0 in each free one.
  pub set_breakpoint-IsArmed :
      (addr : ℕ) (s : ArmState W)
      → IsArmed s
      → lookup addr (dbg_of s).breakpoints ≡ none
      → (set_breakpoint G addr s).0 ≡ ok tt
      → IsArmed (set_breakpoint G addr s).1
  set_breakpoint-IsArmed addr s h new done =
      let (slot, free, inside, w, regs, z) = set_breakpoint-parts addr s done in
      subst IsArmed (sym z) (with_breakpoint-IsArmed addr slot w s h new free inside regs)
