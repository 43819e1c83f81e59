-- ===== src/Debugger/Arm/Loaded.antt =====
-- The debug registers that the loops of src/debugger.rs over all threads leave, aarch64.
use macos_c_debugger_rust.Base.{
  ℕ, zero, suc, Bool, true, false, List, [], ◌∷◌, ◌≡◌, ◌≢◌, refl, ap, ◌∙◌, arith, ◌==◌, ◌||◌,
  if◌then◌else◌, set as set_elem, inl, inr,
}
use macos_c_debugger_rust.Io.{Io, is_ok, for_each, ok-cases}
use macos_c_debugger_rust.Mach.Arm.{
  hw_bp_bcr_enable, set_hw_breakpoint_slot, clear_hw_breakpoint_slot, ArmForeign, ArmDebugState64,
  write_breakpoint, get_debug_state, set_debug_state,
}
use macos_c_debugger_rust.Debugger.{ThreadEntry}
use macos_c_debugger_rust.Debugger.Rewinding.{has_port}
use macos_c_debugger_rust.Debugger.Arm.{ArmState, call, arm_slot, clear_slot}

-- What the kernel documents of a thread's debug registers.
pub record HasDebug {W : Type 0} (G : ArmForeign W) : Type 0 where
  pub debug : W → ℕ → ArmDebugState64
  pub get_value :
      (p : ℕ) (w : W) → (G.thread_get_debug p w).0.0 ≡ 0 → (G.thread_get_debug p w).0.1 ≡ debug w p
  pub get_keeps : (p q : ℕ) (w : W) → debug (G.thread_get_debug p w).1 q ≡ debug w q
  pub set_value :
      (p : ℕ) (d : ArmDebugState64) (w : W)
      → (G.thread_set_debug p d w).0 ≡ 0
      → debug (G.thread_set_debug p d w).1 p ≡ d
  pub set_keeps :
      (p q : ℕ) (d : ArmDebugState64) (w : W)
      → p ≢ q
      → debug (G.thread_set_debug p d w).1 q ≡ debug w q

-- One breakpoint slot of the registers.
abbrev pub with_slot : ArmDebugState64 → ℕ → ℕ → ℕ → ArmDebugState64
with_slot d slot v c = record d { bvr = set_elem d.bvr slot v; bcr = set_elem d.bcr slot c }

set-set :
    {A : Type 0} (xs : List A) (i : ℕ) (v : A) → set_elem (set_elem xs i v) i v ≡ set_elem xs i v
set-set [] i v = refl
set-set (x ∷ xs) zero v = refl
set-set (x ∷ xs) (suc i) v = ap (λ ys. x ∷ ys) (set-set xs i v)

with_slot_twice :
    (d : ArmDebugState64) (slot v c : ℕ)
    → with_slot (with_slot d slot v c) slot v c ≡ with_slot d slot v c
with_slot_twice d slot v c = cc (set-set d.bvr slot v, set-set d.bcr slot c)

merged :
    (a b : Bool) (slot v c : ℕ) (d : ArmDebugState64)
    → (if b
        then with_slot (if a then with_slot d slot v c else d) slot v c
        else (if a then with_slot d slot v c else d))
      ≡ (if a || b then with_slot d slot v c else d)
merged true true slot v c d = with_slot_twice d slot v c
merged true false slot v c d = refl
merged false true slot v c d = refl
merged false false slot v c d = refl

-- Calls of the kernel change the world alone.
pub for_each-world :
    {W A : Type 0} (m : A → Io W (Unit {0})) (xs : List A) (s : ArmState W)
    → let z = (for_each (λ x. call (m x)) xs s).1 in
      z ≡ record s { common = record (s.common) { world = z.common.world } }
unfolding for_each
for_each-world m [] s = refl
for_each-world m (x ∷ xs) s = elim (ok-cases (m x s.common.world).0) [
  | inl e ↦ ground (arith, e)
  | inr (u, e) ↦
      rw (e, for_each)
        (for_each-world m xs
          (record s { common = record (s.common) { world = (m x s.common.world).1 } }))
]

module _ {W : Type 0} {G : ArmForeign W} (H : HasDebug G) where
  open H use {debug, get_value, get_keeps, set_value, set_keeps}

  write_breakpoint-debug :
      (port slot v c : ℕ) (w : W)
      → is_ok (write_breakpoint G port slot v c w).0 ≡ true
      → (q : ℕ)
      → debug (write_breakpoint G port slot v c w).1 q
        ≡ (if port == q then with_slot (debug w q) slot v c else debug w q)
  unfolding write_breakpoint get_debug_state set_debug_state
  write_breakpoint-debug port slot v c w done q =
      let r = G.thread_get_debug port w in
      ground (
        arith,
        done,
        get_value port w,
        get_keeps port q w,
        set_value port (with_slot r.0.1 slot v c) r.1,
        set_keeps port q (with_slot r.0.1 slot v c) r.1,
      )

  -- The slot written in all listed threads.
  pub for_each-debug :
      (slot v c : ℕ) (ts : List ThreadEntry) (s : ArmState W)
      → is_ok (for_each (λ t. call (write_breakpoint G t.port slot v c)) ts s).0 ≡ true
      → let z = (for_each (λ t. call (write_breakpoint G t.port slot v c)) ts s).1 in
        (z ≡ record s { common = record (s.common) { world = z.common.world } })
        × ((q : ℕ)
            → debug z.common.world q ≡ (
                if has_port q ts
                then with_slot (debug s.common.world q) slot v c
                else debug s.common.world q))
  unfolding for_each
  for_each-debug slot v c [] s done = (refl, λ q. refl)
  for_each-debug slot v c (t ∷ ts) s done =
      elim (ok-cases (write_breakpoint G t.port slot v c s.common.world).0) [
        | inl e ↦ absurd (ground (arith, e, done))
        | inr (u, e) ↦
            let w = (write_breakpoint G t.port slot v c s.common.world).1 in
            let s' : ArmState W = record s { common = record (s.common) { world = w } } in
            let ih = for_each-debug slot v c ts s' (rw (for_each, e) at done) in
            rw (e, for_each)
              (
                ih.0,
                λ q.
                    ih.1 q
                    ∙ ap (λ d. if has_port q ts then with_slot d slot v c else d)
                        (write_breakpoint-debug t.port slot v c s.common.world (ap is_ok e) q)
                    ∙ merged (t.port == q) (has_port q ts) slot v c (debug s.common.world q),
              )
      ]

  pub arm_slot-debug :
      (slot addr : ℕ) (ts : List ThreadEntry) (s : ArmState W)
      → is_ok (arm_slot G slot addr ts s).0 ≡ true
      → let z = (arm_slot G slot addr ts s).1 in
        (z ≡ record s { common = record (s.common) { world = z.common.world } })
        × ((q : ℕ)
            → debug z.common.world q ≡ (
                if has_port q ts
                then with_slot (debug s.common.world q) slot addr hw_bp_bcr_enable
                else debug s.common.world q))
  unfolding arm_slot set_hw_breakpoint_slot
  arm_slot-debug slot addr ts s done = for_each-debug slot addr hw_bp_bcr_enable ts s done

  pub clear_slot-debug :
      (slot : ℕ) (ts : List ThreadEntry) (s : ArmState W)
      → is_ok (clear_slot G slot ts s).0 ≡ true
      → let z = (clear_slot G slot ts s).1 in
        (z ≡ record s { common = record (s.common) { world = z.common.world } })
        × ((q : ℕ)
            → debug z.common.world q ≡ (
                if has_port q ts
                then with_slot (debug s.common.world q) slot 0 0
                else debug s.common.world q))
  unfolding clear_slot clear_hw_breakpoint_slot
  clear_slot-debug slot ts s done = for_each-debug slot 0 0 ts s done
