-- ===== src/Debugger/Watch.antt =====
-- src/debugger.rs, x86_64: the four hardware watchpoint slots, which every thread has.
use macos_c_debugger_rust.Base.{
  ℕ, suc, Bool, true, false, List, [], ◌∷◌, Option, none, some, ◌==◌, if◌then◌else◌, leb,
  set as set_elem, position_from, ◌≡◌, refl, arith, inl, inr,
}
use macos_c_debugger_rust.Io.{
  Io, ok, err, slots_exhausted, invalid_slot, for_each, ok-cases, ◌>>=◌, ◌>>◌,
}
use macos_c_debugger_rust.Mach.{Foreign}
use macos_c_debugger_rust.Mach.Debug.{set_watchpoint_slot, clear_watchpoint_slot}
use macos_c_debugger_rust.Register.Watch.{WatchCondition, WatchLen}
use macos_c_debugger_rust.Debugger.{State, Debugger, WatchpointInfo, kernel, modify}

abbrev pub is_free : Option WatchpointInfo → Bool
is_free none = true
is_free (some _) = false

abbrev pub watches : ℕ → Option WatchpointInfo → Bool
watches addr none = false
watches addr (some i) = i.addr == addr

-- The used slots with their numbers, from number `n` on.
unfoldable pub numbered : ℕ → List (Option WatchpointInfo) → List (ℕ × WatchpointInfo)
numbered n [] = []
numbered n (none ∷ ws) = numbered (suc n) ws
numbered n (some i ∷ ws) = (n, i) ∷ numbered (suc n) ws

unfoldable pub watchpoint_slots : Debugger → List (ℕ × WatchpointInfo)
unfolding numbered
watchpoint_slots d = numbered 0 d.wp_slots

-- Calls of the kernel leave the debugger alone.
pub for_each-dbg :
    {W A : Type 0} (m : A → Io W (Unit {0})) (xs : List A) (s : State W)
    → (for_each (λ x. kernel (m x)) xs s).1.dbg ≡ s.dbg
unfolding for_each
for_each-dbg m [] s = refl
for_each-dbg m (x ∷ xs) s = elim (ok-cases (m x s.world).0) [
  | inl e ↦ ground (arith, e)
  | inr (u, e) ↦ rw (e, for_each) (for_each-dbg m xs (record s { world = (m x s.world).1 }))
]

module _ {W : Type 0} (F : Foreign W) where
  -- The used slots written to the debug registers of a thread.
  unfoldable pub apply_existing_bp_wp_to_thread : ℕ → Io (State W) (Unit {0})
  unfolding watchpoint_slots
  apply_existing_bp_wp_to_thread port s =
      for_each (λ w. kernel (set_watchpoint_slot F port w.0 w.1.addr w.1.condition w.1.size))
        (watchpoint_slots s.dbg) s

  unfoldable pub set_watchpoint : ℕ → WatchCondition → WatchLen → Io (State W) ℕ
  set_watchpoint addr c l s = elim (position_from 0 (watches addr) s.dbg.wp_slots) [
    | some slot ↦ (ok slot, s)
    | none ↦ elim (position_from 0 is_free s.dbg.wp_slots) [
      | none ↦ (err slots_exhausted, s)
      | some slot ↦
          (for_each (λ t. kernel (set_watchpoint_slot F t.port slot addr c l)) s.dbg.threads
              >>= λ _ s. (
                ok slot,
                record s {
                  dbg = record (s.dbg) {
                    wp_slots =
                        set_elem s.dbg.wp_slots slot
                          (some (record { addr = addr; condition = c; size = l }));
                  };
                },
              ))
            s
    ]
  ]

  unfoldable pub remove_watchpoint_slot : ℕ → Io (State W) (Unit {0})
  remove_watchpoint_slot slot s =
      if leb 4 slot
      then (err invalid_slot, s)
      else ((for_each (λ t. kernel (clear_watchpoint_slot F t.port slot)) s.dbg.threads
            >> modify (λ d. record d { wp_slots = set_elem d.wp_slots slot none }))
          s)
