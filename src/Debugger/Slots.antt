-- ===== src/Debugger/Slots.antt =====
-- The watchpoint slots of src/debugger.rs, x86_64: which slot a new watchpoint takes.
use macos_c_debugger_rust.Base.{
  ℕ, zero, suc, true, false, List, [], ◌∷◌, Option, none, some, ◌≡◌, ◌≢◌, refl, sym, subst, ap, ◌∙◌,
  ◌-◌, ◌<◌, ◌≤◌, arith, Option-cases, inl, inr, set as set_elem, get_elem?, position_from,
  position_from-none, position_from-get, length, length-set, get_elem?-set_self, get_elem?-set_ne,
}
use macos_c_debugger_rust.Io.{Result, ok, err, is_ok, ok-cases, for_each, slots_exhausted}
use macos_c_debugger_rust.Mach.{Foreign}
use macos_c_debugger_rust.Mach.Debug.{set_watchpoint_slot}
use macos_c_debugger_rust.Register.Watch.{WatchCondition, WatchLen}
use macos_c_debugger_rust.Debugger.{State, Debugger, WatchpointInfo, ThreadEntry, kernel}
use macos_c_debugger_rust.Debugger.Watch.{is_free, watches, set_watchpoint, for_each-dbg}

-- No address is watched by two slots.
abbrev pub Distinct : List (Option WatchpointInfo) → Type 0
Distinct [] = Unit {0}
Distinct (none ∷ ws) = Distinct ws
Distinct (some i ∷ ws) = (position_from 0 (watches i.addr) ws ≡ none) × Distinct ws

pub record IsValid (ws : List (Option WatchpointInfo)) : Type 0 where
  pub four : length ws ≡ 4
  pub distinct : Distinct ws

-- A slot that is free or watches another address does not count for the address.
position_from-set :
    (a : ℕ) (info : WatchpointInfo) (i k : ℕ) (ws : List (Option WatchpointInfo))
    → a ≢ info.addr
    → position_from i (watches a) ws ≡ none
    → position_from i (watches a) (set_elem ws k (some info)) ≡ none
unfolding position_from
position_from-set a info i k [] h e = refl
position_from-set a info i zero (w ∷ ws) h e = ground arith
position_from-set a info i (suc k) (w ∷ ws) h e =
    ground (arith, position_from-set a info (suc i) k ws)

Distinct-set :
    (info : WatchpointInfo) (k : ℕ) (ws : List (Option WatchpointInfo))
    → position_from 0 (watches info.addr) ws ≡ none
    → get_elem? ws k ≡ some none
    → Distinct ws
    → Distinct (set_elem ws k (some info))
unfolding position_from
Distinct-set info k [] e g d = tt
Distinct-set info zero (none ∷ ws) e g d = (position_from-none (watches info.addr) 1 0 ws e, d)
Distinct-set info zero (some i ∷ ws) e g d = absurd (cc)
Distinct-set info (suc k) (none ∷ ws) e g d =
    Distinct-set info k ws (position_from-none (watches info.addr) 1 0 ws e) g d
Distinct-set info (suc k) (some i ∷ ws) e g d = (
  position_from-set i.addr info 0 k ws (ground arith) d.0,
  Distinct-set info k ws (position_from-none (watches info.addr) 1 0 ws (ground arith)) g d.1,
)

-- What `set_watchpoint` promises: on success the slot holds the address; an address that was watched
-- already changes nothing; a new one goes into a slot that was free and leaves the others alone. On
-- failure the slots are as before.
pub data Placed (addr : ℕ) (before after : List (Option WatchpointInfo)) : Result ℕ → Type 0 where
  known :
      (slot : ℕ) (i : WatchpointInfo)
      → get_elem? before slot ≡ some (some i)
      → i.addr ≡ addr
      → after ≡ before
      → Placed addr before after (ok slot)
  placed :
      (slot : ℕ) (i : WatchpointInfo)
      → get_elem? before slot ≡ some none
      → i.addr ≡ addr
      → get_elem? after slot ≡ some (some i)
      → ((k : ℕ) → slot ≢ k → get_elem? after k ≡ get_elem? before k)
      → Placed addr before after (ok slot)
  refused : (r : Result ℕ) → is_ok r ≡ false → after ≡ before → Placed addr before after r

module _ {W : Type 0} (F : Foreign W) (addr : ℕ) (c : WatchCondition) (l : WatchLen) where
  abbrev info : WatchpointInfo
  info = record { addr = addr; condition = c; size = l }

  -- The slot written to the debug registers of every thread.
  abbrev written : ℕ → State W → Result (Unit {0}) × State W
  written slot s =
      for_each (λ t. kernel (set_watchpoint_slot F t.port slot addr c l)) s.dbg.threads s

  abbrev stored : ℕ → State W → State W
  stored slot s = record s {
    dbg = record (s.dbg) { wp_slots = set_elem s.dbg.wp_slots slot (some info) };
  }

  module _ (s : State W) where
    known-eq :
        (slot : ℕ)
        → position_from 0 (watches addr) s.dbg.wp_slots ≡ some slot
        → set_watchpoint F addr c l s ≡ (ok slot, s)
    unfolding set_watchpoint
    known-eq slot e = rw (set_watchpoint, e)

    full-eq :
        position_from 0 (watches addr) s.dbg.wp_slots ≡ none
        → position_from 0 is_free s.dbg.wp_slots ≡ none
        → set_watchpoint F addr c l s ≡ (err slots_exhausted, s)
    unfolding set_watchpoint
    full-eq e f = rw (set_watchpoint, e, f)

    placed-eq :
        (slot : ℕ)
        → position_from 0 (watches addr) s.dbg.wp_slots ≡ none
        → position_from 0 is_free s.dbg.wp_slots ≡ some slot
        → (written slot s).0 ≡ ok tt
        → set_watchpoint F addr c l s ≡ (ok slot, stored slot (written slot s).1)
    unfolding set_watchpoint
    placed-eq slot e f g = rw (set_watchpoint, e, f, g)

    failed-eq :
        (slot : ℕ)
        → position_from 0 (watches addr) s.dbg.wp_slots ≡ none
        → position_from 0 is_free s.dbg.wp_slots ≡ some slot
        → is_ok (written slot s).0 ≡ false
        → ((set_watchpoint F addr c l s).1 ≡ (written slot s).1)
          × (is_ok (set_watchpoint F addr c l s).0 ≡ false)
    unfolding set_watchpoint
    failed-eq slot e f g = rw (set_watchpoint, e, f) (ground arith)

    written-dbg : (slot : ℕ) → (written slot s).1.dbg ≡ s.dbg
    written-dbg slot =
        for_each-dbg (λ (t : ThreadEntry). set_watchpoint_slot F t.port slot addr c l) s.dbg.threads
          s

    abbrev Outcome : Result ℕ × State W → Type 0
    Outcome o = Placed addr s.dbg.wp_slots o.1.dbg.wp_slots o.0 × IsValid o.1.dbg.wp_slots

    found-Outcome :
        (slot : ℕ)
        → IsValid s.dbg.wp_slots
        → position_from 0 (watches addr) s.dbg.wp_slots ≡ some slot
        → Outcome (ok slot, s)
    found-Outcome slot v e = go (position_from-get (watches addr) 0 slot s.dbg.wp_slots e)
      where
        z : slot - 0 ≡ slot
        z = omega arith

        go :
            (x : Option WatchpointInfo) × (0 ≤ slot)
              × (slot - 0 < length s.dbg.wp_slots)
              × (get_elem? s.dbg.wp_slots (slot - 0) ≡ some x)
              × (watches addr x ≡ true)
            → Outcome (ok slot, s)
        go (none, a, b, g, t) = absurd (cc)
        go (some i, a, b, g, t) = (known slot i (rw z at g) (ground arith) refl, v)

    stored-Outcome :
        (slot : ℕ)
        → IsValid s.dbg.wp_slots
        → position_from 0 (watches addr) s.dbg.wp_slots ≡ none
        → position_from 0 is_free s.dbg.wp_slots ≡ some slot
        → Outcome (ok slot, stored slot (written slot s).1)
    stored-Outcome slot v e f =
        rw (written-dbg slot) (go (position_from-get is_free 0 slot s.dbg.wp_slots f))
      where
        z : slot - 0 ≡ slot
        z = omega arith

        go :
            (x : Option WatchpointInfo) × (0 ≤ slot)
              × (slot - 0 < length s.dbg.wp_slots)
              × (get_elem? s.dbg.wp_slots (slot - 0) ≡ some x)
              × (is_free x ≡ true)
            → Outcome (ok slot, stored slot s)
        go (some i, a, b, g, t) = absurd (cc)
        go (none, a, b, g, t) = (
          placed slot info (rw z at g) refl
              (get_elem?-set_self s.dbg.wp_slots slot (some info) (rw z at b))
              (λ k h. get_elem?-set_ne s.dbg.wp_slots slot k (some info) h),
          record {
            four = length-set s.dbg.wp_slots slot (some info) ∙ v.four;
            distinct = Distinct-set info slot s.dbg.wp_slots e (rw z at g) v.distinct;
          },
        )

    -- Where four slots watch different addresses, set_watchpoint keeps this on every outcome: an
    -- address that is watched already keeps its slot, a new one goes into a free slot and leaves
    -- the others alone, and a failure changes no slot.
    pub set_watchpoint-Placed :
        IsValid s.dbg.wp_slots
        → Placed addr s.dbg.wp_slots
            (set_watchpoint F addr c l s).1.dbg.wp_slots
            (set_watchpoint F addr c l s).0
          × IsValid (set_watchpoint F addr c l s).1.dbg.wp_slots
    set_watchpoint-Placed v = elim (Option-cases (position_from 0 (watches addr) s.dbg.wp_slots)) [
      | inr (slot, e) ↦ rw (known-eq slot e) (found-Outcome slot v e)
      | inl e ↦ elim (Option-cases (position_from 0 is_free s.dbg.wp_slots)) [
        | inl f ↦ rw (full-eq e f) (refused _ refl refl, v)
        | inr (slot, f) ↦ elim (ok-cases (written slot s).0) [
          | inr (u, g) ↦ rw (placed-eq slot e f g) (stored-Outcome slot v e f)
          | inl g ↦
              let q = failed-eq slot e f g in
              let z : (set_watchpoint F addr c l s).1.dbg.wp_slots ≡ s.dbg.wp_slots =
                ap (λ (t : State W). t.dbg.wp_slots) q.0
                ∙ ap (λ (d : Debugger). d.wp_slots) (written-dbg slot) in
              (refused _ q.1 z, subst IsValid (sym z) v)
        ]
      ]
    ]
