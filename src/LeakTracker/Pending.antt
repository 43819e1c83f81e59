-- ===== src/LeakTracker/Pending.antt =====
-- What src/leak_tracker.rs keeps of allocations: a call and its return, nested calls, and the
-- breakpoints at the return addresses.
use macos_c_debugger_rust.Base.{
  ℕ, false, List, [], ◌∷◌, none, some, ◌==◌, if◌then◌else◌, ◌≡◌, ◌≢◌, refl, subst, ==_iff, ◌⊎◌,
  arith, Bool-cases, Option-cases, inl, inr, ◌<◌,
}
use macos_c_debugger_rust.Base.Assoc.{lookup, insert, remove, lookup-insert, lookup-remove}
use macos_c_debugger_rust.Io.{ok, is_ok, ok-cases}
use macos_c_debugger_rust.Mach.{Foreign}
use macos_c_debugger_rust.Register.Intel.{ThreadState64}
use macos_c_debugger_rust.LeakTracker.{
  LeakTracker, AllocInfo, PendingAlloc, Tracked, push, record_return, push_pending, return_addr,
  handle_return,
}

-- The pending calls at a return address, the last first.
abbrev pub pending : ℕ → LeakTracker → List PendingAlloc
pending at t = elim (lookup at t.pending_returns) [ none ↦ [] | some ps ↦ ps ]

-- Every address with a stack has a call on it, and every call is kept under its own return address.
abbrev pub AllSites : ℕ → List PendingAlloc → Type 0
AllSites k [] = Unit {0}
AllSites k (p ∷ ps) = (p.call_site ≡ k) × AllSites k ps

pub record IsValid (t : LeakTracker) : Type 0 where
  pub filled : (k : ℕ) → lookup k t.pending_returns ≢ some []
  pub sites : (k : ℕ) → AllSites k (pending k t)

List-cases :
    (ps : List PendingAlloc)
    → (ps ≡ []) ⊎ ((p : PendingAlloc) × (qs : List PendingAlloc) × (ps ≡ p ∷ qs))
List-cases [] = inl refl
List-cases (p ∷ ps) = inr (p, ps, refl)

pending-push :
    (site n k : ℕ) (t : LeakTracker)
    → pending k (push site n t)
      ≡ (if site == k then record { size = n; call_site = site } ∷ pending site t else pending k t)
unfolding push
pending-push site n k t =
    let c : PendingAlloc = record { size = n; call_site = site } in
    ground (arith, lookup-insert site k (c ∷ pending site t) t.pending_returns)

pub push-IsValid : (site n : ℕ) (t : LeakTracker) → IsValid t → IsValid (push site n t)
unfolding push
push-IsValid site n t v = record {
  filled = λ k.
      let c : PendingAlloc = record { size = n; call_site = site } in
      ground (arith, v.filled k, lookup-insert site k (c ∷ pending site t) t.pending_returns);
  sites = λ k. elim (Bool-cases (site == k)) [
    | inr e ↦ rw (pending-push site n k t, e) (v.sites k)
    | inl e ↦
        rw (pending-push site n k t, e)
          (
            (==_iff site k).0 e,
            subst (λ j. AllSites j (pending site t)) ((==_iff site k).0 e) (v.sites site),
          )
  ];
}

abbrev tail : List PendingAlloc → List PendingAlloc
tail [] = []
tail (p ∷ ps) = ps

-- The tracker when the last pending call at an address has returned a pointer, or 0.
abbrev pub returned : ℕ → ℕ → LeakTracker → LeakTracker
returned at ptr t = record t {
  live = elim (pending at t) [
    | [] ↦ t.live
    | p ∷ ps ↦
        if ptr == 0
        then t.live
        else insert ptr (record { size = p.size; call_site = p.call_site }) t.live
  ];
  pending_returns = elim (pending at t) [
    | [] ↦ t.pending_returns
    | p ∷ ps ↦ elim ps [
      | [] ↦ remove at t.pending_returns
      | q ∷ qs ↦ insert at (q ∷ qs) t.pending_returns
    ]
  ];
}

pending-returned :
    (at ptr k : ℕ) (t : LeakTracker)
    → pending k (returned at ptr t) ≡ (if at == k then tail (pending at t) else pending k t)
pending-returned at ptr k t = elim (List-cases (pending at t)) [
  | inl e ↦ ground (arith, e)
  | inr (p, [], e) ↦ rw e (ground (arith, e, lookup-remove at k t.pending_returns))
  | inr (p, q ∷ qs, e) ↦ rw e (ground (arith, e, lookup-insert at k (q ∷ qs) t.pending_returns))
]

AllSites-tail : (k : ℕ) (ps : List PendingAlloc) → AllSites k ps → AllSites k (tail ps)
AllSites-tail k [] h = tt
AllSites-tail k (p ∷ ps) h = h.1

pub returned-IsValid : (at ptr : ℕ) (t : LeakTracker) → IsValid t → IsValid (returned at ptr t)
returned-IsValid at ptr t v = record {
  filled = λ k. elim (List-cases (pending at t)) [
    | inl e ↦ ground (arith, e, v.filled k)
    | inr (p, [], e) ↦ ground (arith, e, v.filled k, lookup-remove at k t.pending_returns)
    | inr (p, q ∷ qs, e) ↦
        ground (arith, e, v.filled k, lookup-insert at k (q ∷ qs) t.pending_returns)
  ];
  sites = λ k. elim (Bool-cases (at == k)) [
    | inr e ↦ rw (pending-returned at ptr k t, e) (v.sites k)
    | inl e ↦
        rw (pending-returned at ptr k t, e)
          (subst (λ j. AllSites j (tail (pending at t))) ((==_iff at k).0 e)
            (AllSites-tail at (pending at t) (v.sites at)))
  ];
}

-- A call and its return: the pointer is live with the call's size and return address, and what
-- was pending before is pending again.
pub push-returned :
    (site n ptr : ℕ) (t : LeakTracker)
    → 0 < ptr
    → (lookup ptr (returned site ptr (push site n t)).live
        ≡ some (record { size = n; call_site = site }))
      × ((k : ℕ) → pending k (returned site ptr (push site n t)) ≡ pending k t)
unfolding push
push-returned site n ptr t h =
    let here = pending-push site n site t in
    let i : AllocInfo = record { size = n; call_site = site } in
    (
      ground (arith, here, lookup-insert ptr ptr i t.live),
      λ k.
          ground
            (arith, pending-returned site ptr k (push site n t), here, pending-push site n k t),
    )

module _ {W : Type 0} (F : Foreign W) where
  pub push_pending-tracker :
      (regs : ThreadState64) (n : ℕ) (s : Tracked W)
      → (push_pending F regs n s).0 ≡ ok tt
      → (site : ℕ) × ((return_addr F regs s.session).0 ≡ ok site)
        × ((push_pending F regs n s).1.tracker ≡ push site n s.tracker)
  unfolding push_pending
  push_pending-tracker regs n s h = elim (ok-cases (return_addr F regs s.session).0) [
    | inl e ↦ absurd (ground (arith, e, h))
    | inr (site, e) ↦ (site, e, ground (arith, e, h))
  ]

  pub push_pending-kept :
      (regs : ThreadState64) (n : ℕ) (s : Tracked W)
      → is_ok (push_pending F regs n s).0 ≡ false
      → (push_pending F regs n s).1.tracker ≡ s.tracker
  unfolding push_pending
  push_pending-kept regs n s h = elim (ok-cases (return_addr F regs s.session).0) [
    | inl e ↦ ground (arith, e, h)
    | inr (site, e) ↦ ground (arith, e, h)
  ]

  pub handle_return-tracker :
      (at : ℕ) (regs : ThreadState64) (s : Tracked W)
      → IsValid s.tracker
      → (handle_return F at regs s).1.tracker ≡ returned at regs.rax s.tracker
  unfolding handle_return record_return
  handle_return-tracker at regs s v = elim (Option-cases (lookup at s.tracker.pending_returns)) [
    | inl e ↦ rw (handle_return, e) refl
    | inr ([], e) ↦ absurd (v.filled at e)
    | inr (p ∷ [], e) ↦ rw (handle_return, e) (ground arith)
    | inr (p ∷ q ∷ ps, e) ↦ rw (handle_return, e) (ground arith)
  ]
