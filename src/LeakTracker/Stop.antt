-- ===== src/LeakTracker/Stop.antt =====
-- `handle_stop` of src/leak_tracker.rs: what a stop does to the tracker, from the call of an
-- allocating function to its return.
use macos_c_debugger_rust.Base.{
  ℕ, Bool, true, false, Option, none, some, ◌==◌, if◌then◌else◌, ◌≡◌, ap, subst, ◌∙◌, arith,
  Bool-cases, Option-cases, inl, inr, ◌<◌,
}
use macos_c_debugger_rust.Base.Assoc.{lookup}
use macos_c_debugger_rust.Io.{Result, ok, ok-cases, ◌>>◌}
use macos_c_debugger_rust.Mach.{Foreign}
use macos_c_debugger_rust.Register.Intel.{ThreadState64}
use macos_c_debugger_rust.Debugger.{current_pc, registers}
use macos_c_debugger_rust.Debugger.Break.{is_at}
use macos_c_debugger_rust.LeakTracker.{
  LeakTracker, Tracked, push, forget, push_pending, return_addr, handle_return, handle_at,
  handle_stop, saturating_mul,
}
use macos_c_debugger_rust.LeakTracker.Pending.{
  IsValid, pending, returned, push-returned, push-IsValid, returned-IsValid, push_pending-tracker,
  push_pending-kept, handle_return-tracker,
}

-- The size that a call of an allocating function at the address asks for.
abbrev pub requested : LeakTracker → ℕ → ThreadState64 → Option ℕ
requested t at regs =
    if is_at t.malloc_addr at
    then some regs.rdi
    else (if is_at t.calloc_addr at
        then some (saturating_mul regs.rdi regs.rsi)
        else (if is_at t.realloc_addr at then some regs.rsi else none))

-- Whether the address is none of the followed functions'.
abbrev pub is_other : LeakTracker → ℕ → Bool
is_other t at =
    if is_at t.malloc_addr at
    then false
    else (if is_at t.calloc_addr at
        then false
        else (if is_at t.realloc_addr at
            then false
            else (if is_at t.free_addr at then false else true)))

-- The tracker before the pending call is noted: realloc gives its old block up.
abbrev pub given_up : LeakTracker → ℕ → ThreadState64 → LeakTracker
given_up t at regs =
    if is_at t.malloc_addr at
    then t
    else (if is_at t.calloc_addr at
        then t
        else (if is_at t.realloc_addr at then forget regs.rdi t else t))

forget-IsValid : (ptr : ℕ) (t : LeakTracker) → IsValid t → IsValid (forget ptr t)
unfolding forget
forget-IsValid ptr t v = elim (Bool-cases (ptr == 0)) [
  | inl e ↦ rw (forget, e) v
  | inr e ↦ rw (forget, e) (record { filled = v.filled; sites = v.sites })
]

module _ {W : Type 0} (F : Foreign W) where
  push_pending-IsValid :
      (regs : ThreadState64) (n : ℕ) (s : Tracked W)
      → IsValid s.tracker
      → IsValid (push_pending F regs n s).1.tracker
  push_pending-IsValid regs n s v = elim (ok-cases (push_pending F regs n s).0) [
    | inl e ↦ rw (push_pending-kept F regs n s e) v
    | inr (u, e) ↦
        let (site, _, q) = push_pending-tracker F regs n s e in
        rw q (push-IsValid site n s.tracker v)
  ]

  entry-eq :
      (at n : ℕ) (regs : ThreadState64) (s : Tracked W)
      → requested s.tracker at regs ≡ some n
      → handle_at F at regs s
        ≡ (push_pending F regs n >> λ s. (ok true, s))
            (record s { tracker = given_up s.tracker at regs })
  unfolding handle_at
  entry-eq at n regs s r = ground (arith, r)

  -- A handled call of an allocating function leaves its size pending at its return address.
  entry-tracker :
      (at n : ℕ) (regs : ThreadState64) (s : Tracked W)
      → requested s.tracker at regs ≡ some n
      → (handle_at F at regs s).0 ≡ ok true
      → (site : ℕ) × ((return_addr F regs s.session).0 ≡ ok site)
        × ((handle_at F at regs s).1.tracker ≡ push site n (given_up s.tracker at regs))
  entry-tracker at n regs s r h =
      let t : Tracked W = record s { tracker = given_up s.tracker at regs } in
      elim (ok-cases (push_pending F regs n t).0) [
        | inl e ↦ absurd (ground (arith, e, h, entry-eq at n regs s r))
        | inr (u, e) ↦
            let (site, f, q) = push_pending-tracker F regs n t e in
            (site, f, ground (arith, e, q, entry-eq at n regs s r))
      ]

  other-eq :
      (at : ℕ) (regs : ThreadState64) (s : Tracked W)
      → is_other s.tracker at ≡ true
      → handle_at F at regs s ≡ handle_return F at regs s
  unfolding handle_at
  other-eq at regs s e = ground (arith, e)

  free-eq :
      (at : ℕ) (regs : ThreadState64) (s : Tracked W)
      → requested s.tracker at regs ≡ none
      → is_other s.tracker at ≡ false
      → handle_at F at regs s ≡ (ok true, record s { tracker = forget regs.rdi s.tracker })
  unfolding handle_at
  free-eq at regs s r e = ground (arith, r, e)

  given_up-IsValid :
      (t : LeakTracker) (at : ℕ) (regs : ThreadState64) → IsValid t → IsValid (given_up t at regs)
  given_up-IsValid t at regs v = elim (Bool-cases (is_at t.malloc_addr at)) [
    | inl e ↦ rw (given_up, e) v
    | inr e ↦ elim (Bool-cases (is_at t.calloc_addr at)) [
      | inl f ↦ rw (given_up, e, f) v
      | inr f ↦ elim (Bool-cases (is_at t.realloc_addr at)) [
        | inl g ↦ rw (given_up, e, f, g) (forget-IsValid regs.rdi t v)
        | inr g ↦ rw (given_up, e, f, g) v
      ]
    ]
  ]

  then_true-tracker :
      (regs : ThreadState64) (n : ℕ) (s : Tracked W)
      → ((push_pending F regs n >> λ s. (ok true, s)) s).1.tracker
        ≡ (push_pending F regs n s).1.tracker
  then_true-tracker regs n s = ground arith

  handle_at-IsValid :
      (at : ℕ) (regs : ThreadState64) (s : Tracked W)
      → IsValid s.tracker
      → IsValid (handle_at F at regs s).1.tracker
  handle_at-IsValid at regs s v = elim (Option-cases (requested s.tracker at regs)) [
    | inr (n, r) ↦
        let t : Tracked W = record s { tracker = given_up s.tracker at regs } in
        rw (entry-eq at n regs s r, then_true-tracker regs n t)
          (push_pending-IsValid regs n t (given_up-IsValid s.tracker at regs v))
    | inl r ↦ elim (Bool-cases (is_other s.tracker at)) [
      | inl e ↦
          rw (other-eq at regs s e, handle_return-tracker F at regs s v)
            (returned-IsValid at regs.rax s.tracker v)
      | inr e ↦ rw (free-eq at regs s r e) (forget-IsValid regs.rdi s.tracker v)
    ]
  ]

  handle_stop-eq :
      (at : ℕ) (regs : ThreadState64) (s : Tracked W)
      → s.tracker.enabled ≡ true
      → (current_pc F s.session).0 ≡ ok at
      → (registers F (current_pc F s.session).1).0 ≡ ok regs
      → handle_stop F s
        ≡ handle_at F at regs (record s { session = (registers F (current_pc F s.session).1).1 })
  unfolding handle_stop
  handle_stop-eq at regs s on e f = ground (arith, on, e, f)

  -- handle_stop preserves, errors included, that no return address has an empty stack of pending
  -- calls and that every pending call is kept under its own return address.
  pub handle_stop-IsValid :
      (s : Tracked W) → IsValid s.tracker → IsValid (handle_stop F s).1.tracker
  unfolding handle_stop
  handle_stop-IsValid s v = elim (Bool-cases s.tracker.enabled) [
    | inr off ↦ subst IsValid (ground (arith, off)) v
    | inl on ↦ elim (ok-cases (current_pc F s.session).0) [
      | inl e ↦ subst IsValid (ground (arith, on, e)) v
      | inr (at, e) ↦
          let t = (current_pc F s.session).1 in
          elim (ok-cases (registers F t).0) [
            | inl f ↦ subst IsValid (ground (arith, on, e, f)) v
            | inr (regs, f) ↦
                rw (handle_stop-eq at regs s on e f)
                  (handle_at-IsValid at regs (record s { session = (registers F t).1 }) v)
          ]
    ]
  ]

  is_other-push :
      (site n at : ℕ) (regs : ThreadState64) (t : LeakTracker)
      → is_other t site ≡ true
      → is_other (push site n (given_up t at regs)) site ≡ true
  unfolding push forget
  is_other-push site n at regs t o = ground (arith, o)

  pending-given_up :
      (k : ℕ) (t : LeakTracker) (at : ℕ) (regs : ThreadState64)
      → pending k (given_up t at regs) ≡ pending k t
  unfolding forget
  pending-given_up k t at regs = ground arith

  -- After a handled stop at malloc, calloc or realloc, the stop at the call's return address, when
  -- the tracker is as it was then and the pointer is not 0, makes the pointer live with the size
  -- asked for and that return address, and the pending calls are those from before the call. The
  -- return address is none of the followed functions.
  pub handle_at-live :
      (at n site : ℕ) (regs back : ThreadState64) (s u : Tracked W)
      → IsValid s.tracker
      → requested s.tracker at regs ≡ some n
      → (handle_at F at regs s).0 ≡ ok true
      → (return_addr F regs s.session).0 ≡ ok site
      → is_other s.tracker site ≡ true
      → u.tracker ≡ (handle_at F at regs s).1.tracker
      → 0 < back.rax
      → let t = (handle_at F site back u).1.tracker in
        (lookup back.rax t.live ≡ some (record { size = n; call_site = site }))
        × ((k : ℕ) → pending k t ≡ pending k s.tracker)
  handle_at-live at n site regs back s u v r h a o q pos =
      let before = given_up s.tracker at regs in
      let (there, f, p) = entry-tracker at n regs s r h in
      let same : there ≡ site = ground (arith, f, a) in
      let e : u.tracker ≡ push site n before = q ∙ rw same at p in
      let o' : is_other u.tracker site ≡ true = rw e (is_other-push site n at regs s.tracker o) in
      let v' : IsValid u.tracker =
        rw e (push-IsValid site n before (given_up-IsValid s.tracker at regs v)) in
      let live = push-returned site n back.rax before pos in
      let after : (handle_at F site back u).1.tracker
          ≡ returned site back.rax (push site n before) =
        ap (λ (r : Result Bool × Tracked W). r.1.tracker) (other-eq site back u o')
        ∙ handle_return-tracker F site back u v'
        ∙ ap (returned site back.rax) e in
      rw after (live.0, λ k. live.1 k ∙ pending-given_up k s.tracker at regs)
