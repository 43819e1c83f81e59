-- ===== src/LeakTracker/Disabled.antt =====
-- `disable` of src/leak_tracker.rs: the breakpoints that it takes out.
use macos_c_debugger_rust.Base.{
  ℕ, false, List, [], ◌∷◌, none, if◌then◌else◌, ◌≡◌, arith, map, ◌||◌, inl, inr,
}
use macos_c_debugger_rust.Base.Assoc.{lookup}
use macos_c_debugger_rust.Io.{ok, ok-cases}
use macos_c_debugger_rust.Mach.{Foreign}
use macos_c_debugger_rust.Debugger.{State}
use macos_c_debugger_rust.Debugger.Kept.{has, removing-lookup}
use macos_c_debugger_rust.LeakTracker.{LeakTracker, Tracked, disable, remove_all, flatten}

-- The addresses of the functions, and those of the pending returns.
abbrev pub entries : LeakTracker → List ℕ
entries t = flatten (t.malloc_addr ∷ t.calloc_addr ∷ t.realloc_addr ∷ t.free_addr ∷ [])

abbrev pub returns : LeakTracker → List ℕ
returns t = map (λ e. e.0) t.pending_returns

module _ {W : Type 0} (F : Foreign W) where
  remove_all-lookup :
      (k : ℕ) (addrs : List ℕ) (s : State W)
      → (remove_all F addrs s).0 ≡ ok tt
      → lookup k (remove_all F addrs s).1.dbg.breakpoints
        ≡ (if has k addrs then none else lookup k s.dbg.breakpoints)
  unfolding remove_all
  remove_all-lookup k addrs s h = removing-lookup F k addrs s h

  disable-parts :
      (s : Tracked W)
      → (disable F s).0 ≡ ok tt
      → let first = remove_all F (entries s.tracker) s.session in
        let second = remove_all F (returns s.tracker) first.1 in
        (first.0 ≡ ok tt)
        × (second.0 ≡ ok tt)
        × ((disable F s).1.session ≡ second.1)
        × ((disable F s).1.tracker ≡ record (s.tracker) { enabled = false; pending_returns = [] })
  unfolding disable
  disable-parts s h =
      let first = remove_all F (entries s.tracker) s.session in
      let second = remove_all F (returns s.tracker) first.1 in
      elim (ok-cases first.0) [
        | inl e ↦ absurd (ground (arith, e, h))
        | inr (u, e) ↦ elim (ok-cases second.0) [
          | inl f ↦ absurd (ground (arith, e, f, h))
          | inr (v, f) ↦ (e, f, ground (arith, e, f), ground (arith, e, f))
        ]
      ]

  -- A disable that returns ok takes out the breakpoints at the followed functions and at the return
  -- addresses with pending calls, leaves every other breakpoint, and switches the tracker off
  -- without pending calls.
  pub disable-lookup :
      (s : Tracked W) (k : ℕ)
      → (disable F s).0 ≡ ok tt
      → (lookup k (disable F s).1.session.dbg.breakpoints ≡ (
          if has k (entries s.tracker) || has k (returns s.tracker)
          then none
          else lookup k s.session.dbg.breakpoints))
        × ((disable F s).1.tracker ≡ record (s.tracker) { enabled = false; pending_returns = [] })
  disable-lookup s k h =
      let first = remove_all F (entries s.tracker) s.session in
      let p = disable-parts s h in
      (
        rw (p.2) (
            ground (
              arith,
              remove_all-lookup k (entries s.tracker) s.session p.0,
              remove_all-lookup k (returns s.tracker) first.1 p.1,
            )),
        p.3,
      )
