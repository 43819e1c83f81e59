-- ===== src/Debugger/Kept.antt =====
-- src/debugger.rs: what the operations on breakpoints and memory leave as it was.
use macos_c_debugger_rust.Base.{
  ℕ, Bool, true, false, List, [], ◌∷◌, ◌||◌, none, ◌==◌, if◌then◌else◌, ◌≡◌, refl, sym, subst,
  arith, is_some, inl, inr,
}
use macos_c_debugger_rust.Base.Assoc.{lookup, lookup-insert, lookup-remove}
use macos_c_debugger_rust.Io.{Io, ok, ok-cases, is_ok, for_each, attempt, ◌>>◌}
use macos_c_debugger_rust.Mach.{Foreign}
use macos_c_debugger_rust.Mach.Memory
use macos_c_debugger_rust.Mach.Bytes.{HasMemory, read_memory-keeps}
use macos_c_debugger_rust.Debugger.{State, read_memory}
use macos_c_debugger_rust.Breakpoint
use macos_c_debugger_rust.Breakpoint.{Breakpoint}
use macos_c_debugger_rust.Debugger.Break.{armed, set_breakpoint, remove_breakpoint}
use macos_c_debugger_rust.Debugger.Patched.{enabling, set_breakpoint-ok, set_breakpoint-failed}
use macos_c_debugger_rust.Debugger.Transparent.{IsPatched}

abbrev pub has : ℕ → List ℕ → Bool
has k [] = false
has k (a ∷ more) = a == k || has k more

-- `let _ = self.remove_breakpoint(addr)`.
abbrev pub removing : {W : Type 0} → Foreign W → ℕ → Io (State W) (Unit {0})
removing F a = attempt (remove_breakpoint F a) >> λ s. (ok tt, s)

module _ {W : Type 0} (F : Foreign W) where
  -- A removal takes out its own breakpoint and no other, also where it fails.
  pub remove_breakpoint-lookup :
      (a k : ℕ) (s : State W)
      → lookup k (remove_breakpoint F a s).1.dbg.breakpoints
        ≡ (if a == k then none else lookup k s.dbg.breakpoints)
  unfolding remove_breakpoint
  remove_breakpoint-lookup a k s = ground (arith, lookup-remove a k s.dbg.breakpoints)

  removing-step :
      (a : ℕ) (more : List ℕ) (s : State W)
      → (for_each (removing F) (a ∷ more) s).0 ≡ ok tt
      → for_each (removing F) (a ∷ more) s ≡ for_each (removing F) more (remove_breakpoint F a s).1
  unfolding for_each
  removing-step a more s h = ground (arith, h)

  -- After removals the breakpoints of the list are gone.
  pub removing-lookup :
      (k : ℕ) (addrs : List ℕ) (s : State W)
      → (for_each (removing F) addrs s).0 ≡ ok tt
      → lookup k (for_each (removing F) addrs s).1.dbg.breakpoints
        ≡ (if has k addrs then none else lookup k s.dbg.breakpoints)
  removing-lookup k [] s h = unfold for_each in refl
  removing-lookup k (a ∷ more) s h =
      let t = (remove_breakpoint F a s).1 in
      let step = removing-step a more s h in
      rw step
        (ground (arith, removing-lookup k more t (rw step at h), remove_breakpoint-lookup a k s))

  pub remove_breakpoint-arch :
      (a : ℕ) (s : State W) → (remove_breakpoint F a s).1.dbg.arch ≡ s.dbg.arch
  unfolding remove_breakpoint
  remove_breakpoint-arch a s = ground arith

  -- A breakpoint that is set is there; one that is not changes nothing.
  pub set_breakpoint-lookup :
      (a k : ℕ) (s : State W)
      → is_some (lookup k (set_breakpoint F a s).1.dbg.breakpoints) ≡ (
          if a == k
          then (if is_ok (set_breakpoint F a s).0
              then true
              else is_some (lookup k s.dbg.breakpoints))
          else is_some (lookup k s.dbg.breakpoints))
  set_breakpoint-lookup a k s = elim (ok-cases (enabling F a s).0) [
    | inl e ↦ let f = set_breakpoint-failed F a s e in ground (arith, f.0, f.1)
    | inr (b, e) ↦
        rw (set_breakpoint-ok F a s b e) (ground (arith, lookup-insert a k b s.dbg.breakpoints))
  ]

  pub set_breakpoint-other :
      (a k : ℕ) (s : State W)
      → (a == k) ≡ false
      → lookup k (set_breakpoint F a s).1.dbg.breakpoints ≡ lookup k s.dbg.breakpoints
  set_breakpoint-other a k s ne = elim (ok-cases (enabling F a s).0) [
    | inl e ↦ rw ((set_breakpoint-failed F a s e).0) refl
    | inr (b, e) ↦
        rw (set_breakpoint-ok F a s b e) (ground (arith, ne, lookup-insert a k b s.dbg.breakpoints))
  ]

  pub set_breakpoint-failed_lookup :
      (a k : ℕ) (s : State W)
      → is_ok (set_breakpoint F a s).0 ≡ false
      → lookup k (set_breakpoint F a s).1.dbg.breakpoints ≡ lookup k s.dbg.breakpoints
  set_breakpoint-failed_lookup a k s bad = elim (ok-cases (enabling F a s).0) [
    | inl e ↦ rw ((set_breakpoint-failed F a s e).0) refl
    | inr (b, e) ↦ absurd (ground (arith, bad, set_breakpoint-ok F a s b e))
  ]

  pub set_breakpoint-arch : (a : ℕ) (s : State W) → (set_breakpoint F a s).1.dbg.arch ≡ s.dbg.arch
  unfolding set_breakpoint
  set_breakpoint-arch a s = ground arith

  pub read_memory-dbg : (a n : ℕ) (s : State W) → (read_memory F a n s).1.dbg ≡ s.dbg
  unfolding read_memory
  read_memory-dbg a n s = ground arith

module _ {W : Type 0} {F : Foreign W} (M : HasMemory F) (orig : ℕ → ℕ) where
  -- Reading changes nothing that the invariant speaks of.
  pub read_memory-IsPatched :
      (a n : ℕ) (s : State W) → IsPatched M orig s → IsPatched M orig (read_memory F a n s).1
  unfolding read_memory
  read_memory-IsPatched a n s p = elim (ok-cases (Memory.read_memory F s.dbg.pid a n s.world).0) [
    | inl e ↦ subst (IsPatched M orig) (sym (after-failed e)) kept
    | inr (buf, e) ↦ rw (read_memory, e) kept
  ]
    where
      kept : IsPatched M orig (record s { world = (Memory.read_memory F s.dbg.pid a n s.world).1 })
      kept = record {
        saved = p.saved;
        shown = λ x. rw (read_memory-keeps F M s.dbg.pid a n s.world) (p.shown x);
      }

      after-failed :
          is_ok (Memory.read_memory F s.dbg.pid a n s.world).0 ≡ false
          → (read_memory F a n s).1
            ≡ record s { world = (Memory.read_memory F s.dbg.pid a n s.world).1 }
      after-failed e = unfold read_memory in ground (arith, e)

-- Every breakpoint of the session is enabled.
abbrev pub IsEnabled : {W : Type 0} → State W → Type 0
IsEnabled s = (k : ℕ) → armed k s.dbg ≡ is_some (lookup k s.dbg.breakpoints)

enable-enabled :
    {W : Type 0} (F : Foreign W) (pid : ℕ) (b c : Breakpoint) (w : W)
    → b.enabled ≡ false
    → (Breakpoint.enable F pid b w).0 ≡ ok c
    → c.enabled ≡ true
unfolding Breakpoint.enable
enable-enabled F pid b c w off h = ground (arith, off, h)

pub set_breakpoint-IsEnabled :
    {W : Type 0} (F : Foreign W) (a : ℕ) (s : State W)
    → IsEnabled s
    → IsEnabled (set_breakpoint F a s).1
unfolding Breakpoint.new
set_breakpoint-IsEnabled F a s v k = elim (ok-cases (enabling F a s).0) [
  | inl e ↦ rw ((set_breakpoint-failed F a s e).0) (v k)
  | inr (b, e) ↦
      let on = enable-enabled F s.dbg.pid (Breakpoint.new a s.dbg.arch) b s.world refl e in
      rw (set_breakpoint-ok F a s b e)
        (ground (arith, lookup-insert a k b s.dbg.breakpoints, v k, on))
]
