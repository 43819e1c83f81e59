-- ===== src/Debugger/Patched.antt =====
-- `set_breakpoint`, `remove_breakpoint` of src/debugger.rs: what they do to
-- the memory of the debugged program and to the map of breakpoints.
use macos_c_debugger_rust.Base.{
  ℕ, true, false, List, [], ◌∷◌, none, some, ◌==◌, ◌^◌, ◌<◌, ◌≡◌, ◌≢◌, refl, ap, arith, Bool-cases,
  Option-cases, inl, inr,
}
use macos_c_debugger_rust.Base.Assoc.{lookup, insert, remove, lookup-insert, lookup-remove}
use macos_c_debugger_rust.Arch.{x86_64, bp_bytes, bp_size}
use macos_c_debugger_rust.Breakpoint
use macos_c_debugger_rust.Breakpoint.Memory.{enable-mem, enable-saved, disable-mem}
use macos_c_debugger_rust.Breakpoint.{Breakpoint}
use macos_c_debugger_rust.Io.{Result, ok, is_ok, ok-cases}
use macos_c_debugger_rust.Mach.{Foreign}
use macos_c_debugger_rust.Mach.Bytes.{HasMemory}
use macos_c_debugger_rust.Debugger.{State}
use macos_c_debugger_rust.Debugger.Break.{
  is_at, forget_hit, drop_breakpoint, store_breakpoint, set_breakpoint, remove_breakpoint,
}
use macos_c_debugger_rust.Debugger.Transparent.{IsPatched, IsSaved, AllSaved}

module _ (orig : ℕ → ℕ) where
  AllSaved-insert :
      (k : ℕ) (b : Breakpoint) (m : List (ℕ × Breakpoint))
      → IsSaved orig k b
      → AllSaved orig m
      → AllSaved orig (insert k b m)
  unfolding insert
  AllSaved-insert k b [] h hs = (h, tt)
  AllSaved-insert k b ((j, c) ∷ m) h hs = elim (Bool-cases (j == k)) [
    | inl e ↦ rw e (h, hs.1)
    | inr e ↦ rw e (hs.0, AllSaved-insert k b m h hs.1)
  ]

  AllSaved-remove :
      (k : ℕ) (m : List (ℕ × Breakpoint)) → AllSaved orig m → AllSaved orig (remove k m)
  unfolding remove
  AllSaved-remove k [] hs = tt
  AllSaved-remove k ((j, c) ∷ m) hs = elim (Bool-cases (j == k)) [
    | inl e ↦ rw e (AllSaved-remove k m hs.1)
    | inr e ↦ rw e (hs.0, AllSaved-remove k m hs.1)
  ]

  AllSaved-lookup :
      (k : ℕ) (b : Breakpoint) (m : List (ℕ × Breakpoint))
      → AllSaved orig m
      → lookup k m ≡ some b
      → IsSaved orig k b
  unfolding lookup
  AllSaved-lookup k b [] hs e = absurd (cc)
  AllSaved-lookup k b ((j, c) ∷ m) hs e = ground (arith, AllSaved-lookup k b m)

module _ {W : Type 0} (F : Foreign W) where
  -- The world after enabling a new breakpoint, and the state after a success and a failure.
  abbrev pub enabling : ℕ → State W → Result Breakpoint × W
  enabling addr s = Breakpoint.enable F s.dbg.pid (Breakpoint.new addr s.dbg.arch) s.world

  pub set_breakpoint-ok :
      (addr : ℕ) (s : State W) (b : Breakpoint)
      → (enabling addr s).0 ≡ ok b
      → set_breakpoint F addr s
        ≡ (ok tt, record { dbg = store_breakpoint addr b s.dbg; world = (enabling addr s).1 })
  unfolding set_breakpoint
  set_breakpoint-ok addr s b e = rw (e, set_breakpoint)

  pub set_breakpoint-failed :
      (addr : ℕ) (s : State W)
      → is_ok (enabling addr s).0 ≡ false
      → ((set_breakpoint F addr s).1 ≡ record s { world = (enabling addr s).1 })
        × (is_ok (set_breakpoint F addr s).0 ≡ false)
  unfolding set_breakpoint
  set_breakpoint-failed addr s e = ground arith

module _ {W : Type 0} {F : Foreign W} (M : HasMemory F) (orig : ℕ → ℕ) where
  open M use {mem}

  -- Where no breakpoint is set at an address below 2^64 of an x86_64 program, set_breakpoint
  -- preserves, on success and on failure, that every breakpoint has saved the program's own byte
  -- and that memory shows the program's bytes with int3 at exactly the breakpoints.
  pub set_breakpoint-IsPatched :
      (addr : ℕ) (s : State W)
      → addr < 2 ^ 64
      → s.dbg.arch ≡ x86_64
      → lookup addr s.dbg.breakpoints ≡ none
      → IsPatched M orig s
      → IsPatched M orig (set_breakpoint F addr s).1
  unfolding Breakpoint.new bp_bytes bp_size
  set_breakpoint-IsPatched addr s small arch free p = elim (ok-cases (enabling F addr s).0) [
    | inl e ↦ rw ((set_breakpoint-failed F addr s e).0) (record {
      saved = p.saved;
      shown = λ a. ground (arith, enable-mem M s.dbg.pid fresh s.world refl, p.shown a, e);
    })
    | inr (b, e) ↦ rw (set_breakpoint-ok F addr s b e) (record {
      saved = AllSaved-insert orig addr b s.dbg.breakpoints (saved_there b e) p.saved;
      shown = λ a. ground (
        arith,
        enable-mem M s.dbg.pid fresh s.world refl,
        p.shown a,
        e,
        lookup-insert addr a b s.dbg.breakpoints,
      );
    })
  ]
    where
      fresh : Breakpoint
      fresh = Breakpoint.new addr s.dbg.arch

      saved_there : (b : Breakpoint) → (enabling F addr s).0 ≡ ok b → IsSaved orig addr b
      saved_there b e =
          ground (arith, enable-saved M s.dbg.pid fresh b s.world refl e, p.shown addr)

  IsPatched-forget :
      (addr : ℕ) (s : State W)
      → IsPatched M orig s
      → IsPatched M orig (record s { dbg = forget_hit addr s.dbg })
  IsPatched-forget addr s p = elim (Bool-cases (is_at s.dbg.at_breakpoint addr)) [
    | inl e ↦ rw e (record { saved = p.saved; shown = p.shown })
    | inr e ↦ rw e p
  ]

  -- The state after the instruction has been written back.
  abbrev removed : ℕ → Breakpoint → State W → State W
  removed addr b s = record {
    dbg = drop_breakpoint addr s.dbg;
    world = (Breakpoint.disable F s.dbg.pid b s.world).1;
  }

  removed-IsPatched :
      (addr : ℕ) (b : Breakpoint) (s : State W)
      → lookup addr s.dbg.breakpoints ≡ some b
      → is_ok (Breakpoint.disable F s.dbg.pid b s.world).0 ≡ true
      → IsPatched M orig s
      → IsPatched M orig (removed addr b s)
  removed-IsPatched addr b s found done p = record {
    saved = AllSaved-remove orig addr s.dbg.breakpoints p.saved;
    shown = λ a. ground (
      arith,
      AllSaved-lookup orig addr b s.dbg.breakpoints p.saved found,
      disable-mem M s.dbg.pid b s.world,
      p.shown a,
      lookup-remove addr a s.dbg.breakpoints,
    );
  }

  remove_breakpoint-ok :
      (addr : ℕ) (b : Breakpoint) (s : State W)
      → lookup addr s.dbg.breakpoints ≡ some b
      → (remove_breakpoint F addr s).0 ≡ ok tt
      → (is_ok (Breakpoint.disable F s.dbg.pid b s.world).0 ≡ true)
        × ((remove_breakpoint F addr s).1
            ≡ record (removed addr b s) { dbg = forget_hit addr (removed addr b s).dbg })
  unfolding remove_breakpoint
  remove_breakpoint-ok addr b s found done =
      elim (ok-cases (Breakpoint.disable F s.dbg.pid b s.world).0) [
        | inl e ↦ absurd (ground (arith, found, done, e))
        | inr (c, e) ↦ (ap is_ok e, rw (remove_breakpoint, found, e))
      ]

  remove_breakpoint-none :
      (addr : ℕ) (s : State W)
      → lookup addr s.dbg.breakpoints ≡ none
      → (remove_breakpoint F addr s).1 ≡ record s { dbg = forget_hit addr s.dbg }
  unfolding remove_breakpoint
  remove_breakpoint-none addr s e = rw (remove_breakpoint, e)

  -- A remove_breakpoint that returns ok preserves the same invariant, and the program's own byte is
  -- back at the address.
  pub remove_breakpoint-IsPatched :
      (addr : ℕ) (s : State W)
      → (remove_breakpoint F addr s).0 ≡ ok tt
      → IsPatched M orig s
      → IsPatched M orig (remove_breakpoint F addr s).1
        × (mem (remove_breakpoint F addr s).1.world addr ≡ orig addr)
  remove_breakpoint-IsPatched addr s done p = elim (Option-cases (lookup addr s.dbg.breakpoints)) [
    | inl e ↦
        rw (remove_breakpoint-none addr s e)
          (IsPatched-forget addr s p, ground (arith, p.shown addr))
    | inr (b, e) ↦
        let r = remove_breakpoint-ok addr b s e done in
        let q = removed-IsPatched addr b s e (r.0) p in
        rw (r.1) (
          IsPatched-forget addr (removed addr b s) q,
          ground (arith, q.shown addr, lookup-remove addr addr s.dbg.breakpoints),
        )
  ]

  -- Under the invariant, a remove_breakpoint that fails at a breakpoint forgets it while int3 stays
  -- in the program.
  remove_breakpoint-failed :
      (addr : ℕ) (b : Breakpoint) (s : State W)
      → lookup addr s.dbg.breakpoints ≡ some b
      → is_ok (remove_breakpoint F addr s).0 ≡ false
      → IsPatched M orig s
      → (lookup addr (remove_breakpoint F addr s).1.dbg.breakpoints ≡ none)
        × (mem (remove_breakpoint F addr s).1.world addr ≡ 0xcc)
  unfolding remove_breakpoint
  remove_breakpoint-failed addr b s found bad p = ground (
    arith,
    AllSaved-lookup orig addr b s.dbg.breakpoints p.saved found,
    disable-mem M s.dbg.pid b s.world,
    p.shown addr,
    lookup-remove addr addr s.dbg.breakpoints,
  )

  -- Under the invariant, a second set_breakpoint at an address that has one, followed by
  -- remove_breakpoint, both returning ok, leaves int3 in the program without a breakpoint.
  pub set_twice-remove :
      (addr : ℕ) (s : State W)
      → s.dbg.arch ≡ x86_64
      → lookup addr s.dbg.breakpoints ≢ none
      → IsPatched M orig s
      → (set_breakpoint F addr s).0 ≡ ok tt
      → (remove_breakpoint F addr (set_breakpoint F addr s).1).0 ≡ ok tt
      → let t = (remove_breakpoint F addr (set_breakpoint F addr s).1).1 in
        (mem t.world addr ≡ 0xcc) × (lookup addr t.dbg.breakpoints ≡ none)
  unfolding Breakpoint.new bp_bytes bp_size
  set_twice-remove addr s arch there p first second = elim (ok-cases (enabling F addr s).0) [
    | inl e ↦ absurd (ground (arith, first, (set_breakpoint-failed F addr s e).1))
    | inr (b, e) ↦
        let fresh = Breakpoint.new addr s.dbg.arch in
        let t : State W = record {
          dbg = store_breakpoint addr b s.dbg;
          world = (enabling F addr s).1;
        } in
        let set_up = set_breakpoint-ok F addr s b e in
        let found : lookup addr t.dbg.breakpoints ≡ some b =
          ground (arith, lookup-insert addr addr b s.dbg.breakpoints) in
        let r = remove_breakpoint-ok addr b t found (rw set_up at second) in
        rw (set_up, r.1)
          (
            ground (
              arith,
              enable-saved M s.dbg.pid fresh b s.world refl e,
              disable-mem M s.dbg.pid b t.world,
              r.0,
              p.shown addr,
            ),
            ground (arith, lookup-remove addr addr t.dbg.breakpoints),
          )
  ]
