-- ===== src/Debugger/Refined.antt =====
-- Breakpoints and memory of a session of src/debugger.rs, against a machine that has the program's
-- bytes and a set of addresses.
use macos_c_debugger_rust.Base.{
  ℕ, Bool, true, false, List, [], ◌∷◌, Option, none, some, ◌==◌, if◌then◌else◌, ◌+◌, ◌^◌, ◌<◌, ◌≤◌,
  ◌≡◌, refl, ◌∙◌, arith, length, is_some, inl, inr,
}
use macos_c_debugger_rust.Base.Assoc.{lookup}
use macos_c_debugger_rust.Arch.{x86_64}
use macos_c_debugger_rust.Io.{Io, ok, ok-cases, ◌>>=◌}
use macos_c_debugger_rust.Mach.{Foreign}
use macos_c_debugger_rust.Mach.Bytes.{HasMemory, bytes_at, overlay}
use macos_c_debugger_rust.Debugger.{State, read_memory, write_memory}
use macos_c_debugger_rust.Debugger.Break.{set_breakpoint, remove_breakpoint}
use macos_c_debugger_rust.Debugger.Patched.{set_breakpoint-IsPatched, remove_breakpoint-IsPatched}
use macos_c_debugger_rust.Debugger.Transparent.{IsPatched, read_memory-transparent}
use macos_c_debugger_rust.Debugger.Written.{write_memory-IsPatched, write_memory-dbg}
use macos_c_debugger_rust.Debugger.Kept.{
  read_memory-IsPatched, read_memory-dbg, set_breakpoint-lookup, set_breakpoint-arch,
  remove_breakpoint-lookup, remove_breakpoint-arch,
}

pub data Op : Type 0 where
  insert_at remove_at : ℕ → Op
  peek_at : ℕ → ℕ → Op
  poke_at : ℕ → List ℕ → Op

-- The program's bytes, and where breakpoints stand.
pub record Machine : Type 0 where
  pub bytes : ℕ → ℕ
  pub stops : ℕ → Bool

-- The answer of one operation, and the machine after it.
abbrev pub answer : Op → Machine → List ℕ
answer (peek_at a n) m = bytes_at m.bytes a n
answer _ m = []

abbrev pub after : Op → Machine → Machine
after (insert_at a) m = record m { stops = λ x. if a == x then true else m.stops x }
after (remove_at a) m = record m { stops = λ x. if a == x then false else m.stops x }
after (peek_at a n) m = m
after (poke_at a bs) m = record m { bytes = overlay m.bytes a bs }

-- No second breakpoint at an address, no write over one, and addresses below 2^64.
abbrev pub Allowed : Op → Machine → Type 0
Allowed (insert_at a) m = (a < 2 ^ 64) × (m.stops a ≡ false)
Allowed (remove_at a) m = Unit {0}
Allowed (peek_at a n) m = a + n < 2 ^ 64
Allowed (poke_at a bs) m = (x : ℕ) → a ≤ x → x < a + length bs → m.stops x ≡ false

abbrev pub AllAllowed : List Op → Machine → Type 0
AllAllowed [] m = Unit {0}
AllAllowed (op ∷ ops) m = Allowed op m × AllAllowed ops (after op m)

abbrev pub answers : List Op → Machine → List (List ℕ)
answers [] m = []
answers (op ∷ ops) m = answer op m ∷ answers ops (after op m)

abbrev pub end_of : List Op → Machine → Machine
end_of [] m = m
end_of (op ∷ ops) m = end_of ops (after op m)

-- An operation without an answer.
abbrev pub quiet : {W : Type 0} → Io (State W) (Unit {0}) → Io (State W) (List ℕ)
quiet m = m >>= λ _ s. (ok [], s)

module _ {W : Type 0} (F : Foreign W) where
  -- The same with the debugger.
  unfoldable pub perform : Op → Io (State W) (List ℕ)
  perform (insert_at a) = quiet (set_breakpoint F a)
  perform (remove_at a) = quiet (remove_breakpoint F a)
  perform (peek_at a n) = read_memory F a n
  perform (poke_at a bs) = quiet (write_memory F a bs)

  abbrev pub collect : List ℕ → List (List ℕ) → Io (State W) (List (List ℕ))
  collect x xs s = (ok (x ∷ xs), s)

  unfoldable pub perform_all : List Op → Io (State W) (List (List ℕ))
  unfolding perform
  perform_all [] s = (ok [], s)
  perform_all (op ∷ ops) s =
      let rest = perform_all ops in (perform op >>= λ x. rest >>= λ xs. collect x xs) s

-- The session shows the machine.
pub record Shows {W : Type 0} {F : Foreign W} (M : HasMemory F) (m : Machine) (s : State W)
    : Type 0 where
  pub patched : IsPatched M m.bytes s
  pub agreed : (x : ℕ) → is_some (lookup x s.dbg.breakpoints) ≡ m.stops x
  pub intel : s.dbg.arch ≡ x86_64

none_there : {A : Type 0} (o : Option A) → is_some o ≡ false → o ≡ none
none_there none h = refl
none_there (some x) h = absurd (cc)

silent :
    {W : Type 0} (m : Io (State W) (Unit {0})) (s : State W) (out : List ℕ)
    → (quiet m s).0 ≡ ok out
    → ((m s).0 ≡ ok tt) × (out ≡ []) × ((quiet m s).1 ≡ (m s).1)
silent m s out h = elim (ok-cases (m s).0) [
  | inl e ↦ absurd (ground (arith, e, h))
  | inr (u, e) ↦ (e, ground (arith, e, h), ground (arith, e))
]

module _ {W : Type 0} {F : Foreign W} (M : HasMemory F) where
  perform-Shows :
      (op : Op) (m : Machine) (s : State W) (out : List ℕ)
      → Allowed op m
      → Shows M m s
      → (perform F op s).0 ≡ ok out
      → (out ≡ answer op m) × Shows M (after op m) (perform F op s).1
  unfolding perform
  perform-Shows (insert_at a) m s out h v e =
      let (done, q, r) = silent (set_breakpoint F a) s out e in
      (
        q,
        rw r (record {
          patched =
              set_breakpoint-IsPatched M m.bytes a s h.0 v.intel
                (none_there (lookup a s.dbg.breakpoints) (v.agreed a ∙ h.1)) v.patched;
          agreed = λ x. ground (arith, set_breakpoint-lookup F a x s, v.agreed x, done);
          intel = set_breakpoint-arch F a s ∙ v.intel;
        }),
      )
  perform-Shows (remove_at a) m s out h v e =
      let (done, q, r) = silent (remove_breakpoint F a) s out e in
      (
        q,
        rw r (record {
          patched = (remove_breakpoint-IsPatched M m.bytes a s done v.patched).0;
          agreed = λ x. ground (arith, remove_breakpoint-lookup F a x s, v.agreed x);
          intel = remove_breakpoint-arch F a s ∙ v.intel;
        }),
      )
  perform-Shows (peek_at a n) m s out h v e = (
    read_memory-transparent M m.bytes s a n out v.patched h e,
    record {
      patched = read_memory-IsPatched M m.bytes a n s v.patched;
      agreed = λ x. rw (read_memory-dbg F a n s) (v.agreed x);
      intel = rw (read_memory-dbg F a n s) v.intel;
    },
  )
  perform-Shows (poke_at a bs) m s out h v e =
      let (done, q, r) = silent (write_memory F a bs) s out e in
      (
        q,
        rw r (record {
          patched =
              write_memory-IsPatched M m.bytes a bs s
                (λ x l u. none_there (lookup x s.dbg.breakpoints) (v.agreed x ∙ h x l u)) done
                v.patched;
          agreed = λ x. rw (write_memory-dbg M m.bytes a bs s) (v.agreed x);
          intel = rw (write_memory-dbg M m.bytes a bs s) v.intel;
        }),
      )

  perform_all-parts :
      (op : Op) (ops : List Op) (s : State W) (outs : List (List ℕ))
      → (perform_all F (op ∷ ops) s).0 ≡ ok outs
      → (x : List ℕ) × (xs : List (List ℕ)) × ((perform F op s).0 ≡ ok x)
        × ((perform_all F ops (perform F op s).1).0 ≡ ok xs)
        × (outs ≡ x ∷ xs)
        × ((perform_all F (op ∷ ops) s).1 ≡ (perform_all F ops (perform F op s).1).1)
  unfolding perform_all
  perform_all-parts op ops s outs h = elim (ok-cases (perform F op s).0) [
    | inl e ↦ absurd (ground (arith, e, h))
    | inr (x, e) ↦ elim (ok-cases (perform_all F ops (perform F op s).1).0) [
      | inl f ↦ absurd (ground (arith, e, f, h))
      | inr (xs, f) ↦ (x, xs, e, f, ground (arith, e, f, h), ground (arith, e, f))
    ]
  ]

  -- A sequence of set_breakpoint at free addresses, remove_breakpoint, read_memory, and
  -- write_memory beside breakpoints, all below 2^64 and all returning ok, answers as a machine with
  -- the program's bytes and a set of breakpoint addresses does, and ends in a session that shows
  -- that machine.
  pub perform_all-Shows :
      (ops : List Op) (m : Machine) (s : State W) (outs : List (List ℕ))
      → AllAllowed ops m
      → Shows M m s
      → (perform_all F ops s).0 ≡ ok outs
      → (outs ≡ answers ops m) × Shows M (end_of ops m) (perform_all F ops s).1
  unfolding perform_all
  perform_all-Shows [] m s outs h v e = (ground (arith, e), v)
  perform_all-Shows (op ∷ ops) m s outs h v e =
      let (x, xs, f, g, q, r) = perform_all-parts op ops s outs e in
      let (first, w) = perform-Shows op m s x h.0 v f in
      let (others, z) = perform_all-Shows ops (after op m) (perform F op s).1 xs h.1 w g in
      (rw (q, first, others) refl, rw r z)
