-- ===== src/Debugger/Transparent.antt =====
-- src/debugger.rs: memory seen through `read_memory`. The debugged program has bytes of its own, and
-- the breakpoints write over some of them.
use macos_c_debugger_rust.Base.{
  ℕ, zero, suc, true, List, [], ◌∷◌, none, some, ◌==◌, if◌then◌else◌, ◌+◌, ◌-◌, ◌^◌, ◌<◌, ◌≤◌, ◌≡◌,
  refl, sym, ap, ◌∙◌, fun_ext, arith, length, Bool-cases, inl, inr, set as set_elem,
}
use macos_c_debugger_rust.Base.Assoc.{lookup}
use macos_c_debugger_rust.Arch.{x86_64}
use macos_c_debugger_rust.Breakpoint.{Breakpoint}
use macos_c_debugger_rust.Io.{ok}
use macos_c_debugger_rust.Mach.{Foreign}
use macos_c_debugger_rust.Mach.Memory
use macos_c_debugger_rust.Mach.Bytes.{HasMemory, bytes_at, read_memory-bytes}
use macos_c_debugger_rust.Debugger.{State, patch_byte, patch_saved, unpatch, read_memory}

-- The breakpoints are enabled, and each has saved the program's own byte at its address.
abbrev pub IsSaved : (ℕ → ℕ) → ℕ → Breakpoint → Type 0
IsSaved orig k b =
    (b.enabled ≡ true)
    × (b.addr ≡ k)
    × (b.arch ≡ x86_64)
    × (b.saved_bytes ≡ orig k ∷ [])
    × (k < 2 ^ 64)

abbrev pub AllSaved : (ℕ → ℕ) → List (ℕ × Breakpoint) → Type 0
AllSaved orig [] = Unit {0}
AllSaved orig ((k, b) ∷ m) = IsSaved orig k b × AllSaved orig m

-- The program's bytes with `int3` at every breakpoint.
abbrev pub patched : (ℕ → ℕ) → List (ℕ × Breakpoint) → ℕ → ℕ
patched orig m a = elim (lookup a m) [ none ↦ orig a | some _ ↦ 0xcc ]

-- The state of a session over a program with the bytes `orig`.
pub record IsPatched {W : Type 0} {F : Foreign W} (M : HasMemory F) (orig : ℕ → ℕ) (s : State W)
    : Type 0 where
  pub saved : AllSaved orig s.dbg.breakpoints
  pub shown : (a : ℕ) → M.mem s.world a ≡ patched orig s.dbg.breakpoints a

abbrev update : (ℕ → ℕ) → ℕ → ℕ → ℕ → ℕ
update f k b x = if k == x then b else f x

length-bytes_at : (f : ℕ → ℕ) (a n : ℕ) → length (bytes_at f a n) ≡ n
length-bytes_at f a zero = refl
length-bytes_at f a (suc n) = ap suc (length-bytes_at f (suc a) n)

bytes_at-update_before :
    (f : ℕ → ℕ) (k b a n : ℕ) → k < a → bytes_at (update f k b) a n ≡ bytes_at f a n
bytes_at-update_before f k b a zero h = refl
bytes_at-update_before f k b a (suc n) h =
    ground (arith, bytes_at-update_before f k b (suc a) n (omega arith))

bytes_at-update_after :
    (f : ℕ → ℕ) (k b a n : ℕ) → a + n ≤ k → bytes_at (update f k b) a n ≡ bytes_at f a n
bytes_at-update_after f k b a zero h = refl
bytes_at-update_after f k b a (suc n) h =
    ground (arith, bytes_at-update_after f k b (suc a) n (omega arith))

set-bytes_at :
    (f : ℕ → ℕ) (k b a n : ℕ)
    → a ≤ k
    → k < a + n
    → set_elem (bytes_at f a n) (k - a) b ≡ bytes_at (update f k b) a n
set-bytes_at f k b a zero h lt = absurd (omega arith)
set-bytes_at f k b a (suc n) h lt = elim (Bool-cases (k == a)) [
  | inl e ↦
      let z : k - a ≡ 0 = ground arith in
      rw (z, e) (ap (λ l. b ∷ l) (sym (bytes_at-update_before f k b (suc a) n (ground arith))))
  | inr e ↦
      let z : k - a ≡ suc (k - suc a) = ground arith in
      rw (z, e) (ap (λ l. f a ∷ l) (set-bytes_at f k b (suc a) n (ground arith) (ground arith)))
]

patch_byte-bytes_at :
    (f : ℕ → ℕ) (k b a n : ℕ)
    → a + n < 2 ^ 64
    → patch_byte a k b (bytes_at f a n) ≡ bytes_at (update f k b) a n
unfolding patch_byte
patch_byte-bytes_at f k b a n h = ground (
  arith,
  length-bytes_at f a n,
  set-bytes_at f k b a n,
  bytes_at-update_before f k b a n,
  bytes_at-update_after f k b a n,
)

-- A buffer that shows the program's bytes but at breakpoints shows them everywhere when unpatched.
pub unpatch-bytes_at :
    (orig f : ℕ → ℕ) (m : List (ℕ × Breakpoint)) (a n : ℕ)
    → AllSaved orig m
    → ((x : ℕ) → lookup x m ≡ none → f x ≡ orig x)
    → a + n < 2 ^ 64
    → unpatch a m (bytes_at f a n) ≡ bytes_at orig a n
unfolding unpatch patch_saved lookup
unpatch-bytes_at orig f [] a n sv same h = rw (fun_ext (λ x. same x refl))
unpatch-bytes_at orig f ((k, b) ∷ m) a n sv same h =
    rw (sv.0.0, sv.0.3, patch_byte-bytes_at f k (orig k) a n h)
      (unpatch-bytes_at orig (update f k (orig k)) m a n sv.1 rest h)
  where
    rest : (x : ℕ) → lookup x m ≡ none → update f k (orig k) x ≡ orig x
    rest x e = ground (arith, same x)

pub read_memory-buffer :
    {W : Type 0} (F : Foreign W) (s : State W) (a n : ℕ) (bs : List ℕ)
    → (read_memory F a n s).0 ≡ ok bs
    → (buf : List ℕ) × ((Memory.read_memory F s.dbg.pid a n s.world).0 ≡ ok buf)
      × (bs ≡ unpatch a s.dbg.breakpoints buf)
unfolding read_memory
read_memory-buffer F s a n bs e = ground arith

-- Under the invariant, a read_memory below 2^64 that returns bytes returns the program's own bytes,
-- whatever breakpoints are set.
pub read_memory-transparent :
    {W : Type 0} {F : Foreign W} (M : HasMemory F) (orig : ℕ → ℕ) (s : State W) (a n : ℕ)
    (bs : List ℕ)
    → IsPatched M orig s
    → a + n < 2 ^ 64
    → (read_memory F a n s).0 ≡ ok bs
    → bs ≡ bytes_at orig a n
read_memory-transparent {F} M orig s a n bs p h e = value (read_memory-buffer F s a n bs e)
  where
    same : (x : ℕ) → lookup x s.dbg.breakpoints ≡ none → M.mem s.world x ≡ orig x
    same x z = ground (arith, p.shown x)

    value :
        (buf : List ℕ) × ((Memory.read_memory F s.dbg.pid a n s.world).0 ≡ ok buf)
          × (bs ≡ unpatch a s.dbg.breakpoints buf)
        → bs ≡ bytes_at orig a n
    value (buf, got, done) =
        done
        ∙ ap (unpatch a s.dbg.breakpoints) (read_memory-bytes F M s.dbg.pid a n s.world buf got)
        ∙ unpatch-bytes_at orig (M.mem s.world) s.dbg.breakpoints a n p.saved same h
