-- ===== src/Debugger/Written.antt =====
-- `write_memory` of src/debugger.rs beside breakpoints, and at one.
use macos_c_debugger_rust.Base.{
  ℕ, zero, List, [], ◌∷◌, none, some, ◌+◌, ◌^◌, ◌<◌, ◌≤◌, ◌≡◌, refl, ap, ◌∙◌, arith, length, suc,
}
use macos_c_debugger_rust.Base.Assoc.{lookup}
use macos_c_debugger_rust.Breakpoint.{Breakpoint}
use macos_c_debugger_rust.Io.{ok}
use macos_c_debugger_rust.Mach.{Foreign}
use macos_c_debugger_rust.Mach.Bytes.{
  HasMemory, bytes_at, overlay, read_memory-bytes, write_memory-mem,
}
use macos_c_debugger_rust.Debugger.{State, read_memory, write_memory, unpatch}
use macos_c_debugger_rust.Debugger.Transparent.{
  IsPatched, AllSaved, read_memory-transparent, unpatch-bytes_at, read_memory-buffer,
}

-- No breakpoint stands in the range.
abbrev pub Free : List (ℕ × Breakpoint) → ℕ → ℕ → Type 0
Free m a n = (x : ℕ) → a ≤ x → x < a + n → lookup x m ≡ none

overlay-below : (f : ℕ → ℕ) (a : ℕ) (bs : List ℕ) (x : ℕ) → x < a → overlay f a bs x ≡ f x
overlay-below f a [] x h = refl
overlay-below f a (b ∷ bs) x h = ground (arith, overlay-below f (suc a) bs x (omega arith))

overlay-above :
    (f : ℕ → ℕ) (a : ℕ) (bs : List ℕ) (x : ℕ) → a + length bs ≤ x → overlay f a bs x ≡ f x
overlay-above f a [] x h = refl
overlay-above f a (b ∷ bs) x h = ground (arith, overlay-above f (suc a) bs x (omega arith))

-- What is written does not depend on what was there.
overlay-inside :
    (f g : ℕ → ℕ) (a : ℕ) (bs : List ℕ) (x : ℕ)
    → a ≤ x
    → x < a + length bs
    → overlay f a bs x ≡ overlay g a bs x
overlay-inside f g a [] x h l = absurd (omega arith)
overlay-inside f g a (b ∷ bs) x h l = ground (arith, overlay-inside f g (suc a) bs x)

bytes_at-same :
    (f g : ℕ → ℕ) (a n : ℕ)
    → ((x : ℕ) → a ≤ x → x < a + n → f x ≡ g x)
    → bytes_at f a n ≡ bytes_at g a n
bytes_at-same f g a zero h = refl
bytes_at-same f g a (suc n) h = ground (
  arith,
  h a (omega arith) (omega arith),
  bytes_at-same f g (suc a) n (λ x l u. h x (omega arith) (omega arith)),
)

bytes_at-overlay : (f : ℕ → ℕ) (a : ℕ) (bs : List ℕ) → bytes_at (overlay f a bs) a (length bs) ≡ bs
bytes_at-overlay f a [] = refl
bytes_at-overlay f a (b ∷ bs) =
    let rest : bytes_at (overlay f a (b ∷ bs)) (suc a) (length bs) ≡ bs =
      bytes_at-same (overlay f a (b ∷ bs)) (overlay f (suc a) bs) (suc a) (length bs)
        (λ x l u. ground arith)
      ∙ bytes_at-overlay f (suc a) bs in
    ground (arith, rest)

module _ (orig : ℕ → ℕ) (a : ℕ) (bs : List ℕ) where
  AllSaved-overlay :
      (m : List (ℕ × Breakpoint))
      → Free m a (length bs)
      → AllSaved orig m
      → AllSaved (overlay orig a bs) m
  unfolding lookup
  AllSaved-overlay [] free sv = tt
  AllSaved-overlay ((k, b) ∷ m) free sv = (
    (
      sv.0.0,
      sv.0.1,
      sv.0.2,
      ground (arith, sv.0.3, free k, overlay-below orig a bs k, overlay-above orig a bs k),
      sv.0.4,
    ),
    AllSaved-overlay m (λ x l h. ground (arith, free x l h)) sv.1,
  )

module _ {W : Type 0} {F : Foreign W} (M : HasMemory F) (orig : ℕ → ℕ) where
  open M use {mem}

  -- A write_memory that returns ok in a range without breakpoints keeps the invariant, for the
  -- program's bytes with the written ones over them.
  pub write_memory-IsPatched :
      (a : ℕ) (bs : List ℕ) (s : State W)
      → Free s.dbg.breakpoints a (length bs)
      → (write_memory F a bs s).0 ≡ ok tt
      → IsPatched M orig s
      → IsPatched M (overlay orig a bs) (write_memory F a bs s).1
  unfolding write_memory
  write_memory-IsPatched a bs s free done p = record {
    saved = AllSaved-overlay orig a bs s.dbg.breakpoints free p.saved;
    shown = λ x. ground (
      arith,
      write_memory-mem F M s.dbg.pid a bs s.world,
      done,
      p.shown x,
      free x,
      overlay-below orig a bs x,
      overlay-above orig a bs x,
      overlay-below (mem s.world) a bs x,
      overlay-above (mem s.world) a bs x,
      overlay-inside (mem s.world) orig a bs x,
    );
  }

  -- Under the invariant, bytes that write_memory has written below 2^64, beside all breakpoints,
  -- are those that read_memory returns.
  pub write_memory-read_memory :
      (a : ℕ) (bs seen : List ℕ) (s : State W)
      → IsPatched M orig s
      → Free s.dbg.breakpoints a (length bs)
      → a + length bs < 2 ^ 64
      → (write_memory F a bs s).0 ≡ ok tt
      → (read_memory F a (length bs) (write_memory F a bs s).1).0 ≡ ok seen
      → seen ≡ bs
  write_memory-read_memory a bs seen s p free small done read =
      read_memory-transparent M (overlay orig a bs) (write_memory F a bs s).1 a (length bs) seen
        (write_memory-IsPatched a bs s free done p) small read
      ∙ bytes_at-overlay orig a bs

  pub write_memory-dbg : (a : ℕ) (bs : List ℕ) (s : State W) → (write_memory F a bs s).1.dbg ≡ s.dbg
  unfolding write_memory
  write_memory-dbg a bs s = refl

  -- Memory after a write that returns ok.
  write_memory-shown :
      (a : ℕ) (bs : List ℕ) (s : State W) (x : ℕ)
      → (write_memory F a bs s).0 ≡ ok tt
      → mem (write_memory F a bs s).1.world x ≡ overlay (mem s.world) a bs x
  unfolding write_memory
  write_memory-shown a bs s x done =
      ground (arith, write_memory-mem F M s.dbg.pid a bs s.world, done)

  -- Under the invariant, a byte that write_memory has written at a breakpoint's address replaces
  -- int3 while the breakpoint stays noted, and read_memory still returns the byte from before.
  pub write_memory-lost :
      (a v : ℕ) (b : Breakpoint) (seen : List ℕ) (s : State W)
      → IsPatched M orig s
      → lookup a s.dbg.breakpoints ≡ some b
      → suc a < 2 ^ 64
      → (write_memory F a (v ∷ []) s).0 ≡ ok tt
      → let t = (write_memory F a (v ∷ []) s).1 in
        (read_memory F a 1 t).0 ≡ ok seen
        → (mem t.world a ≡ v) × (lookup a t.dbg.breakpoints ≡ some b) × (seen ≡ orig a ∷ [])
  write_memory-lost a v b seen s p there small done read =
      let t = (write_memory F a (v ∷ []) s).1 in
      let (buf, got, shown) = read_memory-buffer F t a 1 seen read in
      let raw = read_memory-bytes F M t.dbg.pid a 1 t.world buf got in
      (
        ground (arith, write_memory-shown a (v ∷ []) s a done),
        rw (write_memory-dbg a (v ∷ []) s) there,
        shown
            ∙ ap (unpatch a t.dbg.breakpoints) raw
            ∙ rw (write_memory-dbg a (v ∷ []) s) (
                unpatch-bytes_at orig (mem t.world) s.dbg.breakpoints a 1 p.saved
                  (λ x z.
                    ground (arith, write_memory-shown a (v ∷ []) s x done, z, there, p.shown x))
                  (omega arith)),
      )
