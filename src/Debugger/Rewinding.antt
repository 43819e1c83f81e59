-- ===== src/Debugger/Rewinding.antt =====
-- `handle_breakpoint_hit` of src/debugger.rs over threads whose registers are a function of the port.
use macos_c_debugger_rust.Base.{
  ℕ, suc, Bool, true, false, List, [], ◌∷◌, Option, none, some, ◌==◌, if◌then◌else◌, ◌≡◌, ◌≢◌, refl,
  ap, ◌∙◌, arith, Bool-cases, inl, inr, ◌||◌,
}
use macos_c_debugger_rust.Io.{ok, is_ok}
use macos_c_debugger_rust.Mach.{Foreign, get_registers, set_registers}
use macos_c_debugger_rust.Register.Intel.{ThreadState64, pc, set_pc}
use macos_c_debugger_rust.Debugger.{State, Debugger, ThreadEntry, stopped, sigtrap}
use macos_c_debugger_rust.Debugger.Break.{armed}
use macos_c_debugger_rust.Debugger.Hit.{rewind, trap_address, or_hit, handle_breakpoint_hit}

-- What the kernel's documentation says of the threads of a stopped task: their registers can be
-- read, and a successful write changes those of its thread alone.
pub record HasRegisters {W : Type 0} (F : Foreign W) : Type 0 where
  pub regs : W → ℕ → ThreadState64
  pub get_ok : (p : ℕ) (w : W) → (F.thread_get_state p w).0 ≡ (0, regs w p)
  pub get_keeps : (p q : ℕ) (w : W) → regs (F.thread_get_state p w).1 q ≡ regs w q
  pub set_value :
      (p : ℕ) (r : ThreadState64) (w : W)
      → (F.thread_set_state p r w).0 ≡ 0
      → regs (F.thread_set_state p r w).1 p ≡ r
  pub set_keeps :
      (p q : ℕ) (r : ThreadState64) (w : W) → p ≢ q → regs (F.thread_set_state p r w).1 q ≡ regs w q

abbrev pub has_port : ℕ → List ThreadEntry → Bool
has_port q [] = false
has_port q (t ∷ ts) = t.port == q || has_port q ts

-- The ports of the list are different.
abbrev pub Distinct : List ThreadEntry → Type 0
Distinct [] = Unit {0}
Distinct (t ∷ ts) = (has_port t.port ts ≡ false) × Distinct ts

-- The thread's program counter stands just behind an enabled breakpoint.
abbrev pub trapped : Debugger → ThreadState64 → Bool
trapped d r = armed (trap_address d (pc r)) d

abbrev pub set_back : Debugger → ThreadState64 → ThreadState64
set_back d r = if trapped d r then set_pc r (trap_address d (pc r)) else r

-- The first trapped thread of the list, with its breakpoint.
abbrev pub first_trapped : Debugger → (ℕ → ThreadState64) → ℕ → List ThreadEntry → Option (ℕ × ℕ)
first_trapped d regs i [] = none
first_trapped d regs i (t ∷ ts) =
    if trapped d (regs t.port)
    then some (i, trap_address d (pc (regs t.port)))
    else first_trapped d regs (suc i) ts

-- The debugger after the first hit, if there is one.
abbrev pub noted : Debugger → Option (ℕ × ℕ) → Debugger
noted d none = d
noted d (some (i, addr)) = record d {
  at_breakpoint = some addr;
  current_thread = i;
  last_status = some (stopped sigtrap addr);
}

abbrev pub earlier : Option (ℕ × ℕ) → Option (ℕ × ℕ) → Option (ℕ × ℕ)
earlier none h = h
earlier (some g) h = some g

module _ {W : Type 0} {F : Foreign W} (R : HasRegisters F) where
  open R use {regs, get_ok, get_keeps, set_value, set_keeps}

  -- The world after one thread has been looked at and set back.
  looked : ℕ → W → W
  looked p w = (F.thread_get_state p w).1

  rewind-here :
      (i : ℕ) (hit : Option (ℕ × ℕ)) (t : ThreadEntry) (ts : List ThreadEntry) (s : State W)
      → trapped s.dbg (regs s.world t.port) ≡ true
      → let at = trap_address s.dbg (pc (regs s.world t.port)) in
        let w =
          F.thread_set_state t.port (set_pc (regs s.world t.port) at) (looked t.port s.world) in
        is_ok (rewind F i hit (t ∷ ts) s).0 ≡ true
        → (w.0 ≡ 0)
          × (rewind F i hit (t ∷ ts) s
              ≡ rewind F (suc i) (or_hit hit (i, at)) ts (record s { world = w.1 }))
  unfolding rewind looked get_registers set_registers
  rewind-here i hit t ts s e done = (
    ground (arith, get_ok t.port s.world, done, e),
    ground (arith, get_ok t.port s.world, done, e),
  )

  rewind-past :
      (i : ℕ) (hit : Option (ℕ × ℕ)) (t : ThreadEntry) (ts : List ThreadEntry) (s : State W)
      → trapped s.dbg (regs s.world t.port) ≡ false
      → rewind F i hit (t ∷ ts) s
        ≡ rewind F (suc i) hit ts (record s { world = looked t.port s.world })
  unfolding rewind looked get_registers
  rewind-past i hit t ts s e = ground (arith, get_ok t.port s.world)

  -- `f` holds the registers before the loop, of the threads that it has not reached.
  rewind-all :
      (f : ℕ → ThreadState64) (i : ℕ) (hit : Option (ℕ × ℕ)) (ts : List ThreadEntry) (s : State W)
      → Distinct ts
      → ((q : ℕ) → has_port q ts ≡ true → regs s.world q ≡ f q)
      → is_ok (rewind F i hit ts s).0 ≡ true
      → ((rewind F i hit ts s).0 ≡ ok (earlier hit (first_trapped s.dbg f i ts)))
        × ((rewind F i hit ts s).1.dbg ≡ s.dbg)
        × ((q : ℕ)
            → regs (rewind F i hit ts s).1.world q
              ≡ (if has_port q ts then set_back s.dbg (f q) else regs s.world q))
  rewind-all f i hit [] s d same done = unfold rewind in (ground arith, refl, λ q. refl)
  rewind-all f i hit (t ∷ ts) s d same done =
      elim (Bool-cases (trapped s.dbg (regs s.world t.port))) [
        | inl e ↦
            let step = rewind-here i hit t ts s e done in
            let at = trap_address s.dbg (pc (regs s.world t.port)) in
            let r = set_pc (regs s.world t.port) at in
            let w = looked t.port s.world in
            let s' : State W = record s { world = (F.thread_set_state t.port r w).1 } in
            let ih =
              rewind-all f (suc i) (or_hit hit (i, at)) ts s' d.1
                (λ q h. set_keeps t.port q r w (apart q h) ∙ unchanged q h) (rw step.1 at done) in
            rw step.1 (
              ground (arith, ih.0, here, e),
              ih.1,
              λ q. ground (
                arith,
                ih.2 q,
                kept q,
                here,
                e,
                d.0,
                set_keeps t.port q r w,
                set_value t.port r w step.0,
              ),
            )
        | inr e ↦
            let step = rewind-past i hit t ts s e in
            let s' : State W = record s { world = looked t.port s.world } in
            let ih = rewind-all f (suc i) hit ts s' d.1 unchanged (rw step at done) in
            rw step (
              ground (arith, ih.0, here, e),
              ih.1,
              λ q. ground (arith, ih.2 q, kept q, here, e, d.0),
            )
      ]
    where
      here : regs s.world t.port ≡ f t.port
      here = same t.port (ground arith)

      kept : (q : ℕ) → regs (looked t.port s.world) q ≡ regs s.world q
      kept q = unfold looked in get_keeps t.port q s.world

      unchanged : (q : ℕ) → has_port q ts ≡ true → regs (looked t.port s.world) q ≡ f q
      unchanged q h = kept q ∙ same q (ground arith)

      apart : (q : ℕ) → has_port q ts ≡ true → t.port ≢ q
      apart q h z = ground (arith, d.0)

  hit-state :
      (s : State W) (at : ℕ) (h : Option (ℕ × ℕ))
      → s.dbg.last_status ≡ some (stopped sigtrap at)
      → (rewind F 0 none s.dbg.threads s).0 ≡ ok h
      → ((handle_breakpoint_hit F s).1.world ≡ (rewind F 0 none s.dbg.threads s).1.world)
        × ((handle_breakpoint_hit F s).1.dbg ≡ noted (rewind F 0 none s.dbg.threads s).1.dbg h)
  unfolding handle_breakpoint_hit
  hit-state s at none st e = ground arith
  hit-state s at (some (i, a)) st e = ground arith

  rewind-is_ok :
      (s : State W) (at : ℕ)
      → s.dbg.last_status ≡ some (stopped sigtrap at)
      → (handle_breakpoint_hit F s).0 ≡ ok tt
      → is_ok (rewind F 0 none s.dbg.threads s).0 ≡ true
  unfolding handle_breakpoint_hit
  rewind-is_ok s at st done = ground arith

  -- After a stop by SIGTRAP, a handle_breakpoint_hit that returns ok sets every listed thread
  -- behind an enabled breakpoint back to it and changes no other register; the first such thread
  -- becomes current with its breakpoint noted, and without one the debugger is unchanged. The
  -- threads have different ports.
  pub handle_breakpoint_hit_lem :
      (s : State W) (at : ℕ)
      → s.dbg.last_status ≡ some (stopped sigtrap at)
      → Distinct s.dbg.threads
      → (handle_breakpoint_hit F s).0 ≡ ok tt
      → let t = (handle_breakpoint_hit F s).1 in
        ((q : ℕ)
          → regs t.world q ≡ (
              if has_port q s.dbg.threads then set_back s.dbg (regs s.world q) else regs s.world q))
        × (t.dbg ≡ noted s.dbg (first_trapped s.dbg (regs s.world) 0 s.dbg.threads))
  handle_breakpoint_hit_lem s at st d done =
      let r =
        rewind-all (regs s.world) 0 none s.dbg.threads s d (λ q h. refl)
          (rewind-is_ok s at st done) in
      let h = hit-state s at _ st r.0 in
      (
        λ q. rw h.0 (r.2 q),
        h.1 ∙ ap (λ x. noted x (first_trapped s.dbg (regs s.world) 0 s.dbg.threads)) r.1,
      )
