-- ===== src/Session/Changed.antt =====
-- `check_soft_watches` and `soft_watch_cont` of src/main.rs: which change of memory ends the stepping.
use macos_c_debugger_rust.Base.{
  ℕ, zero, suc, Bool, true, false, List, [], ◌∷◌, Option, none, some, ◌||◌, ◌+◌, ◌^◌, ◌<◌, ◌≡◌, ◌≢◌,
  is_some, refl, sym, subst, arith, Bool-cases, inl, inr,
}
use macos_c_debugger_rust.Base.Text.{text_eq, text_eq_refl}
use macos_c_debugger_rust.Disasm.{Disassembler}
use macos_c_debugger_rust.Io.{Result, ok, err, panic, out_of_fuel, and_then, and_then-ok}
use macos_c_debugger_rust.Mach.{Foreign}
use macos_c_debugger_rust.Mach.Bytes.{HasMemory, bytes_at}
use macos_c_debugger_rust.Debugger.{State, WaitStatus, is_stopped, read_memory}
use macos_c_debugger_rust.Debugger.Run.{step}
use macos_c_debugger_rust.Debugger.Kept.{read_memory-IsPatched}
use macos_c_debugger_rust.Debugger.Transparent.{IsPatched, read_memory-transparent}
use macos_c_debugger_rust.Session.{SoftWatchpoint}
use macos_c_debugger_rust.Session.Soft.{
  in_front, check_from, check_soft_watches, soft_loop, soft_watch_cont, max_steps,
}

-- The watched bytes lie below 2^64.
abbrev pub AllBelow : List SoftWatchpoint → Type 0
AllBelow [] = Unit {0}
AllBelow (w ∷ ws) = (w.addr + w.size < 2 ^ 64) × AllBelow ws

-- Nothing was found and kept, or one watchpoint's bytes in the program are other ones than those it
-- had; it has them now, and its number is the one found.
pub data Changed (orig : ℕ → ℕ)
    : ℕ → List SoftWatchpoint → Option ℕ × List SoftWatchpoint → Type 0 where
  nothing : {i : ℕ} → Changed orig i [] (none, [])
  here :
      {i : ℕ} {w : SoftWatchpoint} {ws : List SoftWatchpoint}
      → bytes_at orig w.addr w.size ≢ w.prev_value
      → Changed orig i (w ∷ ws) (some i, record w { prev_value = bytes_at orig w.addr w.size } ∷ ws)
  there :
      {i : ℕ} {w : SoftWatchpoint} {ws new : List SoftWatchpoint} {found : Option ℕ}
      → Changed orig (suc i) ws (found, new)
      → Changed orig i (w ∷ ws) (found, w ∷ new)

module _ {W : Type 0} {F : Foreign W} (M : HasMemory F) (orig : ℕ → ℕ) where
  open M use {mem}

  -- The watchpoints behind one that has not changed or cannot be read.
  rest-Changed :
      (i : ℕ) (w : SoftWatchpoint) (ws : List SoftWatchpoint) (s : State W) (found : Option ℕ)
      (new : List SoftWatchpoint)
      → ((found : Option ℕ) (new : List SoftWatchpoint)
          → (check_from F (suc i) ws s).0 ≡ ok (found, new)
          → Changed orig (suc i) ws (found, new))
      → (and_then (check_from F (suc i) ws s).0 (check_from F (suc i) ws s).1 (in_front w)).0
        ≡ ok (found, new)
      → Changed orig i (w ∷ ws) (found, new)
  rest-Changed i w ws s found new ih h =
      let (r, e, f) =
        and_then-ok (check_from F (suc i) ws s).0 (check_from F (suc i) ws s).1 (in_front w) h in
      let q : (r.0, w ∷ r.1) ≡ (found, new) = ground (arith, f) in
      subst (Changed orig i (w ∷ ws)) q (there (ih r.0 r.1 e))

  check_from-Changed :
      (i : ℕ) (ws : List SoftWatchpoint) (s : State W) (found : Option ℕ)
      (new : List SoftWatchpoint)
      → IsPatched M orig s
      → AllBelow ws
      → (check_from F i ws s).0 ≡ ok (found, new)
      → Changed orig i ws (found, new)
  unfolding check_from
  check_from-Changed i [] s found new p small h =
      let q : (none, []) ≡ (found, new) = ground (arith, h) in subst (Changed orig i []) q nothing
  check_from-Changed i (w ∷ ws) s found new p small h =
      let t = (read_memory F w.addr w.size s).1 in
      let p' = read_memory-IsPatched M orig w.addr w.size s p in
      go (read_memory F w.addr w.size s).0 refl
        (λ found new. check_from-Changed (suc i) ws t found new p' small.1)
    where
      rest : Type 0
      rest =
          (found : Option ℕ) (new : List SoftWatchpoint)
          → (check_from F (suc i) ws (read_memory F w.addr w.size s).1).0 ≡ ok (found, new)
          → Changed orig (suc i) ws (found, new)

      go :
          (r : Result (List ℕ))
          → (read_memory F w.addr w.size s).0 ≡ r
          → rest
          → Changed orig i (w ∷ ws) (found, new)
      go (ok bs) e ih = elim (Bool-cases (text_eq bs w.prev_value)) [
        | inl q ↦ rest-Changed i w ws _ found new ih (ground (arith, e, q, h))
        | inr q ↦
            let b : bs ≡ bytes_at orig w.addr w.size =
              read_memory-transparent M orig s w.addr w.size bs p small.0 e in
            let z : (some i, record w { prev_value = bs } ∷ ws) ≡ (found, new) =
              ground (arith, e, q, h) in
            subst (Changed orig i (w ∷ ws)) z (
              subst (λ bs. Changed orig i (w ∷ ws) (some i, record w { prev_value = bs } ∷ ws))
                (sym b) (here (λ z. absurd (ground (arith, q, text_eq_refl bs, b, z)))))
      ]
      go (err x) e ih = rest-Changed i w ws _ found new ih (ground (arith, e, h))
      go panic e ih = absurd (ground (arith, e, h))
      go out_of_fuel e ih = absurd (ground (arith, e, h))

  -- Under the invariant, with the watched bytes below 2^64, a check_soft_watches that returns
  -- leaves the watchpoints as they were, or finds one whose bytes in the program, breakpoints
  -- apart, differ from those it had: it returns that one's number and keeps the new bytes in it
  -- alone.
  pub check_soft_watches-Changed :
      (ws : List SoftWatchpoint) (s : State W) (found : Option ℕ) (new : List SoftWatchpoint)
      → IsPatched M orig s
      → AllBelow ws
      → (check_soft_watches F ws s).0 ≡ ok (found, new)
      → Changed orig 0 ws (found, new)
  unfolding check_soft_watches
  check_soft_watches-Changed ws s found new p small h =
      check_from-Changed 0 ws s found new p small h

module _ {W : Type 0} (F : Foreign W) (disasm : Disassembler) (wait_fuel : ℕ) where
  -- Whether a watchpoint has changed or a breakpoint stands there.
  abbrev pub noticed : Option ℕ → State W → Bool
  noticed found s = is_some found || is_some s.dbg.at_breakpoint

  -- The check of the watchpoints after a step.
  abbrev pub looked :
      List SoftWatchpoint → State W → Result (Option ℕ × List SoftWatchpoint) × State W
  looked ws s = check_soft_watches F ws (step F disasm wait_fuel s).1

  -- The steps after which nothing is noticed, and the one that ends them.
  pub data Watched
      : ℕ
        → List SoftWatchpoint
        → State W
        → Result (WaitStatus × List SoftWatchpoint) × State W
        → Type 0 where
    ended :
        {ws : List SoftWatchpoint} {s : State W} {st : WaitStatus}
        → (step F disasm wait_fuel s).0 ≡ ok st
        → is_stopped st ≡ false
        → Watched 0 ws s (ok (st, ws), (step F disasm wait_fuel s).1)
    found :
        {ws new : List SoftWatchpoint} {s : State W} {st : WaitStatus} {i : Option ℕ}
        → (step F disasm wait_fuel s).0 ≡ ok st
        → is_stopped st ≡ true
        → (looked ws s).0 ≡ ok (i, new)
        → noticed i (looked ws s).1 ≡ true
        → Watched 0 ws s (ok (st, new), (looked ws s).1)
    passed :
        {n : ℕ} {ws new : List SoftWatchpoint} {s : State W} {st : WaitStatus} {i : Option ℕ}
        {r : Result (WaitStatus × List SoftWatchpoint) × State W}
        → (step F disasm wait_fuel s).0 ≡ ok st
        → is_stopped st ≡ true
        → (looked ws s).0 ≡ ok (i, new)
        → noticed i (looked ws s).1 ≡ false
        → Watched n new (looked ws s).1 r
        → Watched (suc n) ws s r

  soft_loop_lem :
      (n fuel : ℕ) (ws : List SoftWatchpoint) (s : State W)
      (r : Result (WaitStatus × List SoftWatchpoint) × State W)
      → Watched n ws s r
      → n < fuel
      → soft_loop F disasm wait_fuel fuel ws s ≡ r
  unfolding soft_loop
  soft_loop_lem n zero ws s r d h = absurd (omega arith)
  soft_loop_lem zero (suc fuel) ws s r (ended e f) h = ground (arith, e, f)
  soft_loop_lem zero (suc fuel) ws s r (found e f g q) h = ground (arith, e, f, g, q)
  soft_loop_lem (suc n) (suc fuel) ws s r (passed e f g q d) h =
      ground (arith, e, f, g, q, soft_loop_lem n fuel _ (looked ws s).1 r d)

  -- soft_watch_cont ends with the first step after which the process has not stopped, a software
  -- watchpoint has changed or a breakpoint has been reached, if there are less than 5,000,000 steps
  -- before it.
  pub soft_watch_cont_lem :
      (n : ℕ) (ws : List SoftWatchpoint) (s : State W)
      (r : Result (WaitStatus × List SoftWatchpoint) × State W)
      → Watched n ws s r
      → n < 5000000
      → soft_watch_cont F disasm wait_fuel ws s ≡ r
  unfolding soft_watch_cont
  soft_watch_cont_lem n ws s r d h = soft_loop_lem n max_steps ws s r d h
