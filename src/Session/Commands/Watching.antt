-- ===== src/Session/Commands/Watching.antt =====
-- The numbers of the software watchpoints of src/main.rs: `watch` and `del watch`.
use macos_c_debugger_rust.Base.{
  ℕ, zero, suc, Bool, false, List, [], ◌∷◌, ◌++◌, Option, none, some, ◌==◌, if◌then◌else◌, ◌||◌,
  ◌+◌, ◌-◌, ◌<◌, ◌≡◌, refl, subst, arith, position_from, position_from-get, unwrap_or, Bool-cases,
  Option-cases, inl, inr,
}
use macos_c_debugger_rust.Base.Text.{Text}
use macos_c_debugger_rust.Io.{Io, attempt, recover-keeps, and_then-keeps}
use macos_c_debugger_rust.Mach.{Foreign}
use macos_c_debugger_rust.Register.Watch.{WatchCondition, from_bytes}
use macos_c_debugger_rust.Debugger.{State, read_memory}
use macos_c_debugger_rust.Debugger.Watch.{set_watchpoint, remove_watchpoint_slot}
use macos_c_debugger_rust.Session.{Session, SoftWatchpoint, Open, debug, remove_at}
use macos_c_debugger_rust.Session.Commands.{
  modify, fall_back, set_watch, delete_watch, has_id, add_soft, shown, skip,
}

abbrev pub numbered : ℕ → List SoftWatchpoint → Bool
numbered n [] = false
numbered n (w ∷ ws) = (w.id == n) || numbered n ws

abbrev pub AllBelow : ℕ → List SoftWatchpoint → Type 0
AllBelow next [] = Unit {0}
AllBelow next (w ∷ ws) = (w.id < next) × AllBelow next ws

abbrev pub Distinct : List SoftWatchpoint → Type 0
Distinct [] = Unit {0}
Distinct (w ∷ ws) = (numbered w.id ws ≡ false) × Distinct ws

-- The numbers are different, and below the next one.
pub record IsNumbered (x : Session) : Type 0 where
  pub below : AllBelow x.next_sw_id x.soft_watches
  pub distinct : Distinct x.soft_watches

AllBelow-more : (n : ℕ) (ws : List SoftWatchpoint) → AllBelow n ws → AllBelow (n + 1) ws
AllBelow-more n [] h = tt
AllBelow-more n (w ∷ ws) h = (omega (arith, h.0), AllBelow-more n ws h.1)

AllBelow-append :
    (n : ℕ) (ws : List SoftWatchpoint) (w : SoftWatchpoint)
    → AllBelow n ws
    → w.id < n
    → AllBelow n (ws ++ w ∷ [])
AllBelow-append n [] w h lt = (lt, tt)
AllBelow-append n (v ∷ vs) w h lt = (h.0, AllBelow-append n vs w h.1 lt)

numbered-append :
    (n : ℕ) (ws : List SoftWatchpoint) (w : SoftWatchpoint)
    → numbered n (ws ++ w ∷ []) ≡ numbered n ws || (w.id == n)
numbered-append n [] w = ground arith
numbered-append n (v ∷ vs) w = ground (arith, numbered-append n vs w)

Distinct-append :
    (n : ℕ) (ws : List SoftWatchpoint) (w : SoftWatchpoint)
    → AllBelow n ws
    → Distinct ws
    → w.id ≡ n
    → Distinct (ws ++ w ∷ [])
Distinct-append n [] w h d e = (refl, tt)
Distinct-append n (v ∷ vs) w h d e =
    (ground (arith, numbered-append v.id vs w, d.0, h.0, e), Distinct-append n vs w h.1 d.1 e)

add_soft-IsNumbered :
    (addr size : ℕ) (desc : Text) (prev : List ℕ) (x : Session)
    → IsNumbered x
    → IsNumbered (add_soft addr size desc prev x)
add_soft-IsNumbered addr size desc prev x v = record {
  below =
      AllBelow-append _ x.soft_watches _ (AllBelow-more x.next_sw_id x.soft_watches v.below)
        (omega arith);
  distinct = Distinct-append x.next_sw_id x.soft_watches _ v.below v.distinct refl;
}

-- The state after a command of the debugger has the same watchpoints.
debug-IsNumbered :
    {W A : Type 0} (m : Io _ A) (s : Open W)
    → IsNumbered s.session
    → IsNumbered (debug m s).1.session
debug-IsNumbered m s v = record { below = v.below; distinct = v.distinct }

attempt-IsNumbered :
    {W A : Type 0} (m : Io _ A) (s : Open W)
    → IsNumbered s.session
    → IsNumbered (attempt (debug m) s).1.session
attempt-IsNumbered m s v =
    recover-keeps (λ (o : Open _). IsNumbered o.session) (debug m s).0 (debug m s).1
      (debug-IsNumbered m s v)

module _ {W : Type 0} (F : Foreign W) where
  fall_back-IsNumbered :
      (addr size : ℕ) (desc : Text) (slot : Option ℕ) (s : Open W)
      → IsNumbered s.session
      → IsNumbered (fall_back F addr size desc slot s).1.session
  unfolding fall_back
  fall_back-IsNumbered addr size desc (some slot) s v = v
  fall_back-IsNumbered addr size desc none s v =
      let m = attempt (debug (read_memory F addr size)) s in
      and_then-keeps (λ (o : Open W). IsNumbered o.session) m.0 m.1
        (λ prev. modify (add_soft addr size desc (unwrap_or prev [])))
        (attempt-IsNumbered (read_memory F addr size) s v)
        (λ prev t h. add_soft-IsNumbered addr size desc (unwrap_or prev []) t.session h)

  -- The command watch, whether it finds a hardware slot or not, keeps the numbers of the software
  -- watchpoints different and below the next one.
  pub set_watch-IsNumbered :
      (c : WatchCondition) (addr size : ℕ) (desc : Text) (s : Open W)
      → IsNumbered s.session
      → IsNumbered (set_watch F c addr size desc s).1.session
  unfolding set_watch
  set_watch-IsNumbered c addr size desc s v =
      let m = attempt (debug (set_watchpoint F addr c (from_bytes size))) s in
      and_then-keeps (λ (o : Open W). IsNumbered o.session) m.0 m.1 (fall_back F addr size desc)
        (attempt-IsNumbered (set_watchpoint F addr c (from_bytes size)) s v)
        (λ slot t h. fall_back-IsNumbered addr size desc slot t h)

numbered-remove_at :
    (n i k : ℕ) (ws : List SoftWatchpoint)
    → position_from i (has_id n) ws ≡ some k
    → Distinct ws
    → (m : ℕ) → numbered m (remove_at (k - i) ws) ≡ (if n == m then false else numbered m ws)
unfolding position_from remove_at
numbered-remove_at n i k [] h d m = absurd (cc)
numbered-remove_at n i k (w ∷ ws) h d m = elim (Bool-cases (w.id == n)) [
  | inl e ↦ let z : k - i ≡ 0 = ground (arith, e, h) in rw z (ground (arith, e, d.0))
  | inr e ↦
      let later : position_from (suc i) (has_id n) ws ≡ some k = ground (arith, e, h) in
      let (x, a, _, _, _) = position_from-get (has_id n) (suc i) k ws later in
      let z : k - i ≡ suc (k - suc i) = omega arith in
      rw z (ground (arith, e, numbered-remove_at n (suc i) k ws later d.1 m))
]

AllBelow-remove_at :
    (next i : ℕ) (ws : List SoftWatchpoint) → AllBelow next ws → AllBelow next (remove_at i ws)
unfolding remove_at
AllBelow-remove_at next i [] h = tt
AllBelow-remove_at next zero (w ∷ ws) h = h.1
AllBelow-remove_at next (suc i) (w ∷ ws) h = (h.0, AllBelow-remove_at next i ws h.1)

absent-remove_at :
    (n i : ℕ) (ws : List SoftWatchpoint)
    → numbered n ws ≡ false
    → numbered n (remove_at i ws) ≡ false
unfolding remove_at
absent-remove_at n i [] h = refl
absent-remove_at n zero (w ∷ ws) h = ground (arith, h)
absent-remove_at n (suc i) (w ∷ ws) h = ground (arith, h, absent-remove_at n i ws)

Distinct-remove_at : (i : ℕ) (ws : List SoftWatchpoint) → Distinct ws → Distinct (remove_at i ws)
unfolding remove_at
Distinct-remove_at i [] h = tt
Distinct-remove_at zero (w ∷ ws) h = h.1
Distinct-remove_at (suc i) (w ∷ ws) h =
    (absent-remove_at w.id i ws h.0, Distinct-remove_at i ws h.1)

not_numbered :
    (n i : ℕ) (ws : List SoftWatchpoint)
    → position_from i (has_id n) ws ≡ none
    → numbered n ws ≡ false
unfolding position_from
not_numbered n i [] h = refl
not_numbered n i (w ∷ ws) h = ground (arith, h, not_numbered n (suc i) ws)

module _ {W : Type 0} (F : Foreign W) where
  shown-IsNumbered :
      {A : Type 0} (m : Io (State W) A) (s : Open W)
      → IsNumbered s.session
      → IsNumbered (shown (debug m) s).1.session
  shown-IsNumbered m s v =
      let r = attempt (debug m) s in
      and_then-keeps (λ (o : Open W). IsNumbered o.session) r.0 r.1 (λ _. skip)
        (attempt-IsNumbered m s v) (λ _ t h. h)

  shown-soft :
      {A : Type 0} (n : ℕ) (m : Io (State W) A) (s : Open W)
      → numbered n (shown (debug m) s).1.session.soft_watches ≡ numbered n s.session.soft_watches
  shown-soft n m s = ground arith

  -- Where the numbers of the software watchpoints are different, del watch with a number removes
  -- the one with that number and no other, and keeps the numbers different and below the next one;
  -- without one of that number no software watchpoint goes.
  pub delete_watch-numbered :
      (n m : ℕ) (s : Open W)
      → IsNumbered s.session
      → let t = (delete_watch F n s).1 in
        IsNumbered t.session
        × (numbered m t.session.soft_watches
            ≡ (if n == m then false else numbered m s.session.soft_watches))
  unfolding delete_watch
  delete_watch-numbered n m s v =
      let ws = s.session.soft_watches in
      elim (Option-cases (position_from 0 (has_id n) ws)) [
        | inr (k, e) ↦
            rw (delete_watch, e)
              (
                record {
                  below = AllBelow-remove_at s.session.next_sw_id k ws v.below;
                  distinct = Distinct-remove_at k ws v.distinct;
                },
                subst (λ i. numbered m (remove_at i ws) ≡ (if n == m then false else numbered m ws))
                    (omega arith) (numbered-remove_at n 0 k ws e v.distinct m),
              )
        | inl e ↦
            rw (delete_watch, e)
              (
                shown-IsNumbered (remove_watchpoint_slot F n) s v,
                ground (arith, not_numbered n 0 ws e, shown-soft m (remove_watchpoint_slot F n) s),
              )
      ]
