-- ===== src/Session/Processes/Managed.antt =====
-- What the commands on sessions of src/main.rs keep of the selection.
use macos_c_debugger_rust.Base.{
  ℕ, true, List, [], ◌∷◌, none, some, ◌<◌, ◌≡◌, refl, sym, subst, arith, length, get_elem?,
  get_elem?-lt, position_from-get, Bool-cases, Option-cases, inl, inr, ◌⊎◌, ◌==◌,
}
use macos_c_debugger_rust.Base.Text.{Text, codes, text_eq}
use macos_c_debugger_rust.Disasm.{Disassembler}
use macos_c_debugger_rust.Io.{Io, Result, ok, err, panic, out_of_fuel, recover, and_then}
use macos_c_debugger_rust.Mach.{Foreign}
use macos_c_debugger_rust.Session.{
  Session, Sessions, select_session, remove_at, remove_session, reselect, add_session, parse_pid,
}
use macos_c_debugger_rust.Session.Commands.{Flow, next, leave}
use macos_c_debugger_rust.Session.Processes.{
  Launcher, target, end_session, process_command, manage, join, attach_command, spawn_command,
  next_or_leave, attach_session, spawn_session, head_of, detach_call, kill_call,
}
use macos_c_debugger_rust.Session.Selected.{
  IsSelected, get-lt, select-IsSelected, remove_session-IsSelected, add_session-IsSelected,
}

-- A session is selected, or none is left and the loop ends.
abbrev pub Keeps : {W : Type 0} → Result Flow × Sessions W → Type 0
Keeps r = IsSelected r.1 ⊎ ((r.1.sessions ≡ []) × (r.0 ≡ ok leave))

select_session-lt :
    (sessions : List Session) (pid : Text) (idx : ℕ)
    → select_session sessions pid ≡ some idx
    → idx < length sessions
unfolding select_session
select_session-lt sessions pid idx e = elim (Option-cases (parse_pid pid)) [
  | inl n ↦ absurd (ground (arith, n, e))
  | inr (p, n) ↦
      let (x, a, b, c, d) =
        position_from-get (λ sess. sess.dbg.pid == p) 0 idx sessions (ground (arith, n, e)) in
      omega arith
]

empty-or-not : {A : Type 0} (xs : List A) → (xs ≡ []) ⊎ (0 < length xs)
empty-or-not [] = inl refl
empty-or-not (x ∷ xs) = inr (omega arith)

module _ {W : Type 0} where
  -- A call of the kernel changes the world alone.
  world-IsSelected : (w : W) (s : Sessions W) → IsSelected s → IsSelected (record s { world = w })
  world-IsSelected w s v = record { sess = v.sess; there = v.there; stored = v.stored }

  remove_session-last :
      (idx : ℕ) (s : Sessions W)
      → remove_at idx s.sessions ≡ []
      → (remove_session idx s).sessions ≡ []
  unfolding remove_session reselect
  remove_session-last idx s e = ground (arith, e)

  remove-Keeps :
      (idx : ℕ) (s : Sessions W)
      → idx < length s.sessions
      → s.current < length s.sessions
      → Keeps (ok (next_or_leave (remove_session idx s)), remove_session idx s)
  remove-Keeps idx s h c = elim (empty-or-not (remove_at idx s.sessions)) [
    | inl e ↦ let q = remove_session-last idx s e in inr (q, ground (arith, q))
    | inr p ↦ inl (remove_session-IsSelected idx s h c p)
  ]

  target-lt :
      (args : List Text) (s : Sessions W) (idx : ℕ)
      → IsSelected s
      → target args s ≡ some idx
      → idx < length s.sessions
  target-lt [] s idx v e = ground (arith, get-lt s.sessions s.current v.sess v.there)
  target-lt (pid ∷ more) s idx v e = select_session-lt s.sessions pid idx e

  end_session-Keeps :
      (call : Session → Io W (Unit {0})) (args : List Text) (s : Sessions W)
      → IsSelected s
      → Keeps (end_session call args s)
  unfolding end_session
  end_session-Keeps call args s v = elim (Option-cases (target args s)) [
    | inl e ↦ rw (end_session, e) (inl v)
    | inr (idx, e) ↦
        let h = target-lt args s idx v e in
        let (sess, f) = get_elem?-lt s.sessions idx h in
        let r = call sess s.world in
        let t : Sessions W = record s { world = r.1 } in
        let ended = remove-Keeps idx t h (get-lt s.sessions s.current v.sess v.there) in
        subst Keeps (sym (asked call args s idx sess e f))
          (after idx r.0 t (world-IsSelected r.1 s v) ended)
  ]
    where
      finish : ℕ → Result (Unit {0}) → Sessions W → Result Flow × Sessions W
      finish idx r t = and_then (recover r t).0 (recover r t).1 (λ done s. elim done [
        | none ↦ (ok next, s)
        | some _ ↦ (ok (next_or_leave (remove_session idx s)), remove_session idx s)
      ])

      asked :
          (call : Session → Io W (Unit {0})) (args : List Text) (s : Sessions W) (idx : ℕ)
          (sess : Session)
          → target args s ≡ some idx
          → get_elem? s.sessions idx ≡ some sess
          → end_session call args s
            ≡ finish idx (call sess s.world).0 (record s { world = (call sess s.world).1 })
      asked call args s idx sess e f = rw (end_session, e, f) refl

      after :
          (idx : ℕ) (r : Result (Unit {0})) (t : Sessions W)
          → IsSelected t
          → Keeps (ok (next_or_leave (remove_session idx t)), remove_session idx t)
          → Keeps (finish idx r t)
      after idx (ok a) t v k = k
      after idx (err e) t v k = inl v
      after idx panic t v k = inl v
      after idx out_of_fuel t v k = inl v

  process_command-Keeps :
      (args : List Text) (s : Sessions W) → IsSelected s → Keeps (process_command args s)
  unfolding process_command
  process_command-Keeps [] s v = inl v
  process_command-Keeps (sub ∷ args) s v = elim (Bool-cases (text_eq sub (codes "select"))) [
    | inr e ↦ rw (process_command, e) (inl v)
    | inl e ↦ selected args e
  ]
    where
      selected :
          (args : List Text)
          → text_eq sub (codes "select") ≡ true
          → Keeps (process_command (sub ∷ args) s)
      selected [] e = rw (process_command, e) (inl v)
      selected (pid ∷ more) e = elim (Option-cases (select_session s.sessions pid)) [
        | inl f ↦ rw (process_command, e, f) (inl v)
        | inr (idx, f) ↦
            rw (process_command, e, f)
              (inl (select-IsSelected idx s (select_session-lt s.sessions pid idx f)))
      ]

  join-Keeps : (m : Io W Session) (s : Sessions W) → IsSelected s → Keeps (join m s)
  join-Keeps m s v =
      joined (m s.world).0 (record s { world = (m s.world).1 }) (world-IsSelected (m s.world).1 s v)
    where
      joined :
          (r : Result Session) (t : Sessions W)
          → IsSelected t
          → Keeps (
              and_then (recover r t).0 (recover r t).1 (λ found s. elim found [
                | none ↦ (ok next, s)
                | some sess ↦ (ok next, add_session sess s)
              ]))
      joined (ok sess) t v = inl (add_session-IsSelected sess t)
      joined (err e) t v = inl v
      joined panic t v = inl v
      joined out_of_fuel t v = inl v

module _ {W : Type 0} (F : Foreign W) (L : Launcher W) (disasm : Disassembler) (wait_fuel : ℕ) where
  attach_command-Keeps :
      (args : List Text) (s : Sessions W)
      → IsSelected s
      → Keeps (attach_command F L disasm wait_fuel args s)
  unfolding attach_command
  attach_command-Keeps [] s v = inl v
  attach_command-Keeps (pid ∷ more) s v = elim (Option-cases (parse_pid pid)) [
    | inl e ↦ rw (attach_command, e) (inl v)
    | inr (p, e) ↦
        rw (attach_command, e)
          (join-Keeps (attach_session F L disasm wait_fuel p (head_of more)) s v)
  ]

  spawn_command-Keeps :
      (args : List Text) (s : Sessions W)
      → IsSelected s
      → Keeps (spawn_command F L disasm wait_fuel args s)
  unfolding spawn_command
  spawn_command-Keeps [] s v = inl v
  spawn_command-Keeps (program ∷ args) s v =
      join-Keeps (spawn_session F L disasm wait_fuel program args) s v

  -- The commands attach, spawn, process, detach and kill keep, failures included, that a session is
  -- selected whose pid is the one stored for the interrupt handler, or they end the loop with the
  -- last session.
  pub manage-Keeps :
      (word : Text) (args : List Text) (s : Sessions W)
      → IsSelected s
      → Keeps (manage F L disasm wait_fuel word args s)
  unfolding manage
  manage-Keeps word args s v = elim (Bool-cases (text_eq word (codes "attach"))) [
    | inl a ↦ rw (manage, a) (attach_command-Keeps args s v)
    | inr a ↦ elim (Bool-cases (text_eq word (codes "spawn"))) [
      | inl b ↦ rw (manage, a, b) (spawn_command-Keeps args s v)
      | inr b ↦ elim (Bool-cases (text_eq word (codes "process"))) [
        | inl c ↦ rw (manage, a, b, c) (process_command-Keeps args s v)
        | inr c ↦ elim (Bool-cases (text_eq word (codes "detach"))) [
          | inl d ↦
              rw (manage, a, b, c, d)
                (end_session-Keeps (detach_call F L disasm wait_fuel) args s v)
          | inr d ↦ elim (Bool-cases (text_eq word (codes "kill"))) [
            | inl e ↦
                rw (manage, a, b, c, d, e)
                  (end_session-Keeps (kill_call F L disasm wait_fuel) args s v)
            | inr e ↦ rw (manage, a, b, c, d, e) (inl v)
          ]
        ]
      ]
    ]
  ]
