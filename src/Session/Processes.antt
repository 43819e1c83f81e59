-- ===== src/Session/Processes.antt =====
-- The commands of src/main.rs on the list of sessions, the interrupt handler, and the loop's turn.
pub mod Managed
use macos_c_debugger_rust.Base.{
  ℕ, Bool, true, false, List, [], ◌∷◌, Option, none, some, if◌then◌else◌, ◌&&◌, ltb, get_elem?, ◌^◌,
  set as set_elem, unwrap_or,
}
use macos_c_debugger_rust.Base.Text.{Text, codes, text_eq}
use macos_c_debugger_rust.Disasm.{Disassembler}
use macos_c_debugger_rust.Io.{Io, Result, ok, err, panic, out_of_fuel, attempt, ◌>>=◌, ◌>>◌}
use macos_c_debugger_rust.Mach
use macos_c_debugger_rust.Mach.{Foreign}
use macos_c_debugger_rust.Mach.Image.{get_text_base}
use macos_c_debugger_rust.Debugger.{State, Debugger, Origin, spawned, attached}
use macos_c_debugger_rust.Debugger.Run.{initial, start, detach, shutdown}
use macos_c_debugger_rust.Symbols.{Symbols}
use macos_c_debugger_rust.Session.{
  Session, Sessions, Open, select_session, select, remove_session, add_session, parse_pid,
}
use macos_c_debugger_rust.Session.Commands.{Flow, next, leave, other}

-- What starts or finds a process and reads its symbols: `Command::spawn` with `PT_TRACE_ME`,
-- `PT_ATTACHEXC`, and `load_symbols`, which goes through other libraries.
pub record Launcher (W : Type 0) : Type 0 where
  pub spawn : Text → List Text → Io W ℕ
  pub attach : ℕ → Io W (Unit {0})
  pub load_symbols : Text → W → Option Symbols × W

abbrev pub head_of : List Text → Option Text
head_of [] = none
head_of (p ∷ ps) = some p

abbrev pub new_session : Debugger → Text → Option Symbols → Session
new_session dbg program syms = record {
  dbg = dbg;
  program = program;
  base = none;
  syms = syms;
  leak_tracker = none;
  soft_watches = [];
  next_sw_id = 0;
}

module _ {W A : Type 0} where
  abbrev pub world : Io W A → Io (Sessions W) A
  world m s = ((m s.world).0, record s { world = (m s.world).1 })

module _ {W : Type 0} where
  abbrev pub change : (Sessions W → Sessions W) → Io (Sessions W) Flow
  change f s = (ok next, f s)

  -- Once a session has gone, the loop ends with the last one.
  abbrev pub next_or_leave : Sessions W → Flow
  next_or_leave s = elim s.sessions [ [] ↦ leave | x ∷ xs ↦ next ]

  -- The new session becomes the selected one; a failure is shown.
  abbrev pub join : Io W Session → Io (Sessions W) Flow
  join m = attempt (world m) >>= λ found s. elim found [
    | none ↦ (ok next, s)
    | some sess ↦ change (add_session sess) s
  ]

  unfoldable pub process_command : List Text → Io (Sessions W) Flow
  process_command [] s = (ok next, s)
  process_command (sub ∷ args) s =
      if text_eq sub (codes "select")
      then elim args [
        | [] ↦ (ok next, s)
        | pid ∷ _ ↦ elim (select_session s.sessions pid) [
          | none ↦ (ok next, s)
          | some idx ↦ change (select idx) s
        ]
      ]
      else (ok next, s)

  -- The session with the given pid, or the selected one.
  abbrev pub target : List Text → Sessions W → Option ℕ
  target [] s = some s.current
  target (pid ∷ _) s = select_session s.sessions pid

  -- `detach` and `kill`: where the call succeeds, the session goes.
  unfoldable pub end_session : (Session → Io W (Unit {0})) → List Text → Io (Sessions W) Flow
  end_session call args s = elim (target args s) [
    | none ↦ (ok next, s)
    | some idx ↦ elim (get_elem? s.sessions idx) [
      | none ↦ (panic, s)
      | some sess ↦
          (attempt (world (call sess)) >>= λ done s. elim done [
            | none ↦ (ok next, s)
            | some _ ↦ (ok (next_or_leave (remove_session idx s)), remove_session idx s)
          ])
            s
    ]
  ]

module _ {W : Type 0} (F : Foreign W) (L : Launcher W) (disasm : Disassembler) (wait_fuel : ℕ) where
  -- The first stop of the process, and its symbols where a file is named.
  unfoldable pub open_session : ℕ → Origin → Text → Option Text → Io W Session
  open_session pid origin program path w =
      let r = start F disasm wait_fuel (record { dbg = initial pid origin; world = w }) in
      let loaded : Option Symbols × W = elim path [
        | none ↦ (none, r.1.world)
        | some p ↦ L.load_symbols p r.1.world
      ] in
      elim r.0 [
        | ok _ ↦ (ok (new_session r.1.dbg program loaded.0), loaded.1)
        | err e ↦ (err e, r.1.world)
        | panic ↦ (panic, r.1.world)
        | out_of_fuel ↦ (out_of_fuel, r.1.world)
      ]

  unfoldable pub spawn_session : Text → List Text → Io W Session
  unfolding open_session
  spawn_session program args =
      L.spawn program args >>= λ pid. open_session pid spawned program (some program)

  unfoldable pub attach_session : ℕ → Option Text → Io W Session
  unfolding open_session
  attach_session pid program =
      L.attach pid >> open_session pid attached (unwrap_or program (codes "<attached>")) program

  unfoldable pub attach_command : List Text → Io (Sessions W) Flow
  unfolding attach_session
  attach_command [] s = (ok next, s)
  attach_command (pid ∷ more) s = elim (parse_pid pid) [
    | none ↦ (ok next, s)
    | some pid ↦ join (attach_session pid (head_of more)) s
  ]

  unfoldable pub spawn_command : List Text → Io (Sessions W) Flow
  unfolding spawn_session
  spawn_command [] s = (ok next, s)
  spawn_command (program ∷ args) s = join (spawn_session program args) s

  -- `Debugger::detach` and `Debugger::kill` of a session.
  abbrev pub detach_call : Session → Io W (Unit {0})
  detach_call sess w =
      let r = detach F disasm wait_fuel (record { dbg = sess.dbg; world = w }) in (r.0, r.1.world)

  abbrev pub kill_call : Session → Io W (Unit {0})
  kill_call sess = Mach.kill F sess.dbg.pid

  -- The commands on sessions; `other` for those of the selected session.
  unfoldable pub manage : Text → List Text → Io (Sessions W) Flow
  unfolding attach_command spawn_command process_command end_session
  manage word args s =
      if text_eq word (codes "attach")
      then attach_command args s
      else (if text_eq word (codes "spawn")
          then spawn_command args s
          else (if text_eq word (codes "process")
              then process_command args s
              else (if text_eq word (codes "detach")
                  then end_session detach_call args s
                  else (if text_eq word (codes "kill")
                      then end_session kill_call args s
                      else (ok other, s)))))

  -- The base of the selected session, as long as it is not known.
  unfoldable pub find_base : Session → W → Session × W
  find_base sess w = elim sess.base [
    | some _ ↦ (sess, w)
    | none ↦
        let r = attempt (get_text_base F sess.dbg.pid) w in
        (record sess { base = elim r.0 [ ok b ↦ b | _ ↦ none ] }, r.1)
  ]

  -- One command: on the sessions, or by `run` in the selected one.
  unfoldable pub turn :
      (Text → List Text → Io (Open W) Flow) → Text → List Text → Io (Sessions W) Flow
  unfolding manage find_base
  turn run word args s = elim (get_elem? s.sessions s.current) [
    | none ↦ (panic, s)
    | some sess ↦
        let b = find_base sess s.world in
        let ready : Sessions W = record s {
          sessions = set_elem s.sessions s.current b.0;
          world = b.1;
        } in
        (manage word args >>= λ flow s. elim flow [
          | other ↦ elim (get_elem? s.sessions s.current) [
            | none ↦ (panic, s)
            | some sess ↦
                let r = run word args (record { session = sess; world = s.world }) in
                (
                  r.0,
                  record s {
                    sessions = set_elem s.sessions s.current r.1.session;
                    world = r.1.world;
                  },
                )
          ]
          | kind ↦ (ok kind, s)
        ])
          ready
  ]

  -- At the end a process that was started is killed, and one that was attached to is detached from.
  unfoldable pub shutdown_all : List Session → W → W
  shutdown_all [] w = w
  shutdown_all (sess ∷ more) w =
      shutdown_all more (shutdown F disasm wait_fuel (record { dbg = sess.dbg; world = w })).1.world

-- `sigint_handler`: the interrupt goes to the child where it runs, and once. `send` is `kill`.
unfoldable pub sigint_handler : {W : Type 0} → (ℕ → W → W) → ℕ → Bool × W → Bool × W
sigint_handler send child_pid (running, w) =
    if running
    then (false, if ltb 0 child_pid && ltb child_pid (2 ^ 31) then send child_pid w else w)
    else (false, w)
