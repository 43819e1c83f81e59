-- ===== src/Tests/Sessions.antt =====
-- Sessions, their watchpoints and their lines on the machine.
use macos_c_debugger_rust.Base.{
  ℕ, true, false, [], ◌∷◌, none, some, if◌then◌else◌, ◌==◌, ◌≡◌, refl, arith, get_elem?,
}
use macos_c_debugger_rust.Base.Text.{codes}
use macos_c_debugger_rust.Disasm.{Disassembler}
use macos_c_debugger_rust.Io.{ok}
use macos_c_debugger_rust.Debugger.{spawned}
use macos_c_debugger_rust.Debugger.Run.{initial}
use macos_c_debugger_rust.Register.Watch.{write}
use macos_c_debugger_rust.Session.{Session, SoftWatchpoint, Sessions, Open, remove_session}
use macos_c_debugger_rust.Session.Commands.{set_watch, delete_watch}
use macos_c_debugger_rust.Session.Commands.Watching.{
  IsNumbered, numbered, set_watch-IsNumbered, delete_watch-numbered,
}
use macos_c_debugger_rust.Session.Processes.{Launcher, manage}
use macos_c_debugger_rust.Session.Processes.Managed.{Keeps, manage-Keeps}
use macos_c_debugger_rust.Session.Selected.{remove_session-current}
use macos_c_debugger_rust.Tests.World.{World, world, machine}

abbrev session : ℕ → Session
session pid = record {
  dbg = initial pid spawned;
  program = codes "a.out";
  base = none;
  syms = none;
  leak_tracker = none;
  soft_watches = [];
  next_sw_id = 0;
}

-- Three sessions, the last one selected.
abbrev three : Sessions World
three = record {
  sessions = session 7 ∷ session 8 ∷ session 9 ∷ [];
  current = 2;
  child_pid = 9;
  world = world;
}

remove_session-current_example :
    let t = remove_session 0 three in
    (get_elem? t.sessions t.current ≡ some (session 9)) × (t.child_pid ≡ 9)
unfolding initial
remove_session-current_example =
    remove_session-current 0 three (session 9) (omega arith) (λ e. cc e) refl

abbrev launcher : Launcher World
launcher = record {
  spawn = λ program args w. (ok 11, w);
  attach = λ pid w. (ok tt, w);
  load_symbols = λ program w. (none, w);
}

abbrev blind : Disassembler
blind code at = none

manage-Keeps_example : Keeps (manage machine launcher blind 2 (codes "kill") [] three)
unfolding initial
manage-Keeps_example =
    manage-Keeps machine launcher blind 2 (codes "kill") [] three
      (record { sess = session 9; there = refl; stored = refl })

abbrev soft : ℕ → SoftWatchpoint
soft id = record { id = id; addr = 512; size = 2; desc = codes "x"; prev_value = 0 ∷ 0 ∷ [] }

-- A session with two software watchpoints, on a machine that refuses debug registers.
abbrev watched : Open World
watched = record {
  session = record (session 7) { soft_watches = soft 0 ∷ soft 2 ∷ []; next_sw_id = 3 };
  world = record world { locked = true };
}

watched-IsNumbered : IsNumbered (watched.session)
watched-IsNumbered = record {
  below = (omega arith, (omega arith, tt));
  distinct = (refl, (refl, tt));
}

set_watch-IsNumbered_example :
    IsNumbered (set_watch machine write 64 4 (codes "y") watched).1.session
set_watch-IsNumbered_example =
    set_watch-IsNumbered machine write 64 4 (codes "y") watched watched-IsNumbered

delete_watch-numbered_example :
    let t = (delete_watch machine 2 watched).1 in
    IsNumbered t.session
    × (numbered 2 t.session.soft_watches
        ≡ (if 2 == 2 then false else numbered 2 watched.session.soft_watches))
delete_watch-numbered_example = delete_watch-numbered machine 2 2 watched watched-IsNumbered
