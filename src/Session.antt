-- ===== src/Session.antt =====
-- src/main.rs: a debugging session of the command loop, and the list of sessions that it keeps.
pub mod Soft
pub mod Changed
pub mod Place
pub mod Print
pub mod Variables
pub mod Lines
pub mod Frames
pub mod Commands
pub mod Processes
pub mod Selected
use macos_c_debugger_rust.Base.{
  ℕ, Bool, List, Option, none, some, if◌then◌else◌, ltb, leb, length, ◌-◌, ◌+◌, [], ◌∷◌, ◌++◌,
  get_elem?, position_from, ◌==◌, take, suc, zero, ◌^◌, ◌%◌,
}
use macos_c_debugger_rust.Base.Bytes.{from_le}
use macos_c_debugger_rust.Base.Text.{Text, codes, from_str_radix, starts_with}
use macos_c_debugger_rust.Debugger.{State, Debugger}
use macos_c_debugger_rust.Io.{Io, Result, ok}
use macos_c_debugger_rust.LeakTracker.{LeakTracker}
use macos_c_debugger_rust.Symbols.{Symbols}

pub record SoftWatchpoint : Type 0 where
  pub id : ℕ
  pub addr : ℕ
  pub size : ℕ
  pub desc : Text
  pub prev_value : List ℕ

pub record Session : Type 0 where
  pub dbg : Debugger
  pub program : Text
  pub base : Option ℕ
  pub syms : Option Symbols
  pub leak_tracker : Option LeakTracker
  pub soft_watches : List SoftWatchpoint
  pub next_sw_id : ℕ

-- The sessions, the selected one, `CHILD_PID`, and the world of all of them.
pub record Sessions (W : Type 0) : Type 0 where
  pub sessions : List Session
  pub current : ℕ
  pub child_pid : ℕ
  pub world : W

-- A session that a command runs in, and its world.
pub record Open (W : Type 0) : Type 0 where
  pub session : Session
  pub world : W

module _ {W A : Type 0} where
  abbrev pub debug : Io (State W) A → Io (Open W) A
  debug m s =
      let r = m (record { dbg = s.session.dbg; world = s.world }) in
      (r.0, record { session = record (s.session) { dbg = r.1.dbg }; world = r.1.world })

-- `bytes_to_u64`: at most 8 bytes, least byte first.
unfoldable pub bytes_to_u64 : List ℕ → ℕ
bytes_to_u64 b = from_le (take 8 b)

-- `str::parse` of a process number; a negative one is a 32-bit word in two's complement.
unfoldable pub parse_pid : Text → Option ℕ
parse_pid [] = none
parse_pid (c ∷ cs) =
    if c == b'-'
    then (if starts_with (codes "+") cs then none else elim (from_str_radix (2 ^ 31 + 1) 10 cs) [
      | none ↦ none
      | some n ↦ some ((2 ^ 32 - n) % 2 ^ 32)
    ])
    else from_str_radix (2 ^ 31) 10 (c ∷ cs)

-- `Vec::remove`, of an index in range.
unfoldable pub remove_at {ℓ} : {A : Type ℓ} → ℕ → List A → List A
remove_at i [] = []
remove_at zero (x ∷ xs) = xs
remove_at (suc i) (x ∷ xs) = x ∷ remove_at i xs

unfoldable pub select_session : List Session → Text → Option ℕ
select_session sessions pid_str = elim (parse_pid pid_str) [
  | none ↦ none
  | some target ↦ position_from 0 (λ sess. sess.dbg.pid == target) sessions
]

-- The selected index after the one at `idx` has gone and `n` are left.
abbrev pub shifted : ℕ → ℕ → ℕ → ℕ
shifted idx current n =
    if ltb idx current then current - 1 else (if leb n current then n - 1 else current)

module _ {W : Type 0} where
  -- `current` is set, and the pid of that session is stored.
  unfoldable pub select : ℕ → Sessions W → Sessions W
  select i s = elim (get_elem? s.sessions i) [
    | none ↦ record s { current = i }
    | some sess ↦ record s { current = i; child_pid = sess.dbg.pid }
  ]

  -- The sessions that are left once the one at `idx` has gone.
  unfoldable pub reselect : ℕ → List Session → Sessions W → Sessions W
  unfolding select
  reselect idx [] s = record s { sessions = []; current = 0 }
  reselect idx (x ∷ xs) s =
      select (shifted idx s.current (length (x ∷ xs))) (record s { sessions = x ∷ xs })

  unfoldable pub remove_session : ℕ → Sessions W → Sessions W
  unfolding reselect remove_at
  remove_session idx s = reselect idx (remove_at idx s.sessions) s

  -- A new session, which becomes the selected one.
  unfoldable pub add_session : Session → Sessions W → Sessions W
  add_session sess s = record s {
    sessions = s.sessions ++ sess ∷ [];
    current = length s.sessions;
    child_pid = sess.dbg.pid;
  }
