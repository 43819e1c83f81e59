-- ===== src/Session/Commands.antt =====
-- The commands of src/main.rs that work on the selected session: breakpoints, watchpoints, stepping,
-- leak tracking and threads. Their output is left out.
pub mod Assign
pub mod Dispatch
pub mod Watching
pub mod Stored
use macos_c_debugger_rust.Base.{
  ℕ, Bool, List, [], ◌∷◌, ◌++◌, Option, none, some, if◌then◌else◌, ◌+◌, ◌-◌, ◌%◌, ◌^◌, ◌==◌, ◌||◌,
  ltb, length, get_elem?, position_from, is_some, unwrap_or, ◌>>=?◌,
}
use macos_c_debugger_rust.Base.Text.{Text, codes, text_eq, from_str_radix}
use macos_c_debugger_rust.Disasm.{Disassembler}
use macos_c_debugger_rust.Expr.{Expr, Value, value, failed}
use macos_c_debugger_rust.Io.{Io, Error, ok, err, panic, out_of_fuel, attempt, ◌>>=◌, ◌>>◌}
use macos_c_debugger_rust.LeakTracker
use macos_c_debugger_rust.LeakTracker.{LeakTracker, Tracked, enable, disable, auto_cont, remove_all}
use macos_c_debugger_rust.Mach.{Foreign}
use macos_c_debugger_rust.Register.Watch.{WatchCondition, write, read_write, from_bytes}
use macos_c_debugger_rust.Debugger.{State, WaitStatus, exited, read_memory}
use macos_c_debugger_rust.Debugger.Break.{set_breakpoint, remove_breakpoint, breakpoint_addrs}
use macos_c_debugger_rust.Debugger.Run.{cont, step, finish, skip_prologue_insns}
use macos_c_debugger_rust.Debugger.Wait.{select_thread, suspend_thread_at, resume_thread_at}
use macos_c_debugger_rust.Debugger.Watch.{set_watchpoint, remove_watchpoint_slot}
use macos_c_debugger_rust.Symbols.{Symbols, stub_address}
use macos_c_debugger_rust.Session.{Session, SoftWatchpoint, Open, debug, remove_at}
use macos_c_debugger_rust.Session.Lines.{current_line, step_line, next_line}
use macos_c_debugger_rust.Session.Place.{
  Resolved, resolved, refused, resolve_location, is_identifier, parse_addr,
}
use macos_c_debugger_rust.Session.Soft.{check_soft_watches, soft_watch_cont}
use macos_c_debugger_rust.Session.Variables.{eval_expression, resolve_variable}

-- Whether the loop goes on, ends, or leaves the word to the next table of commands.
pub data Flow : Type 0 where
  next leave other : Flow

abbrev pub after_status : WaitStatus → Flow
after_status (exited _) = leave
after_status _ = next

-- `parts.get(i).and_then(|s| s.parse().ok())`.
abbrev pub number_at : List Text → ℕ → Option ℕ
number_at parts i = get_elem? parts i >>=? from_str_radix (2 ^ 64) 10

module _ {W : Type 0} where
  abbrev pub modify : (Session → Session) → Io (Open W) (Unit {0})
  modify f s = (ok tt, record s { session = f s.session })

  abbrev pub skip : Io (Open W) (Unit {0})
  skip s = (ok tt, s)

  -- The debugger's part of the state.
  abbrev pub state : Open W → State W
  state s = record { dbg = s.session.dbg; world = s.world }

  module _ {A : Type 0} where
    -- An error is only shown.
    abbrev pub shown : Io (Open W) A → Io (Open W) (Unit {0})
    shown m = attempt m >> skip

    -- A tracker's operation in the session.
    abbrev pub tracked : LeakTracker → Io (Tracked W) A → Io (Open W) (A × LeakTracker)
    tracked t m s =
        let r = m (record { tracker = t; session = state s }) in
        (
          elim r.0 [
            | ok a ↦ ok (a, r.1.tracker)
            | err e ↦ err e
            | panic ↦ panic
            | out_of_fuel ↦ out_of_fuel
          ],
          record s {
            session = record (s.session) { dbg = r.1.session.dbg };
            world = r.1.session.world;
          },
        )

abbrev pub set_soft : List SoftWatchpoint → Session → Session
set_soft ws x = record x { soft_watches = ws }

-- A new software watchpoint with the next number.
abbrev pub add_soft : ℕ → ℕ → Text → List ℕ → Session → Session
add_soft addr size desc prev x = record x {
  soft_watches =
      x.soft_watches
      ++ (record { id = x.next_sw_id; addr = addr; size = size; desc = desc; prev_value = prev })
        ∷ [];
  next_sw_id = x.next_sw_id + 1;
}

abbrev pub has_id : ℕ → SoftWatchpoint → Bool
has_id n w = w.id == n

module _ {W : Type 0} (F : Foreign W) where
  -- Software watchpoints are looked through first.
  unfoldable pub delete_watch : ℕ → Io (Open W) (Unit {0})
  delete_watch n s = elim (position_from 0 (has_id n) s.session.soft_watches) [
    | some pos ↦ modify (set_soft (remove_at pos s.session.soft_watches)) s
    | none ↦ shown (debug (remove_watchpoint_slot F n)) s
  ]

  unfoldable pub delete_all : Io (Open W) (Unit {0})
  delete_all s = debug (remove_all F (breakpoint_addrs s.session.dbg)) s

  -- The breakpoint with the number that is shown, from 1 on.
  unfoldable pub delete_number : ℕ → Io (Open W) (Unit {0})
  delete_number n s =
      if n == 0 then (ok tt, s) else elim (get_elem? (breakpoint_addrs s.session.dbg) (n - 1)) [
        | none ↦ (ok tt, s)
        | some addr ↦ shown (debug (remove_breakpoint F addr)) s
      ]

  unfoldable pub delete_command : List Text → Io (Open W) (Unit {0})
  unfolding delete_watch delete_all delete_number
  delete_command [] s = (ok tt, s)
  delete_command (arg ∷ more) s =
      if text_eq arg (codes "watch")
      then elim (number_at more 0) [ none ↦ (ok tt, s) | some n ↦ delete_watch n s ]
      else (if text_eq arg (codes "all")
          then delete_all s
          else elim (from_str_radix (2 ^ 64) 10 arg) [
            | some n ↦ delete_number n s
            | none ↦ elim (parse_addr arg s.session.base) [
              | some addr ↦ shown (debug (remove_breakpoint F addr)) s
              | none ↦ (ok tt, s)
            ]
          ])

  -- Without a hardware slot, a software watchpoint with the bytes that stand there.
  unfoldable pub fall_back : ℕ → ℕ → Text → Option ℕ → Io (Open W) (Unit {0})
  fall_back addr size desc (some slot) s = (ok tt, s)
  fall_back addr size desc none s =
      (attempt (debug (read_memory F addr size)) >>= λ prev.
      modify (add_soft addr size desc (unwrap_or prev [])))
        s

  unfoldable pub set_watch : WatchCondition → ℕ → ℕ → Text → Io (Open W) (Unit {0})
  unfolding fall_back
  set_watch c addr size desc =
      attempt (debug (set_watchpoint F addr c (from_bytes size))) >>= fall_back addr size desc

  module _ (message : Error → Text) (parse : Text → Value Expr) where
    -- `parse_addr(..).or_else(|| eval_expression(..).ok())`.
    abbrev pub address_or_value : Text → Open W → Option ℕ
    address_or_value arg s = elim (parse_addr arg s.session.base) [
      | some a ↦ some a
      | none ↦ elim (eval_expression F message s.session.base s.session.syms parse arg (state s)) [
        | value v ↦ some v
        | failed _ ↦ none
      ]
    ]

    unfoldable pub watch_address : Text → Open W → Option ℕ
    watch_address arg s =
        if is_identifier arg
        then elim (resolve_variable F message s.session.base s.session.syms arg (state s)) [
          | value place ↦ some place.0
          | failed _ ↦ address_or_value arg s
        ]
        else address_or_value arg s

    unfoldable pub watch_command : WatchCondition → List Text → Io (Open W) (Unit {0})
    unfolding watch_address set_watch
    watch_command c [] s = (ok tt, s)
    watch_command c (arg ∷ more) s = elim (watch_address arg s) [
      | none ↦ (ok tt, s)
      | some addr ↦ set_watch c addr (unwrap_or (number_at more 0) 4) arg s
    ]

  module _ (disasm : Disassembler) (wait_fuel cont_fuel : ℕ) where
    unfoldable pub break_command : Text → Io (Open W) (Unit {0})
    break_command arg s =
        let x = s.session in
        let file = current_line F x.base x.syms (state s) >>=? λ at. some at.0 in
        elim (resolve_location arg x.base x.syms file) [
          | refused _ ↦ (ok tt, s)
          | resolved addr ↦
              debug
                ((if is_identifier arg then skip_prologue_insns F disasm wait_fuel addr else λ s.
                    (ok addr, s))
                  >>= set_breakpoint F)
                s
        ]

    unfoldable pub tracked_cont : Io (Open W) WaitStatus
    tracked_cont = debug (cont F disasm wait_fuel) >>= λ raw s. elim s.session.leak_tracker [
      | none ↦ (ok raw, s)
      | some t ↦
          (tracked t (auto_cont F disasm wait_fuel cont_fuel raw) >>= λ r s.
          (ok r.0, record s { session = record (s.session) { leak_tracker = some r.1 } }))
            s
    ]

    unfoldable pub cont_command : Io (Open W) Flow
    unfolding tracked_cont
    cont_command s = elim s.session.soft_watches [
      | [] ↦ (tracked_cont >>= λ status s. (ok (after_status status), s)) s
      | w ∷ ws ↦
          (debug (soft_watch_cont F disasm wait_fuel (w ∷ ws)) >>= λ r.
          modify (set_soft r.1) >> λ s. (ok (after_status r.0), s))
            s
    ]

    -- A step of one of the kinds, after which the software watchpoints are looked at.
    unfoldable pub step_command : (Session → Io (State W) WaitStatus) → Io (Open W) Flow
    step_command kind s =
        (debug (kind s.session) >>= λ status. elim (after_status status) [
          | next ↦ λ s.
              (debug (check_soft_watches F s.session.soft_watches) >>= λ r.
              modify (set_soft r.1) >> λ s. (ok next, s))
                s
          | flow ↦ λ s. (ok flow, s)
        ])
          s

    unfoldable pub finish_command : Io (Open W) Flow
    finish_command = attempt (debug (finish F disasm wait_fuel)) >>= λ found s. elim found [
      | none ↦ (ok next, s)
      | some status ↦ (ok (after_status status), s)
    ]
