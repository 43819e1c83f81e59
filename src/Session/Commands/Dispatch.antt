-- ===== src/Session/Commands/Dispatch.antt =====
-- The tables of commands of src/main.rs, and its commands on leak tracking and threads.
use macos_c_debugger_rust.Base.{
  ℕ, Bool, false, List, [], ◌∷◌, Option, none, some, if◌then◌else◌, is_some, ◌||◌, ◌>>=?◌,
}
use macos_c_debugger_rust.Base.Text.{Text, codes, text_eq}
use macos_c_debugger_rust.Disasm.{Disassembler}
use macos_c_debugger_rust.Expr.{Expr, Value}
use macos_c_debugger_rust.Io.{Io, Error, ok, attempt, ◌>>=◌, ◌>>◌}
use macos_c_debugger_rust.LeakTracker
use macos_c_debugger_rust.LeakTracker.{LeakTracker, enable, disable}
use macos_c_debugger_rust.Mach.{Foreign}
use macos_c_debugger_rust.Mach.Float.{FloatForeign}
use macos_c_debugger_rust.Register.Watch.{write, read_write}
use macos_c_debugger_rust.Debugger.Run.{step}
use macos_c_debugger_rust.Debugger.Wait.{select_thread, suspend_thread_at, resume_thread_at}
use macos_c_debugger_rust.Symbols.{stub_address}
use macos_c_debugger_rust.Session.{Session, Open, debug}
use macos_c_debugger_rust.Session.Commands.{
  Flow, next, leave, tracked, modify, shown, skip, number_at, break_command, delete_command,
  watch_command, cont_command, step_command, finish_command,
}
use macos_c_debugger_rust.Session.Commands.Assign.{set_command}
use macos_c_debugger_rust.Session.Lines.{step_line, next_line}

abbrev pub set_tracker : Option LeakTracker → Session → Session
set_tracker t x = record x { leak_tracker = t }

abbrev pub stub_of : Session → Text → Option ℕ
stub_of x name = x.syms >>=? λ table. x.base >>=? λ b. stub_address table name b

-- Whether a word is one of the list.
abbrev pub one_of : Text → List Text → Bool
one_of w [] = false
one_of w (v ∷ vs) = text_eq w v || one_of w vs

module _ {W : Type 0} (F : Foreign W) where
  -- A new tracker, which is kept where its breakpoints could be set.
  unfoldable pub start_tracking : Option ℕ → Option ℕ → Option ℕ → Option ℕ → Io (Open W) (Unit {0})
  start_tracking malloc calloc realloc free =
      attempt (tracked LeakTracker.new (enable F malloc calloc realloc free)) >>= λ done.
      elim done [ none ↦ skip | some r ↦ modify (set_tracker (some r.1)) ]

  unfoldable pub leaks_on : Io (Open W) (Unit {0})
  unfolding start_tracking
  leaks_on s =
      let malloc = stub_of s.session (codes "malloc") in
      let calloc = stub_of s.session (codes "calloc") in
      let realloc = stub_of s.session (codes "realloc") in
      let free = stub_of s.session (codes "free") in
      if is_some malloc || (is_some calloc || (is_some realloc || is_some free))
      then start_tracking malloc calloc realloc free s
      else (ok tt, s)

  -- The tracker goes, also where its breakpoints cannot be taken out.
  unfoldable pub leaks_off : Io (Open W) (Unit {0})
  leaks_off s = elim s.session.leak_tracker [
    | none ↦ (ok tt, s)
    | some t ↦ (modify (set_tracker none) >> shown (tracked t (disable F))) s
  ]

  unfoldable pub leaks_command : List Text → Io (Open W) (Unit {0})
  unfolding leaks_on leaks_off
  leaks_command [] s = (ok tt, s)
  leaks_command (sub ∷ more) s =
      if one_of sub (codes "on" ∷ codes "start" ∷ codes "enable" ∷ [])
      then leaks_on s
      else (if one_of sub (codes "off" ∷ codes "stop" ∷ codes "disable" ∷ [])
          then leaks_off s
          else (ok tt, s))

  unfoldable pub thread_command : List Text → Io (Open W) (Unit {0})
  thread_command [] s = (ok tt, s)
  thread_command (sub ∷ more) s = elim (number_at more 0) [
    | none ↦ (ok tt, s)
    | some idx ↦
        if text_eq sub (codes "select")
        then shown (debug (select_thread idx)) s
        else (if text_eq sub (codes "suspend")
            then shown (debug (suspend_thread_at F idx)) s
            else (if text_eq sub (codes "resume")
                then shown (debug (resume_thread_at F idx)) s
                else (ok tt, s)))
  ]

module _ {W : Type 0} (F : Foreign W) (G : FloatForeign W) (message : Error → Text)
    (parse : Text → Value Expr) (disasm : Disassembler) (wait_fuel cont_fuel : ℕ) where
  abbrev pub then_next : Io (Open W) (Unit {0}) → Io (Open W) Flow
  then_next m = m >>= λ _ s. (ok next, s)

  -- The commands that set something; the others only print.
  unfoldable pub setting_command : Text → List Text → Text → Io (Open W) (Unit {0})
  unfolding leaks_command thread_command
  setting_command word args rest =
      if one_of word (codes "b" ∷ codes "break" ∷ [])
      then elim args [ [] ↦ skip | arg ∷ _ ↦ break_command F disasm wait_fuel cont_fuel arg ]
      else (if one_of word (codes "del" ∷ codes "delete" ∷ [])
          then delete_command F args
          else (if text_eq word (codes "watch")
              then watch_command F message parse write args
              else (if one_of word (codes "rwatch" ∷ codes "awatch" ∷ [])
                  then watch_command F message parse read_write args
                  else (if text_eq word (codes "set")
                      then set_command F G message parse rest
                      else (if text_eq word (codes "leaks")
                          then leaks_command F args
                          else (if text_eq word (codes "thread")
                              then thread_command F args
                              else skip))))))

  -- `parts[0]`, the other parts, and the line behind the first word.
  unfoldable pub run_command : Text → List Text → Text → Io (Open W) Flow
  unfolding setting_command
  run_command word args rest =
      if one_of word (codes "c" ∷ codes "continue" ∷ codes "cont" ∷ [])
      then cont_command F disasm wait_fuel cont_fuel
      else (if one_of word (codes "s" ∷ codes "step" ∷ [])
          then step_command F disasm wait_fuel cont_fuel
              (λ x. step_line F x.base x.syms disasm wait_fuel)
          else (if one_of word (codes "n" ∷ codes "next" ∷ [])
              then step_command F disasm wait_fuel cont_fuel
                  (λ x. next_line F x.base x.syms disasm wait_fuel)
              else (if one_of word (codes "si" ∷ codes "stepi" ∷ [])
                  then step_command F disasm wait_fuel cont_fuel (λ x. step F disasm wait_fuel)
                  else (if one_of word (codes "up" ∷ codes "finish" ∷ [])
                      then finish_command F disasm wait_fuel cont_fuel
                      else (if one_of word (codes "q" ∷ codes "quit" ∷ codes "exit" ∷ [])
                          then (λ s. (ok leave, s))
                          else then_next (setting_command word args rest))))))
