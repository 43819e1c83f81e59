-- ===== src/Debugger/Wait.antt =====
-- src/debugger.rs, x86_64: the list of threads, and waiting for the debugged process.
use macos_c_debugger_rust.Base.{
  ℕ, zero, suc, Bool, true, false, List, [], ◌∷◌, Option, none, some, ◌==◌, if◌then◌else◌, ◌/◌, ◌^◌,
  bit_and, get_elem?, length, leb, set as set_elem, find, position_from, unwrap_or, is_some, ◌&&◌,
  not,
}
use macos_c_debugger_rust.Io.{
  Io, ok, err, out_of_fuel, os_error, invalid_thread_index, for_each, ◌>>=◌, ◌>>◌, attempt,
}
use macos_c_debugger_rust.Mach.{
  Foreign, list_threads, thread_unique_id, deallocate_port, suspend_thread, resume_thread,
}
use macos_c_debugger_rust.Debugger.{
  State, Debugger, ThreadEntry, WaitStatus, stopped, exited, signaled, unknown, kernel, modify,
  current_pc,
}
use macos_c_debugger_rust.Debugger.Watch.{apply_existing_bp_wp_to_thread}

abbrev pub has_tid : ℕ → ThreadEntry → Bool
has_tid tid t = t.tid == tid

-- The stored state of a thread that was listed before, and false for a new one.
abbrev pub was_suspended : ℕ → List ThreadEntry → Bool
was_suspended tid old = elim (find (has_tid tid) old) [ none ↦ false | some t ↦ t.suspended ]

-- The index of the thread with the id, or 0.
abbrev pub index_of_tid : Option ℕ → List ThreadEntry → ℕ
index_of_tid none ts = 0
index_of_tid (some tid) ts = unwrap_or (position_from 0 (has_tid tid) ts) 0

-- `waitpid`'s status word.
unfoldable pub decode_status : ℕ → ℕ → WaitStatus
decode_status status pc =
    if bit_and status 0x7f == 0x7f
    then stopped (bit_and (status / 2 ^ 8) 0xff) pc
    else (if bit_and status 0x7f == 0
        then exited (bit_and (status / 2 ^ 8) 0xff)
        else (if not (bit_and status 0x7f == 0x7f)
            then signaled (bit_and status 0x7f)
            else unknown status))

abbrev pub eintr : ℕ
eintr = 4

module _ {W : Type 0} where
  unfoldable pub select_thread : ℕ → Io (State W) (Unit {0})
  select_thread idx s =
      if leb (length s.dbg.threads) idx
      then (err invalid_thread_index, s)
      else (ok tt, record s { dbg = record (s.dbg) { current_thread = idx } })

abbrev pub mark_suspended : Bool → ℕ → ThreadEntry → Debugger → Debugger
mark_suspended b idx t d = record d {
  threads = set_elem d.threads idx (record t { suspended = b });
}

module _ {W : Type 0} (F : Foreign W) where
  unfoldable pub suspend_thread_at : ℕ → Io (State W) (Unit {0})
  suspend_thread_at idx s = elim (get_elem? s.dbg.threads idx) [
    | none ↦ (err invalid_thread_index, s)
    | some t ↦ (kernel (suspend_thread F t.port) >> modify (mark_suspended true idx t)) s
  ]

  unfoldable pub resume_thread_at : ℕ → Io (State W) (Unit {0})
  resume_thread_at idx s = elim (get_elem? s.dbg.threads idx) [
    | none ↦ (err invalid_thread_index, s)
    | some t ↦ (kernel (resume_thread F t.port) >> modify (mark_suspended false idx t)) s
  ]

  -- The entry of a listed port; the watchpoints are applied to a thread that was not there.
  unfoldable pub new_entry : List ThreadEntry → ℕ → Io (State W) ThreadEntry
  new_entry old p s =
      (attempt (kernel (thread_unique_id F p)) >>= λ id.
      let tid = unwrap_or id 0 in
      let entry : ThreadEntry = record { port = p; tid = tid; suspended = was_suspended tid old } in
      (λ s.
        if is_some (find (has_tid tid) old)
        then (ok tt, s)
        else apply_existing_bp_wp_to_thread F p s)
      >> (λ s. (ok entry, s)))
        s

  unfoldable pub new_entries : List ThreadEntry → List ℕ → Io (State W) (List ThreadEntry)
  unfolding new_entry
  new_entries old [] s = (ok [], s)
  new_entries old (p ∷ ps) s =
      let rest = new_entries old ps in
      (new_entry old p >>= λ entry. rest >>= λ entries s. (ok (entry ∷ entries), s)) s

  -- The thread list is taken out at once: where a new thread refuses a watchpoint, it stays empty.
  unfoldable pub refresh_threads : Io (State W) (Unit {0})
  unfolding new_entries
  refresh_threads s =
      (kernel (list_threads F s.dbg.task) >>= λ ports s.
      let old = s.dbg.threads in
      let tid : Option ℕ = elim (get_elem? old s.dbg.current_thread) [
        | none ↦ none
        | some t ↦ some t.tid
      ] in
      (modify (λ d. record d { threads = [] })
          >> (new_entries old ports >>= λ entries.
              for_each (λ t. kernel (deallocate_port F t.port)) old
              >> modify
                  (λ d. record d { threads = entries; current_thread = index_of_tid tid entries })))
        s)
        s

  -- `waitpid` again while a signal interrupts it, `fuel` times at most.
  unfoldable pub wait_loop : ℕ → ℕ → Io W ℕ
  wait_loop zero pid w = (out_of_fuel, w)
  wait_loop (suc fuel) pid w =
      let r = F.waitpid pid w in
      let again = wait_loop fuel pid r.1 in
      elim r.0.0 [
        | none ↦ (ok r.0.1, r.1)
        | some e ↦ if e == eintr then again else (err (os_error e), r.1)
      ]

  -- The list of threads is refreshed at a stop, once the task is known; a failure is ignored.
  unfoldable pub wait : ℕ → Io (State W) WaitStatus
  unfolding wait_loop decode_status
  wait fuel s =
      (kernel (wait_loop fuel s.dbg.pid) >>= λ status.
      (λ s.
        if (bit_and status 0x7f == 0x7f) && not (s.dbg.task == 0)
        then attempt (refresh_threads) s
        else (ok none, s))
      >> (attempt (current_pc F) >>= λ at s. (ok (decode_status status (unwrap_or at 0)), s)))
        s
