-- ===== src/Debugger/Arm/Wait.antt =====
-- src/debugger.rs, aarch64: the list of threads, and waiting for the debugged process.
use macos_c_debugger_rust.Base.{
  ℕ, List, [], ◌∷◌, Option, none, some, ◌==◌, if◌then◌else◌, bit_and, get_elem?, find, unwrap_or,
  is_some, ◌&&◌, not,
}
use macos_c_debugger_rust.Io.{Io, ok, for_each, ◌>>=◌, ◌>>◌, attempt}
use macos_c_debugger_rust.Mach.{Foreign, list_threads, thread_unique_id, deallocate_port}
use macos_c_debugger_rust.Mach.Arm.{ArmForeign}
use macos_c_debugger_rust.Debugger.{ThreadEntry, WaitStatus}
use macos_c_debugger_rust.Debugger.Wait.{
  has_tid, was_suspended, index_of_tid, wait_loop, decode_status,
}
use macos_c_debugger_rust.Debugger.Arm.{
  ArmState, call, change, dbg_of, apply_existing_bp_wp_to_thread, current_pc,
}

module _ {W : Type 0} (F : Foreign W) (G : ArmForeign W) where
  unfoldable pub new_entry : List ThreadEntry → ℕ → Io (ArmState W) ThreadEntry
  unfolding apply_existing_bp_wp_to_thread
  new_entry old p s =
      (attempt (call (thread_unique_id F p)) >>= λ id.
      let tid = unwrap_or id 0 in
      let entry : ThreadEntry = record { port = p; tid = tid; suspended = was_suspended tid old } in
      (λ s.
        if is_some (find (has_tid tid) old)
        then (ok tt, s)
        else apply_existing_bp_wp_to_thread G p s)
      >> (λ s. (ok entry, s)))
        s

  unfoldable pub new_entries : List ThreadEntry → List ℕ → Io (ArmState W) (List ThreadEntry)
  unfolding new_entry
  new_entries old [] s = (ok [], s)
  new_entries old (p ∷ ps) s =
      let rest = new_entries old ps in
      (new_entry old p >>= λ entry. rest >>= λ entries s. (ok (entry ∷ entries), s)) s

  unfoldable pub refresh_threads : Io (ArmState W) (Unit {0})
  unfolding new_entries
  refresh_threads s =
      (call (list_threads F (dbg_of s).task) >>= λ ports s.
      let old = (dbg_of s).threads in
      let tid : Option ℕ = elim (get_elem? old (dbg_of s).current_thread) [
        | none ↦ none
        | some t ↦ some t.tid
      ] in
      (change (λ d. record d { threads = [] })
          >> (new_entries old ports >>= λ entries.
              for_each (λ t. call (deallocate_port F t.port)) old
              >> change
                  (λ d. record d { threads = entries; current_thread = index_of_tid tid entries })))
        s)
        s

  unfoldable pub wait : ℕ → Io (ArmState W) WaitStatus
  unfolding wait_loop decode_status current_pc refresh_threads
  wait fuel s =
      (call (wait_loop F fuel (dbg_of s).pid) >>= λ status.
      (λ s.
        if (bit_and status 0x7f == 0x7f) && not ((dbg_of s).task == 0)
        then attempt refresh_threads s
        else (ok none, s))
      >> (attempt (current_pc G) >>= λ at s. (ok (decode_status status (unwrap_or at 0)), s)))
        s
