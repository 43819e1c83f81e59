-- ===== src/Debugger/Waiting.antt =====
-- Waiting for the debugged process (src/debugger.rs): the status word and the list of threads.
use macos_c_debugger_rust.Base.{
  ℕ, zero, suc, Bool, true, false, List, [], ◌∷◌, none, some, ◌==◌, ◌≡◌, ◌≢◌, refl, ◌+◌, ◌*◌, ◌-◌,
  ◌<◌, arith, Bool-cases, Option-cases, inl, inr, get_elem?, find, position_from, position_from-get,
  ◌&&◌, ==_iff,
}
use macos_c_debugger_rust.Base.Bits.{all_below, all_below_sound}
use macos_c_debugger_rust.Io.{Result, ok, err, os_error, is_ok, ok-cases, for_each}
use macos_c_debugger_rust.Mach.{Foreign, list_threads, thread_unique_id, deallocate_port}
use macos_c_debugger_rust.Mach.Debug.{set_watchpoint_slot}
use macos_c_debugger_rust.Debugger.Watch.{
  for_each-dbg, apply_existing_bp_wp_to_thread, watchpoint_slots,
}
use macos_c_debugger_rust.Debugger.{
  State, ThreadEntry, WatchpointInfo, kernel, WaitStatus, stopped, exited, signaled,
}
use macos_c_debugger_rust.Debugger.Wait.{
  decode_status, wait_loop, eintr, index_of_tid, has_tid, new_entries, new_entry, refresh_threads,
}

-- The status words of <sys/wait.h>: a stop by a signal, an exit, and death by a signal, with or
-- without a core dump.
abbrev pub stop_word : ℕ → ℕ
stop_word signal = signal * 256 + 0x7f

abbrev pub exit_word : ℕ → ℕ
exit_word code = code * 256

abbrev pub death_word : ℕ → ℕ → ℕ
death_word signal core = core * 128 + signal

abbrev is_stop : ℕ → WaitStatus → Bool
is_stop n (stopped m _) = n == m
is_stop n _ = false

abbrev is_exit : ℕ → WaitStatus → Bool
is_exit n (exited m) = n == m
is_exit n _ = false

abbrev is_death : ℕ → WaitStatus → Bool
is_death n (signaled m) = n == m
is_death n _ = false

stop_table : all_below 256 (λ n. is_stop n (decode_status (stop_word n) 0)) ≡ true
unfolding all_below decode_status
stop_table = refl

exit_table : all_below 256 (λ n. is_exit n (decode_status (exit_word n) 0)) ≡ true
unfolding all_below decode_status
exit_table = refl

death_table :
    all_below 126 (λ n.
      is_death (suc n) (decode_status (death_word (suc n) 0) 0)
      && is_death (suc n) (decode_status (death_word (suc n) 1) 0))
    ≡ true
unfolding all_below decode_status
death_table = refl

-- Only a stop carries the program counter.
decode_status-pc :
    (st at : ℕ) (n : ℕ)
    → (is_stop n (decode_status st 0) ≡ true → decode_status st at ≡ stopped n at)
      × (is_exit n (decode_status st 0) ≡ true → decode_status st at ≡ exited n)
      × (is_death n (decode_status st 0) ≡ true → decode_status st at ≡ signaled n)
unfolding decode_status
decode_status-pc st at n = (λ h. ground arith, λ h. ground arith, λ h. ground arith)

death_digit :
    (m core : ℕ)
    → 0 < m
    → m < 127
    → core < 2
    → is_death m (decode_status (death_word m core) 0) ≡ true
death_digit zero core a b c = absurd (omega arith)
death_digit (suc m) core a b c = elim (Bool-cases (core == 0)) [
  | inl e ↦ rw ((==_iff core 0).0 e) (and_left _ _ table)
  | inr e ↦ let z : core ≡ 1 = ground arith in rw z (and_right _ _ table)
]
  where
    table :
        (is_death (suc m) (decode_status (death_word (suc m) 0) 0)
          && is_death (suc m) (decode_status (death_word (suc m) 1) 0))
        ≡ true
    table =
        all_below_sound 126
          (λ n.
            is_death (suc n) (decode_status (death_word (suc n) 0) 0)
            && is_death (suc n) (decode_status (death_word (suc n) 1) 0))
          m death_table (omega arith)

    and_left : (p q : Bool) → (p && q) ≡ true → p ≡ true
    and_left p q h = ground arith

    and_right : (p q : Bool) → (p && q) ≡ true → q ≡ true
    and_right p q h = ground arith

-- decode_status reads the status word of a stop, an exit and a death by a signal, with or without
-- core dump, as its kind with its number; only a stop carries the program counter.
decode_status-word :
    (n m core at : ℕ)
    → n < 256
    → 0 < m
    → m < 127
    → core < 2
    → (decode_status (stop_word n) at ≡ stopped n at)
      × (decode_status (exit_word n) at ≡ exited n)
      × (decode_status (death_word m core) at ≡ signaled m)
decode_status-word n m core at h a b c = (
  (decode_status-pc (stop_word n) at n).0
      (all_below_sound 256 (λ n. is_stop n (decode_status (stop_word n) 0)) n stop_table h),
  (decode_status-pc (exit_word n) at n).1
      (all_below_sound 256 (λ n. is_exit n (decode_status (exit_word n) 0)) n exit_table h),
  (decode_status-pc (death_word m core) at m).2 (death_digit m core a b c),
)

-- The calls of `waitpid` that a signal interrupts, in a row, and the world after them.
pub data Interrupted {W : Type 0} (F : Foreign W) (pid : ℕ) : ℕ → W → W → Type 0 where
  done : (w : W) → (F.waitpid pid w).0.0 ≢ some eintr → Interrupted F pid 0 w w
  again :
      {n : ℕ} {w v : W}
      → (F.waitpid pid w).0.0 ≡ some eintr
      → Interrupted F pid n (F.waitpid pid w).1 v
      → Interrupted F pid (suc n) w v

abbrev pub final : {W : Type 0} (F : Foreign W) (pid : ℕ) → W → Result ℕ × W
final F pid w = elim (F.waitpid pid w).0.0 [
  | none ↦ (ok (F.waitpid pid w).0.1, (F.waitpid pid w).1)
  | some e ↦ (err (os_error e), (F.waitpid pid w).1)
]

-- With more fuel than signals interrupt waitpid in a row, the loop of wait ends with the outcome of
-- the first call that none interrupts.
pub wait_loop_lem :
    {W : Type 0} (F : Foreign W) (pid n fuel : ℕ) (w v : W)
    → Interrupted F pid n w v
    → n < fuel
    → wait_loop F fuel pid w ≡ final F pid v
unfolding wait_loop
wait_loop_lem F pid n zero w v i h = absurd (omega arith)
wait_loop_lem F pid zero (suc fuel) w v (done _ e) h = ground arith
wait_loop_lem F pid (suc n) (suc fuel) w v (again e i) h =
    ground (arith, e, wait_loop_lem F pid n fuel (F.waitpid pid w).1 v i)

find-none_of_position {ℓ} :
    {A : Type ℓ} (p : A → Bool) (i : ℕ) (xs : List A)
    → position_from i p xs ≡ none
    → find p xs ≡ none
unfolding find position_from
find-none_of_position p i [] h = refl
find-none_of_position p i (x ∷ xs) h = ground (arith, find-none_of_position p (suc i) xs)

index_of_tid-keeps :
    (tid : ℕ) (ts : List ThreadEntry)
    → find (has_tid tid) ts ≢ none
    → (t : ThreadEntry) × (get_elem? ts (index_of_tid (some tid) ts) ≡ some t) × (t.tid ≡ tid)
index_of_tid-keeps tid ts h = elim (Option-cases (position_from 0 (has_tid tid) ts)) [
  | inl e ↦ absurd (h (find-none_of_position (has_tid tid) 0 ts e))
  | inr (k, e) ↦
      let (t, a, b, g, q) = position_from-get (has_tid tid) 0 k ts e in
      let z : k - 0 ≡ k = omega arith in (t, rw e (rw z at g), (==_iff _ _).0 q)
]

module _ {W : Type 0} (F : Foreign W) where
  refresh_threads-index :
      (s : State W) (t : ThreadEntry)
      → get_elem? s.dbg.threads s.dbg.current_thread ≡ some t
      → (refresh_threads F s).0 ≡ ok tt
      → (refresh_threads F s).1.dbg.current_thread
        ≡ index_of_tid (some t.tid) (refresh_threads F s).1.dbg.threads
  unfolding refresh_threads
  refresh_threads-index s t cur fine = ground (arith, cur, fine)

  -- After a refresh_threads that returns ok, the selected thread is still the selected one, at its
  -- new index, if it is still listed.
  pub refresh_threads-current :
      (s : State W) (t : ThreadEntry)
      → get_elem? s.dbg.threads s.dbg.current_thread ≡ some t
      → (refresh_threads F s).0 ≡ ok tt
      → find (has_tid t.tid) (refresh_threads F s).1.dbg.threads ≢ none
      → let d = (refresh_threads F s).1.dbg in
        (u : ThreadEntry) × (get_elem? d.threads d.current_thread ≡ some u) × (u.tid ≡ t.tid)
  refresh_threads-current s t cur fine still =
      rw (refresh_threads-index s t cur fine)
        (index_of_tid-keeps t.tid (refresh_threads F s).1.dbg.threads still)

  apply_existing-dbg :
      (port : ℕ) (s : State W) → (apply_existing_bp_wp_to_thread F port s).1.dbg ≡ s.dbg
  unfolding apply_existing_bp_wp_to_thread
  apply_existing-dbg port s =
      for_each-dbg
        (λ (w : ℕ × WatchpointInfo). set_watchpoint_slot F port w.0 w.1.addr w.1.condition w.1.size)
        (watchpoint_slots s.dbg) s

  new_entry-dbg :
      (old : List ThreadEntry) (p : ℕ) (s : State W) → (new_entry F old p s).1.dbg ≡ s.dbg
  unfolding new_entry
  new_entry-dbg old p s =
      ground (arith, apply_existing-dbg p (record s { world = (thread_unique_id F p s.world).1 }))

  new_entries-dbg :
      (old : List ThreadEntry) (ps : List ℕ) (s : State W) → (new_entries F old ps s).1.dbg ≡ s.dbg
  unfolding new_entries
  new_entries-dbg old [] s = refl
  new_entries-dbg old (p ∷ ps) s =
      ground (arith, new_entry-dbg old p s, new_entries-dbg old ps (new_entry F old p s).1)

  for_each-deallocates :
      (ts : List ThreadEntry) (s : State W)
      → (for_each (λ t. kernel (deallocate_port F t.port)) ts s).0 ≡ ok tt
  unfolding for_each deallocate_port
  for_each-deallocates [] s = refl
  for_each-deallocates (t ∷ ts) s = for_each-deallocates ts _

  -- A refresh_threads that fails after the ports were listed leaves the list of threads empty.
  pub refresh_threads-failed :
      (s : State W)
      → is_ok (list_threads F s.dbg.task s.world).0 ≡ true
      → is_ok (refresh_threads F s).0 ≡ false
      → (refresh_threads F s).1.dbg.threads ≡ []
  unfolding refresh_threads
  refresh_threads-failed s listed bad =
      let w = (list_threads F s.dbg.task s.world).1 in
      let t : State W = record { dbg = record (s.dbg) { threads = [] }; world = w } in
      elim (ok-cases (list_threads F s.dbg.task s.world).0) [
        | inl e ↦ absurd (cc)
        | inr (ports, e) ↦
            let u = (new_entries F s.dbg.threads ports t).1 in
            ground (
              arith,
              e,
              bad,
              new_entries-dbg s.dbg.threads ports t,
              for_each-deallocates s.dbg.threads u,
            )
      ]
