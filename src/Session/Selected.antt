-- ===== src/Session/Selected.antt =====
-- The selected session of src/main.rs: the index stays in range and `CHILD_PID` is its process.
use macos_c_debugger_rust.Base.{
  ℕ, zero, suc, false, List, [], ◌∷◌, ◌++◌, some, if◌then◌else◌, ◌<◌, ◌≡◌, ◌≢◌, ◌-◌, ltb, leb, refl,
  arith, length, get_elem?, get_elem?-lt, Bool-cases, inl, inr,
}
use macos_c_debugger_rust.Session.{
  Session, Sessions, remove_at, shifted, select, reselect, remove_session, add_session,
}

-- No session is left, or one is selected and its pid stored.
pub record IsSelected {W : Type 0} (s : Sessions W) : Type 0 where
  pub sess : Session
  pub there : get_elem? s.sessions s.current ≡ some sess
  pub stored : s.child_pid ≡ sess.dbg.pid

module _ {A : Type 0} where
  pub length-remove_at :
      (i : ℕ) (xs : List A) → i < length xs → suc (length (remove_at i xs)) ≡ length xs
  unfolding remove_at
  length-remove_at i [] h = absurd (omega arith)
  length-remove_at zero (x ∷ xs) h = refl
  length-remove_at (suc i) (x ∷ xs) h = omega (arith, length-remove_at i xs (omega arith))

  -- The elements behind the removed one move up.
  pub get_elem?-remove_at :
      (i j : ℕ) (xs : List A)
      → get_elem? (remove_at i xs) j ≡ (if ltb j i then get_elem? xs j else get_elem? xs (suc j))
  unfolding remove_at
  get_elem?-remove_at i j [] = ground arith
  get_elem?-remove_at zero j (x ∷ xs) = ground arith
  get_elem?-remove_at (suc i) zero (x ∷ xs) = ground arith
  get_elem?-remove_at (suc i) (suc j) (x ∷ xs) = ground (arith, get_elem?-remove_at i j xs)

  pub get-lt : (xs : List A) (i : ℕ) (a : A) → get_elem? xs i ≡ some a → i < length xs
  get-lt [] i a e = absurd (cc)
  get-lt (x ∷ xs) zero a e = omega arith
  get-lt (x ∷ xs) (suc i) a e = omega (arith, get-lt xs i a e)

  -- Where the element at `j` has gone to.
  get-shifted :
      (i j : ℕ) (xs : List A) (a : A)
      → i < length xs
      → i ≢ j
      → get_elem? xs j ≡ some a
      → get_elem? (remove_at i xs) (shifted i j (length (remove_at i xs))) ≡ some a
  get-shifted i j xs a h ne e =
      let n = length-remove_at i xs h in
      let m = get-lt xs j a e in
      elim (Bool-cases (ltb i j)) [
        | inl q ↦
            let p : suc (j - 1) ≡ j = ground (arith, q) in
            rw (q, get_elem?-remove_at i (j - 1) xs, p) (ground (arith, q))
        | inr q ↦
            let w : leb (length (remove_at i xs)) j ≡ false = ground (arith, q, n, m) in
            rw (q, w, get_elem?-remove_at i j xs) (ground (arith, q))
      ]

shifted-lt : (i j n : ℕ) → j < suc n → 0 < n → shifted i j n < n
shifted-lt i j n h p = ground arith

module _ {W : Type 0} where
  select-sessions : (i : ℕ) (s : Sessions W) → (select i s).sessions ≡ s.sessions
  unfolding select
  select-sessions i s = ground arith

  select-current : (i : ℕ) (s : Sessions W) → (select i s).current ≡ i
  unfolding select
  select-current i s = ground arith

  pub select-IsSelected : (i : ℕ) (s : Sessions W) → i < length s.sessions → IsSelected (select i s)
  select-IsSelected i s h =
      let (sess, e) = get_elem?-lt s.sessions i h in
      record {
        sess = sess;
        there = rw (select-sessions i s, select-current i s) e;
        stored = unfold select in ground (arith, e);
      }

  reselect-some :
      (idx : ℕ) (l : List Session) (s : Sessions W)
      → 0 < length l
      → reselect idx l s ≡ select (shifted idx s.current (length l)) (record s { sessions = l })
  unfolding reselect
  reselect-some idx [] s h = absurd (omega arith)
  reselect-some idx (x ∷ xs) s h = refl

  -- When the session at an index in range is removed and another one is selected, that one is
  -- selected afterwards, at its new index, and its pid is the one stored.
  pub remove_session-current :
      (idx : ℕ) (s : Sessions W) (sess : Session)
      → idx < length s.sessions
      → idx ≢ s.current
      → get_elem? s.sessions s.current ≡ some sess
      → let t = remove_session idx s in
        (get_elem? t.sessions t.current ≡ some sess) × (t.child_pid ≡ sess.dbg.pid)
  unfolding remove_session
  remove_session-current idx s sess h ne e =
      let left = remove_at idx s.sessions in
      let i = shifted idx s.current (length left) in
      let u : Sessions W = record s { sessions = left } in
      let found = get-shifted idx s.current s.sessions sess h ne e in
      let q = reselect-some idx left s (ground (arith, get-lt left i sess found)) in
      rw (remove_session, q, select-sessions i u, select-current i u)
        (found, unfold select in ground (arith, found))

  pub remove_session-IsSelected :
      (idx : ℕ) (s : Sessions W)
      → idx < length s.sessions
      → s.current < length s.sessions
      → 0 < length (remove_at idx s.sessions)
      → IsSelected (remove_session idx s)
  unfolding remove_session
  remove_session-IsSelected idx s h c p =
      let left = remove_at idx s.sessions in
      let i = shifted idx s.current (length left) in
      let n = length-remove_at idx s.sessions h in
      rw (remove_session, reselect-some idx left s p)
        (select-IsSelected i (record s { sessions = left })
          (shifted-lt idx s.current (length left) (omega (arith, n, c)) p))

  pub add_session-IsSelected : (sess : Session) (s : Sessions W) → IsSelected (add_session sess s)
  unfolding add_session
  add_session-IsSelected sess s = record {
    sess = sess;
    there = get-append s.sessions sess;
    stored = refl;
  }
    where
      get-append : (xs : List Session) (x : Session) → get_elem? (xs ++ x ∷ []) (length xs) ≡ some x
      get-append [] x = refl
      get-append (y ∷ ys) x = get-append ys x
