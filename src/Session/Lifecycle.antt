-- ===== src/Session/Lifecycle.antt =====
-- What aborting, marking ready and deleting do to the session directories (apexd/apexd.cpp,
-- apexd/apexd_session.cpp).
use platform_system_apex.Base.{
  ℕ, Bool, true, false, ◌&&◌, ◌||◌, Option, none, some, List, [], ◌∷◌, ◌≡◌, refl, ◌∙◌, ap, eqb,
  arith, if◌then◌else◌, inl, inr, any, Bool-cases,
}
use platform_system_apex.Base.Result.{ok, err}
use platform_system_apex.Session.{
  State, SessionState, Sessions, Disk, written, removed, has_dir, file_of, remove_dir, commit,
  get_sessions, same_state, is_finalized, delete_session, delete_finalized_of,
  delete_finalized_sessions, abort_staged_session, readable, mark_staged_session_ready,
  update_state_and_commit,
}
use platform_system_apex.Session.Store.{
  WellFormed, HasId, file_of-set_file, has_dir_of_file, id_of_file, file_of_absent,
}

file_of-remove_dir :
    (i j : ℕ) (store : Sessions)
    → WellFormed store
    → file_of j (remove_dir i store) ≡ (if eqb i j then none else file_of j store)
unfolding file_of remove_dir
file_of-remove_dir i j [] w = ground arith
file_of-remove_dir i j (e ∷ rest) w = elim (Bool-cases (eqb e.dir i)) [
  | inl t ↦
      let q : e.dir ≡ i = ground arith in
      let gone : file_of i rest ≡ none = file_of_absent i rest (rw q at w.1) in
      elim (Bool-cases (eqb i j)) [
        | inl same ↦ let r : i ≡ j = ground arith in rw (t, same) (rw r at gone)
        | inr other ↦ ground (arith, q)
      ]
  | inr f ↦ ground (arith, file_of-remove_dir i j rest w.2)
]

-- An abort of a session among `WellFormed` ones, whose state file can be read and whose directory can be
-- removed, succeeds for one that is VERIFIED or STAGED, which is gone afterwards; it fails for every other, and then changes nothing. No
-- other session is touched in any case.
pub abort_staged_session_only_waiting :
    (disk : Disk) (id j : ℕ) (store : Sessions) (s : SessionState)
    → disk.remove id ≡ removed
    → WellFormed store
    → file_of id store ≡ some s
    → let waiting = same_state s.state State.verified || same_state s.state State.staged in
      let r = abort_staged_session disk id store in
      (r.0 ≡ (if waiting then ok tt else err "Session can't be aborted"))
      × (file_of j r.1 ≡ (if waiting && eqb id j then none else file_of j store))
unfolding abort_staged_session delete_session
abort_staged_session_only_waiting disk id j store s gone w h =
    let q : s.id ≡ id = id_of_file id store s w h in
    let e = file_of-remove_dir id j store w in ground arith

-- Marking a session among `WellFormed` ones ready, when its state file can be read and written, takes a VERIFIED one to
-- STAGED and leaves a STAGED one; it fails for every other state and then changes
-- nothing. No other session is touched in any case.
pub mark_staged_session_ready_only_verified :
    (disk : Disk) (id j : ℕ) (store : Sessions) (s : SessionState)
    → ((t : SessionState) → disk.write t ≡ written)
    → WellFormed store
    → file_of id store ≡ some s
    → let fits = same_state s.state State.verified || same_state s.state State.staged in
      let r = mark_staged_session_ready disk id store in
      (r.0 ≡ (if fits then ok tt else err "Invalid state for session. Cannot mark it as ready."))
      × (file_of j r.1 ≡ (
          if same_state s.state State.verified && eqb id j
          then some (record s { state = State.staged })
          else file_of j store))
unfolding mark_staged_session_ready update_state_and_commit commit
mark_staged_session_ready_only_verified disk id j store s writes w h =
    let q : s.id ≡ id = id_of_file id store s w h in
    let d : has_dir id store ≡ true = has_dir_of_file id store s h in
    let e = file_of-set_file id j (some (record s { state = State.staged })) store in
    let g = writes (record s { state = State.staged }) in ground arith

has_dir-remove_dir :
    (i d : ℕ) (store : Sessions) → has_dir d store ≡ false → has_dir d (remove_dir i store) ≡ false
unfolding has_dir remove_dir
has_dir-remove_dir i d [] h = h
has_dir-remove_dir i d (e ∷ rest) h = ground (arith, h, has_dir-remove_dir i d rest)

remove_dir-WellFormed :
    (i : ℕ) (store : Sessions) → WellFormed store → WellFormed (remove_dir i store)
unfolding remove_dir
remove_dir-WellFormed i [] w = tt
remove_dir-WellFormed i (e ∷ rest) w = elim (Bool-cases (eqb e.dir i)) [
  | inl t ↦ rw t w.2
  | inr f ↦ rw f (w.0, has_dir-remove_dir i e.dir rest w.1, remove_dir-WellFormed i rest w.2)
]

-- The deletion of one finalized session after the other.
deleted :
    (disk : Disk) (ss : List SessionState) (j : ℕ) (store : Sessions)
    → ((i : ℕ) → disk.remove i ≡ removed)
    → WellFormed store
    → file_of j (delete_finalized_of disk ss store)
      ≡ (if any (λ s. is_finalized s.state && eqb s.id j) ss then none else file_of j store)
unfolding delete_finalized_of delete_session
deleted disk [] j store gone w = refl
deleted disk (s ∷ ss) j store gone w = elim (Bool-cases (is_finalized s.state)) [
  | inl t ↦
      let rest =
        deleted disk ss j (remove_dir s.id store) gone (remove_dir-WellFormed s.id store w) in
      let e = file_of-remove_dir s.id j store w in let g = gone s.id in ground arith
  | inr f ↦ ground (arith, f, deleted disk ss j store gone w)
]

abbrev holds_at : (SessionState → Bool) → Option SessionState → Bool
holds_at p none = false
holds_at p (some s) = p s

any_skip :
    (p : SessionState → Bool) (d j : ℕ) (o : Option SessionState) (ss : List SessionState)
    → HasId d o
    → eqb d j ≡ false
    → any (λ s. p s && eqb s.id j) (readable o ss) ≡ any (λ s. p s && eqb s.id j) ss
any_skip p d j none ss v f = refl
any_skip p d j (some s) ss v f = ground (arith, v, f)

any_absent :
    (p : SessionState → Bool) (j : ℕ) (store : Sessions)
    → WellFormed store
    → has_dir j store ≡ false
    → any (λ s. p s && eqb s.id j) (get_sessions store) ≡ false
unfolding get_sessions has_dir
any_absent p j [] w h = refl
any_absent p j (e ∷ rest) w h =
    any_skip p e.dir j e.file (get_sessions rest) w.0 (ground (arith, h))
    ∙ any_absent p j rest w.2 (ground (arith, h))

any_here :
    (p : SessionState → Bool) (d j : ℕ) (o : Option SessionState) (ss : List SessionState)
    → HasId d o
    → eqb d j ≡ true
    → any (λ s. p s && eqb s.id j) ss ≡ false
    → any (λ s. p s && eqb s.id j) (readable o ss) ≡ holds_at p o
any_here p d j none ss v t h = h
any_here p d j (some s) ss v t h = ground (arith, v, t, h)

any_at :
    (p : SessionState → Bool) (j : ℕ) (store : Sessions)
    → WellFormed store
    → any (λ s. p s && eqb s.id j) (get_sessions store) ≡ holds_at p (file_of j store)
unfolding get_sessions file_of
any_at p j [] w = refl
any_at p j (e ∷ rest) w = elim (Bool-cases (eqb e.dir j)) [
  | inl t ↦
      let q : e.dir ≡ j = ground arith in
      let r =
        any_here p e.dir j e.file (get_sessions rest) w.0 t
          (any_absent p j rest w.2 (rw q at w.1)) in
      rw t r
  | inr f ↦ rw f (any_skip p e.dir j e.file (get_sessions rest) w.0 f ∙ any_at p j rest w.2)
]

abbrev pub unless_finalized : Option SessionState → Option SessionState
unless_finalized none = none
unless_finalized (some s) = if is_finalized s.state then none else some s

settled :
    (o : Option SessionState)
    → (if holds_at (λ s. is_finalized s.state) o then none else o) ≡ unless_finalized o
settled none = refl
settled (some s) = refl

-- When directories can be removed, `DeleteFinalizedSessions` on `WellFormed` sessions removes exactly
-- the sessions that are SUCCESS, ACTIVATION_FAILED, REVERTED or REVERT_FAILED, and leaves the others
-- as they were.
pub delete_finalized_sessions_exactly :
    (disk : Disk) (j : ℕ) (store : Sessions)
    → ((i : ℕ) → disk.remove i ≡ removed)
    → WellFormed store
    → file_of j (delete_finalized_sessions disk store) ≡ unless_finalized (file_of j store)
unfolding delete_finalized_sessions
delete_finalized_sessions_exactly disk j store gone w =
    deleted disk (get_sessions store) j store gone w
    ∙ ap (λ b. if b then none else file_of j store) (any_at (λ s. is_finalized s.state) j store w)
    ∙ settled (file_of j store)
