-- ===== src/Submit/Outcome.antt =====
-- What `SubmitStagedSession` of apexd/apexd.cpp leaves on disk.
use platform_system_apex.Base.{
  ℕ, String, Bool, true, false, ◌&&◌, none, some, List, [], ◌∷◌, ◌++◌, ◌≡◌, refl, ◌∙◌, ap, eqb,
  arith, if◌then◌else◌, ◌⊎◌, inl, inr,
}
use platform_system_apex.Base.Result.{Result, ok, err, fatal}
use platform_system_apex.ApexFile.{ApexFile, name_of}
use platform_system_apex.Session.{State, Sessions, Disk, has_dir, file_of, create_session, fresh}
use platform_system_apex.Session.Store.{file_of-set_file}
use platform_system_apex.Host.{Host, World, log, unmounted_temp, backed_up}
use platform_system_apex.Host.Writes.{WritesOk, commit_at_ok}
use platform_system_apex.Staging.{ids_to_scan}
use platform_system_apex.Submit.{
  Request, requested, write_created, answer, write_session, after_verify, verify_and_write,
  verify_dirs, unmount_all, left_to_guard, submit_staged_session,
}

abbrev pub is_ok : {A : Type 0} → Result A → Bool
is_ok (ok a) = true
is_ok (err e) = false
is_ok (fatal e) = false

-- The directories once `CreateDirIfNeeded` has run.
abbrev with_dir : ℕ → Sessions → Sessions
with_dir id store =
    if has_dir id store then store else store ++ record { dir = id; file = none } ∷ []

file_of_more :
    (id j : ℕ) (store : Sessions)
    → file_of j (store ++ record { dir = id; file = none } ∷ []) ≡ file_of j store
unfolding file_of
file_of_more id j [] = ground arith
file_of_more id j (e ∷ rest) = ground (arith, file_of_more id j rest)

has_dir_more :
    (id : ℕ) (store : Sessions) → has_dir id (store ++ record { dir = id; file = none } ∷ []) ≡ true
unfolding has_dir
has_dir_more id [] = ground arith
has_dir_more id (e ∷ rest) = ground (arith, has_dir_more id rest)

file_of-with_dir : (id j : ℕ) (store : Sessions) → file_of j (with_dir id store) ≡ file_of j store
file_of-with_dir id j store = ground (arith, file_of_more id j store)

has_dir-with_dir : (id : ℕ) (store : Sessions) → has_dir id (with_dir id store) ≡ true
has_dir-with_dir id store = ground (arith, has_dir_more id store)

create_session_ok :
    (disk : Disk) (id : ℕ) (store : Sessions)
    → disk.create_dir id ≡ true
    → create_session disk id store ≡ (ok (fresh id), with_dir id store)
unfolding create_session
create_session_ok disk id store h = simp h

-- The sessions after a run that answers `r`.
abbrev Wrote : Host → Request → World → Result (List ApexFile) × World → Type 0
Wrote host q w r =
    (j : ℕ)
    → file_of j r.1.sessions ≡ (
        if is_ok r.0 && eqb q.session_id j
        then some (requested host q (fresh q.session_id))
        else file_of j w.sessions)

module _ (host : Host) (q : Request) (writes : WritesOk host)
    (dir : host.disk.create_dir q.session_id ≡ true) where
  write_session-Wrote :
      (apexes : List ApexFile) (w : World) → Wrote host q w (write_session host q apexes w)
  unfolding write_session
  write_session-Wrote apexes w j =
      let s = requested host q (fresh q.session_id) in
      let w' : World = record w { sessions = with_dir q.session_id w.sessions } in
      let c = commit_at_ok host s w' writes (has_dir-with_dir q.session_id w.sessions) in
      let e = create_session_ok host.disk q.session_id w.sessions dir in
      let all = ap (write_created host q apexes w) e ∙ ap (answer apexes) c in
      rw all (
        file_of-set_file q.session_id j (some s) (with_dir q.session_id w.sessions)
        ∙ rw (has_dir-with_dir q.session_id w.sessions, file_of-with_dir q.session_id j w.sessions)
            refl)

  after_verify-Wrote :
      (v : (String ⊎ Unit {0}) × List ApexFile) (w : World)
      → Wrote host q w (after_verify host q v w)
  unfolding after_verify
  after_verify-Wrote (inl m, apexes) w j = refl
  after_verify-Wrote (inr u, apexes) w j =
      let wrote = write_session-Wrote apexes w j in ground arith

  sessions-unmount_all :
      (apexes : List ApexFile) (w : World) → (unmount_all apexes w).sessions ≡ w.sessions
  sessions-unmount_all [] w = refl
  sessions-unmount_all (apex ∷ rest) w =
      sessions-unmount_all rest (log (unmounted_temp (name_of apex)) w)

  verify_and_write-Wrote : (w : World) → Wrote host q w (verify_and_write host q w)
  unfolding verify_and_write
  verify_and_write-Wrote w j =
      let v = verify_dirs host (ids_to_scan q.session_id q.child_session_ids) in
      let r = after_verify host q v w in
      ap (file_of j) (sessions-unmount_all (left_to_guard r.0 v.1) r.1) ∙ after_verify-Wrote v w j

-- When session directories and state files can be written: where `SubmitStagedSession` succeeds, the
-- session's file says VERIFIED and holds the child sessions, the rollback flags and the rollback id asked
-- for, the build's fingerprint and nothing else, and no other session is changed; where it does not succeed, no session's file is changed at all.
pub submit_staged_session_all_or_nothing :
    (host : Host) (q : Request) (w : World) (j : ℕ)
    → WritesOk host
    → host.disk.create_dir q.session_id ≡ true
    → let r = submit_staged_session host q w in
      file_of j r.1.sessions ≡ (
        if is_ok r.0 && eqb q.session_id j
        then some (record {
          id = q.session_id;
          state = State.verified;
          child_session_ids = q.child_session_ids;
          expected_build_fingerprint = host.build_fingerprint;
          rollback_enabled = q.has_rollback_enabled;
          is_rollback = q.is_rollback;
          rollback_id = q.rollback_id;
          crashing_native_process = "";
          apex_names = [];
          error_message = "";
        })
        else file_of j w.sessions)
unfolding submit_staged_session
submit_staged_session_all_or_nothing host q w j writes dir =
    let now = verify_and_write-Wrote host q writes dir w j in
    let later = verify_and_write-Wrote host q writes dir (log backed_up w) j in ground arith
