-- ===== src/Submit.antt =====
-- `SubmitStagedSession` of apexd/apexd.cpp, with `VerifySessionDir` and `VerifyPackages`.
pub mod Outcome
pub mod Verified
use platform_system_apex.Base.{
  ℕ, String, Bool, true, false, not, ◌&&◌, List, [], ◌∷◌, if◌then◌else◌, eqb, ltb, length, ◌⊎◌, inl,
  inr,
}
use platform_system_apex.Base.Result.{Result, ok, err, fatal}
use platform_system_apex.ApexFile.{ApexFile, name_of}
use platform_system_apex.Files.{to_result}
use platform_system_apex.Session.{State, SessionState, Sessions, create_session}
use platform_system_apex.Host.{Host, World, log, commit_at, backed_up, unmounted_temp}
use platform_system_apex.Staging.{open_apex_files, ids_to_scan, push_to}

abbrev pub first_failure : String ⊎ Unit {0} → String ⊎ Unit {0} → String ⊎ Unit {0}
first_failure (inl m) r = inl m
first_failure (inr u) r = r

abbrev pub verify_each : Host → List ApexFile → String ⊎ Unit {0}
verify_each host [] = inr tt
verify_each host (apex ∷ rest) =
    first_failure (host.verify_staged_install apex) (verify_each host rest)

-- `VerifyPackages` with `VerifyPackageStagedInstall`
abbrev pub verified_all : Host → String ⊎ List ApexFile → String ⊎ List ApexFile
verified_all host (inl m) = inl m
verified_all host (inr apexes) = elim (verify_each host apexes) [
  | inl m ↦ inl m
  | inr u ↦ inr apexes
]

unfoldable pub verify_packages : Host → List String → String ⊎ List ApexFile
unfolding open_apex_files
verify_packages host paths = verified_all host (open_apex_files host paths)

-- `(*verified)[0]`; the list is not empty where `VerifyPackages` succeeds.
abbrev pub front : String ⊎ List ApexFile → String ⊎ ApexFile
front (inl m) = inl m
front (inr []) = inl "no package"
front (inr (apex ∷ rest)) = inr apex

abbrev pub verify_found : Host → String ⊎ List String → String ⊎ ApexFile
verify_found host (inl m) = inl m
verify_found host (inr paths) =
    if ltb 1 (length paths)
    then inl "More than one APEX package found in the same session directory."
    else front (verify_packages host paths)

unfoldable pub verify_session_dir : Host → ℕ → String ⊎ ApexFile
unfolding verify_packages
verify_session_dir host id = verify_found host (host.scan_submitted_dir id)

-- The loop over the directories, up to the first that fails: its error and the packages before it.
abbrev pub more :
    ApexFile → (String ⊎ Unit {0}) × List ApexFile → (String ⊎ Unit {0}) × List ApexFile
more apex (r, apexes) = (r, apex ∷ apexes)

abbrev pub verify_next :
    String ⊎ ApexFile → (String ⊎ Unit {0}) × List ApexFile → (String ⊎ Unit {0}) × List ApexFile
verify_next (inl m) rest = (inl m, [])
verify_next (inr apex) rest = more apex rest

unfoldable pub verify_dirs : Host → List ℕ → (String ⊎ Unit {0}) × List ApexFile
unfolding verify_session_dir
verify_dirs host [] = (inr tt, [])
verify_dirs host (id ∷ ids) = verify_next (verify_session_dir host id) (verify_dirs host ids)

-- What the scope guard does with the packages that the vector still holds when the function returns.
abbrev pub unmount_all : List ApexFile → World → World
unmount_all [] w = w
unmount_all (apex ∷ rest) w = unmount_all rest (log (unmounted_temp (name_of apex)) w)

-- What the caller asks for.
pub record Request : Type 0 where
  pub session_id : ℕ
  pub child_session_ids : List ℕ
  pub has_rollback_enabled : Bool
  pub is_rollback : Bool
  pub rollback_id : ℕ

abbrev pub requested : Host → Request → SessionState → SessionState
requested host q s = record s {
  state = State.verified;
  child_session_ids = q.child_session_ids;
  expected_build_fingerprint = host.build_fingerprint;
  rollback_enabled = q.has_rollback_enabled;
  is_rollback = q.is_rollback;
  rollback_id = q.rollback_id;
}

abbrev pub answer : List ApexFile → Result (Unit {0}) × World → Result (List ApexFile) × World
answer apexes (ok u, w) = (ok apexes, w)
answer apexes (err e, w) = (err e, w)
answer apexes (fatal e, w) = (fatal e, w)

-- From `CreateSession` on.
abbrev pub write_created :
    Host
    → Request
    → List ApexFile
    → World
    → Result SessionState × Sessions
    → Result (List ApexFile) × World
write_created host q apexes w (ok s, store) =
    answer apexes (commit_at host (requested host q s) (record w { sessions = store }))
write_created host q apexes w (err e, store) = (err e, record w { sessions = store })
write_created host q apexes w (fatal e, store) = (fatal e, record w { sessions = store })

unfoldable pub write_session :
    Host → Request → List ApexFile → World → Result (List ApexFile) × World
write_session host q apexes w =
    write_created host q apexes w (create_session host.disk q.session_id w.sessions)

unfoldable pub after_verify :
    Host → Request → (String ⊎ Unit {0}) × List ApexFile → World → Result (List ApexFile) × World
unfolding write_session
after_verify host q (inl m, apexes) w = (err m, w)
after_verify host q (inr u, apexes) w = elim (host.run_preinstall apexes) [
  | inl m ↦ (err m, w)
  | inr v ↦
      if q.has_rollback_enabled && q.is_rollback
      then (err "Cannot set session as both a rollback and enabled for rollback.", w)
      else write_session host q apexes w
]

-- `return ret` moves the vector before the scope guard runs, which so sees none of the packages.
abbrev pub left_to_guard : Result (List ApexFile) → List ApexFile → List ApexFile
left_to_guard (ok returned) apexes = []
left_to_guard (err e) apexes = apexes
left_to_guard (fatal e) apexes = []

-- From the loop on, with the scope guard around it.
unfoldable pub verify_and_write : Host → Request → World → Result (List ApexFile) × World
unfolding verify_dirs after_verify
verify_and_write host q w =
    let verified = verify_dirs host (ids_to_scan q.session_id q.child_session_ids) in
    let (r, w') = after_verify host q verified w in (r, unmount_all (left_to_guard r verified.1) w')

unfoldable pub submit_staged_session : Host → Request → World → Result (List ApexFile) × World
unfolding verify_and_write
submit_staged_session host q w =
    if eqb q.session_id 0
    then (err "Session id was not provided.", w)
    else if host.supports_fs_checkpoints
    then verify_and_write host q w
    else elim host.backup_active_packages [
      | ok u ↦ verify_and_write host q (log backed_up w)
      | err e ↦ (err e, log backed_up w)
      | fatal e ↦ (fatal e, log backed_up w)
    ]
