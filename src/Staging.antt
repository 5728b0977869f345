-- ===== src/Staging.antt =====
-- `ScanStagedSessionsDirAndStage` and `MarkStagedSessionSuccessful` of apexd/apexd.cpp.
pub mod Conditions
pub mod Outcome
pub mod Settled
pub mod Success
use platform_system_apex.Base.{
  ℕ, String, Bool, true, false, not, ◌&&◌, Option, none, some, List, [], ◌∷◌, ◌++◌, ◌^^◌, ◌==◌,
  if◌then◌else◌, is_empty, eqb, ltb, length, ◌⊎◌, inl, inr,
}
use platform_system_apex.Base.Int.{pos}
use platform_system_apex.Base.Result.{Result, ok, err, fatal}
use platform_system_apex.ApexFile.{ApexFile, name_of, to_string}
use platform_system_apex.Session.{
  State, SessionState, get_sessions_in_state, create_session, file_of, same_state,
}
use platform_system_apex.Host.{
  Host, World, log, commit_at, deleted_backup, backed_up, deleted_pre_restore, unmounted_temp,
  staged_packages,
}

abbrev pub at_state : State → SessionState → SessionState
at_state st s = record s { state = st }

abbrev pub with_error : String → SessionState → SessionState
with_error m s = record s { error_message = m }

abbrev pub push : {A : Type 0} → A → String ⊎ List A → String ⊎ List A
push a (inl m) = inl m
push a (inr more) = inr (a ∷ more)

-- What fails first counts.
abbrev pub push_to : {A : Type 0} → String ⊎ A → String ⊎ List A → String ⊎ List A
push_to (inl m) rest = inl m
push_to (inr a) rest = push a rest

unfoldable pub open_all : Host → List String → String ⊎ List ApexFile
open_all host [] = inr []
open_all host (path ∷ paths) = push_to (host.open_apex path) (open_all host paths)

-- `OpenApexFiles`
unfoldable pub open_apex_files : Host → List String → String ⊎ List ApexFile
unfolding open_all
open_apex_files host paths =
    if is_empty paths then inl "Empty set of inputs" else open_all host paths

abbrev pub run_hooks :
    (List ApexFile → String ⊎ Unit {0}) → String ⊎ List ApexFile → String ⊎ Unit {0}
run_hooks run (inl m) = inl m
run_hooks run (inr apexes) = run apexes

-- `PostinstallPackages` on paths
unfoldable pub postinstall_packages : Host → List String → String ⊎ Unit {0}
unfolding open_apex_files
postinstall_packages host paths = run_hooks host.run_postinstall (open_apex_files host paths)

abbrev pub ids_to_scan : ℕ → List ℕ → List ℕ
ids_to_scan id children = if is_empty children then id ∷ [] else children

abbrev session_path : Host → ℕ → String
session_path host dir = host.staged_session_dir ^^ "/session_" ^^ to_string (pos dir)

-- One directory: it must hold one package.
abbrev only_package : Host → ℕ → ℕ → List String → String ⊎ String
only_package host id dir [] = inl (
    "No APEX packages found while scanning "
    ^^ session_path host dir
    ^^ " session id: "
    ^^ to_string (pos id)
    ^^ ".")
only_package host id dir (apex ∷ []) = inr apex
only_package host id dir (apex ∷ _ ∷ _) = inl (
    "More than one APEX package found in the same session directory "
    ^^ session_path host dir
    ^^ " , skipping activation")

unfoldable pub scan_dir : Host → ℕ → ℕ → String ⊎ String
scan_dir host id dir = elim (host.scan_session_dir dir) [
  | inl m ↦ inl m
  | inr paths ↦ only_package host id dir paths
]

unfoldable pub scan_dirs : Host → ℕ → List ℕ → String ⊎ List String
unfolding scan_dir
scan_dirs host id [] = inr []
scan_dirs host id (dir ∷ dirs) = push_to (scan_dir host id dir) (scan_dirs host id dirs)

abbrev pub opened_name : String ⊎ ApexFile → List String
opened_name (inl m) = []
opened_name (inr apex) = name_of apex ∷ []

-- Files that do not open are only logged.
unfoldable pub add_apex_names : Host → List String → SessionState → SessionState
add_apex_names host [] s = s
add_apex_names host (path ∷ paths) s =
    add_apex_names host paths
      (record s { apex_names = s.apex_names ++ opened_name (host.open_apex path) })

abbrev join : List String → String
join [] = ""
join (a ∷ []) = a
join (a ∷ b ∷ rest) = a ^^ "," ^^ join (b ∷ rest)

-- How the work on one session ends: with an error message set, or with its packages staged.
pub data Attempt : Type 0 where
  failed : SessionState → Attempt
  staged : List String → SessionState → Attempt

abbrev pub after_stage : List String → SessionState → String ⊎ Unit {0} → Attempt
after_stage apexes s (inl m) =
    failed (with_error ("Activation failed for packages " ^^ join apexes ^^ " : " ^^ m) s)
after_stage apexes s (inr u) = staged apexes s

abbrev pub after_postinstall : Host → List String → SessionState → String ⊎ Unit {0} → Attempt
after_postinstall host apexes s (inl m) =
    failed (with_error ("Postinstall failed for session " ^^ to_string (pos s.id) ^^ " " ^^ m) s)
after_postinstall host apexes s (inr u) =
    after_stage apexes (add_apex_names host apexes s) (host.stage_packages apexes)

unfoldable pub stage_scanned : Host → List String → SessionState → Attempt
unfolding postinstall_packages add_apex_names
stage_scanned host apexes s = after_postinstall host apexes s (postinstall_packages host apexes)

unfoldable pub after_scan : Host → SessionState → String ⊎ List String → Attempt
unfolding stage_scanned
after_scan host s (inl m) = failed (with_error m s)
after_scan host s (inr apexes) = stage_scanned host apexes s

-- The body of the loop up to the write of the new state.
unfoldable pub attempt : Host → SessionState → Attempt
unfolding scan_dirs after_scan
attempt host s =
    if not (s.expected_build_fingerprint == host.build_fingerprint)
    then failed (with_error "APEX build fingerprint has changed" s)
    else if host.supports_fs_checkpoints && not host.in_fs_checkpoint_mode
    then failed (with_error "Cannot install apex session if not in fs-checkpoint mode" s)
    else after_scan host s (scan_dirs host s.id (ids_to_scan s.id s.child_session_ids))

-- The session as it is written at the end of the body; the scope guard writes the failures.
abbrev pub finish : Attempt → SessionState
finish (failed s) = at_state State.activation_failed s
finish (staged apexes s) = at_state State.activated s

abbrev pub note_staged : Attempt → World → World
note_staged (failed s) w = w
note_staged (staged apexes s) w = log (staged_packages apexes) w

-- The loop; a write that fails is only logged.
unfoldable pub stage_sessions : Host → List SessionState → World → World
unfolding attempt
stage_sessions host [] w = w
stage_sessions host (s ∷ ss) w =
    let r = attempt host s in stage_sessions host ss (commit_at host (finish r) (note_staged r w)).1

unfoldable pub scan_staged_sessions_dir_and_stage : Host → World → World
unfolding stage_sessions get_sessions_in_state
scan_staged_sessions_dir_and_stage host w =
    stage_sessions host
      (get_sessions_in_state State.staged w.sessions
        ++ (if host.supports_fs_checkpoints
            then get_sessions_in_state State.activated w.sessions
            else []))
      w

abbrev pub after_delete_backup : Host → SessionState → World → Result (Unit {0}) × World
after_delete_backup host s w = commit_at host (at_state State.success s) (
    if s.is_rollback && not host.supports_fs_checkpoints
    then log (deleted_pre_restore s.id) w
    else w)

unfoldable pub mark_staged_session_successful : Host → ℕ → World → Result (Unit {0}) × World
unfolding file_of
mark_staged_session_successful host id w = elim (file_of id w.sessions) [
  | none ↦ (err "Failed to open or to parse the state file", w)
  | some s ↦
      if same_state s.state State.success
      then (ok tt, w)
      else if same_state s.state State.activated
      then elim host.delete_backup [
        | ok u ↦ after_delete_backup host s (log deleted_backup w)
        | err e ↦ (err ("Failed to mark session as successful : " ^^ e), log deleted_backup w)
        | fatal e ↦ (fatal e, log deleted_backup w)
      ]
      else (err "Session can not be marked successful", w)
]
