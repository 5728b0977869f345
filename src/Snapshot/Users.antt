-- ===== src/Snapshot/Users.antt =====
-- The snapshots of users in apexd/apexd.cpp: device-encrypted ones of the system and of each user, and
-- credential-encrypted ones of one user, with their deletion.
use Prim.Native.Char.{code}
use platform_system_apex.Base.{
  ℕ, ◌^^◌, String, Bool, true, false, ◌&&◌, ◌||◌, not, Option, none, some, List, [], ◌∷◌, ◌==◌, any,
  eqb, if◌then◌else◌,
}
use platform_system_apex.Base.Int.{ℤ, to_uint32}
use platform_system_apex.Base.Result.{Result, ok, err, fatal}
use platform_system_apex.Base.Steps.{Steps, next, ◌>>=◌, lift}
use platform_system_apex.ApexFile.{to_string}
use platform_system_apex.Session.{SessionState}
use platform_system_apex.Snapshot.{
  FileCalls, rollback_path, snapshot_data_directory, restore_data_directory, ignoring,
  snapshot_or_restore_de_if_needed, restore_pre_restore_snapshots_if_present,
}

-- What is outside: the subdirectories of a path, `GetDeUserDirs`, the last part of a path, `ParseUint`.
pub record UserCalls : Type 0 where
  pub get_subdirs : String → Result (List String)
  pub get_de_user_dirs : Result (List String)
  pub filename : String → String
  pub parse_uint : String → Option ℕ

abbrev pub k_de_sys_data_dir : String
k_de_sys_data_dir = "/data/misc"

abbrev pub k_ce_data_dir : String
k_ce_data_dir = "/data/misc_ce"

abbrev pub ce_dir : ℤ → String
ce_dir user_id = k_ce_data_dir ^^ "/" ^^ to_string user_id

abbrev pub starts : String → String → Bool
starts String.[] s = true
starts (String.◌∷◌ c p) String.[] = false
starts (String.◌∷◌ c p) (String.◌∷◌ d s) = eqb (code c) (code d) && starts p s

-- A path is a directory or below it.
unfoldable pub under : String → String → Bool
under dir path = path == dir || starts (dir ^^ "/") path

-- The ids to retain are ints that are compared with an unsigned one.
abbrev pub is_retained : List ℤ → ℕ → Bool
is_retained retain_rollback_ids snapshot_id =
    any (λ i. eqb (to_uint32 i) snapshot_id) retain_rollback_ids

abbrev pub to_be_destroyed : List ℤ → Option ℕ → Bool
to_be_destroyed retain_rollback_ids none = false
to_be_destroyed retain_rollback_ids (some snapshot_id) =
    not (is_retained retain_rollback_ids snapshot_id)

abbrev pub is_doomed : UserCalls → List ℤ → String → Bool
is_doomed users retain_rollback_ids snapshot_dir =
    to_be_destroyed retain_rollback_ids (users.parse_uint (users.filename snapshot_dir))

module _ {T : Type 0} where
  unfoldable pub delete_tree : String → List (String × T) → List (String × T)
  unfolding under
  delete_tree dir [] = []
  delete_tree dir ((p, c) ∷ dirs) =
      let rest = delete_tree dir dirs in if under dir p then rest else (p, c) ∷ rest

  -- `DeleteDir`, of a directory and all that is below it
  unfoldable pub delete_dir : FileCalls → String → Steps (List (String × T)) (Unit {0})
  unfolding delete_tree
  delete_dir calls dir dirs =
      if calls.can_remove dir
      then (ok tt, delete_tree dir dirs)
      else (err "Failed to delete path", dirs)

  unfoldable pub destroy_snapshots : FileCalls → String → ℕ → Steps (List (String × T)) (Unit {0})
  unfolding delete_dir
  destroy_snapshots calls base_dir rollback_id =
      delete_dir calls (rollback_path base_dir rollback_id false)

  unfoldable pub destroy_each : FileCalls → ℕ → List String → List (String × T) → List (String × T)
  unfolding destroy_snapshots
  destroy_each calls rollback_id [] dirs = dirs
  destroy_each calls rollback_id (user_dir ∷ user_dirs) dirs =
      destroy_each calls rollback_id user_dirs
        (ignoring (destroy_snapshots calls user_dir rollback_id) dirs)

  abbrev pub for_users :
      Result (List String)
      → (List String → List (String × T) → List (String × T))
      → Steps (List (String × T)) (Unit {0})
  for_users (ok user_dirs) f dirs = (ok tt, f user_dirs dirs)
  for_users (err e) f dirs = (err "Error reading user dirs", dirs)
  for_users (fatal e) f dirs = (fatal e, dirs)

  unfoldable pub destroy_de_snapshots :
      FileCalls → UserCalls → ℕ → Steps (List (String × T)) (Unit {0})
  unfolding destroy_snapshots destroy_each
  destroy_de_snapshots calls users rollback_id dirs =
      for_users users.get_de_user_dirs (destroy_each calls rollback_id)
        (ignoring (destroy_snapshots calls k_de_sys_data_dir rollback_id) dirs)

  unfoldable pub destroy_ce_snapshots : FileCalls → ℤ → ℕ → Steps (List (String × T)) (Unit {0})
  unfolding delete_dir
  destroy_ce_snapshots calls user_id rollback_id =
      delete_dir calls (rollback_path (ce_dir user_id) rollback_id false)

  unfoldable pub destroy_not_retained :
      FileCalls → UserCalls → List ℤ → List String → Steps (List (String × T)) (Unit {0})
  unfolding delete_dir
  destroy_not_retained calls users retain_rollback_ids [] dirs = (ok tt, dirs)
  destroy_not_retained calls users retain_rollback_ids (snapshot_dir ∷ snapshot_dirs) dirs =
      next (λ u. destroy_not_retained calls users retain_rollback_ids snapshot_dirs)
        (if is_doomed users retain_rollback_ids snapshot_dir
          then delete_dir calls snapshot_dir dirs
          else (ok tt, dirs))

  unfoldable pub destroy_ce_snapshots_not_specified :
      FileCalls → UserCalls → ℤ → List ℤ → Steps (List (String × T)) (Unit {0})
  unfolding destroy_not_retained
  destroy_ce_snapshots_not_specified calls users user_id retain_rollback_ids = do
    snapshot_dirs ← lift (users.get_subdirs (ce_dir user_id ^^ "/" ^^ "apexrollback"))
    destroy_not_retained calls users retain_rollback_ids snapshot_dirs

  unfoldable pub snapshot_ce_data :
      FileCalls → ℤ → ℕ → String → Steps (List (String × T)) (Unit {0})
  unfolding snapshot_data_directory
  snapshot_ce_data calls user_id rollback_id apex_name =
      snapshot_data_directory calls (ce_dir user_id) rollback_id apex_name false

  unfoldable pub restore_ce_data : FileCalls → ℤ → ℕ → String → Steps (List (String × T)) (Unit {0})
  unfolding restore_data_directory
  restore_ce_data calls user_id rollback_id apex_name =
      restore_data_directory calls (ce_dir user_id) rollback_id apex_name false

  -- `SnapshotOrRestoreDeUserData`, over the sessions that are ACTIVATED
  unfoldable pub de_user_data_of_session :
      FileCalls → Bool → SessionState → List String → List (String × T) → List (String × T)
  unfolding snapshot_or_restore_de_if_needed
  de_user_data_of_session calls supports_fs_checkpoints session [] dirs = dirs
  de_user_data_of_session calls supports_fs_checkpoints session (user_dir ∷ user_dirs) dirs =
      de_user_data_of_session calls supports_fs_checkpoints session user_dirs
        (snapshot_or_restore_de_if_needed calls supports_fs_checkpoints user_dir session dirs)

  unfoldable pub de_user_data_of_sessions :
      FileCalls → Bool → List SessionState → List String → List (String × T) → List (String × T)
  unfolding de_user_data_of_session
  de_user_data_of_sessions calls supports_fs_checkpoints [] user_dirs dirs = dirs
  de_user_data_of_sessions calls supports_fs_checkpoints (s ∷ sessions) user_dirs dirs =
      de_user_data_of_sessions calls supports_fs_checkpoints sessions user_dirs
        (de_user_data_of_session calls supports_fs_checkpoints s user_dirs dirs)

  unfoldable pub snapshot_or_restore_de_user_data :
      FileCalls → UserCalls → Bool → List SessionState → Steps (List (String × T)) (Unit {0})
  unfolding de_user_data_of_sessions
  snapshot_or_restore_de_user_data calls users supports_fs_checkpoints sessions =
      for_users users.get_de_user_dirs
        (de_user_data_of_sessions calls supports_fs_checkpoints sessions)

  -- A failed `GetDeUserDirs` is logged and used all the same, which ends the process.
  abbrev pub for_users_unchecked :
      Result (List String)
      → (List String → List (String × T) → List (String × T))
      → Steps (List (String × T)) (Unit {0})
  for_users_unchecked (ok user_dirs) f dirs = (ok tt, f user_dirs dirs)
  for_users_unchecked (err e) f dirs = (fatal e, dirs)
  for_users_unchecked (fatal e) f dirs = (fatal e, dirs)

  unfoldable pub restore_pre_restore_of_users :
      FileCalls → SessionState → List String → List (String × T) → List (String × T)
  unfolding restore_pre_restore_snapshots_if_present
  restore_pre_restore_of_users calls session [] dirs = dirs
  restore_pre_restore_of_users calls session (user_dir ∷ user_dirs) dirs =
      restore_pre_restore_of_users calls session user_dirs
        (restore_pre_restore_snapshots_if_present calls user_dir session dirs)

  unfoldable pub restore_de_pre_restore_snapshots_if_present :
      FileCalls → UserCalls → SessionState → Steps (List (String × T)) (Unit {0})
  unfolding restore_pre_restore_of_users restore_pre_restore_snapshots_if_present
  restore_de_pre_restore_snapshots_if_present calls users session dirs =
      for_users_unchecked users.get_de_user_dirs (restore_pre_restore_of_users calls session)
        (restore_pre_restore_snapshots_if_present calls k_de_sys_data_dir session dirs)

  -- `DeleteDePreRestoreSnapshots` of one directory; a failure is only logged.
  unfoldable pub delete_pre_restore_in :
      FileCalls → SessionState → String → List (String × T) → List (String × T)
  unfolding delete_dir
  delete_pre_restore_in calls session base_dir dirs =
      ignoring (delete_dir calls (rollback_path base_dir session.rollback_id true)) dirs

  unfoldable pub delete_pre_restore_of_users :
      FileCalls → SessionState → List String → List (String × T) → List (String × T)
  unfolding delete_pre_restore_in
  delete_pre_restore_of_users calls session [] dirs = dirs
  delete_pre_restore_of_users calls session (user_dir ∷ user_dirs) dirs =
      delete_pre_restore_of_users calls session user_dirs
        (delete_pre_restore_in calls session user_dir dirs)

  unfoldable pub delete_de_pre_restore_snapshots :
      FileCalls → UserCalls → SessionState → Steps (List (String × T)) (Unit {0})
  unfolding delete_pre_restore_in delete_pre_restore_of_users
  delete_de_pre_restore_snapshots calls users session dirs =
      for_users_unchecked users.get_de_user_dirs (delete_pre_restore_of_users calls session)
        (delete_pre_restore_in calls session k_de_sys_data_dir dirs)
