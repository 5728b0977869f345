-- ===== src/Snapshot.antt =====
-- Snapshots of the data of packages in apexd/apexd.cpp and apexd/apexd_rollback_utils.h. The directories
-- of single packages are kept by their paths, each with what it holds (`T`).
pub mod RoundTrip
pub mod Missing
pub mod Users
pub mod Destroy
use platform_system_apex.Base.{
  ℕ, String, Bool, true, false, Option, none, some, List, [], ◌∷◌, ◌==◌, ◌^^◌, if◌then◌else◌,
}
use platform_system_apex.Base.Int.{pos}
use platform_system_apex.Base.Result.{Result, ok, err, fatal}
use platform_system_apex.Base.Steps.{Steps, ◌>>=◌, ◌>>◌, lift, require, next}
use platform_system_apex.ApexFile.{to_string}
use platform_system_apex.Session.{SessionState}

pub record FileCalls : Type 0 where
  -- `stat`: `PathExists` gives an answer, whether the path exists or not
  pub can_stat : String → Bool
  pub can_create_dir : String → Bool
  pub can_remove : String → Bool
  -- `CopyDirectoryRecursive` of a directory that exists
  pub can_copy : String → String → Bool
  pub restorecon_path : String → Result (Unit {0})

-- Rollback ids are ints of the caller; those that are not negative are covered here.
abbrev pub rollback_path : String → ℕ → Bool → String
rollback_path base_dir rollback_id pre_restore =
    base_dir
    ^^ "/"
    ^^ "apexrollback"
    ^^ "/"
    ^^ to_string (pos rollback_id)
    ^^ (if pre_restore then "-prerestore" else "")

abbrev pub snapshot_path : String → ℕ → String → Bool → String
snapshot_path base_dir rollback_id apex_name pre_restore =
    rollback_path base_dir rollback_id pre_restore ^^ "/" ^^ apex_name

abbrev pub data_path : String → String → String
data_path base_dir apex_name = base_dir ^^ "/" ^^ "apexdata" ^^ "/" ^^ apex_name

module _ {T : Type 0} where
  abbrev pub look : String → List (String × T) → Option T
  look path [] = none
  look path ((p, c) ∷ dirs) = let rest = look path dirs in if p == path then some c else rest

  abbrev pub drop : String → List (String × T) → List (String × T)
  drop path [] = []
  drop path ((p, c) ∷ dirs) = let rest = drop path dirs in if p == path then rest else (p, c) ∷ rest

  abbrev pub copied : FileCalls → String → String → Option T → Steps (List (String × T)) (Unit {0})
  copied calls from to none dirs = (err "Failed to copy", dirs)
  copied calls from to (some c) dirs =
      if calls.can_copy from to then (ok tt, (to, c) ∷ dirs) else (err "Failed to copy", dirs)

  -- What a copy that fails has left is removed again.
  unfoldable pub replace_files : FileCalls → String → String → Steps (List (String × T)) (Unit {0})
  replace_files calls from to dirs =
      if calls.can_remove to
      then copied calls from to (look from (drop to dirs)) (drop to dirs)
      else (err "Failed to delete existing files", dirs)

  unfoldable pub snapshot_data_directory :
      FileCalls → String → ℕ → String → Bool → Steps (List (String × T)) (Unit {0})
  snapshot_data_directory calls base_dir rollback_id apex_name pre_restore =
      require (calls.can_create_dir (rollback_path base_dir rollback_id pre_restore))
        "Failed to create snapshot directory for rollback"
      >> replace_files calls (data_path base_dir apex_name)
          (snapshot_path base_dir rollback_id apex_name pre_restore)

  -- `DeleteDir`, whose failure is only logged
  abbrev pub try_delete : FileCalls → String → Steps (List (String × T)) (Unit {0})
  try_delete calls path dirs = (ok tt, if calls.can_remove path then drop path dirs else dirs)

  unfoldable pub restore_data_directory :
      FileCalls → String → ℕ → String → Bool → Steps (List (String × T)) (Unit {0})
  restore_data_directory calls base_dir rollback_id apex_name pre_restore = do
    replace_files calls (snapshot_path base_dir rollback_id apex_name pre_restore)
        (data_path base_dir apex_name)
    lift (calls.restorecon_path (data_path base_dir apex_name))
    try_delete calls (snapshot_path base_dir rollback_id apex_name pre_restore)

  -- A step whose failure is only logged
  abbrev pub ignoring : Steps (List (String × T)) (Unit {0}) → List (String × T) → List (String × T)
  ignoring f dirs = (f dirs).1

  unfoldable pub snapshot_each :
      FileCalls → String → ℕ → List String → List (String × T) → List (String × T)
  unfolding snapshot_data_directory
  snapshot_each calls base_dir rollback_id [] dirs = dirs
  snapshot_each calls base_dir rollback_id (name ∷ names) dirs =
      snapshot_each calls base_dir rollback_id names
        (ignoring (snapshot_data_directory calls base_dir rollback_id name false) dirs)

  unfoldable pub restore_each :
      FileCalls → Bool → String → ℕ → List String → List (String × T) → List (String × T)
  unfolding snapshot_data_directory restore_data_directory
  restore_each calls supports_fs_checkpoints base_dir rollback_id [] dirs = dirs
  restore_each calls supports_fs_checkpoints base_dir rollback_id (name ∷ names) dirs =
      let saved : List (String × T) =
        if supports_fs_checkpoints
        then dirs
        else ignoring (snapshot_data_directory calls base_dir rollback_id name true) dirs in
      restore_each calls supports_fs_checkpoints base_dir rollback_id names
        (ignoring (restore_data_directory calls base_dir rollback_id name false) saved)

  unfoldable pub snapshot_or_restore_de_if_needed :
      FileCalls → Bool → String → SessionState → List (String × T) → List (String × T)
  unfolding snapshot_each restore_each
  snapshot_or_restore_de_if_needed calls supports_fs_checkpoints base_dir session dirs =
      if session.rollback_enabled
      then snapshot_each calls base_dir session.rollback_id session.apex_names dirs
      else if session.is_rollback
      then restore_each calls supports_fs_checkpoints base_dir session.rollback_id
          session.apex_names dirs
      else dirs

  -- The loop over the sessions that are ACTIVATED, for one directory.
  unfoldable pub snapshot_or_restore_sessions :
      FileCalls → Bool → String → List SessionState → List (String × T) → List (String × T)
  unfolding snapshot_or_restore_de_if_needed
  snapshot_or_restore_sessions calls supports_fs_checkpoints base_dir [] dirs = dirs
  snapshot_or_restore_sessions calls supports_fs_checkpoints base_dir (s ∷ sessions) dirs =
      snapshot_or_restore_sessions calls supports_fs_checkpoints base_dir sessions
        (snapshot_or_restore_de_if_needed calls supports_fs_checkpoints base_dir s dirs)

  -- `RestorePreRestoreSnapshotsIfPresent`: the test is `PathExists(…).ok()`.
  unfoldable pub restore_pre_restore_each :
      FileCalls → String → ℕ → List String → List (String × T) → List (String × T)
  restore_pre_restore_each calls base_dir rollback_id [] dirs = dirs
  restore_pre_restore_each calls base_dir rollback_id (name ∷ names) dirs =
      restore_pre_restore_each calls base_dir rollback_id names
        (ignoring (restore_data_directory calls base_dir rollback_id name true) dirs)

  unfoldable pub restore_pre_restore_snapshots_if_present :
      FileCalls → String → SessionState → List (String × T) → List (String × T)
  restore_pre_restore_snapshots_if_present calls base_dir session dirs =
      if calls.can_stat (rollback_path base_dir session.rollback_id true)
      then restore_pre_restore_each calls base_dir session.rollback_id session.apex_names dirs
      else dirs
