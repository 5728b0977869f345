-- ===== src/Host.antt =====
-- What apexd/apexd.cpp works on beside the sessions: the answers of the file system and of the other
-- parts, and the order of the calls.
pub mod Writes
use platform_system_apex.Base.{ℕ, String, Bool, List, ◌∷◌, [], ◌⊎◌}
use platform_system_apex.ApexFile.{ApexFile}
use platform_system_apex.Base.Result.{Result}
use platform_system_apex.Session.{SessionState, Sessions, Disk, commit}

pub record Host : Type 0 where
  pub disk : Disk
  -- `gSupportsFsCheckpoints` and `gInFsCheckpointMode`
  pub supports_fs_checkpoints : Bool
  pub in_fs_checkpoint_mode : Bool
  -- `GetProperty(kBuildFingerprintSysprop, "")`
  pub build_fingerprint : String
  -- `RestoreActivePackages`, `DeleteBackup`, `BackupActivePackages`
  pub restore_active_packages : Result (Unit {0})
  pub delete_backup : Result (Unit {0})
  pub backup_active_packages : Result (Unit {0})
  -- `gConfig->staged_session_dir`
  pub staged_session_dir : String
  -- `FindFilesBySuffix` of the directory of a session below `staged_session_dir`, for ".apex"
  pub scan_session_dir : ℕ → String ⊎ List String
  -- the same, of the directory of a session below `kStagedSessionsDir`
  pub scan_submitted_dir : ℕ → String ⊎ List String
  -- `ApexFile::Open`
  pub open_apex : String → String ⊎ ApexFile
  -- `VerifyPackageStagedInstall`: the signature, and a temp mount
  pub verify_staged_install : ApexFile → String ⊎ Unit {0}
  -- the hooks of the packages, and `StagePackages`
  pub run_preinstall : List ApexFile → String ⊎ Unit {0}
  pub run_postinstall : List ApexFile → String ⊎ Unit {0}
  pub stage_packages : List String → String ⊎ Unit {0}

pub data Event : Type 0 where
  -- a write of a session's state file
  committed : SessionState → Event
  restored_active_packages : Event
  -- `RestoreDePreRestoreSnapshotsIfPresent` and `DeleteDePreRestoreSnapshots` of a session
  restored_pre_restore deleted_pre_restore : ℕ → Event
  deleted_backup backed_up : Event
  -- `UnmountTempMount`, for the package of that name
  unmounted_temp : String → Event
  -- a call of `StagePackages` that succeeded
  staged_packages : List String → Event

pub record World : Type 0 where
  pub sessions : Sessions
  -- newest first
  pub trace : List Event

abbrev pub log : Event → World → World
log e w = record w { trace = e ∷ w.trace }

-- A write, whether it succeeds or not.
unfoldable pub commit_at : Host → SessionState → World → Result (Unit {0}) × World
unfolding commit
commit_at host s w =
    let (r, store) = commit host.disk s w.sessions in
    (r, record { sessions = store; trace = committed s ∷ w.trace })
