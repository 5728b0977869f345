-- ===== src/Tests.antt =====
-- Concrete devices: files, sessions and mounts that the theorems are tried on.
pub mod Repositories
pub mod Staged
pub mod Directories
pub mod Populated
pub mod Installed
pub mod Decompressed
pub mod HashTrees
pub mod Shims
pub mod Loops
pub mod Served
pub mod Hooked
pub mod Snapshots
pub mod Texts
pub mod Mounts
use platform_system_apex.Base.{String, Bool, true, false, none, some, inl, inr, List, [], ◌∷◌, ℕ}
use platform_system_apex.Base.Int.{ℤ, pos}
use platform_system_apex.Base.Result.{ok, err}
use platform_system_apex.ApexFile.{ApexManifest, ApexFile}
use platform_system_apex.Repository.{ApexFileRepository}
use platform_system_apex.Files.{Files}
use platform_system_apex.Session.{State, SessionState, Sessions, Disk, written, removed}
use platform_system_apex.Host.{Host, World}

abbrev pub manifest : String → ℤ → ApexManifest
manifest name version = record {
  name = name;
  version = version;
  version_name = "";
  pre_install_hook = "";
  post_install_hook = "";
  no_code = false;
  provide_native_libs = [];
  require_native_libs = [];
  jni_libs = [];
  require_shared_apex_libs = [];
  provide_shared_apex_libs = false;
  original_apex_digest = "";
  supports_rebootless_update = false;
}

abbrev pub apex : String → String → ℤ → ApexFile
apex path name version = record {
  apex_path = path;
  image_offset = none;
  image_size = none;
  manifest = manifest name version;
  apex_pubkey = "key";
  fs_type = none;
  is_compressed = false;
}

abbrev pub wifi_system : ApexFile
wifi_system = apex "/system/apex/wifi.apex" "wifi" (pos 1)

abbrev pub wifi_data : ApexFile
wifi_data = apex "/data/apex/active/wifi@2.apex" "wifi" (pos 2)

abbrev pub repository : ApexFileRepository
repository = record {
  pre_installed_store = ("wifi", wifi_system) ∷ [];
  data_store = ("wifi", wifi_data) ∷ [];
  decompression_dir = "/data/apex/decompressed";
}

abbrev pub files : Files
files = record {
  is_missing = λ dir. false;
  entries = λ dir. ok [];
  open_apex = λ path. inr wifi_data;
  starts_with = λ s prefix. false;
  ends_with = λ s suffix. false;
  get_property = λ key fallback. fallback;
}

abbrev pub disk : Disk
disk = record { create_dir = λ id. true; write = λ s. written; remove = λ id. removed }

abbrev pub host : Host
host = record {
  disk = disk;
  supports_fs_checkpoints = false;
  in_fs_checkpoint_mode = false;
  build_fingerprint = "build";
  restore_active_packages = ok tt;
  delete_backup = ok tt;
  backup_active_packages = ok tt;
  staged_session_dir = "/data/app-staging";
  scan_session_dir = λ id. inr ("/data/app-staging/session_7/wifi.apex" ∷ []);
  scan_submitted_dir = λ id. inr ("/data/app-staging/session_9/wifi.apex" ∷ []);
  open_apex = λ path. inr wifi_data;
  verify_staged_install = λ a. inr tt;
  run_preinstall = λ l. inr tt;
  run_postinstall = λ l. inr tt;
  stage_packages = λ l. inr tt;
}

-- A device whose backup cannot be restored.
abbrev pub broken_host : Host
broken_host = record host { restore_active_packages = err "no backup" }

abbrev pub session : ℕ → State → SessionState
session id st = record {
  id = id;
  state = st;
  child_session_ids = [];
  expected_build_fingerprint = "build";
  rollback_enabled = false;
  is_rollback = false;
  rollback_id = 0;
  crashing_native_process = "";
  apex_names = [];
  error_message = "";
}

-- One session of that state, and one that is finished.
abbrev pub store : State → Sessions
store st =
    record { dir = 7; file = some (session 7 st) }
    ∷ record { dir = 8; file = some (session 8 State.success) }
    ∷ []

abbrev pub world : State → World
world st = record { sessions = store st; trace = [] }
