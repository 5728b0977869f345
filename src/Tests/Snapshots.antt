-- ===== src/Tests/Snapshots.antt =====
-- A package's data before an update, changed by the update, and restored.
use platform_system_apex.Base.{
  String, true, false, none, List, [], ◌∷◌, ◌≡◌, refl, some, ◌==◌, if◌then◌else◌,
}
use platform_system_apex.Base.Result.{ok}
use platform_system_apex.ApexFile.{to_string}
use platform_system_apex.Snapshot.{
  FileCalls, look, replace_files, data_path, snapshot_data_directory,
  restore_pre_restore_snapshots_if_present, restore_data_directory,
}
use platform_system_apex.Session.{SessionState, State}
use platform_system_apex.Base.Int.{pos}
use platform_system_apex.Snapshot.Users.{UserCalls, destroy_ce_snapshots_not_specified, under}
use platform_system_apex.Snapshot.Destroy.{destroy_ce_snapshots_not_specified-exactly}
use platform_system_apex.Snapshot.Missing.{restore_pre_restore_snapshots_if_present-missing}
use platform_system_apex.Snapshot.RoundTrip.{restore_data_directory-snapshot_data_directory}

abbrev calls : FileCalls
calls = record {
  can_stat = λ path. true;
  can_create_dir = λ path. true;
  can_remove = λ path. true;
  can_copy = λ from to. true;
  restorecon_path = λ path. ok tt;
}

abbrev before : List (String × String)
before = ("/data/misc/apexdata/wifi", "old") ∷ []

abbrev taken : List (String × String)
taken = ("/data/misc/apexrollback/7/wifi", "old") ∷ before

abbrev changed : List (String × String)
changed = ("/data/misc/apexdata/wifi", "new") ∷ ("/data/misc/apexrollback/7/wifi", "old") ∷ []

restore_data_directory-snapshot_data_directory_example :
    look (data_path "/data/misc" "wifi") before ≡ look (data_path "/data/misc" "wifi") before
unfolding snapshot_data_directory restore_data_directory replace_files to_string
restore_data_directory-snapshot_data_directory_example =
    restore_data_directory-snapshot_data_directory calls "/data/misc" "wifi" 7 false before taken
      changed before refl refl refl

abbrev session : SessionState
session = record {
  id = 3;
  state = State.reverted;
  child_session_ids = [];
  expected_build_fingerprint = "";
  rollback_enabled = false;
  is_rollback = true;
  rollback_id = 7;
  crashing_native_process = "";
  apex_names = "wifi" ∷ [];
  error_message = "";
}

restore_pre_restore_snapshots_if_present-missing_example :
    look
      (data_path "/data/misc" "wifi")
      (restore_pre_restore_snapshots_if_present calls "/data/misc" session before)
    ≡ none
unfolding to_string
restore_pre_restore_snapshots_if_present-missing_example =
    restore_pre_restore_snapshots_if_present-missing calls "/data/misc" "wifi" session before refl
      refl refl refl

abbrev users : UserCalls
users = record {
  get_subdirs =
      λ path. ok ("/data/misc_ce/0/apexrollback/7" ∷ "/data/misc_ce/0/apexrollback/8" ∷ []);
  get_de_user_dirs = ok ("/data/misc_de/0" ∷ []);
  filename = λ path. if path == "/data/misc_ce/0/apexrollback/7" then "7" else "8";
  parse_uint = λ name. if name == "7" then some 7 else some 8;
}

abbrev two_snapshots : List (String × String)
two_snapshots =
    ("/data/misc_ce/0/apexrollback/7/wifi", "seven")
    ∷ ("/data/misc_ce/0/apexrollback/8/wifi", "eight")
    ∷ []

destroy_ce_snapshots_not_specified-exactly_example :
    look {T = String} "/data/misc_ce/0/apexrollback/8/wifi"
      (("/data/misc_ce/0/apexrollback/7/wifi", "seven") ∷ [])
    ≡ none
unfolding destroy_ce_snapshots_not_specified under
destroy_ce_snapshots_not_specified-exactly_example =
    destroy_ce_snapshots_not_specified-exactly calls users (pos 7 ∷ []) (pos 0)
      ("/data/misc_ce/0/apexrollback/7" ∷ "/data/misc_ce/0/apexrollback/8" ∷ []) two_snapshots
      (("/data/misc_ce/0/apexrollback/7/wifi", "seven") ∷ []) "/data/misc_ce/0/apexrollback/8/wifi"
      refl refl
