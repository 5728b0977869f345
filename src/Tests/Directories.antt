-- ===== src/Tests/Directories.antt =====
-- The theorems on the directories of data APEXes.
use platform_system_apex.Base.{true, false, none, some, inl, inr, List, [], ◌∷◌, ◌≡◌, refl}
use platform_system_apex.Base.Int.{pos}
use platform_system_apex.ApexFile.{ApexFile, get_package_id, to_string}
use platform_system_apex.Active.{
  Entry, Dirs, Calls, backup_active_packages, restore_active_packages,
}
use platform_system_apex.Active.RoundTrip.{restore-backup}
use platform_system_apex.Stage.{remove_previously_active_apex_files, stage_packages}
use platform_system_apex.Stage.Success.{IsLinked, stage_packages_links}
use platform_system_apex.Stage.Removal.{entry_of, remove_previously_active_apex_files_exactly}
use platform_system_apex.Tests.{apex, wifi_data}

abbrev calls : Calls
calls = record {
  active_apex_data_dir = "/data/apex/active";
  can_stat = λ path. true;
  can_list = λ path. true;
  can_create_dir = λ path. true;
  can_unlink = λ path. true;
  can_link = λ from to. true;
  can_rename = λ from to. true;
  can_chmod = λ path. true;
  delete_content = λ dir. none;
  ends_with = λ s suffix. true;
  open_apex = λ path. inr (apex "/data/app-staging/wifi.apex" "wifi" (pos 3));
  verify_package_boot = λ a. inr tt;
  is_shim_apex = λ a. false;
}

abbrev old_file : Entry
old_file = record { name = "wifi@2.apex"; content = inr wifi_data }

abbrev new_file : Entry
new_file = record {
  name = "wifi@3.apex";
  content = inr (apex "/data/app-staging/wifi.apex" "wifi" (pos 3));
}

abbrev dirs : Dirs
dirs = record { active = some (old_file ∷ []); backup = none; hashtrees = [] }

-- Staging version 3 takes the place of version 2.
stage_packages_run :
    (stage_packages calls ("/data/app-staging/wifi.apex" ∷ []) dirs).1.active ≡ some (new_file ∷ [])
unfolding stage_packages get_package_id to_string
stage_packages_run = refl

restore-backup_example :
    (restore_active_packages calls
      (record (backup_active_packages calls dirs).1 { active = some (new_file ∷ []) })).1.active
    ≡ some (old_file ∷ [])
unfolding backup_active_packages restore_active_packages get_package_id to_string
restore-backup_example =
    restore-backup calls dirs (old_file ∷ []) (some (new_file ∷ []))
      ((wifi_data, refl, refl, refl), tt) refl refl refl

-- Of three files, one of a package that was not staged.
abbrev tethering_file : Entry
tethering_file = record {
  name = "tethering@1.apex";
  content = inr (apex "/data/app-staging/tethering.apex" "tethering" (pos 1));
}

abbrev directory : List Entry
directory = new_file ∷ tethering_file ∷ old_file ∷ []

remove_previously_active_run :
    (remove_previously_active_apex_files calls
      ("wifi" ∷ [])
      ("/data/apex/active/wifi@3.apex" ∷ [])
      directory).1
    ≡ new_file ∷ tethering_file ∷ []
unfolding remove_previously_active_apex_files
remove_previously_active_run = refl

remove_previously_active_apex_files_exactly_example :
    entry_of "wifi@2.apex"
      (remove_previously_active_apex_files calls
        ("wifi" ∷ [])
        ("/data/apex/active/wifi@3.apex" ∷ [])
        directory).1
    ≡ none
unfolding remove_previously_active_apex_files entry_of
remove_previously_active_apex_files_exactly_example =
    remove_previously_active_apex_files_exactly calls ("wifi" ∷ [])
      ("/data/apex/active/wifi@3.apex" ∷ []) directory "wifi@2.apex" (refl, (refl, (refl, tt))) refl

abbrev staged_apex : ApexFile
staged_apex = apex "/data/app-staging/wifi.apex" "wifi" (pos 3)

stage_packages_links_example :
    IsLinked
      (staged_apex ∷ [])
      staged_apex
      (stage_packages calls ("/data/app-staging/wifi.apex" ∷ []) dirs).1
unfolding stage_packages get_package_id to_string
stage_packages_links_example =
    stage_packages_links calls ("/data/app-staging/wifi.apex" ∷ []) dirs (staged_apex ∷ [])
      staged_apex refl (inl refl) refl
