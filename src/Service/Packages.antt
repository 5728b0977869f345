-- ===== src/Service/Packages.antt =====
-- The calls of apexd/apexservice.cpp on packages and on snapshots of data.
use platform_system_apex.Base.{ℕ, String, Bool, true, false, not, List, ◌++◌, ◌==◌, map, any, keep}
use platform_system_apex.Base.Int.{ℤ}
use platform_system_apex.Base.Result.{Result, ok, err, fatal}
use platform_system_apex.ApexFile.{ApexFile, name_of, version_of}
use platform_system_apex.Repository.{
  ApexFileRepository, is_pre_installed_apex, get_preinstalled_path,
}
use platform_system_apex.Machine.{Machine, Services}
use platform_system_apex.Machine.{Texts}
use platform_system_apex.Install.Package.{install_package}
use platform_system_apex.Activate.{activate_package, deactivate_package}
use platform_system_apex.Cleanup.{unstage_packages}
use platform_system_apex.Boot.{remount_packages, get_active_packages}
use platform_system_apex.Stage.{stage_packages}
use platform_system_apex.Active.{Calls, Dirs}
use platform_system_apex.Snapshot.{FileCalls}
use platform_system_apex.Snapshot.Users.{
  UserCalls, snapshot_ce_data, restore_ce_data, destroy_de_snapshots, destroy_ce_snapshots,
  destroy_ce_snapshots_not_specified,
}
use platform_system_apex.Service.{
  Caller, BinderStatus, ex_service_specific, check_debuggable, check_caller_is_root, reply, behind,
}

pub record ApexInfo : Type 0 where
  pub module_name : String
  pub module_path : String
  pub preinstalled_module_path : String
  pub version_code : ℤ
  pub version_name : String
  pub is_factory : Bool
  pub is_active : Bool

abbrev pub path_or_empty : Result String → String
path_or_empty (ok path) = path
path_or_empty (err e) = ""
path_or_empty (fatal e) = ""

unfoldable pub get_apex_info : ApexFileRepository → ApexFile → ApexInfo
unfolding is_pre_installed_apex get_preinstalled_path
get_apex_info instance_ apex = record {
  module_name = name_of apex;
  module_path = apex.apex_path;
  preinstalled_module_path = path_or_empty (get_preinstalled_path instance_ (name_of apex));
  version_code = version_of apex;
  version_name = apex.manifest.version_name;
  is_factory = is_pre_installed_apex instance_ apex;
  is_active = false;
}

abbrev pub active_info : ApexFileRepository → ApexFile → ApexInfo
active_info instance_ apex = record (get_apex_info instance_ apex) { is_active = true }

-- `getActivePackages`
unfoldable pub list_active_packages : ApexFileRepository → Machine → List ApexInfo
unfolding get_apex_info get_active_packages
list_active_packages instance_ m = map (active_info instance_) (get_active_packages m)

-- `getAllPackages`, with what `GetFactoryPackages` answers
unfoldable pub get_all_packages : ApexFileRepository → List ApexFile → Machine → List ApexInfo
unfolding get_apex_info get_active_packages
get_all_packages instance_ factory m =
    let active = get_active_packages m in
    map (active_info instance_) active
    ++ map (get_apex_info instance_)
        (keep (λ pkg. not (any (λ o. o.apex_path == pkg.apex_path) active)) factory)

-- The calls that change what is mounted or kept
pub data PackageCall : Type 0 where
  call_activate : String → PackageCall
  call_deactivate : String → PackageCall
  call_unstage : List String → PackageCall
  call_remount : PackageCall
  call_install : String → PackageCall

unfoldable pub serve_unstage : Services → List String → Machine → BinderStatus × Machine
serve_unstage s paths m = reply ex_service_specific (unstage_packages s paths m)

unfoldable pub serve_remount : Caller → Services → Machine → BinderStatus × Machine
unfolding check_debuggable check_caller_is_root
serve_remount caller s = behind (check_debuggable caller "remountPackages") (
    behind (check_caller_is_root caller "remountPackages")
      (λ n. reply ex_service_specific (remount_packages s n)))

-- `installAndActivatePackage`, without the info that it fills in
unfoldable pub serve_install : Services → Texts → String → Machine → BinderStatus × Machine
serve_install s texts path m = reply ex_service_specific (install_package s texts path m)

unfoldable pub serve_package :
    Caller → Services → Texts → PackageCall → Machine → BinderStatus × Machine
unfolding check_debuggable serve_unstage serve_remount serve_install
serve_package caller s texts (call_activate path) m =
    behind (check_debuggable caller "activatePackage")
      (λ n. reply ex_service_specific (activate_package s path n)) m
serve_package caller s texts (call_deactivate path) m =
    behind (check_debuggable caller "deactivatePackage")
      (λ n. reply ex_service_specific (deactivate_package s path n)) m
serve_package caller s texts (call_unstage paths) m = serve_unstage s paths m
serve_package caller s texts call_remount m = serve_remount caller s m
serve_package caller s texts (call_install path) m = serve_install s texts path m

-- `stagePackages`
unfoldable pub serve_stage : Caller → Calls → List String → Dirs → BinderStatus × Dirs
unfolding check_debuggable stage_packages
serve_stage caller calls paths d =
    behind (check_debuggable caller "stagePackages")
      (λ e. reply ex_service_specific (stage_packages calls paths e)) d

pub data SnapshotCall : Type 0 where
  call_snapshot_ce call_restore_ce : ℤ → ℕ → String → SnapshotCall
  call_destroy_de : ℕ → SnapshotCall
  call_destroy_ce : ℤ → ℕ → SnapshotCall
  call_destroy_ce_not_specified : ℤ → List ℤ → SnapshotCall

module _ {T : Type 0} where
  unfoldable pub serve_snapshot :
      FileCalls → UserCalls → SnapshotCall → List (String × T) → BinderStatus × List (String × T)
  unfolding snapshot_ce_data restore_ce_data destroy_de_snapshots destroy_ce_snapshots
      destroy_ce_snapshots_not_specified
  serve_snapshot calls users (call_snapshot_ce user_id rollback_id apex_name) dirs =
      reply ex_service_specific (snapshot_ce_data calls user_id rollback_id apex_name dirs)
  serve_snapshot calls users (call_restore_ce user_id rollback_id apex_name) dirs =
      reply ex_service_specific (restore_ce_data calls user_id rollback_id apex_name dirs)
  serve_snapshot calls users (call_destroy_de rollback_id) dirs =
      reply ex_service_specific (destroy_de_snapshots calls users rollback_id dirs)
  serve_snapshot calls users (call_destroy_ce user_id rollback_id) dirs =
      reply ex_service_specific (destroy_ce_snapshots calls user_id rollback_id dirs)
  serve_snapshot calls users (call_destroy_ce_not_specified user_id retain_rollback_ids) dirs =
      reply ex_service_specific
        (destroy_ce_snapshots_not_specified calls users user_id retain_rollback_ids dirs)
