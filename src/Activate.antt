-- ===== src/Activate.antt =====
-- `ActivatePackageImpl`, `UnmountPackage` and `DeactivatePackage` of apexd/apexd.cpp, with the loops of
-- `ActivateApexPackages` and `ActivateMissingApexes` over packages.
pub mod Latest
pub mod Files
use platform_system_apex.Base.{
  ℕ, suc, String, Bool, true, false, not, ◌&&◌, Option, none, some, List, [], ◌∷◌, ◌++◌, ◌==◌, ◌^^◌,
  if◌then◌else◌, ltb, eqb, any, keep, map,
}
use platform_system_apex.Base.Int.{to_uint64}
use platform_system_apex.Base.Result.{Result, ok, err, fatal}
use platform_system_apex.Base.Steps.{Steps, ◌>>=◌, ◌>>◌, lift, require, next}
use platform_system_apex.ApexFile.{
  ApexFile, name_of, version_of, get_package_id, get_active_mount_point, get_package_mount_point,
}
use platform_system_apex.Database.{
  MountedApexData, PackageMap, remove_mounted_apex, mounts_of, all_mounts,
}
use platform_system_apex.Repository.{is_pre_installed_apex}
use platform_system_apex.Mount.{Resources}
use platform_system_apex.Mount.Package.{drop_dir}
use platform_system_apex.Machine.{
  Machine, Services, St, open_apex, set_latest_at, mount_package, unmount,
}

-- What the handler of `ForallMountedApexes` has found so far.
pub record Seen : Type 0 where
  pub is_newest_version : Bool
  pub version_found_mounted : Bool
  pub version_found_active : Bool

abbrev pub see_mount : ℕ → Bool → Result ApexFile → Seen → Seen
see_mount new_version latest (ok other) seen =
    let same_version = eqb (to_uint64 (version_of other)) new_version in
    record {
      is_newest_version =
          seen.is_newest_version && not (ltb new_version (to_uint64 (version_of other)));
      version_found_mounted = if same_version then true else seen.version_found_mounted;
      version_found_active = if same_version then latest else seen.version_found_active;
    }
see_mount new_version latest _ seen = seen

unfoldable pub see_mounts : Machine → ℕ → PackageMap → Seen → Seen
unfolding open_apex
see_mounts m new_version [] seen = seen
see_mounts m new_version ((d, l) ∷ rest) seen =
    see_mounts m new_version rest (see_mount new_version l (open_apex d.full_path m) seen)

abbrev pub nothing_seen : Seen
nothing_seen = record {
  is_newest_version = true;
  version_found_mounted = false;
  version_found_active = false;
}

unfoldable pub see : Machine → ApexFile → Seen
unfolding see_mounts mounts_of
see m apex =
    see_mounts m (to_uint64 (version_of apex)) (mounts_of m.database (name_of apex) false)
      nothing_seen

abbrev pub bound_after : String → String → Machine → Result (Unit {0}) → Result (Unit {0}) × Machine
bound_after target source m (ok u) = (ok tt, record m { bound = (target, source) ∷ m.bound })
bound_after target source m (err e) = (err "Failed to update package", m)
bound_after target source m (fatal e) = (fatal e, m)

abbrev pub bind : Services → String → String → St (Unit {0})
bind s target source m = bound_after target source m (s.bind_mount target source)

unfoldable pub make_latest : Services → ApexFile → String → Bool → St (Unit {0})
make_latest s apex mount_point is_newest_version =
    if not is_newest_version
    then lift (ok tt)
    else if apex.manifest.provide_shared_apex_libs
    then set_latest_at (name_of apex) apex.apex_path
    else bind s (get_active_mount_point apex.manifest) mount_point
      >> set_latest_at (name_of apex) apex.apex_path

abbrev pub mount_unless : Bool → Services → ApexFile → String → String → St (Unit {0})
mount_unless true s apex mount_point device_name = lift (ok tt)
mount_unless false s apex mount_point device_name = mount_package s apex mount_point device_name

abbrev pub shared_libs : Services → ApexFile → String → Result (Unit {0})
shared_libs s apex mount_point =
    if apex.manifest.provide_shared_apex_libs
    then s.activate_shared_libs_package mount_point
    else ok tt

-- The part after the mounts of the package were seen.
unfoldable pub activate_seen : Services → ApexFile → String → Seen → St (Unit {0})
activate_seen s apex device_name seen =
    let mount_point : String = get_package_mount_point apex.manifest in
    if seen.version_found_active && not apex.manifest.provide_shared_apex_libs
    then lift (ok tt)
    else mount_unless seen.version_found_mounted s apex mount_point device_name
      >> make_latest s apex mount_point seen.is_newest_version
      >> lift (shared_libs s apex mount_point)

-- `IsValidPackageName`
unfoldable pub is_valid_package_name : String → Bool
is_valid_package_name name = not (name == "sharedlibs")

abbrev pub validate_shim : Services → ApexFile → Result (Unit {0})
validate_shim s apex =
    if s.is_shim_apex apex && not (is_pre_installed_apex s.repo apex)
    then s.verify_package_boot apex
    else ok tt

unfoldable pub activate_package_impl : Services → ApexFile → String → St (Unit {0})
unfolding is_valid_package_name
activate_package_impl s apex device_name = do
  require (is_valid_package_name (name_of apex)) "Package name is not allowed."
  lift (validate_shim s apex)
  λ m. activate_seen s apex device_name (see m apex) m

unfoldable pub activate_package : Services → String → St (Unit {0})
unfolding open_apex activate_package_impl get_package_id
activate_package s full_path = do
  apex ← λ m. (open_apex full_path m, m)
  activate_package_impl s apex (get_package_id apex.manifest)

-- The handler of `UnmountPackage` overwrites what it found before.
abbrev pub last_of_path :
    String → Option (MountedApexData × Bool) → PackageMap → Option (MountedApexData × Bool)
last_of_path path found [] = found
last_of_path path found ((d, l) ∷ rest) =
    last_of_path path (if d.full_path == path then some (d, l) else found) rest

abbrev erase_bound : String → List (String × String) → List (String × String)
erase_bound target [] = []
erase_bound target ((t, s) ∷ bound) =
    let rest = (t, s) ∷ erase_bound target bound in if t == target then bound else rest

abbrev after_umount : Services → String → Bool → Machine → Machine
after_umount s target deferred m =
    let m' : Machine = record m { bound = erase_bound target m.bound } in
    if deferred then m' else record m' { resources = drop_dir s.device target m'.resources }

abbrev pub unbind : Services → String → Bool → St (Unit {0})
unbind s target deferred m =
    if s.device.can_umount target
    then (ok tt, after_umount s target deferred m)
    else (err "Failed to unmount", m)

abbrev pub forget_mount : ApexFile → St (Unit {0})
forget_mount apex m = (
  ok tt,
  record m { database = remove_mounted_apex m.database (name_of apex) apex.apex_path false },
)

abbrev with_resources : Machine → Result (Unit {0}) × Resources → Result (Unit {0}) × Machine
with_resources m (r, k) = (r, record m { resources = k })

abbrev pub unmount_data : Services → MountedApexData → Bool → St (Unit {0})
unmount_data s d deferred m = with_resources m (unmount s.device d deferred m.resources)

abbrev pub found_mount : Option (MountedApexData × Bool) → Result (MountedApexData × Bool)
found_mount none = err "Did not find the package"
found_mount (some p) = ok p

unfoldable pub unmount_package : Services → ApexFile → Bool → Bool → St (Unit {0})
unmount_package s apex allow_latest deferred = do
  (d, latest) ← λ m. (
    found_mount (last_of_path apex.apex_path none (mounts_of m.database (name_of apex) false)),
    m,
  )
  if latest && not apex.manifest.provide_shared_apex_libs
      then require allow_latest "Package is active"
        >> unbind s (get_active_mount_point apex.manifest) deferred
      else lift (ok tt)
  forget_mount apex
  unmount_data s d deferred

unfoldable pub deactivate_package : Services → String → St (Unit {0})
unfolding open_apex unmount_package
deactivate_package s full_path = do
  apex ← λ m. (open_apex full_path m, m)
  unmount_package s apex true false
