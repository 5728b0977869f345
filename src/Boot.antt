-- ===== src/Boot.antt =====
-- Lists of packages in apexd/apexd.cpp: which ones are active, their activation one after the other, as
-- one worker does it, the pre-installed files that stand in for those that fail, and remounting.
pub mod Fallback
use platform_system_apex.Base.{
  ℕ, zero, suc, String, Bool, true, false, not, ◌&&◌, ◌||◌, Option, none, some, List, [], ◌∷◌, ◌++◌,
  ◌==◌, ◌^^◌, if◌then◌else◌, any, keep, length, is_empty, ◌⊎◌, inl, inr,
}
use platform_system_apex.Base.Result.{Result, ok, err, fatal}
use platform_system_apex.Base.Steps.{Steps, ◌>>=◌, ◌>>◌, lift, require, next}
use platform_system_apex.ApexFile.{ApexFile, name_of, get_package_id}
use platform_system_apex.Files.{Files, find_files_by_suffix}
use platform_system_apex.Database.{MountedApexData, Database, all_mounts}
use platform_system_apex.Repository.{
  ApexFileRepository, is_pre_installed_apex, is_decompressed_apex, get_pre_installed_apex,
}
use platform_system_apex.Machine.{Machine, Services, St, open_apex}
use platform_system_apex.Activate.{activate_package_impl, activate_package, deactivate_package}
use platform_system_apex.Decompress.{Decompressor, process_all_compressed}

-- Those of a list that open.
abbrev add_opened : Result ApexFile → List ApexFile → List ApexFile
add_opened (ok apex) apexes = apex ∷ apexes
add_opened _ apexes = apexes

-- The handler of `GetActivePackages`, over the mounts of all packages.
abbrev open_latest : Machine → List (String × MountedApexData × Bool) → List ApexFile
open_latest m [] = []
open_latest m ((name, d, l) ∷ mounts) =
    let rest = open_latest m mounts in if l then add_opened (open_apex d.full_path m) rest else rest

unfoldable pub get_active_packages : Machine → List ApexFile
unfolding all_mounts open_apex
get_active_packages m = open_latest m (all_mounts m.database.mounted_apexes false)

abbrev pub has_name : String → List ApexFile → Bool
has_name name apexes = any (λ a. name_of a == name) apexes

unfoldable pub get_active_package : Machine → String → Result ApexFile
unfolding get_active_packages
get_active_package m name = elim (keep (λ a. name_of a == name) (get_active_packages m)) [
  | [] ↦ err "Cannot find matching package"
  | a ∷ rest ↦ ok a
]

-- `CalculateInactivePackages`, given what `GetFactoryPackages` returns
unfoldable pub calculate_inactive_packages : List ApexFile → List ApexFile → List ApexFile
calculate_inactive_packages factory active =
    keep (λ apex. not (any (λ a. apex.apex_path == a.apex_path) active)) factory

-- The loop of one worker: each package, whatever came of those before.
abbrev pub device_name_of : Bool → ApexFile → String
device_name_of is_ota_chroot apex =
    if is_ota_chroot
    then get_package_id apex.manifest ^^ ".chroot"
    else get_package_id apex.manifest

abbrev pub count_failure : Result (Unit {0}) × Machine → St ℕ → Result ℕ × Machine
count_failure (ok u, m) rest = rest m
count_failure (err e, m) rest = next (λ n. lift (ok (suc n))) (rest m)
count_failure (fatal e, m) rest = (fatal e, m)

-- How many of the packages fail.
unfoldable pub activate_apex_worker : Services → Bool → List ApexFile → St ℕ
unfolding activate_package_impl get_package_id
activate_apex_worker s is_ota_chroot [] m = (ok 0, m)
activate_apex_worker s is_ota_chroot (apex ∷ apexes) m =
    count_failure (activate_package_impl s apex (device_name_of is_ota_chroot apex) m)
      (activate_apex_worker s is_ota_chroot apexes)

abbrev unless_failed : ℕ → Result (Unit {0})
unless_failed zero = ok tt
unless_failed (suc n) = err "Failed to activate APEX packages"

unfoldable pub activate_apex_packages : Services → List ApexFile → Bool → St (Unit {0})
unfolding activate_apex_worker
activate_apex_packages s apexes is_ota_chroot =
    activate_apex_worker s is_ota_chroot apexes >>= λ failed. lift (unless_failed failed)

-- The tests of the loop of `ActivateMissingApexes`.
abbrev pub needs_fallback : ApexFileRepository → List ApexFile → ApexFile → Bool
needs_fallback repo active apex =
    not apex.manifest.provide_shared_apex_libs
    && not (is_pre_installed_apex repo apex)
    && not (has_name (name_of apex) active)

abbrev cons_result : Result ApexFile → Result (List ApexFile) → Result (List ApexFile)
cons_result (ok a) (ok as') = ok (a ∷ as')
cons_result (ok a) (err e) = err e
cons_result (ok a) (fatal e) = fatal e
cons_result (err e) rest = err e
cons_result (fatal e) rest = fatal e

unfoldable pub fallback_apexes :
    ApexFileRepository → List ApexFile → List ApexFile → Result (List ApexFile)
fallback_apexes repo active [] = ok []
fallback_apexes repo active (apex ∷ apexes) =
    let rest = fallback_apexes repo active apexes in
    if needs_fallback repo active apex
    then cons_result (get_pre_installed_apex repo (name_of apex)) rest
    else rest

-- The files that are not compressed, and then those that the others decompress to.
unfoldable pub decompress_list : Decompressor → List ApexFile → Bool → St (List ApexFile)
unfolding process_all_compressed
decompress_list d apexes is_ota_chroot m =
    let done : List ApexFile × List (String × (String ⊎ ApexFile)) =
      process_all_compressed d (keep (λ a. a.is_compressed) apexes) is_ota_chroot m.files in
    (ok (keep (λ a. not a.is_compressed) apexes ++ done.0), record m { files = done.1 })

unfoldable pub activate_missing_apexes :
    Services → Decompressor → List ApexFile → Bool → St (Unit {0})
unfolding get_active_packages fallback_apexes decompress_list activate_apex_packages
activate_missing_apexes s d apexes is_ota_chroot = do
  fallback ← λ m. (fallback_apexes s.repo (get_active_packages m) apexes, m)
  ready ← decompress_list d fallback false
  activate_apex_packages s ready is_ota_chroot

-- `RemountApexFile`
unfoldable pub remount_apex_file : Services → String → St (Unit {0})
unfolding deactivate_package activate_package
remount_apex_file s path = deactivate_package s path >> activate_package s path

abbrev latest_paths : List (String × MountedApexData × Bool) → List String
latest_paths [] = []
latest_paths ((name, d, l) ∷ mounts) =
    let rest = latest_paths mounts in if l then d.full_path ∷ rest else rest

unfoldable pub remount_each : Services → List String → St ℕ
unfolding remount_apex_file
remount_each s [] m = (ok 0, m)
remount_each s (path ∷ paths) m = count_failure (remount_apex_file s path m) (remount_each s paths)

abbrev unless_any_failed : ℕ → Result (Unit {0})
unless_any_failed zero = ok tt
unless_any_failed (suc n) = err "Failed to remount following APEX packages"

unfoldable pub remount_packages : Services → St (Unit {0})
unfolding remount_each all_mounts
remount_packages s m =
    next (λ failed. lift (unless_any_failed failed))
      (remount_each s (latest_paths (all_mounts m.database.mounted_apexes false)) m)
