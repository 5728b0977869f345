-- ===== src/Install.antt =====
-- `InstallPackage` of apexd/apexd.cpp, which updates a package without a reboot, and what it calls: the
-- temp mount that verifies the file, the checks of the manifests, and the choice of a new id. Not
-- modelled: the file with the list of packages (`UpdateApexInfoList`) and the release of blocks, whose
-- failures are only logged.
pub mod Package
pub mod Minor
pub mod Link
pub mod Outcome
use Prim.Native.Nat.{Ordering}
use Prim.Native.String.{compare}
use platform_system_apex.Base.{
  ℕ, zero, suc, ◌+◌, ◌%◌, String, Bool, true, false, not, ◌&&◌, Option, none, some, List, [], ◌∷◌,
  ◌==◌, ◌^^◌, if◌then◌else◌, length, is_empty, any, ltb, eqb, ◌⊎◌,
}
use platform_system_apex.Base.Int.{pos}
use platform_system_apex.Base.Result.{Result, ok, err, fatal}
use platform_system_apex.Base.Steps.{Steps, ◌>>=◌, ◌>>◌, lift, require, next}
use platform_system_apex.ApexFile.{
  ApexManifest, ApexFile, name_of, to_string, get_package_id, get_package_temp_mount_point,
}
use platform_system_apex.Database.{
  MountedApexData, Database, add_mounted_apex, remove_mounted_apex, get_latest_mounted_apex,
  is_less,
}
use platform_system_apex.Repository.{get_public_key, is_pre_installed_apex}
use platform_system_apex.Mount.{Resources, VerityData}
use platform_system_apex.Mount.Package.{mount_package_impl}
use platform_system_apex.Machine.{
  Machine, Services, St, open_apex, find_file, erase_file, get_hash_tree_file_name, unmount,
  with_database,
}
use platform_system_apex.Activate.{activate_package_impl, unmount_package, unmount_data}

-- `unlink`, whose failure is only logged
abbrev pub try_unlink : Services → String → Machine → Machine
try_unlink s path m = if s.can_unlink path then record m { files = erase_file path m.files } else m

abbrev keep_data : MountedApexData → Result (Unit {0}) × Machine → Result MountedApexData × Machine
keep_data d (ok u, m) = (ok d, m)
keep_data d (err e, m) = (err e, m)
keep_data d (fatal e, m) = (fatal e, m)

abbrev pub temp_mounted :
    Services
    → ApexFile
    → String
    → Machine
    → Result MountedApexData × Resources
    → Result MountedApexData × Machine
temp_mounted s apex hashtree m (ok d, k) = keep_data d (
    with_database (record m { resources = k }) (add_mounted_apex m.database (name_of apex) false d))
temp_mounted s apex hashtree m (err e, k) =
    (err e, try_unlink s hashtree (record m { resources = k }))
temp_mounted s apex hashtree m (fatal e, k) = (fatal e, record m { resources = k })

-- A hash tree that was left over is deleted first.
abbrev pub clear_hashtree : Services → String → Option (String ⊎ ApexFile) → St (Unit {0})
clear_hashtree s hashtree none m = (ok tt, m)
clear_hashtree s hashtree (some c) m =
    if s.can_unlink hashtree
    then (ok tt, record m { files = erase_file hashtree m.files })
    else (err "Failed to unlink", m)

unfoldable pub verify_and_temp_mount_package : Services → ApexFile → String → St MountedApexData
unfolding mount_package_impl get_hash_tree_file_name
verify_and_temp_mount_package s apex mount_point =
    let hashtree : String = get_hash_tree_file_name s apex true in
    (λ m. clear_hashtree s hashtree (find_file hashtree m.files) m) >> λ m.
    temp_mounted s apex hashtree m (
      mount_package_impl s.device s.repo apex mount_point (get_package_id apex.manifest ^^ ".tmp")
        hashtree true true m.resources)

abbrev forget_result : Result (Unit {0}) × Machine → Machine
forget_result r = r.1

-- The scope guard: `Unmount`, whose failure is only logged, and the entry of the database goes.
abbrev pub clean_temp_mount : Services → ApexFile → MountedApexData → Machine → Machine
clean_temp_mount s apex d m =
    let m' : Machine = forget_result (unmount_data s d false m) in
    record m' { database = remove_mounted_apex m'.database (name_of apex) apex.apex_path true }

abbrev pub verified_inside :
    Services → ApexFile → MountedApexData → Bool → Result (Unit {0}) → St (Unit {0})
verified_inside s apex d true r m = (r, clean_temp_mount s apex d m)
verified_inside s apex d false (ok u) m = (ok u, m)
verified_inside s apex d false (err e) m = (err e, clean_temp_mount s apex d m)
verified_inside s apex d false (fatal e) m = (fatal e, m)

unfoldable pub run_verify_fn_inside_temp_mount :
    Services → ApexFile → (String → Result (Unit {0})) → Bool → St (Unit {0})
unfolding verify_and_temp_mount_package remove_mounted_apex unmount get_package_temp_mount_point
run_verify_fn_inside_temp_mount s apex verify_fn unmount_during_cleanup = do
  d ← verify_and_temp_mount_package s apex (get_package_temp_mount_point apex.manifest)
  verified_inside s apex d unmount_during_cleanup
      (verify_fn (get_package_temp_mount_point apex.manifest))

abbrev contains : String → List String → Bool
contains x names = any (λ n. n == x) names

-- `check_fn`: no apps inside
abbrev pub check_dirs : String → Result (List String) → Result (Unit {0})
check_dirs mount_point (ok dirs) =
    if contains (mount_point ^^ "/app") dirs
    then err "contains app inside"
    else if contains (mount_point ^^ "/priv-app") dirs
    then err "contains priv-app inside"
    else ok tt
check_dirs mount_point (err e) = err e
check_dirs mount_point (fatal e) = fatal e

unfoldable pub verify_package_non_staged_install : Services → ApexFile → St (Unit {0})
unfolding run_verify_fn_inside_temp_mount
verify_package_non_staged_install s apex = do
  lift (s.verify_package_boot apex)
  run_verify_fn_inside_temp_mount s apex
      (λ mount_point. check_dirs mount_point (s.get_subdirs mount_point)) true

-- `std::sort` of texts, by insertion
abbrev pub insert_sorted : String → List String → List String
insert_sorted x [] = x ∷ []
insert_sorted x (y ∷ ys) =
    let rest = y ∷ insert_sorted x ys in if is_less (compare y x) then rest else x ∷ y ∷ ys

unfoldable pub sort : List String → List String
sort [] = []
sort (x ∷ xs) = insert_sorted x (sort xs)

-- `==` on lists of texts
abbrev pub same_texts : List String → List String → Bool
same_texts [] [] = true
same_texts (x ∷ xs) (y ∷ ys) = let rest = same_texts xs ys in x == y && rest
same_texts _ _ = false

abbrev when : Bool → String → Result (Unit {0})
when true e = err e
when false e = ok tt
