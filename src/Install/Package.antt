-- ===== src/Install/Package.antt =====
-- `CheckSupportsNonStagedInstall`, `ComputePackageIdMinor` and `InstallPackage` of apexd/apexd.cpp.
use platform_system_apex.Base.{
  ℕ, zero, suc, ◌+◌, ◌%◌, String, Bool, true, false, not, ◌&&◌, Option, none, some, List, [], ◌∷◌,
  ◌^^◌, if◌then◌else◌, length, is_empty, ltb, eqb, ◌⊎◌,
}
use platform_system_apex.Base.Int.{pos}
use platform_system_apex.Base.Result.{Result, ok, err, fatal}
use platform_system_apex.Base.Steps.{◌>>=◌, ◌>>◌, lift}
use platform_system_apex.ApexFile.{ApexManifest, ApexFile, name_of, to_string, get_package_id}
use platform_system_apex.Database.{MountedApexData, get_latest_mounted_apex}
use platform_system_apex.Repository.{get_public_key, is_pre_installed_apex}
use platform_system_apex.Mount.{VerityData}
use platform_system_apex.Machine.{Machine, Services, Texts, St, open_apex, find_file}
use platform_system_apex.Activate.{activate_package_impl, unmount_package}
use platform_system_apex.Install.{try_unlink, verify_package_non_staged_install, sort, same_texts}

-- The conditions on the two manifests, in their order.
unfoldable pub check_manifests : ApexManifest → ApexManifest → Result (Unit {0})
unfolding sort
check_manifests cur new =
    if not new.supports_rebootless_update
    then err "does not support non-staged update"
    else if new.provide_shared_apex_libs
    then err "is a shared libs APEX"
    else if not (is_empty new.provide_native_libs)
    then err "provides native libs"
    else if not (is_empty new.require_shared_apex_libs)
    then err "requires shared apex libs"
    else if not (is_empty new.jni_libs)
    then err "requires JNI libs"
    else if not (same_texts (sort cur.require_native_libs) (sort new.require_native_libs))
    then err "Set of native libs differs from the one required by the currently active"
    else ok tt

abbrev pub check_tree : Result VerityData → Result (Unit {0})
check_tree (ok verity) =
    if eqb verity.tree_size 0 then err "does not have an embedded hash tree" else ok tt
check_tree (err e) = err e
check_tree (fatal e) = fatal e

unfoldable pub check_supports_non_staged_install : Services → ApexFile → ApexFile → St (Unit {0})
unfolding check_manifests
check_supports_non_staged_install s cur new = do
  lift (check_manifests cur.manifest new.manifest)
  key ← lift (get_public_key s.repo (name_of new))
  lift (check_tree (s.device.verify_apex_verity new key))

-- The loop over the dm devices: how many belong to the package, and the next minor number.
pub record Minors : Type 0 where
  pub devices : ℕ
  pub next_minor : ℕ

abbrev pub size_t : ℕ → ℕ
size_t n = n % 18446744073709551616

abbrev raise_minor : Minors → ℕ → Minors
raise_minor acc minor =
    if ltb acc.next_minor (size_t (minor + 1))
    then record acc { next_minor = size_t (minor + 1) }
    else acc

-- The rest of the name, behind the name of the package and then behind the last '_'.
abbrev with_minor : Minors → Option ℕ → Result Minors
with_minor acc none = err "Unexpected dm device name"
with_minor acc (some minor) = ok (raise_minor acc minor)

abbrev count_rest : Texts → Minors → Option String → Result Minors
count_rest texts acc none = ok acc
count_rest texts acc (some minor) = with_minor acc (texts.parse_uint minor)

abbrev count_device : Texts → Minors → Option String → Result Minors
count_device texts acc none = ok acc
count_device texts acc (some rest) =
    count_rest texts (record acc { devices = suc acc.devices }) (texts.after_last 95 rest)

abbrev then_count : (Minors → Result Minors) → Result Minors → Result Minors
then_count f (ok acc) = f acc
then_count f (err e) = err e
then_count f (fatal e) = fatal e

unfoldable pub count_devices : Texts → String → List String → Minors → Result Minors
count_devices texts name [] acc = ok acc
count_devices texts name (d ∷ ds) acc =
    then_count (count_devices texts name ds) (count_device texts acc (texts.consume_prefix d name))

abbrev pub minor_id : ApexFile → ℕ → String
minor_id apex minor = get_package_id apex.manifest ^^ "_" ^^ to_string (pos minor)

abbrev pub target_file : Services → ApexFile → ℕ → String
target_file s apex minor = s.active_apex_data_dir ^^ "/" ^^ minor_id apex minor ^^ ".apex"

abbrev pub exists : Option (String ⊎ ApexFile) → Bool
exists none = false
exists (some c) = true

-- The `while` loop, on fuel: the first number whose file does not exist.
unfoldable pub free_minor : Services → ApexFile → Machine → ℕ → ℕ → ℕ
free_minor s apex m zero minor = minor
free_minor s apex m (suc fuel) minor =
    let rest = free_minor s apex m fuel (size_t (minor + 1)) in
    if exists (find_file (target_file s apex minor) m.files) then rest else minor

abbrev max_verity_devices_per_apex_name : ℕ
max_verity_devices_per_apex_name = 3

-- Each round but the last meets another file, so one round more than there are files is enough.
abbrev checked_minor : Services → ApexFile → Machine → Result Minors → Result ℕ
checked_minor s apex m (ok acc) =
    if ltb max_verity_devices_per_apex_name acc.devices
    then err "There are too many dm block devices associated with package"
    else ok (free_minor s apex m (suc (length m.files)) acc.next_minor)
checked_minor s apex m (err e) = err e
checked_minor s apex m (fatal e) = fatal e

unfoldable pub compute_package_id_minor : Services → Texts → ApexFile → Machine → Result ℕ
unfolding count_devices free_minor
compute_package_id_minor s texts apex m =
    if texts.can_list_devices
    then checked_minor s apex m (
        count_devices texts (name_of apex) m.resources.devices
          (record { devices = 0; next_minor = 1 }))
    else err "Failed to list dm devices"

abbrev pub linked : Services → String → String → Option (String ⊎ ApexFile) → Bool → St (Unit {0})
linked s from to none taken m = (err "Failed to link", m)
linked s from to (some c) taken m =
    if s.can_link from to && not taken
    then (ok tt, record m { files = (to, c) ∷ m.files })
    else (err "Failed to link", m)

abbrev pub link_file : Services → String → String → St (Unit {0})
link_file s from to m = linked s from to (find_file from m.files) (exists (find_file to m.files)) m

-- The scope guard of the steps after the unmount: the new file goes, and the old one is mounted again,
-- under an id of its own.
unfoldable pub undo_install : Services → ApexFile → ApexFile → ℕ → String → St (Unit {0})
undo_install s temp cur minor target m =
    activate_package_impl s cur (minor_id temp (size_t (minor + 1))) (try_unlink s target m)

-- A failure of the guard is only logged.
abbrev pub undone : String → Result (Unit {0}) × Machine → Result ApexFile × Machine
undone e (ok u, m) = (err e, m)
undone e (err e', m) = (err e, m)
undone e (fatal e', m) = (fatal e', m)

abbrev pub guarded : St (Unit {0}) → Result ApexFile × Machine → Result ApexFile × Machine
guarded undo (ok apex, m) = (ok apex, m)
guarded undo (err e, m) = undone e (undo m)
guarded undo (fatal e, m) = (fatal e, m)

unfoldable pub link_and_activate : Services → String → ApexFile → ℕ → String → St ApexFile
link_and_activate s package_path temp minor target = do
  link_file s package_path target
  new_apex ← λ m. (open_apex target m, m)
  activate_package_impl s new_apex (minor_id temp minor)
  lift (ok new_apex)

-- The old file is unlinked if it is not a pre-installed one.
abbrev pub drop_old : Services → ApexFile → String → ApexFile → St ApexFile
drop_old s cur old new_apex m =
    (ok new_apex, if is_pre_installed_apex s.repo cur then m else try_unlink s old m)

-- The part of `InstallPackage` behind the checks.
unfoldable pub install_checked : Services → String → ApexFile → ApexFile → String → ℕ → St ApexFile
install_checked s package_path temp cur old minor =
    let target : String = target_file s temp minor in
    do
      unmount_package s cur true true
      new_apex ← λ m.
          guarded (undo_install s temp cur minor target)
            (link_and_activate s package_path temp minor target m)
      drop_old s cur old new_apex

abbrev or_no_active : Option MountedApexData → Result MountedApexData
or_no_active none = err "No active version found for package"
or_no_active (some d) = ok d

unfoldable pub install_package : Services → Texts → String → St ApexFile
unfolding open_apex get_latest_mounted_apex check_supports_non_staged_install
    verify_package_non_staged_install compute_package_id_minor install_checked
install_package s texts package_path = do
  temp ← λ m. (open_apex package_path m, m)
  data_now ← λ m. (or_no_active (get_latest_mounted_apex m.database (name_of temp)), m)
  cur ← λ m. (open_apex data_now.full_path m, m)
  check_supports_non_staged_install s cur temp
  verify_package_non_staged_install s temp
  minor ← λ m. (compute_package_id_minor s texts temp m, m)
  install_checked s package_path temp cur data_now.full_path minor
