-- ===== src/Machine.antt =====
-- The state that activation and installation in apexd/apexd.cpp change: the kernel's resources, the
-- database of mounts, the files and the bind mounts; and the mounting and unmounting of one package.
use platform_system_apex.Base.{
  ℕ, String, Bool, true, false, not, ◌&&◌, Option, none, some, List, [], ◌∷◌, ◌==◌, ◌^^◌,
  if◌then◌else◌, ◌⊎◌, inl, inr,
}
use platform_system_apex.Base.Result.{Result, ok, err, fatal}
use platform_system_apex.Base.Steps.{Steps, ◌>>◌, lift}
use platform_system_apex.ApexFile.{ApexFile, name_of, get_package_id}
use platform_system_apex.Database.{MountedApexData, Database, add_mounted_apex, set_latest}
use platform_system_apex.Repository.{ApexFileRepository}
use platform_system_apex.Mount.{Device, Resources}
use platform_system_apex.Mount.Package.{mount_package_impl, drop_dir, drop_loop, drop_device}

pub record Machine : Type 0 where
  pub resources : Resources
  pub database : Database
  -- every file, by its path, with what `ApexFile::Open` finds in it
  pub files : List (String × (String ⊎ ApexFile))
  -- the bind mounts, newest first: the target and the source
  pub bound : List (String × String)

pub record Services : Type 0 where
  pub device : Device
  pub repo : ApexFileRepository
  -- `gConfig`
  pub active_apex_data_dir : String
  pub apex_hash_tree_dir : String
  -- `link` and `unlink` are allowed
  pub can_link : String → String → Bool
  pub can_unlink : String → Bool
  -- `BindMount` of apexd/apexd_private.cpp
  pub bind_mount : String → String → Result (Unit {0})
  pub activate_shared_libs_package : String → Result (Unit {0})
  pub is_shim_apex : ApexFile → Bool
  pub verify_package_boot : ApexFile → Result (Unit {0})
  -- `GetSubdirs` of a mount point
  pub get_subdirs : String → Result (List String)

-- android-base, and what `find_last_of` and `substr` give: the text behind the last character of a code
pub record Texts : Type 0 where
  pub consume_prefix : String → String → Option String
  pub after_last : ℕ → String → Option String
  pub parse_uint : String → Option ℕ
  -- `DeviceMapper::GetAvailableDevices`
  pub can_list_devices : Bool

abbrev pub St : Type 0 → Type 0
St A = Steps Machine A

abbrev pub find_file : String → List (String × (String ⊎ ApexFile)) → Option (String ⊎ ApexFile)
find_file path [] = none
find_file path ((p, c) ∷ files) =
    let rest = find_file path files in if p == path then some c else rest

abbrev pub erase_file :
    String → List (String × (String ⊎ ApexFile)) → List (String × (String ⊎ ApexFile))
erase_file path [] = []
erase_file path ((p, c) ∷ files) =
    let rest = erase_file path files in if p == path then rest else (p, c) ∷ rest

-- `ApexFile::Open`: the file knows the path it was opened by.
abbrev pub opened_as : String → Option (String ⊎ ApexFile) → Result ApexFile
opened_as path none = err "Failed to open package"
opened_as path (some (inl e)) = err e
opened_as path (some (inr apex)) = ok (record apex { apex_path = path })

unfoldable pub open_apex : String → Machine → Result ApexFile
open_apex path m = opened_as path (find_file path m.files)

abbrev pub with_database : Machine → Result Database → Result (Unit {0}) × Machine
with_database m (ok db) = (ok tt, record m { database = db })
with_database m (err e) = (err e, m)
with_database m (fatal e) = (fatal e, m)

abbrev pub set_latest_at : String → String → St (Unit {0})
set_latest_at name path m = with_database m (set_latest m.database name path)

abbrev pub add_mount :
    String → Machine → Result MountedApexData × Resources → Result (Unit {0}) × Machine
add_mount name m (ok d, k) =
    with_database (record m { resources = k }) (add_mounted_apex m.database name false d)
add_mount name m (err e, k) = (err e, record m { resources = k })
add_mount name m (fatal e, k) = (fatal e, record m { resources = k })

-- `GetHashTreeFileName`
unfoldable pub get_hash_tree_file_name : Services → ApexFile → Bool → String
get_hash_tree_file_name s apex is_new =
    let file : String = s.apex_hash_tree_dir ^^ "/" ^^ get_package_id apex.manifest in
    if is_new then file ^^ ".new" else file

unfoldable pub mount_package : Services → ApexFile → String → String → St (Unit {0})
unfolding mount_package_impl add_mounted_apex get_hash_tree_file_name
mount_package s apex mount_point device_name m = add_mount (name_of apex) m (
    mount_package_impl s.device s.repo apex mount_point device_name
      (get_hash_tree_file_name s apex false) false false m.resources)

abbrev pub erase_mount : String → List (String × String) → List (String × String)
erase_mount mount_point [] = []
erase_mount mount_point ((b, p) ∷ mounts) =
    let rest = (b, p) ∷ erase_mount mount_point mounts in if p == mount_point then mounts else rest

-- The parts of `Unmount`: the mount, the mount point, the dm device, and the loop devices.
abbrev umount_at : Device → String → Resources → Resources
umount_at dev mount_point k =
    if dev.can_umount mount_point then record k { mounts = erase_mount mount_point k.mounts } else k

abbrev named : String → Option String
named name = if name == "" then none else some name

-- `DeleteVerityDevice`: a deferred delete takes the device away only when nothing uses it any more.
unfoldable pub delete_verity_device :
    Device → String → Bool → Resources → Result (Unit {0}) × Resources
delete_verity_device dev name deferred k =
    if deferred
    then (
      if dev.can_delete_dm_deferred name then ok tt else err "Failed to issue deferred delete",
      k,
    )
    else if dev.can_delete_dm name
    then (ok tt, drop_device name k)
    else (err "Failed to delete dm-device", k)

abbrev destroy_loops : Device → MountedApexData → Bool → Steps Resources (Unit {0})
destroy_loops dev d true k = (ok tt, k)
destroy_loops dev d false k =
    (ok tt, drop_loop dev (named d.hashtree_loop_name) (drop_loop dev (named d.loop_name) k))

unfoldable pub unmount : Device → MountedApexData → Bool → Steps Resources (Unit {0})
unfolding delete_verity_device
unmount dev d deferred k =
    let k' : Resources = umount_at dev d.mount_point k in
    let k'' : Resources = if deferred then k' else drop_dir dev d.mount_point k' in
    let delete : Steps Resources (Unit {0}) =
      if d.device_name == ""
      then lift (ok tt)
      else delete_verity_device dev d.device_name deferred in
    if not (dev.can_umount d.mount_point) && not (dev.is_not_mounted d.mount_point)
    then (err "Failed to unmount directory", k)
    else (delete >> destroy_loops dev d deferred) k''
