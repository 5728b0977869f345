-- ===== src/Mount/Package.antt =====
-- The steps of `MountPackageImpl` of apexd/apexd.cpp, in their order.
use platform_system_apex.Base.{
  ℕ, zero, suc, String, Bool, true, false, not, ◌||◌, Option, none, some, ◌∷◌, if◌then◌else◌, eqb,
}
use platform_system_apex.Base.Int.{ℤ}
use platform_system_apex.Base.Result.{Result, ok, err, fatal}
use platform_system_apex.ApexFile.{ApexFile, name_of}
use platform_system_apex.Database.{MountedApexData}
use platform_system_apex.Repository.{
  ApexFileRepository, get_public_key, is_pre_installed_apex, is_decompressed_apex,
}
use platform_system_apex.Base.Steps.{◌>>◌, lift, require, ◌>>=◌}
use platform_system_apex.Mount.{VerityData, Resources, Device, has_name, erase_name, Mounting, M}

-- The loop over the attempts, of which there are `left`.
unfoldable pub try_loop : Device → String → ℕ → ℕ → Result String
try_loop dev path zero attempt = err "Could not create loop device"
try_loop dev path (suc left) attempt = elim (dev.create_loop_device attempt path) [
  | ok name ↦ ok name
  | err e ↦ try_loop dev path left (suc attempt)
  | fatal e ↦ fatal e
]

abbrev pub take_loop : String → Resources → Resources
take_loop name k = record k { loops = name ∷ k.loops }

abbrev pub hold_loop : String → M (Unit {0})
hold_loop name s = (ok tt, record s { loopback_device = some name; res = take_loop name s.res })

abbrev pub hold_hash : String → M (Unit {0})
hold_hash name s = (ok tt, record s { loop_for_hash = some name; res = take_loop name s.res })

abbrev pub drop_device : String → Resources → Resources
drop_device name k = record k { devices = erase_name name k.devices }

abbrev pub hold_device : String → Mounting → Option String → Result String × Mounting
hold_device name s none = (err "Couldn't create verity device.", s)
hold_device name s (some path) = (
  ok path,
  record s { verity_dev = some name; res = record s.res { devices = name ∷ s.res.devices } },
)

abbrev pub create_dm : Device → String → M String
create_dm dev name s = hold_device name s (dev.create_dm_device name)

-- `CreateVerityDevice`: a device of that name that was left over is deleted first.
unfoldable pub create_verity_device : Device → String → M String
create_verity_device dev name s =
    if has_name name s.res.devices
    then (if dev.can_delete_dm name
        then create_dm dev name (record s { res = drop_device name s.res })
        else (err "Failed to delete dm-device", s))
    else create_dm dev name s

abbrev pub mount_on_verity : ApexFileRepository → ApexFile → Bool
mount_on_verity repo apex = not (is_pre_installed_apex repo apex) || is_decompressed_apex repo apex

-- The hash device of the table: the image itself, or a loop device of its own.
unfoldable pub prepare_hash_device :
    Device → ApexFile → VerityData → String → MountedApexData → M MountedApexData
prepare_hash_device dev apex verity hashtree_file d =
    if eqb verity.tree_size 0
    then (do
      lift (dev.prepare_hash_tree apex verity hashtree_file)
      hash ← lift (dev.create_loop_device 1 hashtree_file)
      hold_hash hash
      lift (ok (record d { hashtree_loop_name = hash })))
    else lift (ok d)

-- The part for `mount_on_verity`: the block device to mount, and the data so far.
unfoldable pub put_on_verity :
    Device
    → ApexFile
    → VerityData
    → String
    → String
    → Bool
    → MountedApexData
    → M (String × MountedApexData)
unfolding create_verity_device prepare_hash_device
put_on_verity dev apex verity device_name hashtree_file verify_image d = do
  d' ← prepare_hash_device dev apex verity hashtree_file d
  path ← create_verity_device dev device_name
  lift (dev.configure_read_ahead path)
  lift (if verify_image then dev.read_verity_device path verity.image_size else ok tt)
  lift (ok (path, record d' { device_name = device_name }))

abbrev pub has_image : Option ℤ → Option ℕ → Bool
has_image (some offset) (some size) = true
has_image _ _ = false

abbrev pub or_no_fs_type : Option String → Result String
or_no_fs_type none = err "Cannot mount package without FsType"
or_no_fs_type (some t) = ok t

-- The mount, the check of what was mounted, and `umount2` where that fails.
abbrev pub after_check :
    Device → String → Resources → Result (Unit {0}) → Mounting → Result (Unit {0}) × Mounting
after_check dev mount_point before (ok u) s = (ok u, s)
after_check dev mount_point before (err e) s =
    (err e, if dev.can_umount mount_point then record s { res = before } else s)
after_check dev mount_point before (fatal e) s = (fatal e, s)

unfoldable pub mount_and_check : Device → ApexFile → String → String → String → M (Unit {0})
mount_and_check dev apex block_device mount_point fs_type s =
    if dev.can_mount block_device mount_point fs_type apex.manifest.no_code
    then after_check dev mount_point s.res (dev.verify_mounted_image apex mount_point)
        (record s { res = record s.res { mounts = (block_device, mount_point) ∷ s.res.mounts } })
    else (err "Mounting failed for package", s)

abbrev pub first_data : String → String → String → Bool → MountedApexData
first_data loop full_path mount_point temp_mount = record {
  loop_name = loop;
  full_path = full_path;
  mount_point = mount_point;
  device_name = "";
  hashtree_loop_name = "";
  deleted = false;
  is_temp_mount = temp_mount;
}

-- What is prepared before the mount: the block device, and the data of the mount.
unfoldable pub prepare_device :
    Device
    → ApexFileRepository
    → ApexFile
    → String
    → String
    → String
    → Bool
    → Bool
    → M (String × MountedApexData)
unfolding try_loop put_on_verity
prepare_device dev repo apex mount_point device_name hashtree_file verify_image temp_mount = do
  require (dev.is_empty_directory mount_point) "is not empty"
  require (has_image apex.image_offset apex.image_size) "without image offset and size"
  loop ← lift (try_loop dev apex.apex_path 3 1)
  hold_loop loop
  key ← lift (get_public_key repo (name_of apex))
  verity ← lift (dev.verify_apex_verity apex key)
  if mount_on_verity repo apex
      then put_on_verity dev apex verity device_name hashtree_file verify_image
          (first_data loop apex.apex_path mount_point temp_mount)
      else lift (ok (loop, first_data loop apex.apex_path mount_point temp_mount))

unfoldable pub mount_body :
    Device
    → ApexFileRepository
    → ApexFile
    → String
    → String
    → String
    → Bool
    → Bool
    → M MountedApexData
unfolding prepare_device mount_and_check
mount_body dev repo apex mount_point device_name hashtree_file verify_image temp_mount = do
  (block_device, d) ←
      prepare_device dev repo apex mount_point device_name hashtree_file verify_image temp_mount
  fs_type ← lift (or_no_fs_type apex.fs_type)
  mount_and_check dev apex block_device mount_point fs_type
  lift (ok d)

-- The destructors, in their order: the hash loop, the dm device, the loop, and the scope guard.
abbrev pub drop_loop : Device → Option String → Resources → Resources
drop_loop dev none k = k
drop_loop dev (some name) k =
    if dev.can_clear_loop name then record k { loops = erase_name name k.loops } else k

abbrev pub drop_verity : Device → Option String → Resources → Resources
drop_verity dev none k = k
drop_verity dev (some name) k = if dev.can_delete_dm name then drop_device name k else k

abbrev pub drop_dir : Device → String → Resources → Resources
drop_dir dev mount_point k =
    if dev.can_rmdir mount_point
    then record k { mount_dirs = erase_name mount_point k.mount_dirs }
    else k

-- A mount that is accepted releases nothing.
abbrev pub leave :
    Device → String → Result MountedApexData × Mounting → Result MountedApexData × Resources
leave dev mount_point (ok d, s) = (ok d, s.res)
leave dev mount_point (err e, s) = (
  err e,
  drop_dir dev mount_point (
      drop_loop dev s.loopback_device
        (drop_verity dev s.verity_dev (drop_loop dev s.loop_for_hash s.res))),
)
leave dev mount_point (fatal e, s) = (fatal e, s.res)

abbrev pub start : Resources → Mounting
start k = record { loopback_device = none; verity_dev = none; loop_for_hash = none; res = k }

-- The tests at the start, of the file and of the mount point.
abbrev pub at_mount_point :
    (compressed can_stat exists can_mkdir : Bool)
    → String
    → (Resources → Result MountedApexData × Resources)
    → Resources
    → Result MountedApexData × Resources
at_mount_point compressed can_stat exists can_mkdir mount_point run k =
    if compressed
    then (err "Cannot directly mount compressed APEX", k)
    else if not can_stat
    then (err "Failed to access", k)
    else if exists
    then run k
    else if can_mkdir
    then run (record k { mount_dirs = mount_point ∷ k.mount_dirs })
    else (err "Could not create mount point", k)

unfoldable pub mount_package_impl :
    Device
    → ApexFileRepository
    → ApexFile
    → String
    → String
    → String
    → Bool
    → Bool
    → Resources
    → Result MountedApexData × Resources
unfolding mount_body
mount_package_impl dev repo apex mount_point device_name hashtree_file verify_image temp_mount k =
    at_mount_point apex.is_compressed (dev.can_stat mount_point) (has_name mount_point k.mount_dirs)
      (dev.can_mkdir mount_point) mount_point
      (λ k'. leave dev mount_point (
        mount_body dev repo apex mount_point device_name hashtree_file verify_image temp_mount
          (start k')))
      k
