-- ===== src/Mount.antt =====
-- `MountPackageImpl` of apexd/apexd.cpp: the resources of the kernel that a mount takes, and what gives
-- them back where it fails. The answers of the kernel, of the checks of images and of the loop devices
-- (apexd/apexd_loop.cpp) are the record `Device`.
pub mod Package
pub mod Held
pub mod Release
use platform_system_apex.Base.{
  ℕ, zero, suc, String, Bool, true, false, not, ◌&&◌, ◌||◌, Option, none, some, List, [], ◌∷◌, ◌==◌,
  if◌then◌else◌, any, eqb,
}
use platform_system_apex.Base.Int.{ℤ}
use platform_system_apex.Base.Steps.{Steps}
use platform_system_apex.Base.Result.{Result, ok, err, fatal}
use platform_system_apex.ApexFile.{ApexFile, name_of}
use platform_system_apex.Database.{MountedApexData}
use platform_system_apex.Repository.{
  ApexFileRepository, get_public_key, is_pre_installed_apex, is_decompressed_apex,
}

-- `ApexVerityData`, as far as it is used
pub record VerityData : Type 0 where
  pub tree_size : ℕ
  pub image_size : ℕ
  pub root_digest : String

-- What is in use in the kernel.
pub record Resources : Type 0 where
  pub mount_dirs : List String
  pub loops : List String
  pub devices : List String  -- dm devices, by name
  pub mounts : List (String × String)  -- a block device, and where it is mounted

pub record Device : Type 0 where
  -- `stat` of a mount point, `mkdir`, `rmdir`, `IsEmptyDirectory`
  pub can_stat : String → Bool
  pub can_mkdir : String → Bool
  pub can_rmdir : String → Bool
  pub is_empty_directory : String → Bool
  -- `loop::CreateLoopDevice`, at the attempt of that number, and `LOOP_CLR_FD`
  pub create_loop_device : ℕ → String → Result String
  pub can_clear_loop : String → Bool
  -- `ApexFile::VerifyApexVerity` and `PrepareHashTree`
  pub verify_apex_verity : ApexFile → String → Result VerityData
  pub prepare_hash_tree : ApexFile → VerityData → String → Result (Unit {0})
  -- the device mapper: `CreateDevice` gives the path of the device
  pub create_dm_device : String → Option String
  pub can_delete_dm : String → Bool
  pub configure_read_ahead : String → Result (Unit {0})
  pub read_verity_device : String → ℕ → Result (Unit {0})
  pub can_delete_dm_deferred : String → Bool
  -- `umount2` fails with `EINVAL` or `ENOENT`
  pub is_not_mounted : String → Bool
  -- `mount` of a device, with its file system and with `MS_NOEXEC` or not; `umount2`
  pub can_mount : String → String → String → Bool → Bool
  pub can_umount : String → Bool
  pub verify_mounted_image : ApexFile → String → Result (Unit {0})

abbrev pub has_name : String → List String → Bool
has_name name names = any (λ n. n == name) names

-- The first of that name goes.
abbrev pub erase_name : String → List String → List String
erase_name name [] = []
erase_name name (n ∷ names) =
    let rest = n ∷ erase_name name names in if n == name then names else rest

-- The local variables whose destructors give something back.
pub record Mounting : Type 0 where
  pub loopback_device : Option String
  pub verity_dev : Option String
  pub loop_for_hash : Option String
  pub res : Resources

-- A step of the function: it returns early, or goes on with a value.
abbrev pub M : Type 0 → Type 0
M A = Steps Mounting A
