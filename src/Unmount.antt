-- ===== src/Unmount.antt =====
-- `UnmountTempMount` of apexd/apexd.cpp, which takes temp mounts out of the database of mounts, and the
-- questions `GetTempMountedApexData` and `IsMounted`.
pub mod Temp
pub mod Stays
use platform_system_apex.Base.{
  ℕ, zero, suc, String, Bool, true, false, not, ◌&&◌, Option, none, some, List, [], ◌∷◌, ◌==◌,
  if◌then◌else◌, length, any,
}
use platform_system_apex.Base.Result.{Result, ok, err}
use platform_system_apex.ApexFile.{ApexFile, name_of, get_active_mount_point}
use platform_system_apex.Database.{
  MountedApexData, Database, PackageMap, mounts_of, all_mounts, remove_mounted_apex,
}

-- The first temp mount that the handler sees is kept.
abbrev pub first_data : PackageMap → Option MountedApexData
first_data [] = none
first_data ((d, l) ∷ rest) = some d

unfoldable pub get_temp_mounted_apex_data : Database → String → Option MountedApexData
unfolding mounts_of
get_temp_mounted_apex_data db name = first_data (mounts_of db name true)

unfoldable pub is_mounted : Database → String → Bool
unfolding all_mounts
is_mounted db full_path =
    any (λ (e : String × MountedApexData × Bool). full_path == e.1.full_path)
      (all_mounts db.mounted_apexes false)

abbrev pub also_unmounted :
    MountedApexData → List MountedApexData × Database → List MountedApexData × Database
also_unmounted d (ds, db) = (d ∷ ds, db)

-- The loop, on fuel: the mounts that `Unmount` is called for, whatever it answers, and the database.
unfoldable pub unmount_loop : ℕ → String → Database → List MountedApexData × Database
unfolding get_temp_mounted_apex_data remove_mounted_apex
unmount_loop zero name db = ([], db)
unmount_loop (suc fuel) name db = elim (get_temp_mounted_apex_data db name) [
  | none ↦ ([], db)
  | some d ↦
      also_unmounted d (unmount_loop fuel name (remove_mounted_apex db name d.full_path true))
]

-- Each round takes one temp mount away.
unfoldable pub unmount_temp_mount : String → Database → List MountedApexData × Database
unfolding unmount_loop mounts_of
unmount_temp_mount name db = unmount_loop (length (mounts_of db name true)) name db
