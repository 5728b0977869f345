-- ===== src/Cleanup.antt =====
-- What removes files and mounts in apexd/apexd.cpp: `RemoveInactiveDataApex`, `UnstagePackages` and
-- `UnmountAll`.
pub mod Removal
pub mod Unstage
use platform_system_apex.Base.{
  ℕ, String, Bool, true, false, not, ◌&&◌, Option, none, some, List, [], ◌∷◌, ◌++◌, ◌==◌,
  if◌then◌else◌, eqb, map, ◌⊎◌,
}
use platform_system_apex.Base.Result.{Result, ok, err, fatal}
use platform_system_apex.Base.Steps.{Steps, ◌>>=◌, ◌>>◌, lift, require, next}
use platform_system_apex.ApexFile.{ApexFile}
use platform_system_apex.Database.{MountedApexData, Database, all_mounts}
use platform_system_apex.Repository.{is_pre_installed_apex}
use platform_system_apex.Unmount.{is_mounted}
use platform_system_apex.Machine.{Machine, Services, St, open_apex, find_file, erase_file}
use platform_system_apex.Activate.{unmount_data}
use platform_system_apex.Install.{try_unlink}

-- The two scans; one that fails is only logged.
abbrev pub or_nothing : Result (List String) → List String
or_nothing (ok paths) = paths
or_nothing _ = []

unfoldable pub remove_each : Services → List String → Machine → Machine
remove_each s [] m = m
remove_each s (path ∷ paths) m =
    remove_each s paths (if is_mounted m.database path then m else try_unlink s path m)

-- `RemoveInactiveDataApex`, given what `FindFilesBySuffix` finds in the active directory and in the
-- directory of decompressed files.
unfoldable pub remove_inactive_data_apex :
    Services → Result (List String) → Result (List String) → Machine → Machine
unfolding remove_each
remove_inactive_data_apex s active decompressed m =
    remove_each s (or_nothing active ++ or_nothing decompressed) m

-- The first loop of `UnstagePackages`
abbrev pub check_unstaged : Services → Result ApexFile → Result (Unit {0})
check_unstaged s (ok apex) =
    if is_pre_installed_apex s.repo apex then err "Can't uninstall pre-installed apex" else ok tt
check_unstaged s (err e) = err e
check_unstaged s (fatal e) = fatal e

unfoldable pub check_each : Services → List String → St (Unit {0})
check_each s [] = lift (ok tt)
check_each s (path ∷ paths) = (λ m. (check_unstaged s (open_apex path m), m)) >> check_each s paths

-- `unlink`, which fails where the file is missing
abbrev pub exists : Option (String ⊎ ApexFile) → Bool
exists none = false
exists (some c) = true

unfoldable pub unlink : Services → String → St (Unit {0})
unlink s path m =
    if s.can_unlink path && exists (find_file path m.files)
    then (ok tt, record m { files = erase_file path m.files })
    else (err "Can't unlink", m)

-- The second loop
unfoldable pub unlink_each : Services → List String → St (Unit {0})
unlink_each s [] = lift (ok tt)
unlink_each s (path ∷ paths) = unlink s path >> unlink_each s paths

unfoldable pub unstage_packages : Services → List String → St (Unit {0})
unstage_packages s [] = lift (err "Empty set of inputs")
unstage_packages s (path ∷ paths) = check_each s (path ∷ paths) >> unlink_each s (path ∷ paths)
