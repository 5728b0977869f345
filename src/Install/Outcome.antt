-- ===== src/Install/Outcome.antt =====
-- Where `InstallPackage` of apexd/apexd.cpp ends, once its checks have passed.
use platform_system_apex.Base.{String, Bool, true, false, some, [], ◌∷◌, ◌≡◌, ◌==◌, inr}
use platform_system_apex.Base.Result.{Result, ok, err, fatal}
use platform_system_apex.ApexFile.{ApexFile, name_of}
use platform_system_apex.Database.{MountedApexData, mounts_of}
use platform_system_apex.Machine.{Machine, Services, find_file}
use platform_system_apex.Activate.Latest.{latest_in}
use platform_system_apex.Install.Package.{exists}
use platform_system_apex.Install.Link.{at_target}

-- Where an installation ends: the new file is the latest one of its package, or it is gone. Of another
-- package the latest file is as before.
abbrev pub InstallOutcome :
    String → ApexFile → String → Machine → Result ApexFile × Machine → Type 0
InstallOutcome target c other m (ok new, m') =
    (new ≡ at_target target c)
    × (find_file target m'.files ≡ some (inr c))
    × (latest_in m' (name_of c) ≡ some target)
    × (latest_in m' other ≡ latest_in m other)
InstallOutcome target c other m (err e, m') =
    (exists (find_file target m'.files) ≡ false) × (latest_in m' other ≡ latest_in m other)
InstallOutcome target c other m (fatal e, m') = Unit

-- The situation behind the checks: `c` is what the package's file holds, `cur` is mounted, and alone, and
-- the new path is free and may be unlinked. Neither of the two provides shared libraries.
pub record Installable (s : Services) (package_path : String) (c cur : ApexFile)
    (old target : String) (m : Machine) : Type 0 where
  pub may_unlink : s.can_unlink target ≡ true
  pub cur_not_shared : cur.manifest.provide_shared_apex_libs ≡ false
  pub new_not_shared : c.manifest.provide_shared_apex_libs ≡ false
  pub same_name : name_of c ≡ name_of cur
  pub here : find_file package_path m.files ≡ some (inr c)
  pub fresh : exists (find_file target m.files) ≡ false
  pub kept : (old == target) ≡ false
  pub mounted : MountedApexData
  pub is_latest : Bool
  pub alone : mounts_of m.database (name_of cur) false ≡ (mounted, is_latest) ∷ []
  pub path : mounted.full_path ≡ cur.apex_path
