-- ===== src/Hooks.antt =====
-- The hooks of packages that run before and after their installation: `PrePostinstallPackages` of
-- apexd/apexd.cpp, and `StageFnInstall` of apexd/apexd_prepostinstall.cpp.
pub mod Clean
pub mod Arguments
use platform_system_apex.Base.{
  ℕ, zero, suc, String, Bool, true, false, not, Option, none, some, List, [], ◌∷◌, ◌++◌, ◌==◌, any,
  map, is_empty, if◌then◌else◌,
}
use platform_system_apex.Base.Result.{Result, ok, err, fatal, ◌>>=◌}
use platform_system_apex.ApexFile.{ApexFile, ApexManifest, name_of, get_package_temp_mount_point}
use platform_system_apex.Database.{MountedApexData, Database, add_mounted_apex}
use platform_system_apex.Unmount.{get_temp_mounted_apex_data, unmount_temp_mount}

-- `MountPackageImpl` as `VerifyAndTempMountPackage` calls it, and `ForkAndRun`
pub record HookCalls : Type 0 where
  pub temp_mount : ApexFile → Result MountedApexData
  pub fork_and_run : List String → Result (Unit {0})

-- Which of the two hooks is meant: `preinstallhook` or `postinstallhook`
abbrev pub Hook : Type 0
Hook = ApexManifest → String

abbrev pub has_hook : Hook → ApexFile → Bool
has_hook hook apex = not (hook apex.manifest == "")

-- The loop of `StageFnInstall`, from the place `i` on, with the place of a hook that is found already.
unfoldable pub hook_index : Hook → List ApexFile → ℕ → Option ℕ → Result (Option ℕ)
hook_index hook [] i found = ok found
hook_index hook (apex ∷ apexes) i none =
    hook_index hook apexes (suc i) (if has_hook hook apex then some i else none)
hook_index hook (apex ∷ apexes) i (some j) =
    let rest = hook_index hook apexes (suc i) (some j) in
    if has_hook hook apex then err "Missing support for multiple hooks" else rest

-- The mount points but the one of the hook, and that one
abbrev pub without_nth : ℕ → List String → List String
without_nth n [] = []
without_nth zero (p ∷ points) = points
without_nth (suc n) (p ∷ points) = p ∷ without_nth n points

abbrev pub nth : ℕ → List String → Option String
nth n [] = none
nth zero (p ∷ points) = some p
nth (suc n) (p ∷ points) = nth n points

abbrev pub with_first : String → List String → Option String → Result (List String)
with_first arg others none = fatal "out of range"
with_first arg others (some first) = ok ("/system/bin/apexd" ∷ arg ∷ first ∷ others)

-- `CHECK(hook_idx != -1)`, and the access to the vector
abbrev pub arguments : String → List String → Option ℕ → Result (List String)
arguments arg mount_points none = fatal "hook_idx"
arguments arg mount_points (some i) =
    with_first arg (without_nth i mount_points) (nth i mount_points)

unfoldable pub stage_fn_install :
    Hook → String → HookCalls → List ApexFile → List String → Result (Unit {0})
unfolding hook_index
stage_fn_install hook arg calls apexes mount_points = do
  found ← hook_index hook apexes 0 none
  args ← arguments arg mount_points found
  calls.fork_and_run args

-- A temp mount that has succeeded goes into the database.
abbrev pub enter_temp : Database → String → Result MountedApexData → Result (Unit {0}) × Database
enter_temp db name (ok d) = elim (add_mounted_apex db name false d) [
  | ok db' ↦ (ok tt, db')
  | err e ↦ (err e, db)
  | fatal e ↦ (fatal e, db)
]
enter_temp db name (err e) = (err e, db)
enter_temp db name (fatal e) = (fatal e, db)

-- The package is temp mounted, if it is not so already.
abbrev pub ensure_temp_mounted :
    HookCalls → ApexFile → Option MountedApexData → Database → Result (Unit {0}) × Database
ensure_temp_mounted calls apex (some d) db = (ok tt, db)
ensure_temp_mounted calls apex none db = enter_temp db (name_of apex) (calls.temp_mount apex)

abbrev pub and_then :
    (Database → Result (List String) × Database)
    → Result (Unit {0}) × Database
    → Result (List String) × Database
and_then next (ok u, db) = next db
and_then next (err e, db) = (err e, db)
and_then next (fatal e, db) = (fatal e, db)

abbrev pub with_point : String → Result (List String) × Database → Result (List String) × Database
with_point point (r, db) = (r >>= λ points. ok (point ∷ points), db)

-- The mount points of all packages
unfoldable pub mount_each : HookCalls → List ApexFile → Database → Result (List String) × Database
unfolding get_temp_mounted_apex_data add_mounted_apex get_package_temp_mount_point
mount_each calls [] db = (ok [], db)
mount_each calls (apex ∷ apexes) db =
    and_then
      (λ d. with_point (get_package_temp_mount_point apex.manifest) (mount_each calls apexes d))
      (ensure_temp_mounted calls apex (get_temp_mounted_apex_data db (name_of apex)) db)

abbrev pub run_on :
    (List String → Result (Unit {0}))
    → Result (List String) × Database
    → Result (Unit {0}) × Database
run_on run (ok points, db) = (run points, db)
run_on run (err e, db) = (err e, db)
run_on run (fatal e, db) = (fatal e, db)

-- The body behind the scope guard; `call` is `StagePreInstall` or `StagePostInstall`.
unfoldable pub run_with_hooks :
    Hook → String → HookCalls → List ApexFile → Database → Result (Unit {0}) × Database
unfolding mount_each stage_fn_install
run_with_hooks hook arg calls apexes db =
    if is_empty apexes
    then (err "Empty set of inputs", db)
    else if any (has_hook hook) apexes
    then run_on (stage_fn_install hook arg calls apexes) (mount_each calls apexes db)
    else (ok tt, db)

-- What the calls of `UnmountTempMount` leave: the mounts that `Unmount` was called for, and the database.
abbrev pub Unmounts : Type 0
Unmounts = List MountedApexData × Database

abbrev pub after_unmounts : List MountedApexData → Unmounts → Unmounts
after_unmounts ds (more, db) = (ds ++ more, db)

-- The scope guard
unfoldable pub unmount_each : List ApexFile → Database → Unmounts
unfolding unmount_temp_mount
unmount_each [] db = ([], db)
unmount_each (apex ∷ apexes) db =
    let (ds, db') = unmount_temp_mount (name_of apex) db in
    after_unmounts ds (unmount_each apexes db')

-- After a failed check the process has ended.
abbrev pub guarded : List ApexFile → Result (Unit {0}) × Database → Result (Unit {0}) × Unmounts
guarded apexes (ok u, db) = (ok u, unmount_each apexes db)
guarded apexes (err e, db) = (err e, unmount_each apexes db)
guarded apexes (fatal e, db) = (fatal e, ([], db))

unfoldable pub pre_postinstall_packages :
    Hook → String → HookCalls → List ApexFile → Database → Result (Unit {0}) × Unmounts
unfolding run_with_hooks unmount_each
pre_postinstall_packages hook arg calls apexes db =
    guarded apexes (run_with_hooks hook arg calls apexes db)

unfoldable pub preinstall_packages :
    HookCalls → List ApexFile → Database → Result (Unit {0}) × Unmounts
unfolding pre_postinstall_packages
preinstall_packages = pre_postinstall_packages (λ m. m.pre_install_hook) "--pre-install"

unfoldable pub postinstall_packages_with_hooks :
    HookCalls → List ApexFile → Database → Result (Unit {0}) × Unmounts
unfolding pre_postinstall_packages
postinstall_packages_with_hooks =
    pre_postinstall_packages (λ m. m.post_install_hook) "--post-install"
