-- ===== src/Hooks/Clean.antt =====
-- What the scope guard of `PrePostinstallPackages` of apexd/apexd.cpp does with the temp mounts.
use platform_system_apex.Base.{
  String, Bool, true, false, List, [], ◌∷◌, ◌++◌, ◌==◌, ◌≡◌, ap, inl, inr, sym, Member, Bool-cases,
  eq_iff, arith,
}
use mathlib.Core.Path.{subst}
use platform_system_apex.Base.Result.{Result, ok, err, fatal}
use platform_system_apex.ApexFile.{ApexFile, name_of}
use platform_system_apex.Database.{MountedApexData, Database, mounts_of}
use platform_system_apex.Unmount.{unmount_temp_mount}
use platform_system_apex.Unmount.Temp.{data_of, unmount_temp_mount-all}
use platform_system_apex.Unmount.Stays.{unmount_temp_mount-stays, unmount_temp_mount-others}
use platform_system_apex.Hooks.{
  Hook, HookCalls, Unmounts, run_with_hooks, unmount_each, guarded, pre_postinstall_packages,
}

unmount_each-stays :
    (apexes : List ApexFile) (name : String) (db : Database)
    → mounts_of db name true ≡ []
    → mounts_of (unmount_each apexes db).1 name true ≡ []
unfolding unmount_each
unmount_each-stays [] name db h = h
unmount_each-stays (a ∷ apexes) name db h =
    unmount_each-stays apexes name (unmount_temp_mount (name_of a) db).1
      (unmount_temp_mount-stays (name_of a) name db h)

unmount_each-all :
    (apexes : List ApexFile) (apex : ApexFile) (db : Database)
    → Member apex apexes
    → mounts_of (unmount_each apexes db).1 (name_of apex) true ≡ []
unfolding unmount_each
unmount_each-all [] apex db m = absurd m
unmount_each-all (a ∷ apexes) apex db (inl e) =
    let db' = (unmount_temp_mount (name_of a) db).1 in
    let gone : mounts_of db' (name_of a) true ≡ [] =
      (unmount_temp_mount-all (name_of a) (name_of a) db).1 in
    subst (λ x. mounts_of (unmount_each apexes db').1 (name_of x) true ≡ []) (sym e)
      (unmount_each-stays apexes (name_of a) db' gone)
unmount_each-all (a ∷ apexes) apex db (inr m) =
    unmount_each-all apexes apex (unmount_temp_mount (name_of a) db).1 m

abbrev pub survives : Result (Unit {0}) → Bool
survives (ok u) = true
survives (err e) = true
survives (fatal e) = false

Member-left :
    (d : MountedApexData) (xs ys : List MountedApexData) → Member d xs → Member d (xs ++ ys)
Member-left d [] ys m = absurd m
Member-left d (x ∷ xs) ys (inl e) = inl e
Member-left d (x ∷ xs) ys (inr m) = inr (Member-left d xs ys m)

Member-right :
    (d : MountedApexData) (xs ys : List MountedApexData) → Member d ys → Member d (xs ++ ys)
Member-right d [] ys m = m
Member-right d (x ∷ xs) ys m = inr (Member-right d xs ys m)

-- The package is one of the others where the names differ.
of_others :
    (a apex : ApexFile) (apexes : List ApexFile)
    → (name_of a == name_of apex) ≡ false
    → Member apex (a ∷ apexes)
    → Member apex apexes
of_others a apex apexes f (inl e) =
    let t : (name_of a == name_of apex) ≡ true =
      (eq_iff (name_of a) (name_of apex)).1 (ap name_of (sym e)) in
    absurd (ground (arith, f, t))
of_others a apex apexes f (inr m) = m

unmount_each-calls :
    (apexes : List ApexFile) (apex : ApexFile) (db : Database) (d : MountedApexData)
    → Member apex apexes
    → Member d (data_of (mounts_of db (name_of apex) true))
    → Member d (unmount_each apexes db).0
unfolding unmount_each
unmount_each-calls [] apex db d m t = absurd m
unmount_each-calls (a ∷ apexes) apex db d m t =
    let r = unmount_temp_mount (name_of a) db in
    let rest = unmount_each apexes r.1 in
    elim (Bool-cases (name_of a == name_of apex)) [
      | inl same ↦
          let e = sym ((eq_iff (name_of a) (name_of apex)).0 same) in
          let here = subst (λ n. Member d (data_of (mounts_of db n true))) e t in
          Member-left d r.0 rest.0
            (subst (Member d) (sym (unmount_temp_mount-all (name_of a) (name_of a) db).0) here)
      | inr f ↦
          let kept = sym (unmount_temp_mount-others (name_of a) (name_of apex) f db) in
          Member-right d r.0 rest.0 (
            unmount_each-calls apexes apex r.1 d (of_others a apex apexes f m)
              (subst (λ l. Member d (data_of l)) kept t))
    ]

-- What the guard has done for a package: the database holds no temp mount of it, and `Unmount` was called
-- for the one that it held before.
abbrev Released : ApexFile → MountedApexData → Unmounts → Type 0
Released apex d (called, db) = (mounts_of db (name_of apex) true ≡ []) × Member d called

guarded-Released :
    (apexes : List ApexFile) (r : Result (Unit {0}) × Database) (apex : ApexFile)
    (d : MountedApexData)
    → Member apex apexes
    → Member d (data_of (mounts_of r.1 (name_of apex) true))
    → survives (guarded apexes r).0 ≡ true
    → Released apex d (guarded apexes r).1
guarded-Released apexes (ok u, db) apex d m t s =
    (unmount_each-all apexes apex db m, unmount_each-calls apexes apex db d m t)
guarded-Released apexes (err e, db) apex d m t s =
    (unmount_each-all apexes apex db m, unmount_each-calls apexes apex db d m t)
guarded-Released apexes (fatal e, db) apex d m t s = cc

-- Unless a failed check ends the process: for every temp mount that the database holds of a package of
-- `PrePostinstallPackages` when its body has ended, with or without an error, `Unmount` is called (what it
-- answers is ignored), and the database holds no temp mount of that package afterwards.
pub pre_postinstall_packages-unmounts :
    (hook : Hook) (arg : String) (calls : HookCalls) (apexes : List ApexFile) (db : Database)
    (apex : ApexFile) (d : MountedApexData)
    → Member apex apexes
    → Member d (data_of (mounts_of (run_with_hooks hook arg calls apexes db).1 (name_of apex) true))
    → survives (pre_postinstall_packages hook arg calls apexes db).0 ≡ true
    → (mounts_of (pre_postinstall_packages hook arg calls apexes db).1.1 (name_of apex) true ≡ [])
      × Member d (pre_postinstall_packages hook arg calls apexes db).1.0
unfolding pre_postinstall_packages
pre_postinstall_packages-unmounts hook arg calls apexes db apex d m t s =
    guarded-Released apexes (run_with_hooks hook arg calls apexes db) apex d m t s
