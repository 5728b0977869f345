-- ===== src/Activate/Files.antt =====
-- Activation and unmounting in apexd/apexd.cpp leave the APEX files alone, and what they do to the
-- database of mounts.
use platform_system_apex.Base.{
  String, Bool, true, false, Option, none, some, ◌≡◌, refl, ap, ◌∙◌, ◌⊎◌, inl, inr, Bool-cases,
  ◌&&◌, not, if◌then◌else◌,
}
use platform_system_apex.Base.Result.{Result, ok, err, fatal}
use platform_system_apex.Base.Steps.{◌>>◌, next, lift, require}
use platform_system_apex.ApexFile.{
  ApexFile, name_of, get_package_mount_point, get_active_mount_point,
}
use platform_system_apex.Database.{
  MountedApexData, Database, add_mounted_apex, remove_mounted_apex, set_latest, mounts_of,
}
use platform_system_apex.Mount.{Resources}
use platform_system_apex.Machine.{
  Machine, Services, St, with_database, set_latest_at, add_mount, mount_package,
}
use platform_system_apex.Activate.{
  Seen, see, bound_after, make_latest, mount_unless, shared_libs, activate_seen,
  is_valid_package_name, validate_shim, activate_package_impl, unbind, forget_mount, unmount_data,
  found_mount, last_of_path, unmount_package,
}

-- A step that keeps the files, whatever its result.
abbrev KeepsFiles : {A : Type 0} → St A → Type 0
KeepsFiles f = (m : Machine) → (f m).1.files ≡ m.files

next-files :
    {A : Type 0} {B : Type 0} (f : A → St B) (r : Result A × Machine)
    → ((a : A) → KeepsFiles (f a))
    → (next f r).1.files ≡ r.1.files
next-files f (ok a, m) g = g a m
next-files f (err e, m) g = refl
next-files f (fatal e, m) g = refl

then_files : (f g : St (Unit {0})) → KeepsFiles f → KeepsFiles g → KeepsFiles (f >> g)
then_files f g kf kg m = next-files (λ u. g) (f m) (λ u. kg) ∙ kf m

with_database-files : (m : Machine) (r : Result Database) → (with_database m r).1.files ≡ m.files
with_database-files m (ok db) = refl
with_database-files m (err e) = refl
with_database-files m (fatal e) = refl

add_mount-files :
    (name : String) (m : Machine) (r : Result MountedApexData × Resources)
    → (add_mount name m r).1.files ≡ m.files
add_mount-files name m (ok d, k) =
    with_database-files (record m { resources = k }) (add_mounted_apex m.database name false d)
add_mount-files name m (err e, k) = refl
add_mount-files name m (fatal e, k) = refl

bound_after-files :
    (target source : String) (m : Machine) (r : Result (Unit {0}))
    → (bound_after target source m r).1.files ≡ m.files
bound_after-files target source m (ok u) = refl
bound_after-files target source m (err e) = refl
bound_after-files target source m (fatal e) = refl

module _ (s : Services) (apex : ApexFile) where
  make_latest-files :
      (mount_point : String) (newest : Bool) → KeepsFiles (make_latest s apex mount_point newest)
  unfolding make_latest
  make_latest-files mount_point false m = refl
  make_latest-files mount_point true m = elim (Bool-cases apex.manifest.provide_shared_apex_libs) [
    | inl t ↦ simp t (with_database-files m (set_latest m.database (name_of apex) apex.apex_path))
    | inr f ↦ simp f (
        next-files (λ u. set_latest_at (name_of apex) apex.apex_path) _
          (λ u m'. with_database-files m' (set_latest m'.database (name_of apex) apex.apex_path))
        ∙ bound_after-files _ _ m _)
  ]

  mount_unless-files :
      (mounted : Bool) (mount_point name : String)
      → KeepsFiles (mount_unless mounted s apex mount_point name)
  unfolding mount_package
  mount_unless-files true mount_point name m = refl
  mount_unless-files false mount_point name m = add_mount-files (name_of apex) m _

  activate_seen-files : (name : String) (seen : Seen) → KeepsFiles (activate_seen s apex name seen)
  unfolding activate_seen
  activate_seen-files name seen m =
      let mount_point : String = get_package_mount_point apex.manifest in
      elim (Bool-cases (seen.version_found_active && not apex.manifest.provide_shared_apex_libs)) [
        | inl t ↦ simp t refl
        | inr f ↦ simp f (
            then_files
              (mount_unless seen.version_found_mounted s apex mount_point name
                >> make_latest s apex mount_point seen.is_newest_version)
              (lift (shared_libs s apex mount_point))
              (then_files (mount_unless seen.version_found_mounted s apex mount_point name)
                (make_latest s apex mount_point seen.is_newest_version)
                (mount_unless-files seen.version_found_mounted mount_point name)
                (make_latest-files mount_point seen.is_newest_version))
              (λ m'. refl) m)
      ]

  pub activate_package_impl-files : (name : String) → KeepsFiles (activate_package_impl s apex name)
  unfolding activate_package_impl
  activate_package_impl-files name m = elim (Bool-cases (is_valid_package_name (name_of apex))) [
    | inl t ↦ simp t (
        next-files (λ u m'. activate_seen s apex name (see m' apex) m') (validate_shim s apex, m)
          (λ u m'. activate_seen-files name (see m' apex) m'))
    | inr f ↦ simp f refl
  ]

-- What `UnmountPackage` leaves: the files, and the database without the package's entry of that path,
-- or, after an error, perhaps with it.
abbrev pub UnmountOutcome : ApexFile → Machine → Result (Unit {0}) × Machine → Type 0
UnmountOutcome apex m (ok u, m') =
    (m'.files ≡ m.files)
    × (m'.database ≡ remove_mounted_apex m.database (name_of apex) apex.apex_path false)
UnmountOutcome apex m (err e, m') =
    (m'.files ≡ m.files)
    × ((m'.database ≡ m.database)
        ⊎ (m'.database ≡ remove_mounted_apex m.database (name_of apex) apex.apex_path false))
UnmountOutcome apex m (fatal e, m') = Unit

module _ (s : Services) (apex : ApexFile) (deferred : Bool) where
  unmounted :
      (m m' : Machine) (r : Result (Unit {0}))
      → m'.files ≡ m.files
      → m'.database ≡ remove_mounted_apex m.database (name_of apex) apex.apex_path false
      → UnmountOutcome apex m (r, m')
  unmounted m m' (ok u) f d = (f, d)
  unmounted m m' (err e) f d = (f, inr d)
  unmounted m m' (fatal e) f d = tt

  -- The steps after the bind mount.
  after_unbind :
      (m : Machine) (d : MountedApexData) (r : Result (Unit {0}) × Machine)
      → r.1.files ≡ m.files
      → r.1.database ≡ m.database
      → UnmountOutcome apex m (next (λ u. forget_mount apex >> unmount_data s d deferred) r)
  after_unbind m d (ok u, m') f g =
      unmounted m _ _ f (ap (λ db. remove_mounted_apex db (name_of apex) apex.apex_path false) g)
  after_unbind m d (err e, m') f g = (f, inl g)
  after_unbind m d (fatal e, m') f g = tt

  unbind-keeps :
      (m : Machine) (target : String)
      → ((unbind s target deferred m).1.files ≡ m.files)
        × ((unbind s target deferred m).1.database ≡ m.database)
  unbind-keeps m target = elim (Bool-cases (s.device.can_umount target)) [
    | inl t ↦ elim (Bool-cases deferred) [
      | inl e ↦ simp (t, e) (refl, refl)
      | inr e ↦ simp (t, e) (refl, refl)
    ]
    | inr f ↦ simp f (refl, refl)
  ]

  unbind_if-keeps :
      (latest : Bool) (m : Machine) (target : String)
      → (((if latest
              then require true "Package is active" >> unbind s target deferred
              else lift (ok tt))
            m).1.files
          ≡ m.files)
        × (((if latest
                then require true "Package is active" >> unbind s target deferred
                else lift (ok tt))
              m).1.database
            ≡ m.database)
  unbind_if-keeps true m target = unbind-keeps m target
  unbind_if-keeps false m target = (refl, refl)

  found_mount-Outcome :
      (m : Machine) (o : Option (MountedApexData × Bool))
      → UnmountOutcome apex m (
          next
            (λ p.
              (if p.1 && not apex.manifest.provide_shared_apex_libs
                then require true "Package is active"
                  >> unbind s (get_active_mount_point apex.manifest) deferred
                else lift (ok tt))
              >> (forget_mount apex >> unmount_data s p.0 deferred))
            (found_mount o, m))
  found_mount-Outcome m none = (refl, inl refl)
  found_mount-Outcome m (some (d, l)) =
      let (f, g) =
        unbind_if-keeps (l && not apex.manifest.provide_shared_apex_libs) m
          (get_active_mount_point apex.manifest) in
      after_unbind m d _ f g

  pub unmount_package-Outcome :
      (m : Machine) → UnmountOutcome apex m (unmount_package s apex true deferred m)
  unfolding unmount_package
  unmount_package-Outcome m =
      found_mount-Outcome m
        (last_of_path apex.apex_path none (mounts_of m.database (name_of apex) false))
