-- ===== src/Mount/Release.antt =====
-- That `MountPackageImpl` of apexd/apexd.cpp gives back what it took where it fails, and that its answer
-- names what it holds where it succeeds.
use platform_system_apex.Base.{
  String, Bool, true, false, Option, none, some, ◌∷◌, ◌≡◌, refl, ap, ◌∙◌, ◌⊎◌, inl, inr,
  if◌then◌else◌, Bool-cases, eq_refl,
}
use platform_system_apex.Base.Result.{Result, ok, err, fatal}
use platform_system_apex.ApexFile.{ApexFile}
use platform_system_apex.Database.{MountedApexData}
use platform_system_apex.Repository.{ApexFileRepository}
use platform_system_apex.Base.Steps.{next, lift}
use platform_system_apex.Mount.{Device, Resources, Mounting, has_name, erase_name}
use platform_system_apex.Mount.Package.{
  mount_and_check, after_check, mount_body, or_no_fs_type, leave, start, drop_loop, drop_verity,
  drop_dir, mount_package_impl, at_mount_point,
}
use platform_system_apex.Mount.Held.{
  state_of, opt, Outcome, Describes, FitsPath, prepare_device-Outcome,
}

abbrev pub mounted_on : String → String → Resources → Resources
mounted_on block mount_point k = record k { mounts = (block, mount_point) ∷ k.mounts }

-- Where the body ends: the mount is there and described by the data, or what is held is given back.
abbrev BodyOutcome :
    ApexFile → String → Bool → Resources → Result MountedApexData × Mounting → Type 0
BodyOutcome apex mount_point temp k (ok d, s) =
    (lo : Option String) × (h : Option String) × (v : Option String) × (block : String) × (s.res
      ≡ mounted_on block mount_point (state_of lo h v k).res)
    × Describes apex mount_point temp d lo h v
BodyOutcome apex mount_point temp k (err e, s) =
    (lo : Option String) × (h : Option String) × (v : Option String) × (s ≡ state_of lo h v k)
BodyOutcome apex mount_point temp k (fatal e, s) = Unit

module _ (dev : Device) (apex : ApexFile) (mount_point : String) (temp : Bool) (k : Resources)
    (obliging : dev.can_umount mount_point ≡ true) where
  after_check-Outcome :
      (d : MountedApexData) (lo h v : Option String) (block : String) (r : Result (Unit {0}))
      → Describes apex mount_point temp d lo h v
      → BodyOutcome apex mount_point temp k (
          next
            (λ u. lift (ok d))
            (after_check dev mount_point (state_of lo h v k).res r (record (state_of lo h v k) {
              res = mounted_on block mount_point (state_of lo h v k).res;
            })))
  after_check-Outcome d lo h v block (ok u) p = (lo, h, v, block, refl, p)
  after_check-Outcome d lo h v block (err e) p = rw obliging (lo, h, v, refl)
  after_check-Outcome d lo h v block (fatal e) p = tt

  mount_and_check-Outcome :
      (d : MountedApexData) (lo h v : Option String) (block fs_type : String)
      → Describes apex mount_point temp d lo h v
      → BodyOutcome apex mount_point temp k (
          next
            (λ u. lift (ok d))
            (mount_and_check dev apex block mount_point fs_type (state_of lo h v k)))
  unfolding mount_and_check
  mount_and_check-Outcome d lo h v block fs_type p =
      elim (Bool-cases (dev.can_mount block mount_point fs_type apex.manifest.no_code)) [
        | inl t ↦
            rw (t, mount_and_check)
              (after_check-Outcome d lo h v block (dev.verify_mounted_image apex mount_point) p)
        | inr f ↦ rw (f, mount_and_check) (lo, h, v, refl)
      ]

  with_fs_type-Outcome :
      (r : Result String) (d : MountedApexData) (lo h v : Option String) (block : String)
      → Describes apex mount_point temp d lo h v
      → BodyOutcome apex mount_point temp k (
          next
            (λ fs_type s.
              next (λ u. lift (ok d)) (mount_and_check dev apex block mount_point fs_type s))
            (r, state_of lo h v k))
  with_fs_type-Outcome (ok fs_type) d lo h v block p =
      mount_and_check-Outcome d lo h v block fs_type p
  with_fs_type-Outcome (err e) d lo h v block p = (lo, h, v, refl)
  with_fs_type-Outcome (fatal e) d lo h v block p = tt

  mount_prepared-Outcome :
      (r : Result (String × MountedApexData) × Mounting)
      → Outcome (FitsPath dev apex mount_point temp k) k r
      → BodyOutcome apex mount_point temp k (
          next
            (λ p s.
              next
                (λ fs_type s'.
                  next (λ u. lift (ok p.1)) (mount_and_check dev apex p.0 mount_point fs_type s'))
                (or_no_fs_type apex.fs_type, s))
            r)
  mount_prepared-Outcome (ok (block, d), s) (lo, h, v, e, p) =
      rw e (with_fs_type-Outcome (or_no_fs_type apex.fs_type) d lo h v block p)
  mount_prepared-Outcome (err e, s) o = o
  mount_prepared-Outcome (fatal e, s) o = tt

  mount_body-Outcome :
      (repo : ApexFileRepository) (name file : String) (verify : Bool)
      → has_name name k.devices ≡ false
      → BodyOutcome apex mount_point temp k
          (mount_body dev repo apex mount_point name file verify temp (start k))
  unfolding mount_body
  mount_body-Outcome repo name file verify fresh =
      mount_prepared-Outcome _
        (prepare_device-Outcome dev apex mount_point temp k repo name file verify fresh)

-- What the kernel allows: loop devices are cleared, dm devices deleted, the mount point removed and
-- unmounted.
pub record Obliging (dev : Device) (mount_point : String) : Type 0 where
  pub clears : (name : String) → dev.can_clear_loop name ≡ true
  pub deletes : (name : String) → dev.can_delete_dm name ≡ true
  pub removes : dev.can_rmdir mount_point ≡ true
  pub unmounts : dev.can_umount mount_point ≡ true

drop_loop-opt :
    (dev : Device) (o : Option String) (k : Resources)
    → ((name : String) → dev.can_clear_loop name ≡ true)
    → drop_loop dev o (record k { loops = opt o k.loops }) ≡ k
drop_loop-opt dev none k c = refl
drop_loop-opt dev (some name) k c = rw (c name, eq_refl name) refl

drop_verity-opt :
    (dev : Device) (o : Option String) (k : Resources)
    → ((name : String) → dev.can_delete_dm name ≡ true)
    → drop_verity dev o (record k { devices = opt o k.devices }) ≡ k
drop_verity-opt dev none k c = refl
drop_verity-opt dev (some name) k c = rw (c name, eq_refl name) refl

abbrev pub without_dir : String → Resources → Resources
without_dir mount_point k = record k { mount_dirs = erase_name mount_point k.mount_dirs }

abbrev pub with_dir : String → Resources → Resources
with_dir mount_point k =
    if has_name mount_point k.mount_dirs
    then k
    else record k { mount_dirs = mount_point ∷ k.mount_dirs }

-- On top of `k`: a mount that the data describe, or nothing.
abbrev MountOutcome :
    ApexFile → String → Bool → Resources → Resources → Result MountedApexData × Resources → Type 0
MountOutcome apex mount_point temp k left (ok d, k') =
    (lo : Option String) × (h : Option String) × (v : Option String) × (block : String) × (k'
      ≡ mounted_on block mount_point (state_of lo h v k).res)
    × Describes apex mount_point temp d lo h v
MountOutcome apex mount_point temp k left (err e, k') = (k' ≡ left)
MountOutcome apex mount_point temp k left (fatal e, k') = Unit

leave-Outcome :
    (dev : Device) (apex : ApexFile) (mount_point : String) (temp : Bool) (k : Resources)
    (r : Result MountedApexData × Mounting)
    → Obliging dev mount_point
    → BodyOutcome apex mount_point temp k r
    → MountOutcome apex mount_point temp k (without_dir mount_point k) (leave dev mount_point r)
leave-Outcome dev apex mount_point temp k (ok d, s) o b = b
leave-Outcome dev apex mount_point temp k (fatal e, s) o b = tt
leave-Outcome dev apex mount_point temp k (err e, s) o (lo, h, v, q) =
    let k1 : Resources = record k { loops = opt lo k.loops } in
    let k2 : Resources = record k1 { devices = opt v k.devices } in
    ap
      (λ t. drop_dir dev mount_point (
        drop_loop dev t.loopback_device
          (drop_verity dev t.verity_dev (drop_loop dev t.loop_for_hash t.res))))
      q
    ∙ ap (λ x. drop_dir dev mount_point (drop_loop dev lo (drop_verity dev v x)))
        (drop_loop-opt dev h k2 o.clears)
    ∙ ap (λ x. drop_dir dev mount_point (drop_loop dev lo x)) (drop_verity-opt dev v k1 o.deletes)
    ∙ ap (drop_dir dev mount_point) (drop_loop-opt dev lo k o.clears)
    ∙ rw o.removes refl

-- Where `MountPackageImpl` ends, from `k`: a mount that the data describe, on the loop device, the hash
-- loop and the dm device that were taken, or, after an error, nothing but perhaps a mount point less.
abbrev pub MountResult :
    ApexFile → String → Bool → Resources → Result MountedApexData × Resources → Type 0
MountResult apex mount_point temp k (ok d, k') =
    (lo : Option String) × (h : Option String) × (v : Option String) × (block : String) × (k'
      ≡ mounted_on block mount_point (state_of lo h v (with_dir mount_point k)).res)
    × Describes apex mount_point temp d lo h v
MountResult apex mount_point temp k (err e, k') = (k' ≡ k) ⊎ (k' ≡ without_dir mount_point k)
MountResult apex mount_point temp k (fatal e, k') = Unit

had_dir :
    (apex : ApexFile) (mount_point : String) (temp : Bool) (k : Resources)
    (r : Result MountedApexData × Resources)
    → has_name mount_point k.mount_dirs ≡ true
    → MountOutcome apex mount_point temp k (without_dir mount_point k) r
    → MountResult apex mount_point temp k r
had_dir apex mount_point temp k (ok d, k') h o = rw h o
had_dir apex mount_point temp k (err e, k') h o = inr o
had_dir apex mount_point temp k (fatal e, k') h o = tt

made_dir :
    (apex : ApexFile) (mount_point : String) (temp : Bool) (k : Resources)
    (r : Result MountedApexData × Resources)
    → has_name mount_point k.mount_dirs ≡ false
    → MountOutcome apex mount_point temp
        (record k { mount_dirs = mount_point ∷ k.mount_dirs })
        (without_dir mount_point (record k { mount_dirs = mount_point ∷ k.mount_dirs }))
        r
    → MountResult apex mount_point temp k r
made_dir apex mount_point temp k (ok d, k') h o = rw h o
made_dir apex mount_point temp k (err e, k') h o = inl (o ∙ rw (eq_refl mount_point) refl)
made_dir apex mount_point temp k (fatal e, k') h o = tt

at_mount_point-MountResult :
    (compressed can_stat exists can_mkdir : Bool) (apex : ApexFile) (mount_point : String)
    (temp : Bool) (run : Resources → Result MountedApexData × Resources) (k : Resources)
    → has_name mount_point k.mount_dirs ≡ exists
    → ((k' : Resources)
        → k'.devices ≡ k.devices
        → MountOutcome apex mount_point temp k' (without_dir mount_point k') (run k'))
    → MountResult apex mount_point temp k
        (at_mount_point compressed can_stat exists can_mkdir mount_point run k)
at_mount_point-MountResult true can_stat exists can_mkdir apex mount_point temp run k h o = inl refl
at_mount_point-MountResult false false exists can_mkdir apex mount_point temp run k h o = inl refl
at_mount_point-MountResult false true true can_mkdir apex mount_point temp run k h o =
    had_dir apex mount_point temp k (run k) h (o k refl)
at_mount_point-MountResult false true false false apex mount_point temp run k h o = inl refl
at_mount_point-MountResult false true false true apex mount_point temp run k h o =
    let k' : Resources = record k { mount_dirs = mount_point ∷ k.mount_dirs } in
    made_dir apex mount_point temp k (run k') h (o k' refl)

-- Where the kernel lets go of what is given back and no dm device of that name is left over: if
-- `MountPackageImpl` fails, the loop devices, the dm devices and the mounts are as before, and so are
-- the mount points, but for the given one, which may be gone. If it succeeds, there is one mount more,
-- with the devices that the answer names, and the answer has the path of the file and the mount point.
pub mount_package_impl-releases :
    (dev : Device) (repo : ApexFileRepository) (apex : ApexFile) (mount_point name file : String)
    (verify temp : Bool) (k : Resources)
    → Obliging dev mount_point
    → has_name name k.devices ≡ false
    → MountResult apex mount_point temp k
        (mount_package_impl dev repo apex mount_point name file verify temp k)
unfolding mount_package_impl
mount_package_impl-releases dev repo apex mount_point name file verify temp k o fresh =
    at_mount_point-MountResult _ _ _ _ apex mount_point temp _ k refl (λ k' same.
      leave-Outcome dev apex mount_point temp k' _ o (
        mount_body-Outcome dev apex mount_point temp k' o.unmounts repo name file verify
          (ap (has_name name) same ∙ fresh)))
