-- ===== src/Activate/Latest.antt =====
-- What `ActivatePackageImpl` of apexd/apexd.cpp does to the latest mounts.
use platform_system_apex.Base.{
  ℕ, String, Bool, true, false, not, ◌&&◌, ◌||◌, Option, some, [], ◌∷◌, ◌≡◌, refl, ap, ◌∙◌, ◌==◌,
  arith, if◌then◌else◌, any, ltb, Bool-cases, inl, inr,
}
use platform_system_apex.Base.Int.{to_uint64}
use platform_system_apex.Base.Result.{Result, ok, err, fatal, Result-cases}
use platform_system_apex.Base.Steps.{next, lift}
use platform_system_apex.ApexFile.{
  ApexFile, name_of, version_of, get_active_mount_point, get_package_mount_point,
}
use platform_system_apex.Database.{
  MountedApexData, PackageMap, mounts_of, set_latest, add_mounted_apex,
}
use platform_system_apex.Populate.Marks.{latest_path, latest_path-add, latest_path-set_latest}
use platform_system_apex.Mount.{Resources}
use platform_system_apex.Machine.{
  Machine, Services, open_apex, set_latest_at, add_mount, mount_package,
}
use platform_system_apex.Activate.{
  Seen, see_mount, see_mounts, see, nothing_seen, bound_after, mount_unless, make_latest,
  activate_seen, is_valid_package_name, validate_shim, activate_package_impl,
}

abbrev pub latest_in : Machine → String → Option String
latest_in m name = latest_path m.database name

-- A mounted file that opens has a higher version.
abbrev pub is_higher_file : ℕ → Result ApexFile → Bool
is_higher_file v (ok other) = ltb v (to_uint64 (version_of other))
is_higher_file v _ = false

abbrev pub is_higher : Machine → ℕ → MountedApexData × Bool → Bool
is_higher m v p = is_higher_file v (open_apex p.0.full_path m)

see_mount-newest :
    (v : ℕ) (l : Bool) (r : Result ApexFile) (seen : Seen)
    → (see_mount v l r seen).is_newest_version ≡ seen.is_newest_version && not (is_higher_file v r)
see_mount-newest v l (ok other) seen = refl
see_mount-newest v l (err e) seen = ground arith
see_mount-newest v l (fatal e) seen = ground arith

both : (a b c : Bool) → (a && not b) && not c ≡ a && not (b || c)
both a b c = ground arith

see_mounts-newest :
    (m : Machine) (v : ℕ) (mounts : PackageMap) (seen : Seen)
    → (see_mounts m v mounts seen).is_newest_version
      ≡ seen.is_newest_version && not (any (is_higher m v) mounts)
unfolding see_mounts
see_mounts-newest m v [] seen = ground arith
see_mounts-newest m v ((d, l) ∷ rest) seen =
    see_mounts-newest m v rest (see_mount v l (open_apex d.full_path m) seen)
    ∙ ap (λ b. b && not (any (is_higher m v) rest))
        (see_mount-newest v l (open_apex d.full_path m) seen)
    ∙ both seen.is_newest_version (is_higher_file v (open_apex d.full_path m))
        (any (is_higher m v) rest)

-- No mount of the package has a higher version, and its version is not the one that is active.
abbrev pub becomes_latest : Machine → ApexFile → Bool
becomes_latest m apex =
    not (see m apex).version_found_active
    && not (
        any (is_higher m (to_uint64 (version_of apex))) (mounts_of m.database (name_of apex) false))

with_database-add :
    (name other : String) (m : Machine) (r : Result MountedApexData × Resources)
    → latest_in (add_mount name m r).1 other ≡ latest_in m other
with_database-add name other m (err e, k) = refl
with_database-add name other m (fatal e, k) = refl
with_database-add name other m (ok d, k) =
    elim (Result-cases (add_mounted_apex m.database name false d)) [
      | inl (db, e) ↦ rw e (latest_path-add m.database db name other d e)
      | inr (inl (t, e)) ↦ rw e refl
      | inr (inr (t, e)) ↦ rw e refl
    ]

pub mount_package-latest :
    (s : Services) (apex : ApexFile) (mount_point name other : String) (m : Machine)
    → latest_in (mount_package s apex mount_point name m).1 other ≡ latest_in m other
unfolding mount_package
mount_package-latest s apex mount_point name other m = with_database-add (name_of apex) other m _

-- Where an activation ends that has to make the file the latest one, or not (`b`).
abbrev pub ActivateOutcome : Bool → ApexFile → Machine → Result (Unit {0}) × Machine → Type 0
ActivateOutcome b apex m (ok u, m') =
    (other : String)
    → (latest_in m' other
        ≡ (if b && name_of apex == other then some apex.apex_path else latest_in m other))
ActivateOutcome b apex m (err e, m') = (other : String) → latest_in m' other ≡ latest_in m other
ActivateOutcome b apex m (fatal e, m') = Unit

set_latest_at-Outcome :
    (apex : ApexFile) (m : Machine)
    → ActivateOutcome true apex m (set_latest_at (name_of apex) apex.apex_path m)
set_latest_at-Outcome apex m =
    elim (Result-cases (set_latest m.database (name_of apex) apex.apex_path)) [
      | inl (db, e) ↦
          rw e (λ other. latest_path-set_latest m.database db (name_of apex) other apex.apex_path e)
      | inr (inl (t, e)) ↦ rw e (λ other. refl)
      | inr (inr (t, e)) ↦ rw e tt
    ]

ActivateOutcome-from :
    (b : Bool) (apex : ApexFile) (m m' : Machine) (r : Result (Unit {0}) × Machine)
    → ((other : String) → latest_in m' other ≡ latest_in m other)
    → ActivateOutcome b apex m' r
    → ActivateOutcome b apex m r
ActivateOutcome-from true apex m m' (ok u, m'') same o = λ other.
    o other ∙ ap (λ p. if name_of apex == other then some apex.apex_path else p) (same other)
ActivateOutcome-from false apex m m' (ok u, m'') same o = λ other. o other ∙ same other
ActivateOutcome-from b apex m m' (err e, m'') same o = λ other. o other ∙ same other
ActivateOutcome-from b apex m m' (fatal e, m'') same o = tt

module _ (s : Services) (apex : ApexFile)
    (not_shared : apex.manifest.provide_shared_apex_libs ≡ false) where
  bind_latest :
      (m : Machine) (target source : String) (r : Result (Unit {0}))
      → ActivateOutcome true apex m
          (next (λ u. set_latest_at (name_of apex) apex.apex_path) (bound_after target source m r))
  bind_latest m target source (ok u) =
      let m' : Machine = record m { bound = (target, source) ∷ m.bound } in
      ActivateOutcome-from true apex m m' _ (λ other. refl) (set_latest_at-Outcome apex m')
  bind_latest m target source (err t) = λ other. refl
  bind_latest m target source (fatal t) = tt

  make_latest-Outcome :
      (m : Machine) (mount_point : String) (newest : Bool)
      → ActivateOutcome newest apex m (make_latest s apex mount_point newest m)
  unfolding make_latest
  make_latest-Outcome m mount_point false = λ other. refl
  make_latest-Outcome m mount_point true =
      simp not_shared (bind_latest m (get_active_mount_point apex.manifest) mount_point _)

  after_mount :
      (m : Machine) (mount_point : String) (newest : Bool) (r : Result (Unit {0}) × Machine)
      → ((other : String) → latest_in r.1 other ≡ latest_in m other)
      → ActivateOutcome newest apex m (next (λ u. make_latest s apex mount_point newest) r)
  after_mount m mount_point newest (ok u, m') same =
      ActivateOutcome-from newest apex m m' _ same (make_latest-Outcome m' mount_point newest)
  after_mount m mount_point newest (err e, m') same = same
  after_mount m mount_point newest (fatal e, m') same = tt

  then_done :
      (b : Bool) (m : Machine) (r : Result (Unit {0}) × Machine)
      → ActivateOutcome b apex m r
      → ActivateOutcome b apex m (next (λ u. lift (ok tt)) r)
  then_done b m (ok u, m') o = o
  then_done b m (err e, m') o = o
  then_done b m (fatal e, m') o = o

  mount_unless-latest :
      (mounted : Bool) (mount_point name other : String) (m : Machine)
      → latest_in (mount_unless mounted s apex mount_point name m).1 other ≡ latest_in m other
  mount_unless-latest true mount_point name other m = refl
  mount_unless-latest false mount_point name other m =
      mount_package-latest s apex mount_point name other m

  activate_seen-Outcome :
      (m : Machine) (name : String) (seen : Seen)
      → ActivateOutcome
          (not seen.version_found_active && seen.is_newest_version)
          apex
          m
          (activate_seen s apex name seen m)
  unfolding activate_seen
  activate_seen-Outcome m name seen = elim (Bool-cases seen.version_found_active) [
    | inl t ↦ simp (t, not_shared) (λ other. refl)
    | inr f ↦
        simp (f, not_shared)
          (then_done seen.is_newest_version m _ (
            after_mount m (get_package_mount_point apex.manifest) seen.is_newest_version _ (λ other.
              mount_unless-latest seen.version_found_mounted (get_package_mount_point apex.manifest)
                name other m)))
  ]

  becomes_latest-see :
      (m : Machine)
      → not (see m apex).version_found_active && (see m apex).is_newest_version
        ≡ becomes_latest m apex
  unfolding see
  becomes_latest-see m =
      ap (λ b. not (see m apex).version_found_active && b)
        (see_mounts-newest m (to_uint64 (version_of apex))
          (mounts_of m.database (name_of apex) false) nothing_seen)

  after_shim :
      (m : Machine) (name : String) (r : Result (Unit {0}))
      → ActivateOutcome
          (becomes_latest m apex)
          apex
          m
          (next (λ u m'. activate_seen s apex name (see m' apex) m') (r, m))
  after_shim m name (ok u) = rw (← becomes_latest-see m) (activate_seen-Outcome m name (see m apex))
  after_shim m name (err e) = λ other. refl
  after_shim m name (fatal e) = tt

pub activate_package_impl-latest :
    (s : Services) (apex : ApexFile) (name : String) (m : Machine)
    → apex.manifest.provide_shared_apex_libs ≡ false
    → ActivateOutcome (becomes_latest m apex) apex m (activate_package_impl s apex name m)
unfolding activate_package_impl
activate_package_impl-latest s apex name m not_shared =
    elim (Bool-cases (is_valid_package_name (name_of apex))) [
      | inl t ↦ simp t (after_shim s apex not_shared m name (validate_shim s apex))
      | inr f ↦ simp f (λ other. refl)
    ]
