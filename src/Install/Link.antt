-- ===== src/Install/Link.antt =====
-- The steps of `InstallPackage` of apexd/apexd.cpp that link the new file and activate it, and the
-- database after the old file was unmounted.
use platform_system_apex.Base.{
  ℕ, String, Bool, true, false, not, ◌&&◌, some, [], ◌∷◌, ◌≡◌, refl, ap, ◌∙◌, ◌==◌, eq_iff, eq_refl,
  arith, if◌then◌else◌, inl, inr, Bool-cases, Option-cases, keep,
}
use platform_system_apex.Base.Result.{Result, ok, err, fatal}
use platform_system_apex.Base.Steps.{next, lift}
use platform_system_apex.ApexFile.{ApexFile, name_of}
use platform_system_apex.Populate.Marks.{latest_path}
use platform_system_apex.Database.{
  PackageMap, has_temp, MountedApexData, Database, find, erase_first, remove_mounted_apex,
  mounts_of,
}
use platform_system_apex.Database.Latest.{find-update}
use platform_system_apex.Machine.{Machine, Services, St, open_apex, find_file}
use platform_system_apex.Activate.{activate_package_impl}
use platform_system_apex.Activate.Latest.{
  latest_in, ActivateOutcome, becomes_latest, activate_package_impl-latest,
}
use platform_system_apex.Activate.Files.{activate_package_impl-files}
use platform_system_apex.Install.Package.{minor_id, exists, linked, link_and_activate}

-- The entries of one package that are no temp mounts: the only one goes.
erase_only :
    (d : MountedApexData) (l : Bool) (path : String) (m : PackageMap)
    → d.full_path ≡ path
    → keep (has_temp false) m ≡ (d, l) ∷ []
    → keep (has_temp false) (erase_first path false m) ≡ []
unfolding erase_first
erase_only d l path [] q h = ground (arith, h)
erase_only d l path ((e, k) ∷ m) q h = elim (Bool-cases e.is_temp_mount) [
  | inl t ↦ ground (arith, t, h, erase_only d l path m q)
  | inr f ↦
      let first : ◌≡◌ {A = MountedApexData × Bool} (e, k) (d, l) = ground (arith, h, f) in
      let rest : keep (has_temp false) m ≡ [] = ground (arith, h, f) in
      let here : (e.full_path == path) ≡ true =
        (eq_iff e.full_path path).1 (ap (λ p. p.0.full_path) first ∙ q) in
      ground (arith, here, f, rest)
]

pub mounts_of-removed_only :
    (db : Database) (name path : String) (d : MountedApexData) (l : Bool)
    → d.full_path ≡ path
    → mounts_of db name false ≡ (d, l) ∷ []
    → mounts_of (remove_mounted_apex db name path false) name false ≡ []
unfolding mounts_of remove_mounted_apex
mounts_of-removed_only db name path d l q h = elim (Option-cases (find name db.mounted_apexes)) [
  | inl e ↦ absurd (ground (arith, h, e))
  | inr (m, e) ↦
      let k = find-update name name (erase_first path false m) m db.mounted_apexes e in
      let there : keep (has_temp false) m ≡ (d, l) ∷ [] = ground (arith, h, e) in
      let gone = erase_only d l path m q there in ground (arith, e, k, gone, eq_refl name)
]

pub latest_path-removed :
    (db : Database) (name path other : String)
    → (name == other) ≡ false
    → latest_path (remove_mounted_apex db name path false) other ≡ latest_path db other
unfolding remove_mounted_apex
latest_path-removed db name path other h = elim (Option-cases (find name db.mounted_apexes)) [
  | inl e ↦ ground (arith, e)
  | inr (m, e) ↦
      let k = find-update other name (erase_first path false m) m db.mounted_apexes e in
      ground (arith, e, k, h)
]

abbrev pub at_target : String → ApexFile → ApexFile
at_target target c = record c { apex_path = target }

abbrev pub with_file : String → ApexFile → Machine → Machine
with_file target c m = record m { files = (target, inr c) ∷ m.files }

module _ (s : Services) (package_path target : String) (c : ApexFile)
    (not_shared : c.manifest.provide_shared_apex_libs ≡ false) where
  -- The new file is opened, and perhaps made the latest one.
  abbrev pub LinkOutcome : Machine → Result ApexFile × Machine → Type 0
  LinkOutcome m (ok new, m') =
      (new ≡ at_target target c)
      × (find_file target m'.files ≡ some (inr c))
      × ((other : String)
          → latest_in m' other ≡ (
              if becomes_latest (with_file target c m) (at_target target c) && name_of c == other
              then some target
              else latest_in m other))
  LinkOutcome m (err e, m') = (other : String) → latest_in m' other ≡ latest_in m other
  LinkOutcome m (fatal e, m') = Unit

  activated :
      (m : Machine) (r : Result (Unit {0}) × Machine)
      → r.1.files ≡ (with_file target c m).files
      → ActivateOutcome
          (becomes_latest (with_file target c m) (at_target target c))
          (at_target target c)
          (with_file target c m)
          r
      → LinkOutcome m (next (λ u. lift (ok (at_target target c))) r)
  activated m (ok u, m') f o = (refl, ap (find_file target) f ∙ ground (arith, eq_refl target), o)
  activated m (err e, m') f o = o
  activated m (fatal e, m') f o = tt

  activate_new : String → ApexFile → St ApexFile
  activate_new name new m = next (λ u. lift (ok new)) (activate_package_impl s new name m)

  opened_target : (m : Machine) → open_apex target (with_file target c m) ≡ ok (at_target target c)
  unfolding open_apex
  opened_target m = rw (eq_refl target) refl

  after_link :
      (name : String) (m : Machine)
      → LinkOutcome m
          (next (activate_new name) (open_apex target (with_file target c m), with_file target c m))
  unfolding activate_new
  after_link name m = simp (opened_target m) (
      activated m _ (activate_package_impl-files s (at_target target c) name (with_file target c m))
        (activate_package_impl-latest s (at_target target c) name (with_file target c m)
          not_shared))

  linked-Outcome :
      (name : String) (taken : Bool) (m : Machine)
      → LinkOutcome m (
          next
            (λ u m'. next (activate_new name) (open_apex target m', m'))
            (linked s package_path target (some (inr c)) taken m))
  linked-Outcome name taken m = elim (Bool-cases (s.can_link package_path target && not taken)) [
    | inl t ↦ simp t (after_link name m)
    | inr f ↦ simp f (λ other. refl)
  ]

  pub link_and_activate-Outcome :
      (temp : ApexFile) (minor : ℕ) (m : Machine)
      → find_file package_path m.files ≡ some (inr c)
      → LinkOutcome m (link_and_activate s package_path temp minor target m)
  unfolding link_and_activate activate_new
  link_and_activate-Outcome temp minor m here =
      simp here (linked-Outcome (minor_id temp minor) (exists (find_file target m.files)) m)
