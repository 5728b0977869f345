-- ===== src/Unmount/Temp.antt =====
-- That `UnmountTempMount` of apexd/apexd.cpp ends with no temp mount left.
use platform_system_apex.Base.{
  suc, String, Bool, true, false, none, some, List, [], ◌∷◌, ◌==◌, ◌≡◌, refl, sym, ◌∙◌, ap, arith,
  length, keep, Bool-cases, Option-cases, inl, inr, eq_refl, eq_iff,
}
use platform_system_apex.Database.{
  MountedApexData, Database, PackageMap, find, update, or_empty, erase_first, has_temp, mounts_of,
  remove_mounted_apex,
}
use platform_system_apex.Database.Latest.{find-update}
use platform_system_apex.Unmount.{
  first_data, get_temp_mounted_apex_data, also_unmounted, unmount_loop, unmount_temp_mount,
}

-- The first temp mount is the first entry of its path that is one.
erase_first_temp :
    (d : MountedApexData) (l : Bool) (m rest : PackageMap)
    → keep (has_temp true) m ≡ (d, l) ∷ rest
    → keep (has_temp true) (erase_first d.full_path true m) ≡ rest
unfolding erase_first
erase_first_temp d l [] rest h = ground (arith, h)
erase_first_temp d l ((e, k) ∷ m) rest h = elim (Bool-cases e.is_temp_mount) [
  | inl t ↦
      let q : ◌≡◌ {A = MountedApexData × Bool} (e, k) (d, l) = ground (arith, h, t) in
      let r : keep (has_temp true) m ≡ rest = ground (arith, h, t) in
      let same_path : (e.full_path == d.full_path) ≡ true =
        (eq_iff e.full_path d.full_path).1 (ap (λ p. p.0.full_path) q) in
      ground (arith, same_path, t, r)
  | inr f ↦ ground (arith, f, erase_first_temp d l m rest, h)
]

erase_first_other :
    (path : String) (m : PackageMap)
    → keep (has_temp false) (erase_first path true m) ≡ keep (has_temp false) m
unfolding erase_first
erase_first_other path [] = refl
erase_first_other path ((e, k) ∷ m) = ground (arith, erase_first_other path m)

pub removed :
    (db : Database) (name path : String) (m : PackageMap)
    → find name db.mounted_apexes ≡ some m
    → remove_mounted_apex db name path true
      ≡ record { mounted_apexes = update name (erase_first path true m) db.mounted_apexes }
unfolding remove_mounted_apex
removed db name path m e = rw (e, remove_mounted_apex) refl

pub absent :
    (db : Database) (name path : String)
    → find name db.mounted_apexes ≡ none
    → remove_mounted_apex db name path true ≡ db
unfolding remove_mounted_apex
absent db name path e = rw (e, remove_mounted_apex) refl

-- What the removal of the first temp mount leaves of the package.
mounts_of-removed :
    (db : Database) (name : String) (d : MountedApexData) (l : Bool) (rest : PackageMap)
    → mounts_of db name true ≡ (d, l) ∷ rest
    → mounts_of (remove_mounted_apex db name d.full_path true) name true ≡ rest
unfolding mounts_of
mounts_of-removed db name d l rest h = elim (Option-cases (find name db.mounted_apexes)) [
  | inl e ↦ ground (arith, h, e)
  | inr (m, e) ↦
      let here : keep (has_temp true) m ≡ (d, l) ∷ rest = ground (arith, h, e) in
      let k = find-update name name (erase_first d.full_path true m) m db.mounted_apexes e in
      let s = erase_first_temp d l m rest here in
      ap (λ x. keep (has_temp true) (or_empty (find name x.mounted_apexes)))
        (removed db name d.full_path m e)
      ∙ ap (λ x. keep (has_temp true) (or_empty x)) k
      ∙ rw (eq_refl name) s
]

mounts_of-kept :
    (db : Database) (name other path : String)
    → mounts_of (remove_mounted_apex db name path true) other false ≡ mounts_of db other false
unfolding mounts_of
mounts_of-kept db name other path = elim (Option-cases (find name db.mounted_apexes)) [
  | inl e ↦
      ap (λ x. keep (has_temp false) (or_empty (find other x.mounted_apexes)))
        (absent db name path e)
  | inr (m, e) ↦
      let k = find-update other name (erase_first path true m) m db.mounted_apexes e in
      ap (λ x. keep (has_temp false) (or_empty (find other x.mounted_apexes)))
        (removed db name path m e)
      ∙ ap (λ x. keep (has_temp false) (or_empty x)) k
      ∙ elim (Bool-cases (name == other)) [
        | inl t ↦
            let same : find other db.mounted_apexes ≡ some m =
              ap (λ n. find n db.mounted_apexes) (sym ((eq_iff name other).0 t)) ∙ e in
            rw (t, same) (erase_first_other path m)
        | inr f ↦ rw f refl
      ]
]

abbrev pub data_of : PackageMap → List MountedApexData
data_of [] = []
data_of ((d, l) ∷ rest) = d ∷ data_of rest

-- A run of the loop with as much fuel as there are temp mounts.
unmount_loop-all :
    (temps : PackageMap) (name other : String) (db : Database)
    → mounts_of db name true ≡ temps
    → ((unmount_loop (length temps) name db).0 ≡ data_of temps)
      × (mounts_of (unmount_loop (length temps) name db).1 name true ≡ [])
      × (mounts_of (unmount_loop (length temps) name db).1 other false ≡ mounts_of db other false)
unfolding unmount_loop
unmount_loop-all [] name other db h = (refl, h, refl)
unmount_loop-all ((d, l) ∷ rest) name other db h =
    let db' = remove_mounted_apex db name d.full_path true in
    let (ds, none_left, kept) =
      unmount_loop-all rest name other db' (mounts_of-removed db name d l rest h) in
    let seen : get_temp_mounted_apex_data db name ≡ some d = ap first_data h in
    let run : unmount_loop (suc (length rest)) name db
        ≡ also_unmounted d (unmount_loop (length rest) name db') =
      rw (seen, unmount_loop) refl in
    (
      ap (λ k. k.0) run ∙ ap (λ l. d ∷ l) ds,
      ap (λ k. mounts_of k.1 name true) run ∙ none_left,
      ap (λ k. mounts_of k.1 other false) run ∙ kept ∙ mounts_of-kept db name other d.full_path,
    )

-- `UnmountTempMount` ends, after as many rounds as the package has temp mounts: `Unmount` is called for
-- each of them, in order, none of them is left in the database, and the mounts of every package that
-- are no temp mounts are as before.
pub unmount_temp_mount-all :
    (name other : String) (db : Database)
    → ((unmount_temp_mount name db).0 ≡ data_of (mounts_of db name true))
      × (mounts_of (unmount_temp_mount name db).1 name true ≡ [])
      × (mounts_of (unmount_temp_mount name db).1 other false ≡ mounts_of db other false)
unfolding unmount_temp_mount
unmount_temp_mount-all name other db = unmount_loop-all (mounts_of db name true) name other db refl
