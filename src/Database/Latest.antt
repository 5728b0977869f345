-- ===== src/Database/Latest.antt =====
-- The "latest" mark of apexd/apex_database.h: `SetLatest` and `GetLatestMountedApex`.
use platform_system_apex.Base.{
  String, Bool, true, false, Option, none, some, List, [], ◌∷◌, ◌≡◌, refl, inl, inr, ◌==◌, eq_iff,
  arith, if◌then◌else◌, Bool-cases, Option-cases, keep, find_if, Perm,
}
use mathlib.Core.List.Perm
use platform_system_apex.Base.Result.{ok, >>=-eq-ok}
use platform_system_apex.Database.{
  MountedApexData, PackageMap, Database, find, insert_package, update, put, emplace, mark_latest,
  unmark, set_latest, count_latest, last_latest, has_temp, get_latest_mounted_apex, data_lt,
  add_mounted_apex, or_empty, add_checks, DeviceNames, check_at_most_one_latest,
  check_unique_loop_dm,
}

pub find-update :
    (j k : String) (m n : PackageMap) (l : List (String × PackageMap))
    → find k l ≡ some n
    → find j (update k m l) ≡ (if k == j then some m else find j l)
unfolding find update
find-update j k m n [] h = ground arith
find-update j k m n ((i, o) ∷ rest) h =
    ground (arith, find-update j k m n rest, eq_iff i k, eq_iff i j, eq_iff k j)

pub find-insert_package :
    (j k : String) (m : PackageMap) (l : List (String × PackageMap))
    → find k l ≡ none
    → find j (insert_package k m l) ≡ (if k == j then some m else find j l)
unfolding find insert_package
find-insert_package j k m [] h = refl
find-insert_package j k m ((i, o) ∷ rest) h =
    ground (arith, find-insert_package j k m rest, eq_iff i k, eq_iff i j, eq_iff k j)

-- A write to one package is read back, and no other package changes.
pub find-put :
    (j k : String) (m : PackageMap) (l : List (String × PackageMap))
    → find j (put k m l) ≡ (if k == j then some m else find j l)
unfolding put
find-put j k m l = elim (Option-cases (find k l)) [
  | inl e ↦ rw (e, put) (find-insert_package j k m l e)
  | inr (n, e) ↦ rw (e, put) (find-update j k m n l e)
]

count_latest-unmark : (m : PackageMap) → count_latest (unmark m) ≡ 0
count_latest-unmark [] = refl
count_latest-unmark ((d, l) ∷ rest) = count_latest-unmark rest

-- Exactly one entry is marked afterwards.
pub count_latest-mark_latest :
    (path : String) (m n : PackageMap) → mark_latest path m ≡ some n → count_latest n ≡ 1
unfolding mark_latest
count_latest-mark_latest path [] n h = ground arith
count_latest-mark_latest path ((d, l) ∷ rest) n h = elim (Option-cases (mark_latest path rest)) [
  | inl e ↦ ground (arith, count_latest-unmark rest)
  | inr (m, e) ↦ ground (arith, count_latest-unmark rest, count_latest-mark_latest path rest m e)
]

last_latest-unmark :
    (o : Option MountedApexData) (m : PackageMap)
    → last_latest o (keep (has_temp false) (unmark m)) ≡ o
last_latest-unmark o [] = refl
last_latest-unmark o ((d, l) ∷ rest) = ground (arith, last_latest-unmark o rest)

abbrev pub has_path : String → MountedApexData × Bool → Bool
has_path path p = p.0.full_path == path

-- The entry that is read back: a temp mount is not shown by `GetLatestMountedApex`.
abbrev pub unless_temp : MountedApexData → Option MountedApexData
unless_temp d = if d.is_temp_mount then none else some d

mark_latest_found :
    (path : String) (m : PackageMap) (d : MountedApexData) (l : Bool)
    → find_if (has_path path) m ≡ some (d, l)
    → (n : PackageMap) × (mark_latest path m ≡ some n)
      × (last_latest none (keep (has_temp false) n) ≡ unless_temp d)
unfolding mark_latest
mark_latest_found path [] d l h = ground arith
mark_latest_found path ((e, k) ∷ rest) d l h = elim (Bool-cases (e.full_path == path)) [
  | inl t ↦ (
    (e, true) ∷ unmark rest,
    ground arith,
    ground (arith, last_latest-unmark none rest, last_latest-unmark (some e) rest),
  )
  | inr f ↦
      let (n, found, read) = mark_latest_found path rest d l (ground arith) in
      ((e, false) ∷ n, ground arith, ground arith)
]

-- `SetLatest` succeeds where the package has an entry of that path. Then `GetLatestMountedApex`
-- gives the first such entry, or nothing where that entry is a temp mount, and its answer for
-- every other package is as before.
pub get_latest-set_latest :
    (db : Database) (name path : String) (m : PackageMap) (d : MountedApexData) (l : Bool)
    → find name db.mounted_apexes ≡ some m
    → find_if (has_path path) m ≡ some (d, l)
    → (db' : Database) × (set_latest db name path ≡ ok db')
      × ((other : String)
          → get_latest_mounted_apex db' other
            ≡ (if name == other then unless_temp d else get_latest_mounted_apex db other))
unfolding set_latest get_latest_mounted_apex
get_latest-set_latest db name path m d l h k =
    let (n, marked, read) = mark_latest_found path m d l k in
    (
      record { mounted_apexes = update name n db.mounted_apexes },
      ground arith,
      λ other. ground (arith, find-update other name n m db.mounted_apexes h, eq_iff name other),
    )

-- The new entry is put among those that are there.
pub emplace-perm :
    (d : MountedApexData) (l : Bool) (m n : PackageMap)
    → emplace d l m ≡ some n
    → Perm n ((d, l) ∷ m)
unfolding emplace
emplace-perm d l [] n h =
    let e : (d, l) ∷ [] ≡ n = ground arith in rw (← e) (Perm.refl ((d, l) ∷ []))
emplace-perm d l ((e, k) ∷ rest) n h = elim (Bool-cases (data_lt d e)) [
  | inl t ↦
      let q : (d, l) ∷ (e, k) ∷ rest ≡ n = ground arith in
      rw (← q) (Perm.refl ((d, l) ∷ (e, k) ∷ rest))
  | inr f ↦ elim (Option-cases (emplace d l rest)) [
    | inl none_left ↦ absurd (ground arith)
    | inr (m, found) ↦
        let q : (e, k) ∷ m ≡ n = ground arith in
        rw (← q)
          (Perm.trans (Perm.cons (e, k) (emplace-perm d l rest m found)) (Perm.swap _ _ rest))
  ]
]

-- The parts of a successful `AddMountedApex`.
pub record Added (db db' : Database) (name : String) (latest : Bool) (d : MountedApexData)
    (m : PackageMap) : Type 0 where
  pub placed : emplace d latest (or_empty (find name db.mounted_apexes)) ≡ some m
  pub stored : db'.mounted_apexes ≡ put name m db.mounted_apexes
  pub latest_checked : check_at_most_one_latest (put name m db.mounted_apexes) ≡ ok tt
  pub names : DeviceNames
  pub devices_checked : check_unique_loop_dm (put name m db.mounted_apexes) ≡ ok names

add_checks-Added :
    (db db' : Database) (name : String) (latest : Bool) (d : MountedApexData) (m : PackageMap)
    → emplace d latest (or_empty (find name db.mounted_apexes)) ≡ some m
    → add_checks (put name m db.mounted_apexes) ≡ ok db'
    → Added db db' name latest d m
unfolding add_checks
add_checks-Added db db' name latest d m e h =
    let ps = put name m db.mounted_apexes in
    let (_, p, q) = >>=-eq-ok (check_at_most_one_latest ps) _ h in
    let (found, r, s) = >>=-eq-ok (check_unique_loop_dm ps) _ q in
    record {
      placed = e;
      stored = ground arith;
      latest_checked = p;
      names = found;
      devices_checked = r;
    }

pub add_mounted_apex-Added :
    (db db' : Database) (name : String) (latest : Bool) (d : MountedApexData)
    → add_mounted_apex db name latest d ≡ ok db'
    → (m : PackageMap) × Added db db' name latest d m
unfolding add_mounted_apex
add_mounted_apex-Added db db' name latest d h =
    elim (Option-cases (emplace d latest (or_empty (find name db.mounted_apexes)))) [
      | inl e ↦ absurd (ground arith)
      | inr (m, e) ↦ (m, add_checks-Added db db' name latest d m e (ground arith))
    ]

-- After a successful `AddMountedApex` the entries of the package are the new mount and those it had,
-- and those of every other package are as before.
pub add_mounted_apex-perm :
    (db db' : Database) (name : String) (latest : Bool) (d : MountedApexData)
    → add_mounted_apex db name latest d ≡ ok db'
    → (m : PackageMap) × Perm m ((d, latest) ∷ or_empty (find name db.mounted_apexes))
      × ((other : String)
          → find other db'.mounted_apexes
            ≡ (if name == other then some m else find other db.mounted_apexes))
add_mounted_apex-perm db db' name latest d h =
    let (m, a) = add_mounted_apex-Added db db' name latest d h in
    (
      m,
      emplace-perm d latest _ m a.placed,
      λ other. ground (arith, a.stored, find-put other name m db.mounted_apexes, eq_iff name other),
    )
