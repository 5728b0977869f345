-- ===== src/Database/Invariant.antt =====
-- What holds of the database of apexd/apex_database.h between two calls, whatever the calls.
use platform_system_apex.Base.{
  ℕ, ◌+◌, ◌≤◌, String, Bool, some, List, [], ◌∷◌, ◌≡◌, refl, inl, inr, ◌==◌, arith, Option-cases,
  All, Bool-cases,
}
use platform_system_apex.Base.Result.{ok}
use platform_system_apex.Database.{
  MountedApexData, PackageMap, Database, empty, find, update, erase_first, mark_latest, unmark,
  add_mounted_apex, remove_mounted_apex, set_latest, count_latest,
}
use platform_system_apex.Database.Latest.{count_latest-mark_latest, add_mounted_apex-Added}
use platform_system_apex.Database.Devices.{
  total, total_all, loop_uses, dm_uses, IsUnique, check_unique_loop_dm-IsUnique, AtMostOneLatest,
  check_at_most_one_latest-All,
}

-- At most one entry of each package is latest, and no device backs two mounts.
pub record IsValid (db : Database) : Type 0 where
  pub latest : All AtMostOneLatest db.mounted_apexes
  pub unique : IsUnique db.mounted_apexes

-- The calls that change the database.
pub data Step : Database → Database → Type 0 where
  add :
      {db db' : Database} (name : String) (latest : Bool) (d : MountedApexData)
      → add_mounted_apex db name latest d ≡ ok db'
      → Step db db'
  remove :
      {db db' : Database} (name path : String) (temp : Bool)
      → remove_mounted_apex db name path temp ≡ db'
      → Step db db'
  mark : {db db' : Database} (name path : String) → set_latest db name path ≡ ok db' → Step db db'
  reset : {db : Database} → Step db empty

pub data Reach (a : Database) : Database → Type 0 where
  here : Reach a a
  next : {b c : Database} → Reach a b → Step b c → Reach a c

add-IsValid :
    (db db' : Database) (name : String) (latest : Bool) (d : MountedApexData)
    → add_mounted_apex db name latest d ≡ ok db'
    → IsValid db'
add-IsValid db db' name latest d h =
    let (m, a) = add_mounted_apex-Added db db' name latest d h in
    record {
      latest = rw a.stored (check_at_most_one_latest-All _ a.latest_checked);
      unique = rw a.stored (check_unique_loop_dm-IsUnique _ a.devices_checked);
    }

-- A package whose entries use the devices no more than before leaves the whole so.
total_all-update :
    (f : MountedApexData → ℕ) (k : String) (m n : PackageMap) (l : List (String × PackageMap))
    → find k l ≡ some n
    → total_all f (update k m l) + total f n ≡ total_all f l + total f m
unfolding find update
total_all-update f k m n [] h = ground arith
total_all-update f k m n ((i, o) ∷ rest) h = ground (arith, total_all-update f k m n rest)

latest-update :
    (k : String) (m : PackageMap) (l : List (String × PackageMap))
    → count_latest m ≤ 1
    → All AtMostOneLatest l
    → All AtMostOneLatest (update k m l)
unfolding update
latest-update k m [] c h = tt
latest-update k m ((i, o) ∷ rest) c h = ground (arith, latest-update k m rest c h.1)

find-AtMostOneLatest :
    (k : String) (m : PackageMap) (l : List (String × PackageMap))
    → find k l ≡ some m
    → All AtMostOneLatest l
    → count_latest m ≤ 1
unfolding find
find-AtMostOneLatest k m [] h v = ground arith
find-AtMostOneLatest k m ((i, o) ∷ rest) h v = elim (Bool-cases (i == k)) [
  | inl t ↦ ground arith
  | inr f ↦ find-AtMostOneLatest k m rest (ground arith) v.1
]

update-IsValid :
    (db : Database) (k : String) (m n : PackageMap)
    → IsValid db
    → find k db.mounted_apexes ≡ some n
    → count_latest m ≤ 1
    → ((f : MountedApexData → ℕ) → total f m ≤ total f n)
    → IsValid (record { mounted_apexes = update k m db.mounted_apexes })
update-IsValid db k m n v h c fewer = record {
  latest = latest-update k m db.mounted_apexes c v.latest;
  unique = record {
    loops = λ x. omega (
      arith,
      total_all-update (loop_uses x) k m n db.mounted_apexes h,
      fewer (loop_uses x),
      v.unique.loops x,
    );
    dms = λ x. omega (
      arith,
      total_all-update (dm_uses x) k m n db.mounted_apexes h,
      fewer (dm_uses x),
      v.unique.dms x,
    );
  };
}

total-erase_first :
    (f : MountedApexData → ℕ) (path : String) (temp : Bool) (m : PackageMap)
    → total f (erase_first path temp m) ≤ total f m
unfolding erase_first
total-erase_first f path temp [] = omega arith
total-erase_first f path temp ((d, l) ∷ rest) = ground (arith, total-erase_first f path temp rest)

count_latest-erase_first :
    (path : String) (temp : Bool) (m : PackageMap)
    → count_latest (erase_first path temp m) ≤ count_latest m
unfolding erase_first
count_latest-erase_first path temp [] = omega arith
count_latest-erase_first path temp ((d, l) ∷ rest) =
    ground (arith, count_latest-erase_first path temp rest)

total-unmark : (f : MountedApexData → ℕ) (m : PackageMap) → total f (unmark m) ≡ total f m
total-unmark f [] = refl
total-unmark f ((d, l) ∷ rest) = ground (arith, total-unmark f rest)

total-mark_latest :
    (f : MountedApexData → ℕ) (path : String) (m n : PackageMap)
    → mark_latest path m ≡ some n
    → total f n ≡ total f m
unfolding mark_latest
total-mark_latest f path [] n h = ground arith
total-mark_latest f path ((d, l) ∷ rest) n h = elim (Option-cases (mark_latest path rest)) [
  | inl e ↦ ground (arith, total-unmark f rest)
  | inr (m, e) ↦ ground (arith, total-unmark f rest, total-mark_latest f path rest m e)
]

remove-IsValid :
    (db : Database) (name path : String) (temp : Bool)
    → IsValid db
    → IsValid (remove_mounted_apex db name path temp)
unfolding remove_mounted_apex
remove-IsValid db name path temp v = elim (Option-cases (find name db.mounted_apexes)) [
  | inl e ↦ rw (e, remove_mounted_apex) v
  | inr (m, e) ↦
      rw (e, remove_mounted_apex)
        (update-IsValid db name (erase_first path temp m) m v e
          (omega (
            arith,
            count_latest-erase_first path temp m,
            find-AtMostOneLatest name m db.mounted_apexes e v.latest,
          ))
          (λ f. total-erase_first f path temp m))
]

set_latest-IsValid :
    (db db' : Database) (name path : String)
    → IsValid db
    → set_latest db name path ≡ ok db'
    → IsValid db'
unfolding set_latest
set_latest-IsValid db db' name path v h = elim (Option-cases (find name db.mounted_apexes)) [
  | inl e ↦ absurd (ground arith)
  | inr (m, e) ↦ elim (Option-cases (mark_latest path m)) [
    | inl f ↦ absurd (ground arith)
    | inr (n, f) ↦
        let q : record { mounted_apexes = update name n db.mounted_apexes } ≡ db' = ground arith in
        rw (← q) (
          update-IsValid db name n m v e (omega (arith, count_latest-mark_latest path m n f))
            (λ g. omega (arith, total-mark_latest g path m n f)))
  ]
]

pub Step-IsValid : {a b : Database} → Step a b → IsValid a → IsValid b
Step-IsValid {a} {b} (add name latest d h) v = add-IsValid a b name latest d h
Step-IsValid {a} {b} (remove name path temp h) v = rw (← h) (remove-IsValid a name path temp v)
Step-IsValid {a} {b} (mark name path h) v = set_latest-IsValid a b name path v h
Step-IsValid reset v = record { latest = tt; unique = omega arith }

-- From a valid database, such as the empty one, every sequence of calls that no check ends leads to
-- a database where each package has at most one latest entry and no loop device and no dm device
-- backs two mounts.
pub Reach-IsValid : {a b : Database} → IsValid a → Reach a b → IsValid b
Reach-IsValid v here = v
Reach-IsValid v (next r s) = Step-IsValid s (Reach-IsValid v r)
