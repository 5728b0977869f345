-- ===== src/Populate/Marks.antt =====
-- Which file of a package the database of apexd/apex_database.h marks as the latest one.
use platform_system_apex.Base.{
  String, false, Option, none, some, [], ◌∷◌, ◌≡◌, inl, inr, ◌==◌, eq_iff, arith, if◌then◌else◌,
  Bool-cases, Option-cases,
}
use platform_system_apex.Base.Result.{ok}
use platform_system_apex.Database.{
  MountedApexData, PackageMap, Database, find, emplace, mark_latest, add_mounted_apex, set_latest,
  or_empty,
}
use platform_system_apex.Database.Latest.{find-update, find-put, add_mounted_apex-Added}

-- The path of the first entry that is marked.
abbrev pub marked_path : PackageMap → Option String
marked_path [] = none
marked_path ((d, l) ∷ rest) = if l then some d.full_path else marked_path rest

abbrev pub latest_path : Database → String → Option String
latest_path db name = marked_path (or_empty (find name db.mounted_apexes))

marked_path-emplace :
    (d : MountedApexData) (m n : PackageMap)
    → emplace d false m ≡ some n
    → marked_path n ≡ marked_path m
unfolding emplace
marked_path-emplace d [] n h = ground (arith, h)
marked_path-emplace d ((e, k) ∷ rest) n h = elim (Option-cases (emplace d false rest)) [
  | inl q ↦ ground (arith, h, q)
  | inr (m, q) ↦ ground (arith, h, q, marked_path-emplace d rest m q)
]

marked_path-mark_latest :
    (path : String) (m n : PackageMap) → mark_latest path m ≡ some n → marked_path n ≡ some path
unfolding mark_latest
marked_path-mark_latest path [] n h = ground (arith, h)
marked_path-mark_latest path ((d, l) ∷ rest) n h = elim (Option-cases (mark_latest path rest)) [
  | inl q ↦ ground (arith, h, q, eq_iff d.full_path path)
  | inr (m, q) ↦
      ground (arith, h, q, eq_iff d.full_path path, marked_path-mark_latest path rest m q)
]

pub latest_path-add :
    (db db' : Database) (name other : String) (d : MountedApexData)
    → add_mounted_apex db name false d ≡ ok db'
    → latest_path db' other ≡ latest_path db other
latest_path-add db db' name other d h =
    let (m, a) = add_mounted_apex-Added db db' name false d h in
    let kept = marked_path-emplace d (or_empty (find name db.mounted_apexes)) m a.placed in
    let read = find-put other name m db.mounted_apexes in
    elim (Bool-cases (name == other)) [
      | inl t ↦
          let e : name ≡ other = (eq_iff name other).0 t in
          ground (arith, a.stored, read, kept, t, e)
      | inr f ↦ ground (arith, a.stored, read, f)
    ]

pub latest_path-set_latest :
    (db db' : Database) (name other path : String)
    → set_latest db name path ≡ ok db'
    → latest_path db' other ≡ (if name == other then some path else latest_path db other)
unfolding set_latest
latest_path-set_latest db db' name other path h =
    elim (Option-cases (find name db.mounted_apexes)) [
      | inl e ↦ absurd (ground (arith, h, e))
      | inr (m, e) ↦ elim (Option-cases (mark_latest path m)) [
        | inl g ↦ absurd (ground (arith, h, e, g))
        | inr (n, g) ↦ ground (
          arith,
          h,
          e,
          g,
          find-update other name n m db.mounted_apexes e,
          marked_path-mark_latest path m n g,
        )
      ]
    ]
