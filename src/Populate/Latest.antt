-- ===== src/Populate/Latest.antt =====
-- Which mounts `PopulateFromMounts` of apexd/apex_database.cpp takes for the latest ones.
use platform_system_apex.Base.{
  String, Bool, true, false, Option, some, List, [], ◌∷◌, ◌≡◌, refl, sym, ap, ◌∙◌, inl, inr, ◌==◌,
  ◌&&◌, eq_iff, arith, if◌then◌else◌, Bool-cases, Option-cases,
}
use platform_system_apex.Base.Int.{ℤ, pos, ltb_ℤ}
use platform_system_apex.Base.Result.{Result, ok, ◌>>=◌, >>=-eq-ok, ok_injective}
use platform_system_apex.Database.{Database, add_mounted_apex, set_latest}
use platform_system_apex.Database.Invariant.{IsValid, add, mark, Reach, here, next, Reach-IsValid}
use platform_system_apex.Populate.{
  Mounts, Dirs, Found, Populated, find_mount, version_in, set_latest_if, enter, populate_lines,
  populate_from_mounts,
}
use platform_system_apex.Populate.Marks.{latest_path, latest_path-add, latest_path-set_latest}
use platform_system_apex.Populate.Highest.{found_mounts, expected_path, expected_path-cons}

-- What `db'` shows for a package after `f` was or was not taken as the latest.
record Taken (b : Bool) (f : Found) (db : Database) (vs : List (String × ℤ)) (s : Populated)
    (p : String) : Type 0 where
  path : latest_path s.0 p ≡ (if b then some f.found_data.full_path else latest_path db p)
  version : version_in s.1 p ≡ (if b then f.found_version else version_in vs p)

set_latest_if-Taken :
    (b : Bool) (f : Found) (db : Database) (vs : List (String × ℤ)) (s : Populated) (p : String)
    → set_latest_if b f db vs ≡ ok s
    → Taken (f.found_package == p && b) f db vs s p
set_latest_if-Taken false f db vs s p h = record {
  path = ground (arith, h);
  version = ground (arith, h);
}
set_latest_if-Taken true f db vs s p h =
    let (db', marked, q) = >>=-eq-ok (set_latest db f.found_package f.found_data.full_path) _ h in
    let path = latest_path-set_latest db db' f.found_package p f.found_data.full_path marked in
    record { path = ground (arith, q, path); version = ground (arith, q) }

same_test :
    (f : Found) (vs : List (String × ℤ)) (p : String)
    → f.found_package == p && ltb_ℤ (version_in vs f.found_package) f.found_version
      ≡ f.found_package == p && ltb_ℤ (version_in vs p) f.found_version
same_test f vs p = elim (Bool-cases (f.found_package == p)) [
  | inl e ↦
      ap (λ n. f.found_package == p && ltb_ℤ (version_in vs n) f.found_version)
        ((eq_iff f.found_package p).0 e)
  | inr e ↦ ground (arith, e)
]

Taken-kept :
    (b c : Bool) (f : Found) (db db' : Database) (vs : List (String × ℤ)) (s : Populated)
    (p : String)
    → b ≡ c
    → latest_path db' p ≡ latest_path db p
    → Taken b f db' vs s p
    → Taken c f db vs s p
Taken-kept b c f db db' vs s p e kept t = record {
  path = ground (arith, e, kept, t.path);
  version = ground (arith, e, t.version);
}

enter-Taken :
    (f : Found) (db : Database) (vs : List (String × ℤ)) (s : Populated) (p : String)
    → enter f (db, vs) ≡ ok s
    → Taken (f.found_package == p && ltb_ℤ (version_in vs p) f.found_version) f db vs s p
unfolding enter
enter-Taken f db vs s p h =
    let (db', added, q) = >>=-eq-ok (add_mounted_apex db f.found_package false f.found_data) _ h in
    Taken-kept _ _ f db db' vs s p (same_test f vs p)
      (latest_path-add db db' f.found_package p f.found_data added)
      (set_latest_if-Taken (ltb_ℤ (version_in vs f.found_package) f.found_version) f db' vs s p q)

-- The mounts that were found, entered one after the other.
enter_all : List Found → Populated → Result Populated
unfolding enter
enter_all [] s = ok s
enter_all (f ∷ fs) s = enter f s >>= enter_all fs

populate_lines-enter_all :
    (m : Mounts) (dirs : Dirs) (lines : List String) (s : Populated)
    → populate_lines m dirs lines s ≡ enter_all (found_mounts m dirs lines) s
unfolding populate_lines enter_all
populate_lines-enter_all m dirs [] s = refl
populate_lines-enter_all m dirs (line ∷ lines) s = elim (Option-cases (find_mount m dirs line)) [
  | inl e ↦ simp e (populate_lines-enter_all m dirs lines s)
  | inr (f, e) ↦
      simp e (ap (λ k. enter f s >>= k) (λ i t. populate_lines-enter_all m dirs lines t i))
]

if_twice :
    (p : String) (f : Found) (fs : List Found) (v : ℤ) (before : Option String) (b : Bool)
    → expected_path p
        (if b then f.found_version else v)
        (if b then some f.found_data.full_path else before)
        fs
      ≡ (if b
          then expected_path p f.found_version (some f.found_data.full_path) fs
          else expected_path p v before fs)
if_twice p f fs v before true = refl
if_twice p f fs v before false = refl

expected-Taken :
    (p : String) (f : Found) (fs : List Found) (db : Database) (vs : List (String × ℤ))
    (s : Populated) {o : Option String}
    → Taken (f.found_package == p && ltb_ℤ (version_in vs p) f.found_version) f db vs s p
    → o ≡ expected_path p (version_in s.1 p) (latest_path s.0 p) fs
    → o ≡ expected_path p (version_in vs p) (latest_path db p) (f ∷ fs)
expected-Taken p f fs db vs s t h =
    h
    ∙ ap (λ v. expected_path p v (latest_path s.0 p) fs) t.version
    ∙ ap
        (λ o.
          expected_path p
            (if f.found_package == p && ltb_ℤ (version_in vs p) f.found_version
              then f.found_version
              else version_in vs p)
            o fs)
        t.path
    ∙ if_twice p f fs (version_in vs p) (latest_path db p) _
    ∙ sym (expected_path-cons p (version_in vs p) (latest_path db p) f fs)

enter_all-path :
    (fs : List Found) (db : Database) (vs : List (String × ℤ)) (s : Populated) (p : String)
    → enter_all fs (db, vs) ≡ ok s
    → latest_path s.0 p ≡ expected_path p (version_in vs p) (latest_path db p) fs
unfolding enter_all
enter_all-path [] db vs s p h = ground (arith, h)
enter_all-path (f ∷ fs) db vs s p h =
    let (s', entered, q) = >>=-eq-ok (enter f (db, vs)) _ h in
    let t = enter-Taken f db vs s' p entered in
    expected-Taken p f fs db vs s' (enter-Taken f db vs s' p entered)
      (enter_all-path fs s'.0 s'.1 s p q)

set_latest_if-Reach :
    (b : Bool) (f : Found) (a db : Database) (vs : List (String × ℤ)) (s : Populated)
    → set_latest_if b f db vs ≡ ok s
    → Reach a db
    → Reach a s.0
set_latest_if-Reach false f a db vs s h r = rw (← ap (λ k. k.0) (ok_injective h)) r
set_latest_if-Reach true f a db vs s h r =
    let (db', marked, q) = >>=-eq-ok (set_latest db f.found_package f.found_data.full_path) _ h in
    rw (← ap (λ k. k.0) (ok_injective q))
      (next r (mark f.found_package f.found_data.full_path marked))

enter_all-Reach :
    (fs : List Found) (a : Database) (s s' : Populated)
    → enter_all fs s ≡ ok s'
    → Reach a s.0
    → Reach a s'.0
unfolding enter_all enter
enter_all-Reach [] a s s' h r = rw (← ap (λ k. k.0) (ok_injective h)) r
enter_all-Reach (f ∷ fs) a (db, vs) s' h r =
    let (s'', entered, q) = >>=-eq-ok (enter f (db, vs)) _ h in
    let (db', added, marked) =
      >>=-eq-ok (add_mounted_apex db f.found_package false f.found_data) _ entered in
    enter_all-Reach fs a s'' s' q (
      set_latest_if-Reach _ f a db' vs s'' marked
        (next r (add f.found_package false f.found_data added)))

-- Where no check ends `PopulateFromMounts`, the database that it leaves is valid if it was before, and
-- the latest path of each package is that of the first mount that was found with the highest version
-- of the package, if that version is above 0, and else what it was before.
pub populate_from_mounts-latest :
    (m : Mounts) (dirs : Dirs) (db db' : Database)
    → populate_from_mounts m dirs db ≡ ok db'
    → IsValid db
    → IsValid db'
      × ((p : String)
          → latest_path db' p
            ≡ expected_path p (pos 0) (latest_path db p) (found_mounts m dirs m.lines))
unfolding populate_from_mounts
populate_from_mounts-latest m dirs db db' h v =
    let (s, run, q) = >>=-eq-ok (populate_lines m dirs m.lines (db, [])) _ h in
    let all : enter_all (found_mounts m dirs m.lines) (db, []) ≡ ok s =
      sym (populate_lines-enter_all m dirs m.lines (db, [])) ∙ run in
    let e : s.0 ≡ db' = ok_injective q in
    (
      rw (← e) (Reach-IsValid v (enter_all-Reach _ db (db, []) s all here)),
      λ p. ap (λ k. latest_path k p) (sym e) ∙ enter_all-path _ db [] s p all,
    )
