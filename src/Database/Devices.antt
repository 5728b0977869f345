-- ===== src/Database/Devices.antt =====
-- `CheckUniqueLoopDm` and `CheckAtMostOneLatest` of apexd/apex_database.h, read as statements.
use platform_system_apex.Base.{
  ℕ, ◌+◌, ◌≤◌, String, List, [], ◌∷◌, ◌≡◌, ◌==◌, eq_iff, arith, if◌then◌else◌, All,
}
use platform_system_apex.Base.Result.{ok, >>=-eq-ok}
use platform_system_apex.Database.{
  MountedApexData, PackageMap, DeviceNames, contains, insert_name, check_data, check_package,
  check_unique_from, check_unique_loop_dm, check_at_most_one_latest, count_latest,
}

abbrev has : String → List String → ℕ
has x names = if contains names x then 1 else 0

-- How often a mount uses the device `x` under one of its names; the empty name is no device.
abbrev pub uses : String → String → ℕ
uses x name = if name == "" then 0 else if name == x then 1 else 0

abbrev pub loop_uses : String → MountedApexData → ℕ
loop_uses x d = uses x d.loop_name + uses x d.hashtree_loop_name

abbrev pub dm_uses : String → MountedApexData → ℕ
dm_uses x d = uses x d.device_name

abbrev pub total : (MountedApexData → ℕ) → PackageMap → ℕ
total f [] = 0
total f ((d, l) ∷ rest) = f d + total f rest

abbrev pub total_all : (MountedApexData → ℕ) → List (String × PackageMap) → ℕ
total_all f [] = 0
total_all f ((p, m) ∷ rest) = total f m + total_all f rest

has-insert_name :
    (x y : String) (names names' : List String)
    → insert_name y names ≡ ok names'
    → has x names' ≡ has x names + uses x y
has-insert_name x y names names' h = ground (arith, eq_iff y x)

-- What the check of one mount adds to the two sets.
record Adds (x : String) (l d : ℕ) (names names' : DeviceNames) : Type 0 where
  loops : has x names'.loop_devices ≡ has x names.loop_devices + l
  dms : has x names'.dm_devices ≡ has x names.dm_devices + d

Adds-trans :
    (x : String) (l d k e : ℕ) (a b c : DeviceNames)
    → Adds x l d a b
    → Adds x k e b c
    → Adds x (l + k) (d + e) a c
Adds-trans x l d k e a b c h g = omega arith

check_data-Adds :
    (x : String) (d : MountedApexData) (names names' : DeviceNames)
    → check_data d names ≡ ok names'
    → Adds x (loop_uses x d) (dm_uses x d) names names'
unfolding check_data
check_data-Adds x d names names' h =
    let (loops, p, q) = >>=-eq-ok (insert_name d.loop_name names.loop_devices) _ h in
    let (dms, r, s) = >>=-eq-ok (insert_name d.device_name names.dm_devices) _ q in
    let (loops', t, u) = >>=-eq-ok (insert_name d.hashtree_loop_name loops) _ s in
    ground (
      arith,
      has-insert_name x d.loop_name names.loop_devices loops p,
      has-insert_name x d.device_name names.dm_devices dms r,
      has-insert_name x d.hashtree_loop_name loops loops' t,
    )

check_package-Adds :
    (x : String) (m : PackageMap) (names names' : DeviceNames)
    → check_package m names ≡ ok names'
    → Adds x (total (loop_uses x) m) (total (dm_uses x) m) names names'
unfolding check_package
check_package-Adds x [] names names' h = ground arith
check_package-Adds x ((d, l) ∷ rest) names names' h =
    let (mid, p, q) = >>=-eq-ok (check_data d names) (check_package rest) h in
    Adds-trans x _ _ _ _ names mid names' (check_data-Adds x d names mid p)
      (check_package-Adds x rest mid names' q)

check_unique-Adds :
    (x : String) (ps : List (String × PackageMap)) (names names' : DeviceNames)
    → check_unique_from ps names ≡ ok names'
    → Adds x (total_all (loop_uses x) ps) (total_all (dm_uses x) ps) names names'
unfolding check_unique_from
check_unique-Adds x [] names names' h = ground arith
check_unique-Adds x ((p, m) ∷ rest) names names' h =
    let (mid, e, q) = >>=-eq-ok (check_package m names) (check_unique_from rest) h in
    Adds-trans x _ _ _ _ names mid names' (check_package-Adds x m names mid e)
      (check_unique-Adds x rest mid names' q)

-- No loop device and no dm device is used twice.
pub record IsUnique (ps : List (String × PackageMap)) : Type 0 where
  pub loops : (x : String) → total_all (loop_uses x) ps ≤ 1
  pub dms : (x : String) → total_all (dm_uses x) ps ≤ 1

pub check_unique_loop_dm-IsUnique :
    (ps : List (String × PackageMap)) {names : DeviceNames}
    → check_unique_loop_dm ps ≡ ok names
    → IsUnique ps
unfolding check_unique_loop_dm
check_unique_loop_dm-IsUnique ps {names} h = record {
  loops = λ x. ground (arith, check_unique-Adds x ps _ names h);
  dms = λ x. ground (arith, check_unique-Adds x ps _ names h);
}

abbrev pub AtMostOneLatest : String × PackageMap → Type 0
AtMostOneLatest p = count_latest p.1 ≤ 1

pub check_at_most_one_latest-All :
    (ps : List (String × PackageMap)) {u : Unit {0}}
    → check_at_most_one_latest ps ≡ ok u
    → All AtMostOneLatest ps
unfolding check_at_most_one_latest
check_at_most_one_latest-All [] h = tt
check_at_most_one_latest-All ((p, m) ∷ rest) h = ground (arith, check_at_most_one_latest-All rest)
