-- ===== src/Database.antt =====
-- apexd/apex_database.h: the database of mounted APEXes. A `std::map` is a list in the order of its
-- keys, which is the order of its iteration. A method that a failed `CHECK` or `LOG(FATAL)` ends
-- returns `fatal`. Every method runs under the one mutex, so a call is one step.
pub mod Latest
pub mod Devices
pub mod Invariant
use Prim.Native.Nat.{Ordering}
use Prim.Native.String.{compare}
use platform_system_apex.Base.{
  ℕ, String, Bool, true, false, ◌&&◌, not, Option, none, some, List, [], ◌∷◌, ◌++◌, ◌==◌, leb, same,
  push_front, keep, count_if, if◌then◌else◌,
}
use platform_system_apex.Base.Result.{Result, ok, fatal, ◌>>=◌, ◌>>◌, check}

pub record MountedApexData : Type 0 where
  pub loop_name : String
  pub full_path : String
  pub mount_point : String
  pub device_name : String
  pub hashtree_loop_name : String
  pub deleted : Bool
  pub is_temp_mount : Bool

abbrev pub is_less : Ordering → Bool
is_less Ordering.lt = true
is_less _ = false

-- One `compare_val` and its two early returns.
abbrev then_by : Ordering → Bool → Bool
then_by Ordering.lt rest = true
then_by Ordering.gt rest = false
then_by Ordering.eq rest = rest

-- `operator<`. The two flags are not compared.
unfoldable pub data_lt : MountedApexData → MountedApexData → Bool
data_lt a b = then_by (compare a.loop_name b.loop_name) (
    then_by (compare a.full_path b.full_path) (
      then_by (compare a.mount_point b.mount_point) (
        then_by (compare a.device_name b.device_name)
          (is_less (compare a.hashtree_loop_name b.hashtree_loop_name)))))

-- The mounts of one package, each with its "latest" mark.
abbrev pub PackageMap : Type 0
PackageMap = List (MountedApexData × Bool)

pub record Database : Type 0 where
  pub mounted_apexes : List (String × PackageMap)

abbrev pub empty : Database
empty = record { mounted_apexes = [] }

-- `std::map::find` on the outer map.
unfoldable pub find : String → List (String × PackageMap) → Option PackageMap
find name [] = none
find name ((p, m) ∷ rest) = if p == name then some m else find name rest

-- `std::map::emplace` on the outer map, for a key that is not there.
unfoldable pub insert_package :
    String → PackageMap → List (String × PackageMap) → List (String × PackageMap)
insert_package name m [] = (name, m) ∷ []
insert_package name m ((p, n) ∷ rest) =
    let later = (p, n) ∷ insert_package name m rest in
    if is_less (compare name p) then (name, m) ∷ (p, n) ∷ rest else later

-- A write to `it->second`, for a key that is there.
unfoldable pub update :
    String → PackageMap → List (String × PackageMap) → List (String × PackageMap)
update name m [] = []
update name m ((p, n) ∷ rest) =
    let later = (p, n) ∷ update name m rest in if p == name then (p, m) ∷ rest else later

-- The outer map after the entry of `name`, created where it is missing, has become `m`.
unfoldable pub put : String → PackageMap → List (String × PackageMap) → List (String × PackageMap)
unfolding find insert_package update
put name m packages = elim (find name packages) [
  | none ↦ insert_package name m packages
  | some n ↦ update name m packages
]

-- `std::map::emplace` on the inner map; `none` where an equivalent key is there.
unfoldable pub emplace : MountedApexData → Bool → PackageMap → Option PackageMap
unfolding data_lt
emplace d latest [] = some ((d, latest) ∷ [])
emplace d latest ((e, l) ∷ rest) =
    let later = push_front (e, l) (emplace d latest rest) in
    if data_lt d e then some ((d, latest) ∷ (e, l) ∷ rest) else if data_lt e d then later else none

abbrev pub is_latest : MountedApexData × Bool → Bool
is_latest p = p.1

abbrev pub count_latest : PackageMap → ℕ
count_latest = count_if is_latest

unfoldable pub check_at_most_one_latest : List (String × PackageMap) → Result (Unit {0})
check_at_most_one_latest [] = ok tt
check_at_most_one_latest ((p, m) ∷ rest) =
    check (leb (count_latest m) 1) p >> check_at_most_one_latest rest

-- The two sets of `CheckUniqueLoopDm`.
pub record DeviceNames : Type 0 where
  pub loop_devices : List String
  pub dm_devices : List String

abbrev pub contains : List String → String → Bool
contains [] x = false
contains (y ∷ ys) x = let rest = contains ys x in if y == x then true else rest

-- `CHECK(names.insert(x).second)`, skipped for the empty name.
abbrev pub insert_name : String → List String → Result (List String)
insert_name x names =
    if x == "" then ok names else if contains names x then fatal x else ok (x ∷ names)

unfoldable pub check_data : MountedApexData → DeviceNames → Result DeviceNames
check_data d names = do
  loops ← insert_name d.loop_name names.loop_devices
  dms ← insert_name d.device_name names.dm_devices
  loops' ← insert_name d.hashtree_loop_name loops
  ok (record { loop_devices = loops'; dm_devices = dms })

unfoldable pub check_package : PackageMap → DeviceNames → Result DeviceNames
unfolding check_data
check_package [] names = ok names
check_package ((d, l) ∷ rest) names = check_data d names >>= check_package rest

unfoldable pub check_unique_from : List (String × PackageMap) → DeviceNames → Result DeviceNames
unfolding check_package
check_unique_from [] names = ok names
check_unique_from ((p, m) ∷ rest) names = check_package m names >>= check_unique_from rest

unfoldable pub check_unique_loop_dm : List (String × PackageMap) → Result DeviceNames
unfolding check_unique_from
check_unique_loop_dm packages =
    check_unique_from packages (record { loop_devices = []; dm_devices = [] })

abbrev pub or_empty : Option PackageMap → PackageMap
or_empty none = []
or_empty (some m) = m

abbrev pub or_fatal {ℓ} : {A : Type ℓ} → Option A → String → Result A
or_fatal none e = fatal e
or_fatal (some a) e = ok a

-- The two checks that end `AddMountedApexLocked`.
unfoldable pub add_checks : List (String × PackageMap) → Result Database
unfolding check_at_most_one_latest check_unique_loop_dm
add_checks packages = do
  check_at_most_one_latest packages
  names ← check_unique_loop_dm packages
  ok (record { mounted_apexes = packages })

unfoldable pub add_mounted_apex : Database → String → Bool → MountedApexData → Result Database
unfolding find put emplace add_checks
add_mounted_apex db name latest d = do
  m ← or_fatal (emplace d latest (or_empty (find name db.mounted_apexes))) "CHECK(check_it.second)"
  add_checks (put name m db.mounted_apexes)

-- The test of `RemoveMountedApex`.
abbrev pub is_mount_of : String → Bool → MountedApexData × Bool → Bool
is_mount_of full_path temp p = p.0.full_path == full_path && same p.0.is_temp_mount temp

unfoldable pub erase_first : String → Bool → PackageMap → PackageMap
erase_first full_path temp [] = []
erase_first full_path temp (p ∷ rest) =
    if is_mount_of full_path temp p then rest else p ∷ erase_first full_path temp rest

unfoldable pub remove_mounted_apex : Database → String → String → Bool → Database
unfolding find update erase_first
remove_mounted_apex db name full_path match_temp_mounts = elim (find name db.mounted_apexes) [
  | none ↦ db
  | some m ↦ record {
    mounted_apexes = update name (erase_first full_path match_temp_mounts m) db.mounted_apexes;
  }
]

abbrev pub unmark : PackageMap → PackageMap
unmark [] = []
unmark ((d, l) ∷ rest) = (d, false) ∷ unmark rest

-- The loop of `SetLatestLocked`: the first entry of that path is marked, and no other.
unfoldable pub mark_latest : String → PackageMap → Option PackageMap
mark_latest full_path [] = none
mark_latest full_path ((d, l) ∷ rest) =
    let later = push_front (d, false) (mark_latest full_path rest) in
    if d.full_path == full_path then some ((d, true) ∷ unmark rest) else later

unfoldable pub set_latest : Database → String → String → Result Database
unfolding find update mark_latest
set_latest db name full_path = do
  m ← or_fatal (find name db.mounted_apexes) "CHECK(it != mounted_apexes_.end())"
  m' ← or_fatal (mark_latest full_path m) "Did not find"
  ok (record { mounted_apexes = update name m' db.mounted_apexes })

abbrev pub has_temp : Bool → MountedApexData × Bool → Bool
has_temp true p = p.0.is_temp_mount
has_temp false p = not p.0.is_temp_mount

-- What `ForallMountedApexes` of one package hands to its handler, in order.
unfoldable pub mounts_of : Database → String → Bool → PackageMap
unfolding find
mounts_of db name match_temp_mounts =
    keep (has_temp match_temp_mounts) (or_empty (find name db.mounted_apexes))

-- The same for all packages, each mount with its package.
abbrev with_package : String → PackageMap → List (String × MountedApexData × Bool)
with_package p [] = []
with_package p ((d, l) ∷ rest) = (p, d, l) ∷ with_package p rest

unfoldable pub all_mounts :
    List (String × PackageMap) → Bool → List (String × MountedApexData × Bool)
all_mounts [] temp = []
all_mounts ((p, m) ∷ rest) temp = with_package p (keep (has_temp temp) m) ++ all_mounts rest temp

-- The handler of `GetLatestMountedApex` overwrites `ret`, so the last mark counts.
abbrev pub last_latest : Option MountedApexData → PackageMap → Option MountedApexData
last_latest ret [] = ret
last_latest ret ((d, l) ∷ rest) = last_latest (if l then some d else ret) rest

unfoldable pub get_latest_mounted_apex : Database → String → Option MountedApexData
unfolding mounts_of
get_latest_mounted_apex db name = last_latest none (mounts_of db name false)
