-- ===== src/Populate.antt =====
-- apexd/apex_database.cpp: what apexd finds in /proc/mounts and /sys/block when it starts, and the
-- database of mounts it makes of that. The kernel's files and the functions of android-base and
-- `std::filesystem` are the record `Mounts`.
pub mod Devices
pub mod Point
pub mod Marks
pub mod Highest
pub mod Latest
use Prim.Native.Char.{Char, code}
use platform_system_apex.Base.{
  String, Bool, true, false, not, ◌&&◌, ◌||◌, Option, none, some, List, [], ◌∷◌, ◌==◌, ◌^^◌, keep,
  if◌then◌else◌, eqb, map, ◌⊎◌, inl, inr,
}
use platform_system_apex.Base.Int.{ℤ, pos, negsuc, ltb_ℤ}
use platform_system_apex.Base.Result.{Result, ok, err, ◌>>=◌, ◌>>◌}
use platform_system_apex.Database.{MountedApexData, Database, add_mounted_apex, set_latest}

pub record Mounts : Type 0 where
  -- The lines of /proc/mounts
  pub lines : List String
  -- `ReadFileToString`, where it succeeds
  pub read_file : String → Option String
  -- The entries of a directory, up to its end or to an error, which is only logged
  pub walked : String → List String
  pub is_block_file : String → Bool
  -- `std::filesystem::path`
  pub filename : String → String
  pub parent_path : String → String
  -- android-base, and `isspace`
  pub split : String → String → List String
  pub trim : String → String
  pub parse_int : String → Option ℤ
  pub starts_with : String → String → Bool
  pub ends_with : String → String → Bool
  pub consume_suffix : String → String → Option String
  pub is_space : Char → Bool

-- The three directories that `PopulateFromMounts` is given.
pub record Dirs : Type 0 where
  pub active_apex_dir : String
  pub decompression_dir : String
  pub apex_hash_tree_dir : String

pub data BlockDeviceType : Type 0 where
  unknown_device : BlockDeviceType
  loop_device : BlockDeviceType
  device_mapper_device : BlockDeviceType

-- A `BlockDevice` is its name.
unfoldable pub get_type : Mounts → String → BlockDeviceType
get_type m name =
    if m.starts_with name "loop"
    then loop_device
    else if m.starts_with name "dm-"
    then device_mapper_device
    else unknown_device

abbrev pub sys_path : String → String
sys_path name = "/sys/block" ^^ "/" ^^ name

abbrev pub dev_path : String → String
dev_path name = "/dev/block" ^^ "/" ^^ name

unfoldable pub get_property : Mounts → String → String → Result String
get_property m name property = elim (m.read_file (sys_path name ^^ "/" ^^ property)) [
  | none ↦ err "Fail to read"
  | some value ↦ ok (m.trim value)
]

unfoldable pub get_slaves : Mounts → String → List String
get_slaves m name =
    keep (λ dev. m.is_block_file (dev_path dev))
      (map m.filename (m.walked (sys_path name ^^ "/" ^^ "slaves")))

abbrev first_two : List String → String × String
first_two (a ∷ b ∷ rest) = (a, b)
first_two _ = ("", "")

unfoldable pub parse_mount_info : Mounts → String → String × String
parse_mount_info m mount_info = first_two (m.split mount_info " ")

abbrev pub or_minus_one : Option ℤ → ℤ
or_minus_one none = negsuc 0
or_minus_one (some version) = version

abbrev pub package_of : Mounts → String → List String → String × ℤ
package_of m package_id (name ∷ version ∷ []) = (name, or_minus_one (m.parse_int version))
package_of m package_id _ = (package_id, negsuc 0)

-- The version is an `int`.
unfoldable pub parse_mount_point : Mounts → String → String × ℤ
parse_mount_point m mount_point =
    package_of m (m.filename mount_point) (m.split (m.filename mount_point) "@")

abbrev pub has_at : String → Bool
has_at String.[] = false
has_at (String.◌∷◌ c s) = let rest = has_at s in if eqb (code c) 64 then true else rest

unfoldable pub is_active_mount_point : String → Bool
is_active_mount_point mount_point = not (has_at mount_point)

unfoldable pub is_data_loop_device : Mounts → Dirs → String → Bool
is_data_loop_device m dirs backing_file =
    m.starts_with backing_file dirs.active_apex_dir
    || m.starts_with backing_file dirs.decompression_dir

abbrev pub if_loop : BlockDeviceType → Result String → Result String
if_loop loop_device file = file
if_loop _ file = err "is not a loop device"

-- The loop: the type of each slave, and its backing file.
unfoldable pub backing_files : Mounts → List String → Result (List (String × String))
unfolding get_type get_property
backing_files m [] = ok []
backing_files m (dev ∷ slaves) = do
  file ← if_loop (get_type m dev) (get_property m dev "loop/backing_file")
  files ← backing_files m slaves
  ok ((dev, file) ∷ files)

-- `slaves[0]` comes first from here on.
abbrev pub swap_to_data : Mounts → Dirs → List (String × String) → List (String × String)
swap_to_data m dirs (a ∷ b ∷ []) = if is_data_loop_device m dirs a.1 then a ∷ b ∷ [] else b ∷ a ∷ []
swap_to_data m dirs slaves = slaves

-- The assignments to `*apex_data`.
abbrev pub with_loop : String × String → MountedApexData → MountedApexData
with_loop slave d = record d { loop_name = dev_path slave.0; full_path = slave.1 }

abbrev pub with_hashtree : String × String → MountedApexData → MountedApexData
with_hashtree slave d = record d { hashtree_loop_name = dev_path slave.0 }

unfoldable pub use_slaves :
    Mounts → Dirs → List (String × String) → MountedApexData → Result MountedApexData
unfolding is_data_loop_device
use_slaves m dirs (a ∷ []) d =
    if is_data_loop_device m dirs a.1
    then ok (with_loop a d)
    else err "Data loop device has unexpected backing file"
use_slaves m dirs (a ∷ b ∷ []) d =
    if not (is_data_loop_device m dirs a.1)
    then err "Data loop device has unexpected backing file"
    else if not (m.starts_with b.1 dirs.apex_hash_tree_dir)
    then err "Hashtree loop device has unexpected backing file"
    else ok (with_loop a (with_hashtree b d))
use_slaves m dirs _ d = err "dm device has unexpected number of slaves"

unfoldable pub populate_from_slaves :
    Mounts → Dirs → List String → MountedApexData → Result MountedApexData
unfolding backing_files use_slaves
populate_from_slaves m dirs (a ∷ []) d =
    backing_files m (a ∷ []) >>= λ files. use_slaves m dirs (swap_to_data m dirs files) d
populate_from_slaves m dirs (a ∷ b ∷ []) d =
    backing_files m (a ∷ b ∷ []) >>= λ files. use_slaves m dirs (swap_to_data m dirs files) d
populate_from_slaves m dirs _ d = err "dm device has unexpected number of slaves"

unfoldable pub populate_loop_info :
    Mounts → Dirs → String → MountedApexData → Result MountedApexData
unfolding get_slaves populate_from_slaves
populate_loop_info m dirs top_device d = populate_from_slaves m dirs (get_slaves m top_device) d

-- The loop that counts the spaces at the end, and `remove_suffix`.
abbrev cons_unless_space : Bool → Char → String → String
cons_unless_space true c String.[] = String.[]
cons_unless_space space c s = String.◌∷◌ c s

unfoldable pub drop_spaces : (Char → Bool) → String → String
drop_spaces is_space String.[] = String.[]
drop_spaces is_space (String.◌∷◌ c s) = cons_unless_space (is_space c) c (drop_spaces is_space s)

unfoldable pub normalize_if_deleted : Mounts → MountedApexData → MountedApexData
unfolding drop_spaces
normalize_if_deleted m d = elim (m.consume_suffix d.full_path "(deleted)") [
  | none ↦ record d { deleted = false }
  | some path ↦ record d { deleted = true; full_path = drop_spaces m.is_space path }
]

abbrev pub new_data : String → String → String → String → Bool → MountedApexData
new_data loop_name full_path mount_point device_name temp = record {
  loop_name = loop_name;
  full_path = full_path;
  mount_point = mount_point;
  device_name = device_name;
  hashtree_loop_name = "";
  deleted = false;
  is_temp_mount = temp;
}

abbrev resolve_as : Mounts → Dirs → String → String → BlockDeviceType → Result MountedApexData
resolve_as m dirs block mount_point loop_device = do
  file ← get_property m block "loop/backing_file"
  ok (
      normalize_if_deleted m
        (new_data (dev_path block) file mount_point "" (m.ends_with mount_point ".tmp")))
resolve_as m dirs block mount_point device_mapper_device = do
  name ← get_property m block "dm/name"
  d ←
      populate_loop_info m dirs block
        (new_data "" "" mount_point name (m.ends_with mount_point ".tmp"))
  ok (normalize_if_deleted m d)
resolve_as m dirs block mount_point unknown_device = err "Can't resolve"

unfoldable pub resolve_mount_info : Mounts → Dirs → String → String → Result MountedApexData
unfolding get_type get_property populate_loop_info normalize_if_deleted
resolve_mount_info m dirs block mount_point = resolve_as m dirs block mount_point (get_type m block)

-- `active_versions[package]`, which is 0 where it was not set.
abbrev pub version_in : List (String × ℤ) → String → ℤ
version_in [] name = pos 0
version_in ((p, v) ∷ rest) name = if p == name then v else version_in rest name

-- One mount of the kernel's list that is a mount of an APEX.
pub record Found : Type 0 where
  pub found_package : String
  pub found_version : ℤ
  pub found_data : MountedApexData

abbrev or_skip : (String × ℤ) → Result MountedApexData → Option Found
or_skip id (ok d) = some (record { found_package = id.0; found_version = id.1; found_data = d })
or_skip id _ = none

-- The part of the loop's body that reads the line; `none` is a `continue`.
unfoldable pub find_mount : Mounts → Dirs → String → Option Found
unfolding parse_mount_info is_active_mount_point resolve_mount_info parse_mount_point
find_mount m dirs line =
    let mount_point : String = (parse_mount_info m line).1 in
    if not (m.parent_path mount_point == "/apex")
    then none
    else if is_active_mount_point mount_point
    then none
    else or_skip (parse_mount_point m mount_point)
        (resolve_mount_info m dirs (m.filename (parse_mount_info m line).0) mount_point)

abbrev pub Populated : Type 0
Populated = Database × List (String × ℤ)

abbrev pub set_latest_if : Bool → Found → Database → List (String × ℤ) → Result Populated
set_latest_if false f db versions = ok (db, versions)
set_latest_if true f db versions = set_latest db f.found_package f.found_data.full_path >>= λ db'.
    ok (db', (f.found_package, f.found_version) ∷ versions)

-- The rest of the body.
unfoldable pub enter : Found → Populated → Result Populated
unfolding add_mounted_apex set_latest
enter f (db, versions) = add_mounted_apex db f.found_package false f.found_data >>= λ db'.
    set_latest_if (ltb_ℤ (version_in versions f.found_package) f.found_version) f db' versions

abbrev pub enter_if : Option Found → Populated → Result Populated
enter_if none state = ok state
enter_if (some f) state = enter f state

unfoldable pub populate_lines : Mounts → Dirs → List String → Populated → Result Populated
unfolding find_mount enter
populate_lines m dirs [] state = ok state
populate_lines m dirs (line ∷ lines) state =
    enter_if (find_mount m dirs line) state >>= populate_lines m dirs lines

unfoldable pub populate_from_mounts : Mounts → Dirs → Database → Result Database
unfolding populate_lines
populate_from_mounts m dirs db = populate_lines m dirs m.lines (db, []) >>= λ state. ok state.0
