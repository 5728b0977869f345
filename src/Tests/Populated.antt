-- ===== src/Tests/Populated.antt =====
-- A device with two mounts of one package, and one of another, as apexd finds it when it starts.
use text.Mathlib.Text.{starts_with}
use Prim.Native.Char.{Char, code}
use platform_system_apex.Base.{
  String, Bool, true, false, none, some, List, [], ◌∷◌, ◌≡◌, refl, ◌==◌, if◌then◌else◌, Option, eqb,
  arith,
}
use platform_system_apex.Base.Int.{pos, negsuc}
use platform_system_apex.Database.{MountedApexData, Database, empty}
use platform_system_apex.Database.Invariant.{IsValid}
use platform_system_apex.ApexFile.{get_package_mount_point}
use platform_system_apex.ApexFile.PackageId.{number_of}
use platform_system_apex.Tests.{manifest}
use platform_system_apex.Tests.Texts.{
  split, filename, parent_path, parse_int, ends_with, consume_suffix, split_once, filename_last,
  parse_int_of, lacks-Lacks,
}
use platform_system_apex.Populate.{Mounts, Dirs, populate_from_mounts, parse_mount_point}
use platform_system_apex.Populate.Point.{Documented, parse_mount_point-get_package_mount_point}
use platform_system_apex.Populate.Marks.{latest_path}
use platform_system_apex.Populate.Highest.{expected_path, found_mounts}
use platform_system_apex.Populate.Latest.{populate_from_mounts-latest}

abbrev find_text : List (String × String) → String → Option String
find_text [] path = none
find_text ((p, t) ∷ rest) path = if p == path then some t else find_text rest path

abbrev is_blank : Char → Bool
is_blank c = eqb (code c) 32

abbrev same_text : String → String
same_text s = s

abbrev dirs : Dirs
dirs = record {
  active_apex_dir = "/data/apex/active";
  decompression_dir = "/data/apex/decompressed";
  apex_hash_tree_dir = "/data/apex/hashtree";
}

abbrev always : String → Bool
always path = true

abbrev slaves_of : String → List String
slaves_of path =
    if path == "/sys/block/dm-1/slaves"
    then "/sys/block/dm-1/slaves/loop3" ∷ "/sys/block/dm-1/slaves/loop2" ∷ []
    else []

abbrev device : Mounts
device = record {
  lines =
      "/dev/block/loop1 /apex/wifi@1 ext4" ∷ "/dev/block/dm-1 /apex/wifi@2 ext4"
      ∷ "/dev/block/dm-1 /apex/wifi ext4" ∷ [];
  read_file = find_text (
      ("/sys/block/loop1/loop/backing_file", "/data/apex/active/wifi@1.apex (deleted)")
      ∷ ("/sys/block/loop2/loop/backing_file", "/data/apex/active/wifi@2.apex")
      ∷ ("/sys/block/loop3/loop/backing_file", "/data/apex/hashtree/wifi@2")
      ∷ ("/sys/block/dm-1/dm/name", "wifi@2")
      ∷ []);
  walked = slaves_of;
  is_block_file = always;
  filename = filename;
  parent_path = parent_path;
  split = split;
  trim = same_text;
  parse_int = parse_int;
  starts_with = starts_with;
  ends_with = ends_with;
  consume_suffix = consume_suffix;
  is_space = is_blank;
}

abbrev first : MountedApexData
first = record {
  loop_name = "/dev/block/loop1";
  full_path = "/data/apex/active/wifi@1.apex";
  mount_point = "/apex/wifi@1";
  device_name = "";
  hashtree_loop_name = "";
  deleted = true;
  is_temp_mount = false;
}

abbrev second : MountedApexData
second = record {
  loop_name = "/dev/block/loop2";
  full_path = "/data/apex/active/wifi@2.apex";
  mount_point = "/apex/wifi@2";
  device_name = "wifi@2";
  hashtree_loop_name = "/dev/block/loop3";
  deleted = false;
  is_temp_mount = false;
}

abbrev populated : Database
populated = record { mounted_apexes = ("wifi", (first, false) ∷ (second, true) ∷ []) ∷ [] }

empty-IsValid : IsValid empty
empty-IsValid = record { latest = tt; unique = omega arith }

populate_from_mounts-latest_example :
    IsValid populated
    × ((p : String)
        → latest_path populated p
          ≡ expected_path p (pos 0) (latest_path empty p) (found_mounts device dirs device.lines))
unfolding populate_from_mounts number_of
populate_from_mounts-latest_example =
    populate_from_mounts-latest device dirs empty populated refl empty-IsValid

documented : Documented device
documented = record {
  filename_last = filename_last;
  split_once = split_once;
  parse_int_of = parse_int_of;
}

parse_mount_point-get_package_mount_point_example :
    parse_mount_point device (get_package_mount_point (manifest "wifi" (pos 4294967298)))
    ≡ ("wifi", negsuc 0)
parse_mount_point-get_package_mount_point_example =
    parse_mount_point-get_package_mount_point device (manifest "wifi" (pos 4294967298)) documented
      (lacks-Lacks 64 "wifi" refl) (lacks-Lacks 47 "wifi" refl)
