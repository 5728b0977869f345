-- ===== src/Tests/Mounts.antt =====
-- The theorems on the database of mounts.
use platform_system_apex.Base.{true, false, [], ◌∷◌, refl, arith}
use platform_system_apex.Database.{MountedApexData, Database, empty, add_mounted_apex}
use platform_system_apex.Database.Invariant.{IsValid, add, here, next, Reach-IsValid}

abbrev mount : MountedApexData
mount = record {
  loop_name = "loop1";
  full_path = "/data/apex/active/wifi@2.apex";
  mount_point = "/apex/wifi@2";
  device_name = "wifi@2";
  hashtree_loop_name = "";
  deleted = false;
  is_temp_mount = false;
}

abbrev mounted : Database
mounted = record { mounted_apexes = ("wifi", (mount, true) ∷ []) ∷ [] }

empty-IsValid : IsValid empty
empty-IsValid = record { latest = tt; unique = omega arith }

Reach-IsValid_example : IsValid mounted
unfolding add_mounted_apex
Reach-IsValid_example =
    Reach-IsValid {a = empty} {b = mounted} empty-IsValid (next here (add "wifi" true mount refl))

abbrev temp_mount : MountedApexData
temp_mount = record mount {
  loop_name = "loop2";
  mount_point = "/apex/wifi@3.tmp";
  device_name = "";
  is_temp_mount = true;
}

abbrev mounted_twice : Database
mounted_twice = record { mounted_apexes = ("wifi", (mount, true) ∷ (temp_mount, false) ∷ []) ∷ [] }
