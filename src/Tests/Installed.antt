-- ===== src/Tests/Installed.antt =====
-- A device on which a package is updated without a reboot.
use platform_system_apex.Base.{String, true, false, some, [], ◌∷◌, ◌≡◌, refl, ◌^^◌, inr}
use platform_system_apex.Base.Int.{pos}
use platform_system_apex.Base.Result.{ok, err}
use platform_system_apex.ApexFile.{ApexFile}
use platform_system_apex.Database.{MountedApexData}
use platform_system_apex.Tests.{apex, repository, wifi_system}
use platform_system_apex.ApexFile.{name_of}
use platform_system_apex.Repository.{get_pre_installed_apex}
use platform_system_apex.Base.{ap, Member, inl}
use platform_system_apex.Mount.{Device, Resources}
use platform_system_apex.Mount.Package.{mount_package_impl}
use platform_system_apex.Mount.Release.{Obliging, MountResult, mount_package_impl-releases}
use platform_system_apex.Machine.{Machine, Services}

abbrev device : Device
device = record {
  can_stat = λ path. true;
  can_mkdir = λ path. true;
  can_rmdir = λ path. true;
  is_empty_directory = λ path. true;
  create_loop_device = λ attempt path. ok ("/dev/block/loop:" ^^ path);
  can_clear_loop = λ name. true;
  verify_apex_verity =
      λ file key. ok (record { tree_size = 0; image_size = 4096; root_digest = "digest" });
  prepare_hash_tree = λ file verity path. ok tt;
  create_dm_device = λ name. some ("/dev/block/" ^^ name);
  can_delete_dm = λ name. true;
  configure_read_ahead = λ path. ok tt;
  read_verity_device = λ path size. ok tt;
  can_delete_dm_deferred = λ name. true;
  is_not_mounted = λ path. false;
  can_mount = λ block path fs_type no_exec. true;
  can_umount = λ path. true;
  verify_mounted_image =
      λ file path. err "Manifest inside filesystem does not match manifest outside it";
}

abbrev resources : Resources
resources = record {
  mount_dirs = "/apex/wifi@2" ∷ "/apex/wifi" ∷ [];
  loops = "/dev/block/loop1" ∷ "/dev/block/loop2" ∷ [];
  devices = "wifi@2" ∷ [];
  mounts = ("/dev/block/wifi@2", "/apex/wifi@2") ∷ [];
}

abbrev image : String → ApexFile
image path = record (apex path "wifi" (pos 3)) {
  image_offset = some (pos 4096);
  image_size = some 8192;
  fs_type = some "ext4";
}

obliging : Obliging device "/apex/wifi@3"
obliging = record { clears = λ name. refl; deletes = λ name. refl; removes = refl; unmounts = refl }

mount_package_impl-releases_example :
    MountResult (image "/data/apex/active/wifi@3.apex") "/apex/wifi@3" false resources (
      mount_package_impl device repository
        (image "/data/apex/active/wifi@3.apex")
        "/apex/wifi@3"
        "wifi@3"
        "/data/apex/hashtree/wifi@3"
        false
        false
        resources)
mount_package_impl-releases_example =
    mount_package_impl-releases device repository (image "/data/apex/active/wifi@3.apex")
      "/apex/wifi@3" "wifi@3" "/data/apex/hashtree/wifi@3" false false resources obliging refl

abbrev pub services : Services
services = record {
  device = record device { verify_mounted_image = λ file path. ok tt };
  repo = repository;
  active_apex_data_dir = "/data/apex/active";
  apex_hash_tree_dir = "/data/apex/hashtree";
  can_link = λ from to. true;
  can_unlink = λ path. true;
  bind_mount = λ target source. ok tt;
  activate_shared_libs_package = λ path. ok tt;
  is_shim_apex = λ file. false;
  verify_package_boot = λ file. ok tt;
  get_subdirs = λ path. ok [];
}

abbrev active_mount : MountedApexData
active_mount = record {
  loop_name = "/dev/block/loop1";
  full_path = "/data/apex/active/wifi@2.apex";
  mount_point = "/apex/wifi@2";
  device_name = "wifi@2";
  hashtree_loop_name = "/dev/block/loop2";
  deleted = false;
  is_temp_mount = false;
}

abbrev active_wifi : ApexFile
active_wifi = apex "/data/apex/active/wifi@2.apex" "wifi" (pos 2)

abbrev pub machine : Machine
machine = record {
  resources = resources;
  database = record { mounted_apexes = ("wifi", (active_mount, true) ∷ []) ∷ [] };
  files =
      ("/data/apex/active/wifi@2.apex", inr active_wifi)
      ∷ ("/data/app-staging/wifi.apex", inr (image "/data/app-staging/wifi.apex"))
      ∷ [];
  bound = ("/apex/wifi", "/apex/wifi@2") ∷ [];
}

wifi_only :
    (a : ApexFile)
    → Member a (active_wifi ∷ [])
    → get_pre_installed_apex repository (name_of a) ≡ ok wifi_system
unfolding get_pre_installed_apex
wifi_only a (inl e) = ap (λ b. get_pre_installed_apex repository (name_of b)) e
wifi_only a (inr e) = absurd e
