-- ===== src/Tests/Repositories.antt =====
-- The theorems on the repository of APEXes and on the selection, with one package on the system
-- partition and an update of it on /data.
use platform_system_apex.Base.{
  String, true, false, some, inl, inr, List, [], ◌∷◌, ◌≡◌, refl, arith, ◌==◌, keep,
}
use platform_system_apex.Base.Int.{pos}
use platform_system_apex.Base.Result.{ok}
use platform_system_apex.ApexFile.{ApexFile}
use platform_system_apex.ApexFile.PackageId.{Lacks}
use platform_system_apex.Repository.{
  lookup, add_pre_installed_apex, add_data_files, all_apex_files_by_name, has_pre_installed_version,
  is_pre_installed_apex,
}
use platform_system_apex.Repository.Data.{Eligible, StoredFrom, add_data_files_highest}
use platform_system_apex.Repository.Keys.{IsValid, start, built_in, Scans-IsValid}
use platform_system_apex.Files.{Files}
use platform_system_apex.Select.{select_apex_for_activation, select_for_package}
use platform_system_apex.Select.Groups.{named}
use platform_system_apex.Select.Choice.{IsPair, select_for_package_truncates}
use platform_system_apex.Select.Activation.{IsReady, expected, select_apex_for_activation-expected}
use platform_system_apex.Tests.{apex, wifi_system, wifi_data, repository, files}

only_wifi : (n : String) (a b : ApexFile) → lookup n (("wifi", a) ∷ []) ≡ some b → b ≡ a
unfolding lookup
only_wifi n a b h = ground (arith, h)

on_data_is_not_pre_installed : is_pre_installed_apex repository wifi_data ≡ false
unfolding is_pre_installed_apex
on_data_is_not_pre_installed = refl

backed_wifi :
    (n : String) (b : ApexFile)
    → lookup n repository.data_store ≡ some b
    → (p : ApexFile) × (lookup n repository.pre_installed_store ≡ some p)
      × (b.apex_pubkey ≡ p.apex_pubkey)
unfolding lookup
backed_wifi n b h =
    let q : ("wifi" == n) ≡ true = ground (arith, h) in
    let e : b ≡ wifi_data = only_wifi n wifi_data b h in (wifi_system, ground (arith, q), rw e refl)

repository-IsValid : IsValid repository
unfolding lookup
repository-IsValid = record {
  pre_keyed = (refl, refl, tt);
  data_keyed = (refl, refl, tt);
  backed = backed_wifi;
}

repository-IsReady : IsReady repository
repository-IsReady = record {
  valid = repository-IsValid;
  data_outside = λ n d h. rw (only_wifi n wifi_data d h) on_data_is_not_pre_installed;
  pre_fits = λ n p h. rw (only_wifi n wifi_system p h) (omega arith, omega arith);
  data_fits = λ n d h. rw (only_wifi n wifi_data d h) (omega arith, omega arith);
}

wifi-IsPair : IsPair repository wifi_system wifi_data
unfolding is_pre_installed_apex
wifi-IsPair = record {
  pre = refl;
  on_data = refl;
  pre_fits = (omega arith, omega arith);
  data_fits = (omega arith, omega arith);
}

select_apex_for_activation-expected_example :
    (xs : List ApexFile) × (select_apex_for_activation
        (all_apex_files_by_name repository)
        repository
      ≡ ok xs)
    × ((n : String)
        → keep (named n) xs
          ≡ expected (lookup n repository.pre_installed_store) (lookup n repository.data_store))
select_apex_for_activation-expected_example =
    select_apex_for_activation-expected repository repository-IsReady

abbrev low : ApexFile
low = apex "/system/apex/wifi.apex" "wifi" (pos 4294967297)

abbrev high : ApexFile
high = apex "/data/apex/active/wifi.apex" "wifi" (pos 4294967298)

select_for_package_truncates_example :
    select_for_package repository "wifi" (low ∷ high ∷ []) ≡ ok (low ∷ high ∷ [])
unfolding has_pre_installed_version
select_for_package_truncates_example =
    select_for_package_truncates repository "wifi" low high 1 2 refl refl refl (omega arith)
      (omega arith) refl refl

eligible : Eligible files repository wifi_data
unfolding lookup
eligible = record { pre = wifi_system; installed = refl; same_key = refl; not_decompressed = refl }

add_data_files_highest_example :
    StoredFrom wifi_data
      (lookup "wifi" (add_data_files files repository (wifi_data ∷ [])).data_store)
add_data_files_highest_example =
    add_data_files_highest files repository (wifi_data ∷ []) wifi_data (inl refl) eligible

-- A system partition with one package.
abbrev system_files : Files
system_files = record files {
  entries = λ dir. ok (
      record { path = "/system/apex/wifi.apex"; filename = "wifi.apex"; is_regular_file = true }
      ∷ []);
  open_apex = λ path. inr wifi_system;
  ends_with = λ s suffix. suffix == ".apex";
}

Scans-IsValid_example : IsValid (record {
  pre_installed_store = ("wifi", wifi_system) ∷ [];
  data_store = [];
  decompression_dir = "/data/apex/decompressed";
})
unfolding add_pre_installed_apex
Scans-IsValid_example =
    Scans-IsValid "/data/apex/decompressed" (built_in system_files ("/system/apex" ∷ []) start refl)

no_at : Lacks 64 "wifi"
no_at = (ground arith, (ground arith, (ground arith, (ground arith, tt))))
