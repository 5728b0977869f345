-- ===== src/Service/Space.antt =====
-- The space for compressed APEX files: `calculateSizeForCompressedApex` and
-- `reserveSpaceForCompressedApex` of apexd/apexservice.cpp, and `ReserveSpaceForCompressedApex` of
-- apexd/apexd.cpp. The files are kept by their paths, with their sizes.
pub mod Reserved
use platform_system_apex.Base.{
  ℕ, zero, suc, String, ◌^^◌, Bool, true, false, ◌||◌, not, Option, none, some, List, [], ◌∷◌, map,
  keep, if◌then◌else◌,
}
use platform_system_apex.Base.Int.{ℤ, pos, negsuc, ◌+ℤ◌}
use platform_system_apex.Base.Result.{Result, ok, err, fatal}
use platform_system_apex.Repository.{ApexFileRepository}
use platform_system_apex.Select.{should_allocate_space_for_decompression}
use platform_system_apex.Snapshot.{look, drop}
use platform_system_apex.Service.{BinderStatus, okay, ex_service_specific, reply}

-- What one entry of a `CompressedApexInfoList` says
pub record CompressedApexInfo : Type 0 where
  pub module_name : String
  pub version_code : ℤ
  pub decompressed_size : ℤ

abbrev pub takes_space : Result Bool → Bool
takes_space (ok should) = should
takes_space (err e) = true
takes_space (fatal e) = true

-- The sum is an int64; it is not checked, and taken here as an integer.
unfoldable pub add_sizes : ApexFileRepository → List CompressedApexInfo → ℤ → ℤ
unfolding should_allocate_space_for_decompression
add_sizes instance_ [] required_size = required_size
add_sizes instance_ (i ∷ infos) required_size = add_sizes instance_ infos (
    if takes_space (should_allocate_space_for_decompression i.module_name i.version_code instance_)
    then required_size +ℤ i.decompressed_size
    else required_size)

unfoldable pub calculate_size_for_compressed_apex : ApexFileRepository → List CompressedApexInfo → ℤ
unfolding add_sizes
calculate_size_for_compressed_apex instance_ infos = add_sizes instance_ infos (pos 0)

pub record SpaceCalls : Type 0 where
  -- `FindFilesBySuffix` of the decompression directory, for ".ota.apex"
  pub can_scan : Bool
  pub is_ota_apex : String → Bool
  pub can_unlink : String → Bool
  pub can_open : String → Bool
  pub can_resize : String → Bool

abbrev pub SizeMap : Type 0
SizeMap = List (String × ℕ)

abbrev pub paths_of : SizeMap → List String
paths_of files = map (λ f. f.0) files

-- `RemoveFileIfExists`; what it answers is not looked at.
abbrev pub unlink_if : SpaceCalls → String → SizeMap → SizeMap
unlink_if calls path files = if calls.can_unlink path then drop path files else files

unfoldable pub remove_ota : SpaceCalls → List String → SizeMap → SizeMap
remove_ota calls [] files = files
remove_ota calls (path ∷ paths) files = remove_ota calls paths (unlink_if calls path files)

abbrev pub with_empty : String → SizeMap → Option ℕ → SizeMap
with_empty path files none = (path, 0) ∷ files
with_empty path files (some size) = files

-- A file that is opened with O_CREAT, and brought to its size
abbrev pub created_file : String → SizeMap → SizeMap
created_file path files = with_empty path files (look path files)

unfoldable pub reserve_file : SpaceCalls → ℕ → String → SizeMap → Result (Unit {0}) × SizeMap
reserve_file calls size path files =
    if not (calls.can_open path)
    then (err "Failed to open file for reservation", files)
    else if calls.can_resize path
    then (ok tt, (path, size) ∷ drop path (created_file path files))
    else (err "Failed to resize file", unlink_if calls path (created_file path files))

abbrev pub full_tmp : String → String
full_tmp dest_dir = dest_dir ^^ "/" ^^ "full.tmp"

-- From the clean-up of the files of an earlier OTA on
abbrev pub reserve_size : SpaceCalls → ℕ → String → SizeMap → Result (Unit {0}) × SizeMap
reserve_size calls zero path files = (ok tt, unlink_if calls path files)
reserve_size calls (suc n) path files = reserve_file calls (suc n) path files

unfoldable pub reserve_space : SpaceCalls → ℤ → String → SizeMap → Result (Unit {0}) × SizeMap
unfolding remove_ota reserve_file
reserve_space calls (negsuc n) dest_dir files = (err "Cannot reserve negative byte of space", files)
reserve_space calls (pos size) dest_dir files =
    if calls.can_scan
    then reserve_size calls size (full_tmp dest_dir)
        (remove_ota calls (keep calls.is_ota_apex (paths_of files)) files)
    else (err "Failed to clean up ota_apex", files)

abbrev pub k_ota_reserved_dir : String
k_ota_reserved_dir = "/data/apex/ota_reserved"

unfoldable pub serve_reserve :
    ApexFileRepository → SpaceCalls → List CompressedApexInfo → SizeMap → BinderStatus × SizeMap
unfolding calculate_size_for_compressed_apex reserve_space
serve_reserve instance_ calls infos files = reply ex_service_specific (
    reserve_space calls (calculate_size_for_compressed_apex instance_ infos) k_ota_reserved_dir
      files)
