-- ===== src/ApexFile.antt =====
-- apexd/apex_file.h, apexd/apex_manifest.cpp and proto/apex_manifest.proto: an opened APEX file and
-- its manifest. What reads the zip container stays outside: a file is what `ApexFile::Open` found.
pub mod PackageId
use Prim.Native.Char.{Char}
use platform_system_apex.Base.{
  ℕ, zero, suc, ◌/◌, ◌%◌, String, ◌^^◌, Bool, Option, none, some, List, ◌==◌, ltb, if◌then◌else◌,
  eqb,
}
use platform_system_apex.Base.Int.{ℤ, pos, negsuc, eqb_ℤ}
use platform_system_apex.Base.Result.{Result, ok, err}

-- `apex.proto.ApexManifest`
pub record ApexManifest : Type 0 where
  pub name : String
  pub version : ℤ  -- int64
  pub version_name : String
  pub pre_install_hook : String
  pub post_install_hook : String
  pub no_code : Bool
  pub provide_native_libs : List String
  pub require_native_libs : List String
  pub jni_libs : List String
  pub require_shared_apex_libs : List String
  pub provide_shared_apex_libs : Bool
  pub original_apex_digest : String  -- capexMetadata.originalApexDigest
  pub supports_rebootless_update : Bool

pub record ApexFile : Type 0 where
  pub apex_path : String
  pub image_offset : Option ℤ  -- int32
  pub image_size : Option ℕ
  pub manifest : ApexManifest
  pub apex_pubkey : String
  pub fs_type : Option String
  pub is_compressed : Bool

abbrev pub name_of : ApexFile → String
name_of a = a.manifest.name

abbrev pub version_of : ApexFile → ℤ
version_of a = a.manifest.version

digit : ℕ → Char
digit zero = "0"
digit (suc zero) = "1"
digit (suc (suc zero)) = "2"
digit (suc (suc (suc zero))) = "3"
digit (suc (suc (suc (suc zero)))) = "4"
digit (suc (suc (suc (suc (suc zero))))) = "5"
digit (suc (suc (suc (suc (suc (suc zero)))))) = "6"
digit (suc (suc (suc (suc (suc (suc (suc zero))))))) = "7"
digit (suc (suc (suc (suc (suc (suc (suc (suc zero)))))))) = "8"
digit (suc (suc (suc (suc (suc (suc (suc (suc (suc n))))))))) = "9"

-- The decimal digits of `n` in front of `out`; the fuel `n + 1` is enough.
digits : ℕ → ℕ → String → String
unfolding digit
digits zero n out = out
digits (suc fuel) n out =
    let more = digits fuel (n / 10) (String.◌∷◌ (digit (n % 10)) out) in
    if ltb n 10 then String.◌∷◌ (digit n) out else more

-- `std::to_string` of an `int64_t`
unfoldable pub to_string : ℤ → String
unfolding digits
to_string (pos n) = digits (suc n) n ""
to_string (negsuc n) = String.◌∷◌ "-" (digits (suc (suc n)) (suc n) "")

unfoldable pub get_package_id : ApexManifest → String
get_package_id m = m.name ^^ "@" ^^ to_string m.version

-- The required fields, after the bytes have been read as a message or not.
unfoldable pub parse_manifest : Option ApexManifest → Result ApexManifest
parse_manifest content = elim content [
  | none ↦ err "Can't parse APEX manifest."
  | some m ↦
      if m.name == ""
      then err "Missing required field \"name\" from APEX manifest."
      else if eqb_ℤ m.version (pos 0)
      then err "Missing required field \"version\" from APEX manifest."
      else ok m
]

-- `GetPackageMountPoint`, `GetPackageTempMountPoint` and `GetActiveMountPoint` of apexd.cpp
unfoldable pub get_package_mount_point : ApexManifest → String
unfolding get_package_id
get_package_mount_point m = "/apex" ^^ "/" ^^ get_package_id m

unfoldable pub get_package_temp_mount_point : ApexManifest → String
unfolding get_package_mount_point
get_package_temp_mount_point m = get_package_mount_point m ^^ ".tmp"

unfoldable pub get_active_mount_point : ApexManifest → String
get_active_mount_point m = "/apex" ^^ "/" ^^ m.name
