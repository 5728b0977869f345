-- ===== src/Decompress.antt =====
-- The decompression of compressed APEX files: `ProcessCompressedApex` and `ValidateDecompressedApex` of
-- apexd/apexd.cpp, and `ApexFile::Decompress` of apexd/apex_file.cpp. Not modelled: the cleaning of the
-- reserved space and the release of blocks, which touch other files and whose failures are only logged.
pub mod Valid
use platform_system_apex.Base.{
  String, Bool, true, false, not, ◌&&◌, ◌||◌, Option, none, some, List, [], ◌∷◌, ◌==◌, ◌^^◌, ◌⊎◌,
  inl, inr, if◌then◌else◌,
}
use platform_system_apex.Base.Int.{eqb_ℤ}
use platform_system_apex.Base.Result.{Result, ok, err, fatal}
use platform_system_apex.Base.Steps.{Steps, ◌>>=◌, ◌>>◌, lift, require, next}
use platform_system_apex.ApexFile.{ApexFile, version_of, get_package_id}
use platform_system_apex.Mount.{VerityData}
use platform_system_apex.Machine.{find_file, erase_file, opened_as}

-- The files, by their paths, with what `ApexFile::Open` finds in them.
abbrev pub FileMap : Type 0
FileMap = List (String × (String ⊎ ApexFile))

pub record Decompressor : Type 0 where
  -- `gConfig->decompression_dir`
  pub decompression_dir : String
  pub can_stat : String → Bool
  pub can_unlink : String → Bool
  pub can_rename : String → String → Bool
  pub can_create : String → Bool
  -- the archive is opened and has the entry of the original file; what the entry unpacks to
  pub find_original : ApexFile → Result (Unit {0})
  pub extract_entry : ApexFile → Result (String ⊎ ApexFile)
  pub restorecon_path : String → Result (Unit {0})
  pub verify_apex_verity : ApexFile → String → Result VerityData

-- `ValidateDecompressedApex`
abbrev pub check_digest : ApexFile → Result VerityData → Result (Unit {0})
check_digest capex (ok verity) =
    if capex.manifest.original_apex_digest == verity.root_digest
    then ok tt
    else err "Root digest does not match with expected root digest"
check_digest capex (err e) = err "Root digest does not match with expected root digest"
check_digest capex (fatal e) = fatal e

unfoldable pub validate_decompressed_apex : Decompressor → ApexFile → ApexFile → Result (Unit {0})
validate_decompressed_apex d capex apex =
    if not (capex.apex_pubkey == apex.apex_pubkey)
    then err "Public key of compressed APEX is different than original"
    else if not (eqb_ℤ (version_of capex) (version_of apex))
    then err "Compressed APEX has different version than decompressed APEX"
    else check_digest capex (d.verify_apex_verity apex apex.apex_pubkey)

abbrev pub if_valid : Decompressor → ApexFile → Result ApexFile → Result ApexFile
if_valid d capex (ok apex) = elim (validate_decompressed_apex d capex apex) [
  | ok u ↦ ok apex
  | err e ↦ err e
  | fatal e ↦ fatal e
]
if_valid d capex (err e) = err "Failed to open decompressed APEX"
if_valid d capex (fatal e) = fatal e

unfoldable pub open_and_validate : Decompressor → ApexFile → String → FileMap → Result ApexFile
unfolding validate_decompressed_apex
open_and_validate d capex path files = if_valid d capex (opened_as path (find_file path files))

abbrev pub is_file : Option (String ⊎ ApexFile) → Bool
is_file none = false
is_file (some c) = true

-- `PathExists`, which may fail
abbrev pub present : Decompressor → String → FileMap → Bool
present d path files = d.can_stat path && is_file (find_file path files)

abbrev pub remove_file_if_exists : Decompressor → String → FileMap → FileMap
remove_file_if_exists d path files = if d.can_unlink path then erase_file path files else files

abbrev pub decompressed_path : Decompressor → ApexFile → String
decompressed_path d capex =
    d.decompression_dir ^^ "/" ^^ get_package_id capex.manifest ^^ ".decompressed.apex"

abbrev pub ota_path : Decompressor → ApexFile → String
ota_path d capex = d.decompression_dir ^^ "/" ^^ get_package_id capex.manifest ^^ ".ota.apex"

-- What one attempt to reuse a file comes to: `none` where it goes on.
abbrev pub Decompressed : Type 0
Decompressed = Result (Option ApexFile) × FileMap

abbrev pub or_go_on : Result ApexFile → FileMap → FileMap → Decompressed
or_go_on (ok apex) files removed = (ok (some apex), files)
or_go_on (err e) files removed = (ok none, removed)
or_go_on (fatal e) files removed = (fatal e, files)

unfoldable pub reuse_decompressed : Decompressor → ApexFile → Bool → FileMap → Decompressed
reuse_decompressed d capex is_ota_chroot files =
    let path : String = decompressed_path d capex in
    if present d path files
    then or_go_on (open_and_validate d capex path files) files
        (if is_ota_chroot then files else remove_file_if_exists d path files)
    else (ok none, files)

-- `rename`
abbrev pub move_file : String → String → Option (String ⊎ ApexFile) → FileMap → FileMap
move_file from to none files = files
move_file from to (some c) files = (to, c) ∷ erase_file to (erase_file from files)

abbrev pub renamed : Decompressor → ApexFile → FileMap → Decompressed
renamed d capex files =
    let path : String = decompressed_path d capex in
    let moved : FileMap =
      move_file (ota_path d capex) path (find_file (ota_path d capex) files) files in
    if d.can_rename (ota_path d capex) path
    then or_go_on (open_and_validate d capex path moved) moved (remove_file_if_exists d path moved)
    else (ok none, files)

abbrev pub rename_if_valid : Decompressor → ApexFile → Result ApexFile → FileMap → Decompressed
rename_if_valid d capex (ok apex) files = renamed d capex files
rename_if_valid d capex (err e) files = (ok none, files)
rename_if_valid d capex (fatal e) files = (fatal e, files)

unfoldable pub reuse_ota : Decompressor → ApexFile → Bool → FileMap → Decompressed
reuse_ota d capex is_ota_chroot files =
    let path : String = ota_path d capex in
    if not (present d path files)
    then (ok none, files)
    else if is_ota_chroot
    then or_go_on (open_and_validate d capex path files) files (remove_file_if_exists d path files)
    else rename_if_valid d capex (open_and_validate d capex path files) files

-- `ApexFile::Decompress`: the destination must not exist, and goes where the extraction fails.
abbrev extracted :
    Decompressor → String → Result (String ⊎ ApexFile) → FileMap → Result (Unit {0}) × FileMap
extracted d dest (ok c) files = (ok tt, (dest, c) ∷ files)
extracted d dest (err e) files =
    (err "Could not decompress to file", remove_file_if_exists d dest ((dest, inl e) ∷ files))
extracted d dest (fatal e) files = (fatal e, files)

unfoldable pub decompress : Decompressor → ApexFile → String → Steps FileMap (Unit {0})
decompress d capex dest = do
  require capex.is_compressed "Cannot decompress an uncompressed APEX"
  lift (d.find_original capex)
  λ files.
      if d.can_create dest && not (is_file (find_file dest files))
      then extracted d dest (d.extract_entry capex) files
      else (err "Failed to open decompression destination", files)

-- The scope guard over the destination.
abbrev pub or_remove : Decompressor → String → Result ApexFile × FileMap → Result ApexFile × FileMap
or_remove d dest (ok apex, files) = (ok apex, files)
or_remove d dest (err e, files) = (err e, remove_file_if_exists d dest files)
or_remove d dest (fatal e, files) = (fatal e, files)

unfoldable pub decompress_to : Decompressor → ApexFile → String → Steps FileMap ApexFile
decompress_to d capex dest files = or_remove d dest (
    (decompress d capex dest >> lift (d.restorecon_path dest) >> λ files'.
    (open_and_validate d capex dest files', files'))
      files)

abbrev pub or_decompress :
    (FileMap → Result ApexFile × FileMap) → Decompressed → Result ApexFile × FileMap
or_decompress go_on (ok (some apex), files) = (ok apex, files)
or_decompress go_on (ok none, files) = go_on files
or_decompress go_on (err e, files) = (err e, files)
or_decompress go_on (fatal e, files) = (fatal e, files)

unfoldable pub process_compressed_apex : Decompressor → ApexFile → Bool → Steps FileMap ApexFile
process_compressed_apex d capex is_ota_chroot files =
    or_decompress
      (λ files'.
        or_decompress
          (decompress_to d capex
            (if is_ota_chroot then ota_path d capex else decompressed_path d capex))
          (reuse_ota d capex is_ota_chroot files'))
      (reuse_decompressed d capex is_ota_chroot files)

-- The loop over all files; those that fail are left out.
abbrev add_to :
    Result ApexFile × FileMap → (FileMap → List ApexFile × FileMap) → List ApexFile × FileMap
add_to (ok apex, files) rest = let (apexes, files') = rest files in (apex ∷ apexes, files')
add_to (err e, files) rest = rest files
add_to (fatal e, files) rest = ([], files)

unfoldable pub process_all_compressed :
    Decompressor → List ApexFile → Bool → FileMap → List ApexFile × FileMap
unfolding process_compressed_apex
process_all_compressed d [] is_ota_chroot files = ([], files)
process_all_compressed d (capex ∷ capexes) is_ota_chroot files =
    if capex.is_compressed
    then add_to (process_compressed_apex d capex is_ota_chroot files)
        (process_all_compressed d capexes is_ota_chroot)
    else process_all_compressed d capexes is_ota_chroot files
