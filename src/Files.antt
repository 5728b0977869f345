-- ===== src/Files.antt =====
-- What the scans of apexd/apexd_utils.h and apexd/apex_file_repository.cpp read: a snapshot of the
-- file system, and the functions of android-base and of `ApexFile::Open`, which are not modelled.
use platform_system_apex.Base.{String, Bool, ◌&&◌, ◌⊎◌, inl, inr, List, any, keep, map}
use platform_system_apex.Base.Result.{Result, ok, err, ◌>>=◌}
use platform_system_apex.ApexFile.{ApexFile}

-- `std::filesystem::directory_entry`
pub record DirEntry : Type 0 where
  pub path : String
  pub filename : String
  pub is_regular_file : Bool

pub record Files : Type 0 where
  -- `access(dir, F_OK) != 0 && errno == ENOENT`
  pub is_missing : String → Bool
  -- What `std::filesystem::directory_iterator` yields, or the error that it ends with.
  pub entries : String → Result (List DirEntry)
  -- `ApexFile::Open`: the error message or the file
  pub open_apex : String → String ⊎ ApexFile
  -- `android::base`: `StartsWith`, `EndsWith` and `GetProperty`
  pub starts_with : String → String → Bool
  pub ends_with : String → String → Bool
  pub get_property : String → String → String

-- `ReadDir`, whose loop is `WalkDir`.
unfoldable pub read_dir : Files → String → (DirEntry → Bool) → Result (List String)
read_dir fs path fn = do found ← fs.entries path; ok (map (λ e. e.path) (keep fn found))

unfoldable pub find_files_by_suffix : Files → String → List String → Result (List String)
unfolding read_dir
find_files_by_suffix fs path suffix_list =
    read_dir fs path
      (λ e. any (λ suffix. e.is_regular_file && fs.ends_with e.filename suffix) suffix_list)

abbrev pub to_result {ℓ} : {A : Type ℓ} → String ⊎ A → Result A
to_result (inl e) = err e
to_result (inr a) = ok a
