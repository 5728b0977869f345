-- ===== src/Repository.antt =====
-- apexd/apex_file_repository.cpp: the pre-installed APEXes, the APEXes on /data, and which of them is
-- which. An unordered map is a list of its entries; the order of the list stands for the order of
-- iteration, which C++ leaves open.
pub mod Data
pub mod Keys
use platform_system_apex.Base.{
  String, ◌^^◌, Bool, true, false, not, ◌||◌, ◌&&◌, Option, none, some, inl, inr, List, [], ◌∷◌,
  ◌++◌, ◌==◌, if◌then◌else◌,
}
use platform_system_apex.Base.Int.{ltb_ℤ}
use platform_system_apex.Base.Result.{Result, ok, err, fatal, ◌>>=◌}
use platform_system_apex.ApexFile.{ApexFile, name_of, version_of}
use platform_system_apex.Files.{Files, find_files_by_suffix}
use text.Mathlib.Text.{starts_with}

abbrev pub Store : Type 0
Store = List (String × ApexFile)

pub record ApexFileRepository : Type 0 where
  pub pre_installed_store : Store
  pub data_store : Store
  pub decompression_dir : String

unfoldable pub lookup : String → Store → Option ApexFile
lookup name [] = none
lookup name ((n, a) ∷ rest) = if n == name then some a else lookup name rest

-- `it->second = …` at the entry of a name.
unfoldable pub assign : String → ApexFile → Store → Store
assign name a [] = []
assign name a ((n, b) ∷ rest) = if n == name then (n, a) ∷ rest else (n, b) ∷ assign name a rest

abbrev pub is_some : Option ApexFile → Bool
is_some none = false
is_some (some a) = true

unfoldable pub has_pre_installed_version : ApexFileRepository → String → Bool
unfolding lookup
has_pre_installed_version r name = is_some (lookup name r.pre_installed_store)

unfoldable pub has_data_version : ApexFileRepository → String → Bool
unfolding lookup
has_data_version r name = is_some (lookup name r.data_store)

abbrev or_error : Option ApexFile → String → Result ApexFile
or_error none e = err e
or_error (some a) e = ok a

unfoldable pub get_public_key : ApexFileRepository → String → Result String
unfolding lookup
get_public_key r name = do
  a ←
      or_error (lookup name r.pre_installed_store)
        ("No preinstalled apex found for package " ^^ name)
  ok a.apex_pubkey

unfoldable pub get_preinstalled_path : ApexFileRepository → String → Result String
unfolding lookup
get_preinstalled_path r name = do
  a ←
      or_error (lookup name r.pre_installed_store)
        ("No preinstalled data found for package " ^^ name)
  ok a.apex_path

unfoldable pub get_data_path : ApexFileRepository → String → Result String
unfolding lookup
get_data_path r name = do
  a ← or_error (lookup name r.data_store) ("No data apex found for package " ^^ name)
  ok a.apex_path

unfoldable pub is_decompressed_apex : ApexFileRepository → ApexFile → Bool
is_decompressed_apex r a = starts_with a.apex_path r.decompression_dir

abbrev same_path_or_decompressed : ApexFileRepository → ApexFile → Option ApexFile → Bool
same_path_or_decompressed r a none = false
same_path_or_decompressed r a (some p) = p.apex_path == a.apex_path || is_decompressed_apex r a

unfoldable pub is_pre_installed_apex : ApexFileRepository → ApexFile → Bool
unfolding lookup is_decompressed_apex
is_pre_installed_apex r a = same_path_or_decompressed r a (lookup (name_of a) r.pre_installed_store)

abbrev or_abort : Option ApexFile → Result ApexFile
or_abort none = fatal "CHECK(it != end())"
or_abort (some a) = ok a

unfoldable pub get_data_apex : ApexFileRepository → String → Result ApexFile
unfolding lookup
get_data_apex r name = or_abort (lookup name r.data_store)

unfoldable pub get_pre_installed_apex : ApexFileRepository → String → Result ApexFile
unfolding lookup
get_pre_installed_apex r name = or_abort (lookup name r.pre_installed_store)

module _ (fs : Files) where
  -- A second file of a name that is known.
  unfoldable pub clash : ApexFileRepository → ApexFile → ApexFile → Result ApexFileRepository
  clash r it a =
      if not (it.apex_path == a.apex_path)
      then (if fs.starts_with (name_of a) "com.android.vndk."
            && not (fs.get_property "ro.build.version.codename" "REL" == "REL")
          then ok r
          else fatal "Found two apex packages with the same module name")
      else if not (it.apex_pubkey == a.apex_pubkey)
      then fatal "Public key of apex package has unexpectedly changed"
      else ok r

  abbrev add_built_in_found :
      ApexFileRepository → ApexFile → Option ApexFile → Result ApexFileRepository
  add_built_in_found r a none =
      ok (record r { pre_installed_store = r.pre_installed_store ++ (name_of a, a) ∷ [] })
  add_built_in_found r a (some it) = clash r it a

  -- The body of the loop of `ScanBuiltInDir`.
  unfoldable pub add_built_in : ApexFileRepository → String → Result ApexFileRepository
  unfolding lookup clash
  add_built_in r file = elim (fs.open_apex file) [
    | inl e ↦ err ("Failed to open " ^^ file ^^ " : " ^^ e)
    | inr a ↦ add_built_in_found r a (lookup (name_of a) r.pre_installed_store)
  ]

  unfoldable pub add_all_built_in : ApexFileRepository → List String → Result ApexFileRepository
  unfolding add_built_in
  add_all_built_in r [] = ok r
  add_all_built_in r (file ∷ files) = add_built_in r file >>= λ r'. add_all_built_in r' files

  unfoldable pub scan_built_in_dir : ApexFileRepository → String → Result ApexFileRepository
  unfolding add_all_built_in find_files_by_suffix
  scan_built_in_dir r dir = if fs.is_missing dir then ok r else do
    files ← find_files_by_suffix fs dir (".apex" ∷ ".capex" ∷ [])
    add_all_built_in r files

  unfoldable pub add_pre_installed_apex :
      ApexFileRepository → List String → Result ApexFileRepository
  unfolding scan_built_in_dir
  add_pre_installed_apex r [] = ok r
  add_pre_installed_apex r (dir ∷ dirs) =
      scan_built_in_dir r dir >>= λ r'. add_pre_installed_apex r' dirs

  -- The public key test of `AddDataApex`: the key of the pre-installed APEX is there and is the same.
  abbrev pub key_matches : ApexFile → Result String → Bool
  key_matches a (ok key) = a.apex_pubkey == key
  key_matches a (err e) = false
  key_matches a (fatal e) = false

  -- The end of the loop's body: the first file of a name, or one of a higher version, is taken.
  abbrev pub store_data : ApexFileRepository → ApexFile → Option ApexFile → ApexFileRepository
  store_data r a none = record r { data_store = r.data_store ++ (name_of a, a) ∷ [] }
  store_data r a (some it) =
      if ltb_ℤ (version_of it) (version_of a)
      then record r { data_store = assign (name_of a) a r.data_store }
      else r

  -- The body of the loop of `AddDataApex` for a file that opens.
  unfoldable pub add_data_file : ApexFileRepository → ApexFile → ApexFileRepository
  unfolding lookup assign has_pre_installed_version get_public_key
  add_data_file r a =
      if not (has_pre_installed_version r (name_of a))
      then r
      else if not (key_matches a (get_public_key r (name_of a)))
      then r
      else if fs.ends_with a.apex_path ".decompressed.apex"
      then r
      else store_data r a (lookup (name_of a) r.data_store)

  -- The files of a listing that open; `AddDataApex` skips the others.
  unfoldable pub opened : List String → List ApexFile
  opened [] = []
  opened (file ∷ files) = elim (fs.open_apex file) [
    | inl e ↦ opened files
    | inr a ↦ a ∷ opened files
  ]

  unfoldable pub add_data_files : ApexFileRepository → List ApexFile → ApexFileRepository
  unfolding add_data_file
  add_data_files r [] = r
  add_data_files r (a ∷ as') = add_data_files (add_data_file r a) as'

  unfoldable pub add_data_apex : ApexFileRepository → String → Result ApexFileRepository
  unfolding add_data_files opened find_files_by_suffix
  add_data_apex r dir = if fs.is_missing dir then ok r else do
    files ← find_files_by_suffix fs dir (".apex" ∷ [])
    ok (add_data_files r (opened files))

-- `GetPreInstalledApexFiles` and `GetDataApexFiles`
abbrev pub files_of : Store → List ApexFile
files_of [] = []
files_of ((n, a) ∷ rest) = a ∷ files_of rest

abbrev pub ApexGroups : Type 0
ApexGroups = List (String × List ApexFile)

-- `result[package_name].emplace_back(apex)`, on an entry made empty where it is missing.
unfoldable pub group_add : ApexFile → ApexGroups → ApexGroups
group_add a [] = (name_of a, a ∷ []) ∷ []
group_add a ((n, g) ∷ rest) =
    if n == name_of a then (n, g ++ a ∷ []) ∷ rest else (n, g) ∷ group_add a rest

unfoldable pub group_all : ApexGroups → List ApexFile → ApexGroups
unfolding group_add
group_all gs [] = gs
group_all gs (a ∷ as') = group_all (group_add a gs) as'

unfoldable pub all_apex_files_by_name : ApexFileRepository → ApexGroups
unfolding group_all
all_apex_files_by_name r = group_all [] (files_of r.pre_installed_store ++ files_of r.data_store)
