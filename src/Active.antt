-- ===== src/Active.antt =====
-- The directory of the active data APEXes and its backup, in apexd/apexd.cpp: what backs it up and
-- restores it. A call of the system can fail, as `Calls` decides. The directories hold regular files only.
pub mod RoundTrip
use platform_system_apex.Base.{
  ℕ, String, Bool, true, false, not, ◌&&◌, Option, none, some, List, [], ◌∷◌, ◌++◌, ◌^^◌, ◌==◌,
  if◌then◌else◌, is_empty, any, keep, ◌⊎◌, inl, inr,
}
use platform_system_apex.Base.Result.{Result, ok, err, fatal}
use platform_system_apex.ApexFile.{ApexManifest, ApexFile, name_of, get_package_id}

pub record Entry : Type 0 where
  pub name : String
  -- what `ApexFile::Open` finds in the file
  pub content : String ⊎ ApexFile

pub record Dirs : Type 0 where
  -- `gConfig->active_apex_data_dir` and `kApexBackupDir`, where they exist
  pub active : Option (List Entry)
  pub backup : Option (List Entry)
  -- the names in `gConfig->apex_hash_tree_dir`
  pub hashtrees : List String

pub record Calls : Type 0 where
  pub active_apex_data_dir : String
  pub can_stat : String → Bool
  pub can_list : String → Bool
  pub can_create_dir : String → Bool
  pub can_unlink : String → Bool
  pub can_link : String → String → Bool
  pub can_rename : String → String → Bool
  pub can_chmod : String → Bool
  -- `remove_all` of each file of a directory: the files that stay where it fails
  pub delete_content : List Entry → Option (List Entry)
  pub ends_with : String → String → Bool
  -- `ApexFile::Open` of a file that is in none of the directories
  pub open_apex : String → String ⊎ ApexFile
  -- `VerifyPackageBoot` and `shim::IsShimApex`
  pub verify_package_boot : ApexFile → String ⊎ Unit {0}
  pub is_shim_apex : ApexFile → Bool

abbrev pub has_entry : String → List Entry → Bool
has_entry name dir = any (λ e. e.name == name) dir

abbrev pub without : String → List Entry → List Entry
without name dir = keep (λ e. not (e.name == name)) dir

abbrev pub backup_dir : String
backup_dir = "/data/apex/backup"

abbrev pub file_path : String → String → String
file_path dir name = dir ^^ "/" ^^ name

-- An opened file knows the path it was opened by.
abbrev pub at_path : String → String ⊎ ApexFile → String ⊎ ApexFile
at_path path (inl m) = inl m
at_path path (inr apex) = inr (record apex { apex_path = path })

-- `FindFilesBySuffix` for ".apex"
unfoldable pub apex_files : Calls → String → List Entry → Result (List Entry)
apex_files calls path dir =
    if calls.can_list path
    then ok (keep (λ e. calls.ends_with e.name ".apex") dir)
    else err "Can't open the directory"

-- `DeleteDirContent`
unfoldable pub delete_dir_content : Calls → List Entry → Result (Unit {0}) × List Entry
delete_dir_content calls dir = elim (calls.delete_content dir) [
  | none ↦ (ok tt, [])
  | some left ↦ (err "Failed to delete path", left)
]

abbrev pub set_backup : Dirs → Result (Unit {0}) × List Entry → Result (Unit {0}) × Dirs
set_backup d (r, dir) = (r, record d { backup = some dir })

unfoldable pub delete_backup : Calls → Dirs → Result (Unit {0}) × Dirs
unfolding delete_dir_content
delete_backup calls d =
    if calls.can_stat backup_dir
    then elim d.backup [
      | none ↦ (ok tt, d)
      | some dir ↦ set_backup d (delete_dir_content calls dir)
    ]
    else (err "Can't clean the backup", d)

abbrev pub backup_name : ApexFile → String
backup_name apex = get_package_id apex.manifest ^^ ".apex"

-- One link of a file of the active directory into the backup.
abbrev pub link_into : Calls → String → Entry → List Entry → Result (List Entry)
link_into calls from e dir = elim e.content [
  | inl m ↦ err ("Backup failed : " ^^ m)
  | inr apex ↦
      if calls.can_link (file_path from e.name) (file_path backup_dir (backup_name apex))
        && not (has_entry (backup_name apex) dir)
      then ok (dir ++ record { name = backup_name apex; content = e.content } ∷ [])
      else err "Failed to backup"
]

-- The loop of `BackupActivePackages`: its result, and the files of the backup so far.
unfoldable pub link_all : Calls → String → List Entry → List Entry → Result (Unit {0}) × List Entry
link_all calls from [] dir = (ok tt, dir)
link_all calls from (e ∷ es) dir = elim (link_into calls from e dir) [
  | ok dir' ↦ link_all calls from es dir'
  | err m ↦ (err m, dir)
  | fatal m ↦ (fatal m, dir)
]

-- The scope guard: a backup that fails is cleaned.
abbrev pub guard_backup : Calls → Result (Unit {0}) × List Entry → Result (Unit {0}) × List Entry
guard_backup calls (ok u, dir) = (ok u, dir)
guard_backup calls (err m, dir) = (err m, (delete_dir_content calls dir).1)
guard_backup calls (fatal m, dir) = (fatal m, dir)

-- What `DeleteBackup` left in a backup directory that exists.
abbrev pub files_in : Option (List Entry) → List Entry
files_in none = []
files_in (some dir) = dir

abbrev pub fill_backup : Calls → List Entry → Result (Unit {0}) × Dirs → Result (Unit {0}) × Dirs
fill_backup calls packages (ok u, d) =
    set_backup d
      (guard_backup calls (link_all calls calls.active_apex_data_dir packages (files_in d.backup)))
fill_backup calls packages (err m, d) = (err ("Backup failed : " ^^ m), d)
fill_backup calls packages (fatal m, d) = (fatal m, d)

abbrev pub or_empty : Option (List Entry) → Option (List Entry)
or_empty none = some []
or_empty (some dir) = some dir

abbrev pub backup_listed : Calls → Dirs → Result (List Entry) → Result (Unit {0}) × Dirs
backup_listed calls d (ok packages) = fill_backup calls packages (delete_backup calls d)
backup_listed calls d (err m) = (err ("Backup failed : " ^^ m), d)
backup_listed calls d (fatal m) = (fatal m, d)

abbrev pub backup_existing : Calls → Dirs → Option (List Entry) → Result (Unit {0}) × Dirs
backup_existing calls d none = (ok tt, d)
backup_existing calls d (some dir) =
    backup_listed calls d (apex_files calls calls.active_apex_data_dir dir)

unfoldable pub backup_active_packages : Calls → Dirs → Result (Unit {0}) × Dirs
unfolding apex_files delete_backup link_all
backup_active_packages calls d =
    if calls.can_create_dir backup_dir
    then (let d' = record d { backup = or_empty d.backup } in
        if calls.can_stat calls.active_apex_data_dir
        then backup_existing calls d' d.active
        else (err "Backup failed", d'))
    else (err "Backup failed", d)

-- From the call of `DeleteDirContent` on.
abbrev pub restore_over :
    Calls → Dirs → List Entry → Result (Unit {0}) × List Entry → Result (Unit {0}) × Dirs
restore_over calls d saved (ok u, dir) =
    if calls.can_rename backup_dir calls.active_apex_data_dir
    then (if calls.can_chmod calls.active_apex_data_dir
        then (ok tt, record d { active = some saved; backup = none })
        else (
          err "Failed to restore original permissions",
          record d { active = some saved; backup = none },
        ))
    else (err "Failed to rename", record d { active = some dir })
restore_over calls d saved (err m, dir) = (err m, record d { active = some dir })
restore_over calls d saved (fatal m, dir) = (fatal m, record d { active = some dir })

abbrev pub restore_found :
    Calls → Dirs → Option (List Entry) → Option (List Entry) → Result (Unit {0}) × Dirs
restore_found calls d none _ = (err "The backup does not exist", d)
restore_found calls d (some saved) none = (err "Failed to access the active packages", d)
restore_found calls d (some saved) (some dir) =
    restore_over calls d saved (delete_dir_content calls dir)

unfoldable pub restore_active_packages : Calls → Dirs → Result (Unit {0}) × Dirs
unfolding delete_dir_content
restore_active_packages calls d =
    if calls.can_stat backup_dir
    then (if calls.can_stat calls.active_apex_data_dir
        then restore_found calls d d.backup d.active
        else restore_found calls d d.backup none)
    else (err "Failed to access the backup", d)
