-- ===== src/Stage.antt =====
-- `StagePackages` and `RemovePreviouslyActiveApexFiles` of apexd/apexd.cpp, on the directories of
-- Active.antt.
pub mod Loop
pub mod Removal
pub mod Success
use platform_system_apex.Base.{
  ℕ, String, Bool, true, false, not, ◌&&◌, Option, none, some, List, [], ◌∷◌, ◌++◌, ◌^^◌, ◌==◌,
  if◌then◌else◌, is_empty, any, keep, ◌⊎◌, inl, inr,
}
use platform_system_apex.Base.Result.{Result, ok, err, fatal}
use platform_system_apex.ApexFile.{ApexManifest, ApexFile, name_of, get_package_id}
use platform_system_apex.Active.{
  Entry, Dirs, Calls, has_entry, without, file_path, at_path, apex_files, files_in, or_empty,
}

abbrev pub contains : String → List String → Bool
contains x xs = any (λ y. y == x) xs

-- What is to go: a file of a package that was staged, which is not a staged file itself.
abbrev pub is_previous : List String → List String → String → ApexFile → Bool
is_previous affected_packages files_to_keep path apex =
    contains (name_of apex) affected_packages && not (contains path files_to_keep)

-- One file of the loop of `RemovePreviouslyActiveApexFiles`.
abbrev pub remove_if_previous :
    Calls → List String → List String → Entry → List Entry → Result (List Entry)
remove_if_previous calls affected files_to_keep e dir =
    let path = file_path calls.active_apex_data_dir e.name in
    elim (at_path path e.content) [
      | inl m ↦ err m
      | inr apex ↦
          if is_previous affected files_to_keep path apex
          then (if calls.can_unlink path then ok (without e.name dir) else err "Failed to unlink")
          else ok dir
    ]

unfoldable pub remove_each :
    Calls → List String → List String → List Entry → List Entry → Result (Unit {0}) × List Entry
remove_each calls affected files_to_keep [] dir = (ok tt, dir)
remove_each calls affected files_to_keep (e ∷ es) dir =
    elim (remove_if_previous calls affected files_to_keep e dir) [
      | ok dir' ↦ remove_each calls affected files_to_keep es dir'
      | err m ↦ (err m, dir)
      | fatal m ↦ (fatal m, dir)
    ]

abbrev pub remove_listed :
    Calls
    → List String
    → List String
    → Result (List Entry)
    → List Entry
    → Result (Unit {0}) × List Entry
remove_listed calls affected files_to_keep (ok listed) dir =
    remove_each calls affected files_to_keep listed dir
remove_listed calls affected files_to_keep (err m) dir = (err m, dir)
remove_listed calls affected files_to_keep (fatal m) dir = (fatal m, dir)

unfoldable pub remove_previously_active_apex_files :
    Calls → List String → List String → List Entry → Result (Unit {0}) × List Entry
unfolding apex_files remove_each
remove_previously_active_apex_files calls affected files_to_keep dir =
    remove_listed calls affected files_to_keep (apex_files calls calls.active_apex_data_dir dir) dir

-- What the loop of `StagePackages` works on.
pub record Progress : Type 0 where
  pub dir : List Entry
  pub hashtrees : List String
  pub staged_files : List String
  pub staged_packages : List String
  pub changed_hashtree_files : List String

-- A new hashtree takes the place of the one in use.
abbrev pub promote_hashtree : Calls → ApexFile → Progress → Result Progress
promote_hashtree calls apex p =
    let old = get_package_id apex.manifest in
    let new = old ^^ ".new" in
    if contains new p.hashtrees
    then (if calls.can_rename new old
        then ok (record p {
          hashtrees = old ∷ keep (λ n. not (n == old) && not (n == new)) p.hashtrees;
          changed_hashtree_files = p.changed_hashtree_files ++ old ∷ [];
        })
        else err "Failed to move the hashtree")
    else ok p

-- `StageDestPath`, as the name in the active directory
abbrev pub stage_dest_name : ApexFile → String
stage_dest_name apex = get_package_id apex.manifest ^^ ".apex"

abbrev pub make_room : Calls → ApexFile → Progress → Result Progress
make_room calls apex p =
    if has_entry (stage_dest_name apex) p.dir
    then (if calls.can_unlink (file_path calls.active_apex_data_dir (stage_dest_name apex))
        then ok (record p { dir = without (stage_dest_name apex) p.dir })
        else err "Failed to unlink the destination")
    else ok p

abbrev pub link_package : Calls → ApexFile → Progress → Result Progress
link_package calls apex p =
    let dest = file_path calls.active_apex_data_dir (stage_dest_name apex) in
    if calls.can_link apex.apex_path dest
    then ok (record p {
      dir = p.dir ++ record { name = stage_dest_name apex; content = inr apex } ∷ [];
      staged_files = stage_dest_name apex ∷ p.staged_files;
      staged_packages = name_of apex ∷ p.staged_packages;
    })
    else err "Unable to link"

-- The step and, where it fails, the state it fails in.
abbrev pub then_step :
    (Progress → Result Progress) → Result (Unit {0}) × Progress → Result (Unit {0}) × Progress
then_step step (ok u, p) = elim (step p) [
  | ok p' ↦ (ok tt, p')
  | err m ↦ (err m, p)
  | fatal m ↦ (fatal m, p)
]
then_step step (err m, p) = (err m, p)
then_step step (fatal m, p) = (fatal m, p)

unfoldable pub stage_one :
    Calls → ApexFile → Result (Unit {0}) × Progress → Result (Unit {0}) × Progress
stage_one calls apex r =
    then_step (link_package calls apex)
      (then_step (make_room calls apex) (then_step (promote_hashtree calls apex) r))

-- The loop: after a step that fails, no other has an effect.
unfoldable pub stage_each :
    Calls → List ApexFile → Result (Unit {0}) × Progress → Result (Unit {0}) × Progress
unfolding stage_one
stage_each calls [] r = r
stage_each calls (apex ∷ rest) r = stage_each calls rest (stage_one calls apex r)

-- The deleter: staged files and changed hashtrees that can be unlinked are.
abbrev pub delete_staged : Calls → List String → List Entry → List Entry
delete_staged calls [] dir = dir
delete_staged calls (name ∷ names) dir =
    delete_staged calls names (
      if calls.can_unlink (file_path calls.active_apex_data_dir name)
      then without name dir
      else dir)

abbrev pub delete_hashtrees : Calls → List String → List String → List String
delete_hashtrees calls [] trees = trees
delete_hashtrees calls (name ∷ names) trees =
    delete_hashtrees calls names
      (if calls.can_unlink name then keep (λ n. not (n == name)) trees else trees)

abbrev pub finish_removal : Dirs → Result (Unit {0}) × List Entry → Result (Unit {0}) × Dirs
finish_removal d (r, dir) = (r, record d { active = some dir })

abbrev pub staged_paths : Calls → List String → List String
staged_paths calls [] = []
staged_paths calls (name ∷ names) =
    file_path calls.active_apex_data_dir name ∷ staged_paths calls names

unfoldable pub accept_or_delete :
    Calls → Dirs → Result (Unit {0}) × Progress → Result (Unit {0}) × Dirs
unfolding remove_previously_active_apex_files
accept_or_delete calls d (ok u, p) =
    finish_removal (record d { hashtrees = p.hashtrees })
      (remove_previously_active_apex_files calls p.staged_packages
        (staged_paths calls p.staged_files) p.dir)
accept_or_delete calls d (err m, p) = (
  err m,
  record d {
    active = some (delete_staged calls p.staged_files p.dir);
    hashtrees = delete_hashtrees calls p.changed_hashtree_files p.hashtrees;
  },
)
accept_or_delete calls d (fatal m, p) =
    (fatal m, record d { active = some p.dir; hashtrees = p.hashtrees })

abbrev first_failure : String ⊎ Unit {0} → String ⊎ Unit {0} → String ⊎ Unit {0}
first_failure (inl m) r = inl m
first_failure (inr u) r = r

-- The loop over the packages of `VerifyPackageBoot`, which leaves out the shim.
abbrev pub verify_boot_each : Calls → List ApexFile → String ⊎ Unit {0}
verify_boot_each calls [] = inr tt
verify_boot_each calls (apex ∷ rest) =
    first_failure (if calls.is_shim_apex apex then inr tt else calls.verify_package_boot apex)
      (verify_boot_each calls rest)

abbrev pub push_to : {A : Type 0} → String ⊎ A → String ⊎ List A → String ⊎ List A
push_to (inl m) rest = inl m
push_to (inr a) (inl m) = inl m
push_to (inr a) (inr more) = inr (a ∷ more)

unfoldable pub open_each : Calls → List String → String ⊎ List ApexFile
open_each calls [] = inr []
open_each calls (path ∷ paths) = push_to (calls.open_apex path) (open_each calls paths)

abbrev pub stage_verified :
    Calls → List ApexFile → Dirs → String ⊎ Unit {0} → Result (Unit {0}) × Dirs
stage_verified calls apexes d (inl m) = (err m, d)
stage_verified calls apexes d (inr u) =
    if calls.can_create_dir calls.active_apex_data_dir
    then accept_or_delete calls (record d { active = or_empty d.active })
        (stage_each calls apexes (
          ok tt,
          record {
            dir = files_in d.active;
            hashtrees = d.hashtrees;
            staged_files = [];
            staged_packages = [];
            changed_hashtree_files = [];
          },
        ))
    else (err "Failed to create the active directory", d)

abbrev pub stage_opened : Calls → Dirs → String ⊎ List ApexFile → Result (Unit {0}) × Dirs
stage_opened calls d (inl m) = (err m, d)
stage_opened calls d (inr apexes) = stage_verified calls apexes d (verify_boot_each calls apexes)

unfoldable pub stage_packages : Calls → List String → Dirs → Result (Unit {0}) × Dirs
unfolding open_each stage_each accept_or_delete
stage_packages calls paths d =
    if is_empty paths
    then (err "Empty set of inputs", d)
    else stage_opened calls d (open_each calls paths)
