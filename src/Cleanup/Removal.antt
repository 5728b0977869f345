-- ===== src/Cleanup/Removal.antt =====
-- Which files `RemoveInactiveDataApex` and `UnstagePackages` of apexd/apexd.cpp remove.
use platform_system_apex.Base.{
  String, Bool, not, ◌&&◌, Option, none, List, [], ◌∷◌, ◌++◌, ◌≡◌, refl, sym, ap, ◌∙◌, ◌==◌, eq_iff,
  arith, if◌then◌else◌, any, Bool-cases, inl, inr, ◌⊎◌,
}
use platform_system_apex.Base.Result.{Result}
use platform_system_apex.ApexFile.{ApexFile}
use platform_system_apex.Database.{Database}
use platform_system_apex.Unmount.{is_mounted}
use platform_system_apex.Machine.{Machine, Services, find_file, erase_file}
use platform_system_apex.Install.{try_unlink}
use platform_system_apex.Install.Minor.{find_file-erased, find_file-erase_file}
use platform_system_apex.Cleanup.{or_nothing, remove_each, remove_inactive_data_apex}

abbrev pub is_one_of : String → List String → Bool
is_one_of path paths = any (λ p. p == path) paths

-- The tests that a file has to pass to go.
abbrev pub goes : Services → Database → String → List String → Bool
goes s db path paths = is_one_of path paths && not (is_mounted db path) && s.can_unlink path

pub erased_or_not :
    (p path : String) (files : List (String × (String ⊎ ApexFile)))
    → find_file path (erase_file p files) ≡ (if p == path then none else find_file path files)
erased_or_not p path files = elim (Bool-cases (p == path)) [
  | inl t ↦ rw t (
      ap (λ q. find_file q (erase_file p files)) (sym ((eq_iff p path).0 t))
      ∙ find_file-erased p files)
  | inr f ↦ rw f (find_file-erase_file p path files f)
]

-- One round of the loop.
removed_or_not :
    (s : Services) (p path : String) (m : Machine)
    → find_file path (if is_mounted m.database p then m else try_unlink s p m).files ≡ (
        if (p == path) && not (is_mounted m.database p) && s.can_unlink p
        then none
        else find_file path m.files)
removed_or_not s p path m = ground (arith, erased_or_not p path m.files)

kept_database :
    (s : Services) (p : String) (m : Machine)
    → (if is_mounted m.database p then m else try_unlink s p m).database ≡ m.database
kept_database s p m = ground arith

twice :
    (s : Services) (p path : String) (paths : List String) (db : Database)
    (o : Option (String ⊎ ApexFile))
    → (if goes s db path paths
        then none
        else if (p == path) && not (is_mounted db p) && s.can_unlink p
        then none
        else o)
      ≡ (if goes s db path (p ∷ paths) then none else o)
twice s p path paths db o = elim (Bool-cases (p == path)) [
  | inl t ↦
      let e : p ≡ path = (eq_iff p path).0 t in
      ground (arith, t, ap (is_mounted db) e, ap s.can_unlink e)
  | inr f ↦ ground (arith, f)
]

remove_each-exactly :
    (s : Services) (paths : List String) (path : String) (m : Machine)
    → find_file path (remove_each s paths m).files
      ≡ (if goes s m.database path paths then none else find_file path m.files)
unfolding remove_each
remove_each-exactly s [] path m = refl
remove_each-exactly s (p ∷ paths) path m =
    let m' : Machine = if is_mounted m.database p then m else try_unlink s p m in
    remove_each-exactly s paths path m'
    ∙ ap (λ db. if goes s db path paths then none else find_file path m'.files)
        (kept_database s p m)
    ∙ ap (λ o. if goes s m.database path paths then none else o) (removed_or_not s p path m)
    ∙ twice s p path paths m.database (find_file path m.files)

-- After `RemoveInactiveDataApex` a file is gone exactly if it was gone before, or one of the scans has
-- found it, no mount that is not a temp mount has its path, and it may be unlinked. Every other file is as before.
pub remove_inactive_data_apex-exactly :
    (s : Services) (active decompressed : Result (List String)) (path : String) (m : Machine)
    → find_file path (remove_inactive_data_apex s active decompressed m).files ≡ (
        if goes s m.database path (or_nothing active ++ or_nothing decompressed)
        then none
        else find_file path m.files)
unfolding remove_inactive_data_apex
remove_inactive_data_apex-exactly s active decompressed path m =
    remove_each-exactly s (or_nothing active ++ or_nothing decompressed) path m
