-- ===== src/Cleanup/Unstage.antt =====
-- That `UnstagePackages` of apexd/apexd.cpp removes only packages that are not pre-installed.
use platform_system_apex.Base.{
  String, false, ◌&&◌, none, List, [], ◌∷◌, ◌≡◌, refl, ◌∙◌, ◌==◌, arith, if◌then◌else◌, All,
  Bool-cases, inl, inr, ◌⊎◌,
}
use platform_system_apex.Base.Result.{Result, ok, err, fatal}
use platform_system_apex.Base.Steps.{next}
use platform_system_apex.ApexFile.{ApexFile}
use platform_system_apex.Repository.{is_pre_installed_apex}
use platform_system_apex.Machine.{Machine, Services, open_apex, find_file, erase_file}
use platform_system_apex.Install.Minor.{find_file-erased}
use platform_system_apex.Cleanup.{
  check_unstaged, check_each, exists, unlink, unlink_each, unstage_packages,
}
use platform_system_apex.Cleanup.Removal.{is_one_of, erased_or_not}

-- A path that opens to a package that is not pre-installed.
abbrev pub IsUpdate : Services → Machine → String → Type 0
IsUpdate s m path =
    (apex : ApexFile) × (open_apex path m ≡ ok apex) × (is_pre_installed_apex s.repo apex ≡ false)

check_unstaged-ok :
    (s : Services) (r : Result ApexFile)
    → check_unstaged s r ≡ ok tt
    → (apex : ApexFile) × (r ≡ ok apex) × (is_pre_installed_apex s.repo apex ≡ false)
check_unstaged-ok s (ok apex) h = (apex, refl, ground (arith, h))
check_unstaged-ok s (err e) h = absurd (ground (arith, h))
check_unstaged-ok s (fatal e) h = absurd (ground (arith, h))

-- The checks change nothing, and where they pass every path is an update.
abbrev CheckOutcome : Services → Machine → List String → Result (Unit {0}) × Machine → Type 0
CheckOutcome s m paths (ok u, m') = (m' ≡ m) × All (IsUpdate s m) paths
CheckOutcome s m paths (err e, m') = (m' ≡ m)
CheckOutcome s m paths (fatal e, m') = (m' ≡ m)

add_update :
    (s : Services) (m : Machine) (path : String) (paths : List String)
    (r : Result (Unit {0}) × Machine)
    → IsUpdate s m path
    → CheckOutcome s m paths r
    → CheckOutcome s m (path ∷ paths) r
add_update s m path paths (ok u, m') i (e, all) = (e, (i, all))
add_update s m path paths (err t, m') i e = e
add_update s m path paths (fatal t, m') i e = e

then_check :
    (s : Services) (m : Machine) (path : String) (paths : List String) (r : Result (Unit {0}))
    → check_unstaged s (open_apex path m) ≡ r
    → CheckOutcome s m paths (check_each s paths m)
    → CheckOutcome s m (path ∷ paths) (next (λ u. check_each s paths) (r, m))
then_check s m path paths (err e) h o = refl
then_check s m path paths (fatal e) h o = refl
then_check s m path paths (ok u) h o =
    add_update s m path paths (check_each s paths m) (check_unstaged-ok s (open_apex path m) h) o

check_each-Outcome :
    (s : Services) (paths : List String) (m : Machine)
    → CheckOutcome s m paths (check_each s paths m)
unfolding check_each
check_each-Outcome s [] m = (refl, tt)
check_each-Outcome s (path ∷ paths) m =
    then_check s m path paths (check_unstaged s (open_apex path m)) refl
      (check_each-Outcome s paths m)

-- What the second loop leaves: no file that was gone comes back, and none of another path goes.
record Removes (paths : List String) (m : Machine) (m' : Machine) : Type 0 where
  gone : (path : String) → find_file path m.files ≡ none → find_file path m'.files ≡ none
  others :
      (path : String)
      → find_file path m'.files
        ≡ (if is_one_of path paths then find_file path m'.files else find_file path m.files)

abbrev UnlinkOutcome : List String → Machine → Result (Unit {0}) × Machine → Type 0
UnlinkOutcome paths m (ok u, m') =
    Removes paths m m' × All (λ path. find_file path m'.files ≡ none) paths
UnlinkOutcome paths m (err e, m') = Removes paths m m'
UnlinkOutcome paths m (fatal e, m') = Removes paths m m'

erased_others :
    (path q : String) (m : Machine)
    → find_file q (erase_file path m.files) ≡ (
        if is_one_of q (path ∷ [])
        then find_file q (erase_file path m.files)
        else find_file q m.files)
erased_others path q m = elim (Bool-cases (path == q)) [
  | inl t ↦ ground (arith, t)
  | inr f ↦ erased_or_not path q m.files ∙ ground (arith, f)
]

unlink-Outcome :
    (s : Services) (path : String) (m : Machine) → UnlinkOutcome (path ∷ []) m (unlink s path m)
unfolding unlink
unlink-Outcome s path m = elim (Bool-cases (s.can_unlink path && exists (find_file path m.files))) [
  | inl t ↦ simp t (
    record {
      gone = λ q e. erased_or_not path q m.files ∙ ground (arith, e);
      others = λ q. erased_others path q m;
    },
    (find_file-erased path m.files, tt),
  )
  | inr f ↦ simp f (record { gone = λ q e. e; others = λ q. ground arith })
]

Removes-then :
    (path : String) (paths : List String) (m m' m'' : Machine)
    → Removes (path ∷ []) m m'
    → Removes paths m' m''
    → Removes (path ∷ paths) m m''
Removes-then path paths m m' m'' a b = record {
  gone = λ q e. b.gone q (a.gone q e);
  others = λ q. ground (arith, a.others q, b.others q);
}

Removes-first :
    (path : String) (paths : List String) (m m' : Machine)
    → Removes (path ∷ []) m m'
    → Removes (path ∷ paths) m m'
Removes-first path paths m m' a = record { gone = a.gone; others = λ q. ground (arith, a.others q) }

then_unlink :
    (path : String) (paths : List String) (m m' : Machine) (r : Result (Unit {0}) × Machine)
    → Removes (path ∷ []) m m'
    → find_file path m'.files ≡ none
    → UnlinkOutcome paths m' r
    → UnlinkOutcome (path ∷ paths) m r
then_unlink path paths m m' (ok u, m'') a e (b, all) =
    (Removes-then path paths m m' m'' a b, (b.gone path e, all))
then_unlink path paths m m' (err t, m'') a e b = Removes-then path paths m m' m'' a b
then_unlink path paths m m' (fatal t, m'') a e b = Removes-then path paths m m' m'' a b

unlink_first :
    (s : Services) (path : String) (paths : List String) (m : Machine)
    (r : Result (Unit {0}) × Machine)
    → ((m' : Machine) → UnlinkOutcome paths m' (unlink_each s paths m'))
    → UnlinkOutcome (path ∷ []) m r
    → UnlinkOutcome (path ∷ paths) m (next (λ u. unlink_each s paths) r)
unlink_first s path paths m (ok u, m') rest (a, (e, none_more)) =
    then_unlink path paths m m' (unlink_each s paths m') a e (rest m')
unlink_first s path paths m (err t, m') rest a = Removes-first path paths m m' a
unlink_first s path paths m (fatal t, m') rest a = Removes-first path paths m m' a

unlink_each-Outcome :
    (s : Services) (paths : List String) (m : Machine)
    → UnlinkOutcome paths m (unlink_each s paths m)
unfolding unlink_each
unlink_each-Outcome s [] m = (record { gone = λ q e. e; others = λ q. refl }, tt)
unlink_each-Outcome s (path ∷ paths) m =
    unlink_first s path paths m (unlink s path m) (unlink_each-Outcome s paths)
      (unlink-Outcome s path m)

-- Where `UnstagePackages` ends: after a success every given path was an update and is gone. In any case
-- other files are as before, and files are removed only if every given path was an update.
abbrev pub UnstageOutcome : Services → List String → Machine → Result (Unit {0}) × Machine → Type 0
UnstageOutcome s paths m (ok u, m') =
    All (IsUpdate s m) paths
    × All (λ path. find_file path m'.files ≡ none) paths
    × ((path : String)
        → find_file path m'.files
          ≡ (if is_one_of path paths then find_file path m'.files else find_file path m.files))
UnstageOutcome s paths m (err e, m') =
    (m' ≡ m)
    ⊎ (All (IsUpdate s m) paths
        × ((path : String)
            → find_file path m'.files
              ≡ (if is_one_of path paths then find_file path m'.files else find_file path m.files)))
UnstageOutcome s paths m (fatal e, m') = Unit

unlinked :
    (s : Services) (paths : List String) (m : Machine) (r : Result (Unit {0}) × Machine)
    → All (IsUpdate s m) paths
    → UnlinkOutcome paths m r
    → UnstageOutcome s paths m r
unlinked s paths m (ok u, m') updates (a, all) = (updates, all, a.others)
unlinked s paths m (err e, m') updates a = inr (updates, a.others)
unlinked s paths m (fatal e, m') updates a = tt

after_checks :
    (s : Services) (paths : List String) (m : Machine) (r : Result (Unit {0}) × Machine)
    → CheckOutcome s m paths r
    → UnstageOutcome s paths m (next (λ u. unlink_each s paths) r)
after_checks s paths m (ok u, m') (e, updates) =
    rw e (unlinked s paths m (unlink_each s paths m) updates (unlink_each-Outcome s paths m))
after_checks s paths m (err t, m') e = inl e
after_checks s paths m (fatal t, m') e = tt

-- `UnstagePackages` removes nothing unless each path that it was given opens to a package that is not
-- pre-installed. Where it succeeds, there was such a package at each path and none of the paths is
-- left. Files of other paths are as before, whether it succeeds or fails half-way.
pub unstage_packages-outcome :
    (s : Services) (paths : List String) (m : Machine)
    → UnstageOutcome s paths m (unstage_packages s paths m)
unfolding unstage_packages
unstage_packages-outcome s [] m = inl refl
unstage_packages-outcome s (path ∷ paths) m =
    after_checks s (path ∷ paths) m (check_each s (path ∷ paths) m)
      (check_each-Outcome s (path ∷ paths) m)
