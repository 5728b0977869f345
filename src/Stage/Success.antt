-- ===== src/Stage/Success.antt =====
-- What `StagePackages` of apexd/apexd.cpp leaves in the active directory when it succeeds.
use platform_system_apex.Base.{
  String, Bool, true, false, ◌&&◌, ◌||◌, Option, none, some, List, [], ◌∷◌, ◌==◌, ◌^^◌, ◌≡◌, refl,
  sym, ◌∙◌, ap, arith, if◌then◌else◌, any, ◌⊎◌, inl, inr, Bool-cases, eq_iff, eq_refl, Member,
}
use mathlib.Core.Path.{subst}
use platform_system_apex.Base.Result.{Result, ok, err, fatal, Result-cases}
use platform_system_apex.ApexFile.{ApexFile, get_package_id}
use platform_system_apex.Active.{
  Entry, Dirs, Calls, file_path, at_path, files_in, or_empty, apex_files,
}
use platform_system_apex.Stage.{Progress, contains, stage_each, stage_dest_name, staged_paths}
use platform_system_apex.Stage.{
  remove_previously_active_apex_files, remove_listed, accept_or_delete, stage_verified,
  stage_opened, stage_packages, open_each, verify_boot_each,
}
use platform_system_apex.Stage.Removal.{is_stale, opens_previous, entry_of, remove_each-ok}
use platform_system_apex.Stage.Loop.{linked_entry, last_linked, stage_each_ok}

contains-staged_paths :
    (calls : Calls) (n : String) (names : List String)
    → contains n names ≡ true
    → contains (file_path calls.active_apex_data_dir n) (staged_paths calls names) ≡ true
contains-staged_paths calls n [] h = h
contains-staged_paths calls n (m ∷ names) h = elim (Bool-cases (m == n)) [
  | inl t ↦
      let q = ap (file_path calls.active_apex_data_dir) ((eq_iff m n).0 t) in
      let here =
        (eq_iff (file_path calls.active_apex_data_dir m) (file_path calls.active_apex_data_dir n)).1
          q in
      rw here refl
  | inr f ↦
      let later = contains-staged_paths calls n names (ground (arith, h, f)) in
      right_true (file_path calls.active_apex_data_dir m == file_path calls.active_apex_data_dir n)
        later
]
  where
    right_true : (b : Bool) {c : Bool} → c ≡ true → (b || c) ≡ true
    right_true true h = refl
    right_true false h = h

opened_kept :
    (calls : Calls) (affected names : List String) (path : String) (r : String ⊎ ApexFile)
    → contains path (staged_paths calls names) ≡ true
    → opens_previous calls affected (staged_paths calls names) path r ≡ false
opened_kept calls affected names path (inl m) h = refl
opened_kept calls affected names path (inr apex) h = rw h (ground arith)

-- A file to keep is not removed.
kept-not_stale :
    (calls : Calls) (affected names : List String) (e : Entry)
    → contains e.name names ≡ true
    → is_stale calls affected (staged_paths calls names) e ≡ false
kept-not_stale calls affected names e h =
    opened_kept calls affected names (file_path calls.active_apex_data_dir e.name)
      (at_path (file_path calls.active_apex_data_dir e.name) e.content)
      (contains-staged_paths calls e.name names h)

none_stale :
    (calls : Calls) (affected names : List String) (es : List Entry) (n : String)
    → contains n names ≡ true
    → any (λ e. is_stale calls affected (staged_paths calls names) e && (e.name == n)) es ≡ false
none_stale calls affected names [] n h = refl
none_stale calls affected names (e ∷ es) n h = elim (Bool-cases (e.name == n)) [
  | inl t ↦
      let here : contains e.name names ≡ true =
        ap (λ m. contains m names) ((eq_iff e.name n).0 t) ∙ h in
      let k = kept-not_stale calls affected names e here in
      ground (arith, k, none_stale calls affected names es n h)
  | inr f ↦ ground (arith, f, none_stale calls affected names es n h)
]

removal_keeps :
    (calls : Calls) (affected names : List String) (dir : List Entry) (n : String)
    → contains n names ≡ true
    → (remove_previously_active_apex_files calls affected (staged_paths calls names) dir).0 ≡ ok tt
    → entry_of n
        (remove_previously_active_apex_files calls affected (staged_paths calls names) dir).1
      ≡ entry_of n dir
unfolding remove_previously_active_apex_files
removal_keeps calls affected names dir n c done =
    elim (Result-cases (apex_files calls calls.active_apex_data_dir dir)) [
      | inl (es, q) ↦
          let run = ap (λ l. remove_listed calls affected (staged_paths calls names) l dir) q in
          let same =
            remove_each-ok calls affected (staged_paths calls names) es dir n
              (sym (ap (λ k. k.0) run) ∙ done) in
          let clear = none_stale calls affected names es n c in
          ap (λ k. entry_of n k.1) run ∙ same ∙ ap (λ b. if b then none else entry_of n dir) clear
      | inr (inl (m, q)) ↦ ground (arith, done, q)
      | inr (inr (m, q)) ↦ ground (arith, done, q)
    ]

-- The active directory is there, and under the name it holds that.
abbrev Shows : String → Option Entry → Dirs → Type 0
Shows n o d = (dir : List Entry) × (d.active ≡ some dir) × (entry_of n dir ≡ o)

accepted :
    (calls : Calls) (d : Dirs) (r : Result (Unit {0}) × Progress) (n : String)
    → contains n r.1.staged_files ≡ true
    → (accept_or_delete calls d r).0 ≡ ok tt
    → Shows n (entry_of n r.1.dir) (accept_or_delete calls d r).1
unfolding accept_or_delete
accepted calls d (ok u, p) n c h =
    let after =
      remove_previously_active_apex_files calls p.staged_packages
        (staged_paths calls p.staged_files) p.dir in
    (after.1, refl, removal_keeps calls p.staged_packages p.staged_files p.dir n c h)
accepted calls d (err m, p) n c h = ground (arith, h)
accepted calls d (fatal m, p) n c h = ground (arith, h)

accept-was_ok :
    (calls : Calls) (d : Dirs) (r : Result (Unit {0}) × Progress)
    → (accept_or_delete calls d r).0 ≡ ok tt
    → r.0 ≡ ok tt
unfolding accept_or_delete
accept-was_ok calls d (ok u, p) h = refl
accept-was_ok calls d (err m, p) h = ground (arith, h)
accept-was_ok calls d (fatal m, p) h = ground (arith, h)

any_of-Member :
    (apex : ApexFile) (apexes : List ApexFile)
    → Member apex apexes
    → any (λ a. stage_dest_name a == stage_dest_name apex) apexes ≡ true
any_of-Member apex [] m = absurd m
any_of-Member apex (a ∷ apexes) (inl e) = rw (← e) (rw (eq_refl (stage_dest_name apex)) refl)
any_of-Member apex (a ∷ apexes) (inr m) = ground (arith, any_of-Member apex apexes m)

-- The active directory holds, under the name that the package's id gives it, one of the packages, which has
-- the same id; where no two have the same one that is the package itself.
abbrev pub IsLinked : List ApexFile → ApexFile → Dirs → Type 0
IsLinked apexes apex d =
    (dir : List Entry) × (one : ApexFile) × (d.active ≡ some dir)
    × Member one apexes
    × (get_package_id one.manifest ^^ ".apex" ≡ get_package_id apex.manifest ^^ ".apex")
    × (entry_of (get_package_id apex.manifest ^^ ".apex") dir
        ≡ some (record { name = get_package_id apex.manifest ^^ ".apex"; content = inr one }))

-- The last package of a name is one of them.
abbrev LastOf : String → List ApexFile → Option Entry → Type 0
LastOf n apexes o =
    (one : ApexFile) × Member one apexes
    × (get_package_id one.manifest ^^ ".apex" ≡ n)
    × (o ≡ some (record { name = n; content = inr one }))

named_entry :
    (n : String) (all : List ApexFile) (a : ApexFile)
    → get_package_id a.manifest ^^ ".apex" ≡ n
    → Member a all
    → LastOf n all (some (linked_entry a))
named_entry n all a e m = (a, m, e, ap (λ k. some (record { name = k; content = inr a })) e)

either_entry :
    (n : String) (all : List ApexFile) (a : ApexFile) (before : Option Entry)
    → Member a all
    → LastOf n all before
    → LastOf n all
        (if get_package_id a.manifest ^^ ".apex" == n then some (linked_entry a) else before)
either_entry n all a before m h =
    let k = get_package_id a.manifest ^^ ".apex" in
    elim (Bool-cases (k == n)) [
      | inl t ↦ rw t (named_entry n all a ((eq_iff k n).0 t) m)
      | inr f ↦ rw f h
    ]

last_linked_stays :
    (n : String) (all apexes : List ApexFile) (before : Option Entry)
    → ((a : ApexFile) → Member a apexes → Member a all)
    → LastOf n all before
    → LastOf n all (last_linked n apexes before)
last_linked_stays n all [] before sub h = h
last_linked_stays n all (a ∷ apexes) before sub h =
    last_linked_stays n all apexes _ (λ x m. sub x (inr m))
      (either_entry n all a before (sub a (inl refl)) h)

last_linked_found :
    (n : String) (all apexes : List ApexFile) (before : Option Entry) (apex : ApexFile)
    → ((a : ApexFile) → Member a apexes → Member a all)
    → get_package_id apex.manifest ^^ ".apex" ≡ n
    → Member apex apexes
    → LastOf n all (last_linked n apexes before)
last_linked_found n all [] before apex sub e m = absurd m
last_linked_found n all (a ∷ apexes) before apex sub e (inl same) =
    let here : get_package_id a.manifest ^^ ".apex" ≡ n =
      ap (λ x. get_package_id x.manifest ^^ ".apex") (sym same) ∙ e in
    let t = (eq_iff (get_package_id a.manifest ^^ ".apex") n).1 here in
    last_linked_stays n all apexes _ (λ x m. sub x (inr m))
      (rw t (named_entry n all a here (sub a (inl refl))))
last_linked_found n all (a ∷ apexes) before apex sub e (inr m) =
    last_linked_found n all apexes _ apex (λ x k. sub x (inr k)) e m

shown_entry :
    (apexes : List ApexFile) (apex : ApexFile) (d : Dirs) (o : Option Entry)
    → LastOf (stage_dest_name apex) apexes o
    → Shows (stage_dest_name apex) o d
    → IsLinked apexes apex d
shown_entry apexes apex d o (one, mem, same, e) (dir, active, shown) =
    (dir, one, active, mem, same, shown ∙ e)

stage_verified-IsLinked :
    (calls : Calls) (apexes : List ApexFile) (apex : ApexFile) (d : Dirs) (v : String ⊎ Unit {0})
    → Member apex apexes
    → (stage_verified calls apexes d v).0 ≡ ok tt
    → IsLinked apexes apex (stage_verified calls apexes d v).1
stage_verified-IsLinked calls apexes apex d (inl m) mem h = ground (arith, h)
stage_verified-IsLinked calls apexes apex d (inr u) mem h =
    elim (Bool-cases (calls.can_create_dir calls.active_apex_data_dir)) [
      | inr f ↦ ground (arith, h, f)
      | inl t ↦
          let n = stage_dest_name apex in
          let start : Progress = record {
            dir = files_in d.active;
            hashtrees = d.hashtrees;
            staged_files = [];
            staged_packages = [];
            changed_hashtree_files = [];
          } in
          let opened : Dirs = record d { active = or_empty d.active } in
          let r = stage_each calls apexes (ok tt, start) in
          let run : stage_verified calls apexes d (inr u) ≡ accept_or_delete calls opened r =
            simp t in
          let done : (accept_or_delete calls opened r).0 ≡ ok tt = sym (ap (λ k. k.0) run) ∙ h in
          let (entry, found) =
            stage_each_ok calls apexes (ok tt, start) n (accept-was_ok calls opened r done) in
          let c = found ∙ ap (λ b. b || false) (any_of-Member apex apexes mem) in
          let last =
            last_linked_found n apexes apexes (entry_of n start.dir) apex (λ a m. m) refl mem in
          let shown =
            shown_entry apexes apex (accept_or_delete calls opened r).1 (entry_of n r.1.dir)
              (subst (LastOf n apexes) (sym entry) last) (accepted calls opened r n c done) in
          subst (λ k. IsLinked apexes apex k.1) (sym run) shown
    ]

-- Where `StagePackages` succeeds, every package that was opened from the given paths is in the active
-- directory: under the name that its id gives, that ends in ".apex", the directory holds one of the packages that has
-- this id, which is the package itself where no other one has it.
pub stage_packages_links :
    (calls : Calls) (paths : List String) (d : Dirs) (apexes : List ApexFile) (apex : ApexFile)
    → open_each calls paths ≡ inr apexes
    → Member apex apexes
    → (stage_packages calls paths d).0 ≡ ok tt
    → IsLinked apexes apex (stage_packages calls paths d).1
unfolding stage_packages
stage_packages_links calls [] d apexes apex opened mem h = ground (arith, h)
stage_packages_links calls (path ∷ paths) d apexes apex opened mem h =
    let run = ap (stage_opened calls d) opened in
    let done =
      stage_verified-IsLinked calls apexes apex d (verify_boot_each calls apexes) mem
        (sym (ap (λ k. k.0) run) ∙ h) in
    subst (λ k. IsLinked apexes apex k.1) (sym run) done
