-- ===== src/Staging/Conditions.antt =====
-- When the attempt at a session in `ScanStagedSessionsDirAndStage` of apexd/apexd.cpp succeeds.
use platform_system_apex.Base.{
  ℕ, String, true, false, not, ◌&&◌, List, [], ◌∷◌, ◌++◌, ◌==◌, ◌≡◌, refl, sym, ◌∙◌, ap, ◌⊎◌, inl,
  inr, arith, eq_iff,
}
use platform_system_apex.ApexFile.{ApexFile, name_of}
use platform_system_apex.Session.{SessionState}
use platform_system_apex.Host.{Host}
use platform_system_apex.Staging.{
  staged, attempt, stage_scanned, after_scan, scan_dir, scan_dirs, ids_to_scan, add_apex_names,
  push_to, run_hooks, after_stage, after_postinstall, opened_name, postinstall_packages, open_all,
  open_apex_files,
}

-- Each directory holds one package, the one at the same place in the list.
abbrev pub EachHolds : Host → List ℕ → List String → Type 0
EachHolds host [] [] = Unit
EachHolds host (d ∷ ds) (a ∷ rest) =
    (host.scan_session_dir d ≡ inr (a ∷ [])) × EachHolds host ds rest
EachHolds host [] (_ ∷ _) = true ≡ false
EachHolds host (_ ∷ _) [] = true ≡ false

-- The directories that count: those of the children, or the session's own where it has no children.
abbrev pub SessionHolds : Host → ℕ → List ℕ → List String → Type 0
SessionHolds host id [] apexes = EachHolds host (id ∷ []) apexes
SessionHolds host id (child ∷ children) apexes = EachHolds host (child ∷ children) apexes

session_holds :
    (host : Host) (id : ℕ) (children : List ℕ) (apexes : List String)
    → EachHolds host (ids_to_scan id children) apexes
    → SessionHolds host id children apexes
session_holds host id [] apexes h = h
session_holds host id (child ∷ children) apexes h = h

abbrev pub apex_names_of : List ApexFile → List String
apex_names_of [] = []
apex_names_of (a ∷ rest) = name_of a ∷ apex_names_of rest

append_nil : {A : Type 0} (xs : List A) → xs ++ [] ≡ xs
append_nil [] = refl
append_nil (x ∷ xs) = ap (λ l. x ∷ l) (append_nil xs)

append_assoc : {A : Type 0} (xs ys zs : List A) → (xs ++ ys) ++ zs ≡ xs ++ (ys ++ zs)
append_assoc [] ys zs = refl
append_assoc (x ∷ xs) ys zs = ap (λ l. x ∷ l) (append_assoc xs ys zs)

push_to-inr :
    {A : Type 0} (r : String ⊎ A) (q : String ⊎ List A) (found : List A)
    → push_to r q ≡ inr found
    → (a : A) × (rest : List A) × (r ≡ inr a) × (q ≡ inr rest) × (found ≡ a ∷ rest)
push_to-inr (inl m) q found h = ground (arith, h)
push_to-inr (inr a) (inl m) found h = ground (arith, h)
push_to-inr (inr a) (inr rest) found h = (a, rest, refl, refl, ground (arith, h))

scan_dir_holds :
    (host : Host) (id d : ℕ) (a : String)
    → scan_dir host id d ≡ inr a
    → host.scan_session_dir d ≡ inr (a ∷ [])
unfolding scan_dir
scan_dir_holds host id d a h = ground arith

scan_dirs_hold :
    (host : Host) (id : ℕ) (ds : List ℕ) (found : List String)
    → scan_dirs host id ds ≡ inr found
    → EachHolds host ds found
unfolding scan_dirs
scan_dirs_hold host id [] [] h = tt
scan_dirs_hold host id [] (a ∷ found) h = ground (arith, h)
scan_dirs_hold host id (d ∷ ds) found h =
    let (a, rest, one, more, e) = push_to-inr (scan_dir host id d) (scan_dirs host id ds) found h in
    rw e (scan_dir_holds host id d a one, scan_dirs_hold host id ds rest more)

nothing :
    (files : List ApexFile) → ◌≡◌ {A = String ⊎ List ApexFile} (inr []) (inr files) → files ≡ []
nothing files h = ground (arith, h)

names_added :
    (host : Host) (paths : List String) (files : List ApexFile) (s : SessionState)
    → open_all host paths ≡ inr files
    → add_apex_names host paths s ≡ record s { apex_names = s.apex_names ++ apex_names_of files }
unfolding open_all add_apex_names
names_added host [] files s h =
    ap (λ l. record s { apex_names = l })
      (sym (ap (λ f. s.apex_names ++ apex_names_of f) (nothing files h) ∙ append_nil s.apex_names))
names_added host (path ∷ paths) files s h =
    let (a, rest, one, more, e) = push_to-inr (host.open_apex path) (open_all host paths) files h in
    ap (λ l. add_apex_names host paths (record s { apex_names = s.apex_names ++ l }))
      (ap opened_name one)
    ∙ names_added host paths rest _ more
    ∙ ap (λ l. record s { apex_names = l })
        (append_assoc s.apex_names (name_of a ∷ []) (apex_names_of rest)
          ∙ ap (λ f. s.apex_names ++ apex_names_of f) (sym e))

abbrev Ran : Host → SessionState → List String → SessionState → Type 0
Ran host s apexes s' =
    (files : List ApexFile) × (open_apex_files host apexes ≡ inr files)
    × (host.run_postinstall files ≡ inr tt)
    × (host.stage_packages apexes ≡ inr tt)
    × (s' ≡ add_apex_names host apexes s)

hooks_ran :
    (run : List ApexFile → String ⊎ Unit {0}) (r : String ⊎ List ApexFile)
    → run_hooks run r ≡ inr tt
    → (files : List ApexFile) × (r ≡ inr files) × (run files ≡ inr tt)
hooks_ran run (inl m) h = ground (arith, h)
hooks_ran run (inr files) h = (files, refl, h)

after_stage-staged :
    (apexes found : List String) (s s' : SessionState) (r : String ⊎ Unit {0})
    → after_stage apexes s r ≡ staged found s'
    → (r ≡ inr tt) × (apexes ≡ found) × (s' ≡ s)
after_stage-staged apexes found s s' (inl m) h = ground (arith, h)
after_stage-staged apexes found s s' (inr u) h = (refl, ground (arith, h), ground (arith, h))

after_postinstall-staged :
    (host : Host) (apexes found : List String) (s s' : SessionState) (r : String ⊎ Unit {0})
    → after_postinstall host apexes s r ≡ staged found s'
    → (r ≡ inr tt)
      × (host.stage_packages apexes ≡ inr tt)
      × (apexes ≡ found)
      × (s' ≡ add_apex_names host apexes s)
after_postinstall-staged host apexes found s s' (inl m) h = ground (arith, h)
after_postinstall-staged host apexes found s s' (inr u) h =
    let (staged_ok, same, e) =
      after_stage-staged apexes found _ s' (host.stage_packages apexes) h in
    (refl, staged_ok, same, e)

after_scan-staged :
    (host : Host) (s s' : SessionState) (found : List String) (r : String ⊎ List String)
    → after_scan host s r ≡ staged found s'
    → (r ≡ inr found) × Ran host s found s'
unfolding after_scan stage_scanned postinstall_packages
after_scan-staged host s s' found (inl m) h = ground (arith, h)
after_scan-staged host s s' found (inr apexes) h =
    let (ran, staged_ok, same, e) = after_postinstall-staged host apexes found s s' _ h in
    let (files, opened, hooks) = hooks_ran host.run_postinstall (open_apex_files host apexes) ran in
    (ap inr same, rw⁻¹ same (files, opened, hooks, staged_ok, e))

opened_all :
    (host : Host) (paths : List String) (files : List ApexFile)
    → open_apex_files host paths ≡ inr files
    → open_all host paths ≡ inr files
unfolding open_apex_files
opened_all host [] files h = ground (arith, h)
opened_all host (path ∷ paths) files h = h

-- The conditions under which the packages of a session are staged.
abbrev pub Staged : Host → SessionState → List String → SessionState → Type 0
Staged host s apexes s' =
    (files : List ApexFile) × (s.expected_build_fingerprint ≡ host.build_fingerprint)
    × ((host.supports_fs_checkpoints && not host.in_fs_checkpoint_mode) ≡ false)
    × SessionHolds host s.id s.child_session_ids apexes
    × (open_apex_files host apexes ≡ inr files)
    × (host.run_postinstall files ≡ inr tt)
    × (host.stage_packages apexes ≡ inr tt)
    × (s' ≡ record s { apex_names = s.apex_names ++ apex_names_of files })

-- A session is staged, to be written as ACTIVATED, only where the build has not changed since it was
-- submitted, the device is in checkpoint mode if it has checkpoints, the directory of the session, or of
-- each child it has, holds exactly one package, all of them open, their postinstall hooks and
-- `StagePackages` succeed; the session then has the names of these packages and is otherwise the same.
pub attempt_is_Staged :
    (host : Host) (s : SessionState) (apexes : List String) (s' : SessionState)
    → attempt host s ≡ staged apexes s'
    → Staged host s apexes s'
unfolding attempt
attempt_is_Staged host s apexes s' h =
    let r = scan_dirs host s.id (ids_to_scan s.id s.child_session_ids) in
    let same : (s.expected_build_fingerprint == host.build_fingerprint) ≡ true =
      ground (arith, h) in
    let mode : (host.supports_fs_checkpoints && not host.in_fs_checkpoint_mode) ≡ false =
      ground (arith, h) in
    let scanned : after_scan host s r ≡ staged apexes s' = ground (arith, h) in
    let (found, ran) = after_scan-staged host s s' apexes r scanned in
    let (files, opened, hooks, staged_ok, e) = ran in
    (
      files,
      (eq_iff s.expected_build_fingerprint host.build_fingerprint).0 same,
      mode,
      session_holds host s.id s.child_session_ids apexes
          (scan_dirs_hold host s.id (ids_to_scan s.id s.child_session_ids) apexes found),
      opened,
      hooks,
      staged_ok,
      e ∙ names_added host apexes files s (opened_all host apexes files opened),
    )
