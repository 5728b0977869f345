-- ===== src/Submit/Verified.antt =====
-- What `SubmitStagedSession` of apexd/apexd.cpp has made sure of when it succeeds.
use platform_system_apex.Base.{
  ℕ, String, true, false, ◌&&◌, List, [], ◌∷◌, ◌≡◌, ◌≢◌, refl, ◌∙◌, ap, arith, ◌⊎◌, inl, inr,
  Bool-cases,
}
use platform_system_apex.Base.Result.{Result, ok, err, fatal}
use platform_system_apex.ApexFile.{ApexFile}
use platform_system_apex.Session.{SessionState, Sessions, create_session}
use platform_system_apex.Host.{Host, World, log, backed_up}
use platform_system_apex.Staging.{open_apex_files, open_all, push_to, ids_to_scan}
use platform_system_apex.Submit.{
  Request, write_created, answer, write_session, after_verify, verify_and_write, verify_session_dir,
  verify_packages, verify_dirs, submit_staged_session, verify_found, verified_all, verify_next,
  first_failure, front,
}

-- The directory holds one package only, which opens and passes the verification.
abbrev pub DirVerified : Host → ℕ → ApexFile → Type 0
DirVerified host d apex =
    (path : String) × (host.scan_submitted_dir d ≡ inr (path ∷ []))
    × (host.open_apex path ≡ inr apex)
    × (host.verify_staged_install apex ≡ inr tt)

-- Each directory holds the package at the same place in the list.
abbrev pub EachVerified : Host → List ℕ → List ApexFile → Type 0
EachVerified host [] [] = Unit
EachVerified host (d ∷ ds) (a ∷ rest) = DirVerified host d a × EachVerified host ds rest
EachVerified host [] (_ ∷ _) = true ≡ false
EachVerified host (_ ∷ _) [] = true ≡ false

-- The directories that count: those of the children, or the session's own where it has no children.
abbrev pub SessionVerified : Host → ℕ → List ℕ → List ApexFile → Type 0
SessionVerified host id [] apexes = EachVerified host (id ∷ []) apexes
SessionVerified host id (child ∷ children) apexes = EachVerified host (child ∷ children) apexes

verified_one : (r : String ⊎ Unit {0}) → first_failure r (inr tt) ≡ inr tt → r ≡ inr tt
verified_one (inl m) h = ground (arith, h)
verified_one (inr u) h = refl

opened_one :
    (host : Host) (r : String ⊎ ApexFile) (apex : ApexFile)
    → front (verified_all host (push_to r (inr []))) ≡ inr apex
    → (r ≡ inr apex) × (host.verify_staged_install apex ≡ inr tt)
opened_one host (inl m) apex h = ground (arith, h)
opened_one host (inr a) apex h =
    let ran : first_failure (host.verify_staged_install a) (inr tt) ≡ inr tt = ground (arith, h) in
    let same : a ≡ apex = ground (arith, h) in
    (ap inr same, rw⁻¹ same (verified_one (host.verify_staged_install a) ran))

one_only :
    (host : Host) (paths : List String) (apex : ApexFile)
    → verify_found host (inr paths) ≡ inr apex
    → (path : String) × (paths ≡ path ∷ [])
      × (host.open_apex path ≡ inr apex)
      × (host.verify_staged_install apex ≡ inr tt)
unfolding verify_packages open_apex_files open_all
one_only host [] apex h = ground (arith, h)
one_only host (path ∷ []) apex h =
    let (opened, passed) = opened_one host (host.open_apex path) apex h in
    (path, refl, opened, passed)
one_only host (path ∷ another ∷ rest) apex h = ground (arith, h)

verified_dir :
    (host : Host) (d : ℕ) (r : String ⊎ List String) (apex : ApexFile)
    → host.scan_submitted_dir d ≡ r
    → verify_found host r ≡ inr apex
    → DirVerified host d apex
verified_dir host d (inl m) apex e h = ground (arith, h)
verified_dir host d (inr paths) apex e h =
    let (path, one, opened, passed) = one_only host paths apex h in
    (path, e ∙ ap inr one, opened, passed)

next_ok :
    (r : String ⊎ ApexFile) (q : (String ⊎ Unit {0}) × List ApexFile) (apexes : List ApexFile)
    → verify_next r q ≡ (inr tt, apexes)
    → (apex : ApexFile) × (rest : List ApexFile) × (r ≡ inr apex)
      × (q ≡ (inr tt, rest))
      × (apexes ≡ apex ∷ rest)
next_ok (inl m) q apexes h = ground (arith, h)
next_ok (inr apex) (inl m, rest) apexes h = ground (arith, h)
next_ok (inr apex) (inr u, rest) apexes h = (apex, rest, refl, refl, ground (arith, h))

verified_dirs :
    (host : Host) (ds : List ℕ) (apexes : List ApexFile)
    → verify_dirs host ds ≡ (inr tt, apexes)
    → EachVerified host ds apexes
unfolding verify_dirs verify_session_dir
verified_dirs host [] [] h = tt
verified_dirs host [] (a ∷ apexes) h = ground (arith, h)
verified_dirs host (d ∷ ds) apexes h =
    let (apex, rest, one, rest_ok, e) =
      next_ok (verify_session_dir host d) (verify_dirs host ds) apexes h in
    rw e (
      verified_dir host d (host.scan_submitted_dir d) apex refl one,
      verified_dirs host ds rest rest_ok,
    )

session_verified :
    (host : Host) (id : ℕ) (children : List ℕ) (apexes : List ApexFile)
    → verify_dirs host (ids_to_scan id children) ≡ (inr tt, apexes)
    → SessionVerified host id children apexes
session_verified host id [] apexes h = verified_dirs host (id ∷ []) apexes h
session_verified host id (child ∷ children) apexes h =
    verified_dirs host (child ∷ children) apexes h

-- What `SubmitStagedSession` has made sure of when it succeeds.
abbrev pub Accepted : Host → Request → List ApexFile → Type 0
Accepted host q apexes =
    (q.session_id ≢ 0)
    × ((q.has_rollback_enabled && q.is_rollback) ≡ false)
    × SessionVerified host q.session_id q.child_session_ids apexes
    × (host.run_preinstall apexes ≡ inr tt)
    × ((host.supports_fs_checkpoints ≡ true) ⊎ (host.backup_active_packages ≡ ok tt))

answer-ok :
    (apexes found : List ApexFile) (r : Result (Unit {0}) × World)
    → (answer apexes r).0 ≡ ok found
    → apexes ≡ found
answer-ok apexes found (ok u, w) h = ground (arith, h)
answer-ok apexes found (err e, w) h = ground (arith, h)
answer-ok apexes found (fatal e, w) h = ground (arith, h)

write_created-ok :
    (host : Host) (q : Request) (apexes found : List ApexFile) (w : World)
    (c : Result SessionState × Sessions)
    → (write_created host q apexes w c).0 ≡ ok found
    → apexes ≡ found
write_created-ok host q apexes found w (ok s, store) h = answer-ok apexes found _ h
write_created-ok host q apexes found w (err e, store) h = ground (arith, h)
write_created-ok host q apexes found w (fatal e, store) h = ground (arith, h)

write_session-ok :
    (host : Host) (q : Request) (apexes found : List ApexFile) (w : World)
    → (write_session host q apexes w).0 ≡ ok found
    → apexes ≡ found
unfolding write_session
write_session-ok host q apexes found w h =
    write_created-ok host q apexes found w (create_session host.disk q.session_id w.sessions) h

after_verify-ok :
    (host : Host) (q : Request) (v : (String ⊎ Unit {0}) × List ApexFile) (found : List ApexFile)
    (w : World)
    → (after_verify host q v w).0 ≡ ok found
    → (v ≡ (inr tt, found))
      × ((q.has_rollback_enabled && q.is_rollback) ≡ false)
      × (host.run_preinstall found ≡ inr tt)
unfolding after_verify
after_verify-ok host q (inl m, apexes) found w h = ground (arith, h)
after_verify-ok host q (inr u, apexes) found w h =
    let same = write_session-ok host q apexes found w in
    let ran : host.run_preinstall apexes ≡ inr tt = ground (arith, h) in
    let one : (q.has_rollback_enabled && q.is_rollback) ≡ false = ground (arith, h) in
    let e : apexes ≡ found = ground (arith, h, same) in (ap (λ l. (inr tt, l)) e, one, rw⁻¹ e ran)

-- When `SubmitStagedSession` succeeds, an id was given, the session is not both a rollback and enabled
-- for rollback, each directory (of the session, or of each child where it has some) holds one package
-- only, which opens and passes its verification, the packages returned are these, in the order of the
-- directories, their preinstall hooks ran, and the active packages were backed up unless the device has
-- checkpoints.
pub submit_staged_session_accepts :
    (host : Host) (q : Request) (apexes : List ApexFile) (w : World)
    → (submit_staged_session host q w).0 ≡ ok apexes
    → Accepted host q apexes
unfolding submit_staged_session verify_and_write
submit_staged_session_accepts host q apexes w h =
    let v = verify_dirs host (ids_to_scan q.session_id q.child_session_ids) in
    let now = after_verify-ok host q v apexes w in
    let later = after_verify-ok host q v apexes (log backed_up w) in
    let given : q.session_id ≢ 0 = ground (arith, h) in
    let held = session_verified host q.session_id q.child_session_ids apexes in
    elim (Bool-cases host.supports_fs_checkpoints) [
      | inl t ↦
          let (verified, one, ran) = now (ground (arith, h)) in
          (given, one, held verified, ran, inl t)
      | inr f ↦
          let backed : host.backup_active_packages ≡ ok tt = ground (arith, h) in
          let (verified, one, ran) = later (ground (arith, h)) in
          (given, one, held verified, ran, inr backed)
    ]
