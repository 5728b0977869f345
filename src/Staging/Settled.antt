-- ===== src/Staging/Settled.antt =====
-- What the attempt at a session in `ScanStagedSessionsDirAndStage` of apexd/apexd.cpp makes of it.
use platform_system_apex.Base.{
  ℕ, String, Bool, true, false, not, ◌&&◌, List, [], ◌∷◌, ◌++◌, ◌==◌, ◌≡◌, refl, sym, ◌∙◌, ap, ◌⊎◌,
  inl, inr, arith, eq_iff, if◌then◌else◌,
}
use platform_system_apex.Session.{State, SessionState}
use platform_system_apex.Host.{Host}
use platform_system_apex.Staging.{
  Attempt, failed, staged, attempt, finish, stage_scanned, after_scan, after_stage,
  after_postinstall, scan_dir, scan_dirs, ids_to_scan, add_apex_names, postinstall_packages,
  opened_name,
}
use platform_system_apex.Staging.Conditions.{
  EachHolds, SessionHolds, Staged, apex_names_of, attempt_is_Staged,
}

-- A session that could be staged is ACTIVATED now, with the names of its packages.
abbrev pub Activated : Host → SessionState → SessionState → Type 0
Activated host s s' =
    (apexes : List String) × (names : List String) × Staged host s apexes
      (record s { apex_names = names })
    × (s' ≡ record s { state = State.activated; apex_names = names })

-- A session that could not be is ACTIVATION_FAILED; but for an error message and names it is as it was.
abbrev pub Failed : Host → SessionState → SessionState → Type 0
Failed host s s' =
    ¬ ((apexes : List String) × (s1 : SessionState) × Staged host s apexes s1)
    × (message : String) × (names : List String) × (s'
        ≡ record s { state = State.activation_failed; error_message = message; apex_names = names })

held_ids :
    (host : Host) (id : ℕ) (children : List ℕ) (apexes : List String)
    → SessionHolds host id children apexes
    → EachHolds host (ids_to_scan id children) apexes
held_ids host id [] apexes h = h
held_ids host id (child ∷ children) apexes h = h

held_dir :
    (host : Host) (id d : ℕ) (a : String)
    → host.scan_session_dir d ≡ inr (a ∷ [])
    → scan_dir host id d ≡ inr a
unfolding scan_dir
held_dir host id d a h = ground (arith, h)

held_scan :
    (host : Host) (id : ℕ) (ds : List ℕ) (apexes : List String)
    → EachHolds host ds apexes
    → scan_dirs host id ds ≡ inr apexes
unfolding scan_dirs
held_scan host id [] [] h = refl
held_scan host id [] (a ∷ apexes) h = ground (arith, h)
held_scan host id (d ∷ ds) [] h = ground (arith, h)
held_scan host id (d ∷ ds) (a ∷ apexes) h =
    rw (held_dir host id d a h.0, held_scan host id ds apexes h.1) refl

did_not_fail : (apexes : List String) (s s1 : SessionState) → failed s1 ≡ staged apexes s → ⊥
did_not_fail apexes s s1 h = ground (arith, h)

-- The conditions are enough.
Staged-attempt :
    (host : Host) (s : SessionState) (apexes : List String) (s1 : SessionState)
    → Staged host s apexes s1
    → attempt host s ≡ staged apexes (add_apex_names host apexes s)
unfolding attempt after_scan stage_scanned postinstall_packages
Staged-attempt host s apexes s1 (files, same, mode, held, opened, hooks, linked, e) =
    let fingerprint : (s.expected_build_fingerprint == host.build_fingerprint) ≡ true =
      (eq_iff s.expected_build_fingerprint host.build_fingerprint).1 same in
    let scanned =
      held_scan host s.id (ids_to_scan s.id s.child_session_ids) apexes
        (held_ids host s.id s.child_session_ids apexes held) in
    rw (fingerprint, mode, scanned, opened, hooks, linked) refl

-- What an attempt leaves of the other fields where it fails.
abbrev Partly : SessionState → SessionState → Type 0
Partly s s1 =
    (message : String) × (names : List String) × (s1
      ≡ record s { error_message = message; apex_names = names })

abbrev Left : SessionState → Attempt → Type 0
Left s (failed s1) = Partly s s1
Left s (staged apexes s1) = Unit

names_only :
    (host : Host) (paths : List String) (s : SessionState)
    → (names : List String) × (add_apex_names host paths s ≡ record s { apex_names = names })
unfolding add_apex_names
names_only host [] s = (s.apex_names, refl)
names_only host (path ∷ paths) s =
    names_only host paths
      (record s { apex_names = s.apex_names ++ opened_name (host.open_apex path) })

after_stage-Left :
    (apexes names : List String) (s : SessionState) (r : String ⊎ Unit {0})
    → Left s (after_stage apexes (record s { apex_names = names }) r)
after_stage-Left apexes names s (inl m) = (_, names, refl)
after_stage-Left apexes names s (inr u) = tt

after_postinstall-Left :
    (host : Host) (apexes : List String) (s : SessionState) (r : String ⊎ Unit {0})
    → Left s (after_postinstall host apexes s r)
after_postinstall-Left host apexes s (inl m) = (_, s.apex_names, refl)
after_postinstall-Left host apexes s (inr u) =
    let (names, e) = names_only host apexes s in
    rw e (after_stage-Left apexes names s (host.stage_packages apexes))

after_scan-Left :
    (host : Host) (s : SessionState) (r : String ⊎ List String) → Left s (after_scan host s r)
unfolding after_scan stage_scanned
after_scan-Left host s (inl m) = (m, s.apex_names, refl)
after_scan-Left host s (inr apexes) =
    after_postinstall-Left host apexes s (postinstall_packages host apexes)

checked-Left :
    (a b : Bool) (m n : String) (s : SessionState) (r : Attempt)
    → Left s r
    → Left s (
        if a
        then failed (record s { error_message = m })
        else if b
        then failed (record s { error_message = n })
        else r)
checked-Left true b m n s r h = (m, s.apex_names, refl)
checked-Left false true m n s r h = (n, s.apex_names, refl)
checked-Left false false m n s r h = h

attempt-Left : (host : Host) (s : SessionState) → Left s (attempt host s)
unfolding attempt
attempt-Left host s =
    checked-Left (not (s.expected_build_fingerprint == host.build_fingerprint))
      (host.supports_fs_checkpoints && not host.in_fs_checkpoint_mode) _ _ s _
      (after_scan-Left host s (scan_dirs host s.id (ids_to_scan s.id s.child_session_ids)))

settled :
    (host : Host) (s : SessionState) (r : Attempt)
    → attempt host s ≡ r
    → Left s r
    → Activated host s (finish r) ⊎ Failed host s (finish r)
settled host s (failed s1) e (message, names, kept) = inr (
  λ (apexes, s2, can).
      did_not_fail apexes (add_apex_names host apexes s) s1
        (sym e ∙ Staged-attempt host s apexes s2 can),
  message,
  names,
  ap {A = SessionState} (λ k. record k { state = State.activation_failed }) kept,
)
settled host s (staged apexes s1) e left =
    let conditions = attempt_is_Staged host s apexes s1 e in
    let (files, same, mode, held, opened, hooks, linked, named) = conditions in
    let names = s.apex_names ++ apex_names_of files in
    inl (
      apexes,
      names,
      (files, same, mode, held, opened, hooks, linked, refl),
      ap {A = SessionState} (λ k. record k { state = State.activated }) named,
    )

-- What is written for a session is settled by the conditions alone.
pub finish-attempt :
    (host : Host) (s : SessionState)
    → Activated host s (finish (attempt host s)) ⊎ Failed host s (finish (attempt host s))
finish-attempt host s = settled host s (attempt host s) refl (attempt-Left host s)
