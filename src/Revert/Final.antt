-- ===== src/Revert/Final.antt =====
-- The results of `RevertActiveSessions` and `ResumeRevertIfNeeded` of apexd/apexd.cpp.
use platform_system_apex.Base.{
  ℕ, String, true, false, List, [], ◌∷◌, map, ◌==◌, ◌≡◌, refl, ◌∙◌, ap, ◌⊎◌, inl, inr, arith,
  Bool-cases, if◌then◌else◌, keep, is_empty,
}
use platform_system_apex.Base.Result.{ok, err}
use platform_system_apex.Session.{
  State, SessionState, file_of, get_sessions, is_active, active_state, get_active_sessions,
  get_sessions_in_state, same_state,
}
use platform_system_apex.Session.Store.{WellFormed, set_all, updated, file_of_twice}
use platform_system_apex.Host.{Host, World, log, restored_active_packages}
use platform_system_apex.Revert.{
  annotate, at_state, mark_revert_failed, mark_reverted, restore_and_mark, after_marking,
  revert_active_sessions, resume_revert_if_needed,
}
use platform_system_apex.Host.Writes.{
  WritesOk, There, log_all, There-set_all, There-map, There-keep, There-get_sessions,
}
use platform_system_apex.Revert.Outcome.{
  mark_in_progress_ok, mark_revert_failed_ok, sessions-mark_reverted,
}

-- The active packages can be restored, or checkpoints take care of it.
abbrev pub CanRestore : Host → Type 0
CanRestore host = (host.supports_fs_checkpoints ≡ true) ⊎ (host.restore_active_packages ≡ ok tt)

restores :
    (host : Host)
    → host.supports_fs_checkpoints ≡ false
    → CanRestore host
    → host.restore_active_packages ≡ ok tt
restores host f (inl t) = ground (arith, f, t)
restores host f (inr d) = d

restore_and_mark_ok :
    (host : Host) (ss : List SessionState) (w : World)
    → WritesOk host
    → CanRestore host
    → There w.sessions ss
    → ((restore_and_mark host ss w).0 ≡ ok tt)
      × ((restore_and_mark host ss w).1.sessions
          ≡ set_all (map (at_state State.reverted) ss) w.sessions)
unfolding restore_and_mark
restore_and_mark_ok host ss w writes can there = elim (Bool-cases host.supports_fs_checkpoints) [
  | inl t ↦
      let r : restore_and_mark host ss w ≡ (ok tt, mark_reverted host ss w) = simp t in
      (ap (λ k. k.0) r, ap (λ k. k.1.sessions) r ∙ sessions-mark_reverted host writes ss w there)
  | inr f ↦
      let d : host.restore_active_packages ≡ ok tt = restores host f can in
      let r : restore_and_mark host ss w
          ≡ (ok tt, mark_reverted host ss (log restored_active_packages w)) =
        simp (f, d) in
      (
        ap (λ k. k.0) r,
        ap (λ k. k.1.sessions) r
            ∙ sessions-mark_reverted host writes ss (log restored_active_packages w) there,
      )
]

module _ (host : Host) (c m : String) (w : World) (writes : WritesOk host)
    (well : WellFormed w.sessions)
    (some_active : is_empty (get_active_sessions w.sessions) ≡ false) where
  -- The active sessions as the first loop leaves them, and the state after it.
  abbrev in_progress : List SessionState
  in_progress =
      map (λ s. at_state State.revert_in_progress (annotate c m s))
        (keep is_active (get_sessions w.sessions))

  abbrev marked : World
  marked = record { sessions = set_all in_progress w.sessions; trace = log_all in_progress w.trace }

  marked_all : revert_active_sessions host c m w ≡ restore_and_mark host in_progress marked
  unfolding revert_active_sessions get_active_sessions
  marked_all = rw some_active (
      ap (after_marking host) (
        mark_in_progress_ok host writes c m (keep is_active (get_sessions w.sessions)) w (
          There-keep is_active (get_sessions w.sessions) w.sessions
            (There-get_sessions w.sessions well))))

  marked-There : There marked.sessions in_progress
  marked-There = There-set_all in_progress in_progress w.sessions (
      There-map (λ s. at_state State.revert_in_progress (annotate c m s))
        (keep is_active (get_sessions w.sessions)) w.sessions (λ s. refl)
        (There-keep is_active (get_sessions w.sessions) w.sessions
          (There-get_sessions w.sessions well)))

  -- When the state files of `WellFormed` sessions can be written, some session is active, and the active
  -- packages can be restored (or the device supports checkpoints), the revert succeeds: the state file of
  -- each active session says REVERTED, names the process that crashed and holds the error message where
  -- these are given (where not, it keeps what it had), and is otherwise unchanged; all other sessions are
  -- as they were.
  pub revert_active_sessions_reverts :
      (i : ℕ)
      → CanRestore host
      → ((revert_active_sessions host c m w).0 ≡ ok tt)
        × (file_of i (revert_active_sessions host c m w).1.sessions
            ≡ updated is_active
                (λ s. record s {
                  state = State.reverted;
                  crashing_native_process = if c == "" then s.crashing_native_process else c;
                  error_message = if m == "" then s.error_message else m;
                })
                (file_of i w.sessions))
  revert_active_sessions_reverts i can =
      let q = restore_and_mark_ok host in_progress marked writes can marked-There in
      rw marked_all (
        q.0,
        ap (file_of i) q.1
            ∙ file_of_twice is_active (λ s. at_state State.revert_in_progress (annotate c m s))
                (at_state State.reverted) (λ s. refl) (λ s. refl) i w.sessions well,
      )

  -- When the state files of `WellFormed` sessions can be written and some session is active, but the
  -- device has no checkpoints and the active packages cannot be restored, the revert reports that error: the state file of each active session says
  -- REVERT_FAILED, with the notes, all other sessions are as they were, and the restore came after every
  -- session was on disk as REVERT_IN_PROGRESS and before any was as REVERT_FAILED.
  pub revert_active_sessions_fails :
      (i : ℕ) (e : String)
      → host.supports_fs_checkpoints ≡ false
      → host.restore_active_packages ≡ err e
      → ((revert_active_sessions host c m w).0 ≡ err e)
        × (file_of i (revert_active_sessions host c m w).1.sessions
            ≡ updated is_active
                (λ s. at_state State.revert_failed (annotate c m s))
                (file_of i w.sessions))
        × ((revert_active_sessions host c m w).1.trace
            ≡ log_all
                (map (at_state State.revert_failed) in_progress)
                (restored_active_packages ∷ log_all in_progress w.trace))
  unfolding restore_and_mark
  revert_active_sessions_fails i e off bad =
      let q =
        mark_revert_failed_ok host writes in_progress (log restored_active_packages marked)
          marked-There in
      let r : restore_and_mark host in_progress marked
          ≡ (err e, mark_revert_failed host in_progress (log restored_active_packages marked)) =
        simp (off, bad) in
      rw (marked_all, r)
        (
          refl,
          ap (λ k. file_of i k.sessions) q
              ∙ file_of_twice is_active (λ s. at_state State.revert_in_progress (annotate c m s))
                  (at_state State.revert_failed) (λ s. refl) (λ s. refl) i w.sessions well,
          ap (λ k. k.trace) q,
        )

in_progress_is_active :
    (st : State) → same_state st State.revert_in_progress ≡ true → active_state st ≡ true
in_progress_is_active st h = ground arith

resumes_active :
    (ss : List SessionState)
    → is_empty (keep (λ s. same_state s.state State.revert_in_progress) ss) ≡ false
    → is_empty (keep is_active ss) ≡ false
resumes_active [] h = h
resumes_active (s ∷ ss) h = ground (arith, in_progress_is_active s.state, resumes_active ss)

-- A revert that was interrupted, so that some session is still REVERT_IN_PROGRESS, is finished by
-- `ResumeRevertIfNeeded`, when the state files of `WellFormed` sessions can be written and the active
-- packages can be restored (or the device supports checkpoints): every active session, in progress or
-- not, is on disk as REVERTED and otherwise unchanged, and all other sessions are as they were.
pub resume_revert_if_needed_finishes :
    (host : Host) (w : World) (i : ℕ)
    → WritesOk host
    → WellFormed w.sessions
    → is_empty (get_sessions_in_state State.revert_in_progress w.sessions) ≡ false
    → CanRestore host
    → ((resume_revert_if_needed host w).0 ≡ ok tt)
      × (file_of i (resume_revert_if_needed host w).1.sessions
          ≡ updated is_active (at_state State.reverted) (file_of i w.sessions))
unfolding resume_revert_if_needed get_sessions_in_state get_active_sessions
resume_revert_if_needed_finishes host w i writes well interrupted can = rw interrupted (
    revert_active_sessions_reverts host "" "" w writes well
      (resumes_active (get_sessions w.sessions) interrupted) i can)

-- With no active session a revert is refused and a resumption does nothing; neither changes the sessions
-- or adds to the trace.
nothing_to_revert :
    (host : Host) (c m : String) (w : World)
    → is_empty (get_active_sessions w.sessions) ≡ true
    → (revert_active_sessions host c m w
        ≡ (err "Revert requested, when there are no active sessions.", w))
      × (resume_revert_if_needed host w ≡ (ok tt, w))
unfolding revert_active_sessions resume_revert_if_needed get_sessions_in_state get_active_sessions
nothing_to_revert host c m w h =
    elim (Bool-cases (
      is_empty
        (keep (λ s. same_state s.state State.revert_in_progress) (get_sessions w.sessions)))) [
          | inl t ↦ (rw h refl, rw t refl)
          | inr f ↦ ground (arith, resumes_active (get_sessions w.sessions) f)
        ]
