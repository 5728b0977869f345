-- ===== src/Revert.antt =====
-- `RevertActiveSessions` and `ResumeRevertIfNeeded` of apexd/apexd.cpp.
pub mod Final
pub mod Outcome
use platform_system_apex.Base.{
  String, Bool, true, false, not, ◌&&◌, List, [], ◌∷◌, ◌==◌, if◌then◌else◌, is_empty,
}
use platform_system_apex.Base.Result.{Result, ok, err, fatal}
use platform_system_apex.Session.{State, SessionState, get_active_sessions, get_sessions_in_state}
use platform_system_apex.Host.{
  Host, World, log, commit_at, restored_active_packages, restored_pre_restore,
}

-- The two notes that a session gets.
abbrev pub annotate : String → String → SessionState → SessionState
annotate crashing_native_process error_message s = record s {
  crashing_native_process =
      if crashing_native_process == "" then s.crashing_native_process else crashing_native_process;
  error_message = if error_message == "" then s.error_message else error_message;
}

abbrev pub at_state : State → SessionState → SessionState
at_state st s = record s { state = st }

abbrev pub also :
    SessionState → Result (List SessionState) × World → Result (List SessionState) × World
also s (ok ss, w) = (ok (s ∷ ss), w)
also s (err e, w) = (err e, w)
also s (fatal e, w) = (fatal e, w)

-- The first loop: it ends at the first write that fails. It returns the sessions as they are now.
unfoldable pub mark_in_progress :
    Host → String → String → List SessionState → World → Result (List SessionState) × World
mark_in_progress host crashing message [] w = (ok [], w)
mark_in_progress host crashing message (s ∷ ss) w =
    let s' = at_state State.revert_in_progress (annotate crashing message s) in
    let (r, w') = commit_at host s' w in
    elim r [
      | ok u ↦ also s' (mark_in_progress host crashing message ss w')
      | err e ↦ (err "Revert of session failed", w')
      | fatal e ↦ (fatal e, w')
    ]

-- The loop that marks the sessions as failed to revert; a write that fails is only logged.
unfoldable pub mark_revert_failed : Host → List SessionState → World → World
mark_revert_failed host [] w = w
mark_revert_failed host (s ∷ ss) w =
    mark_revert_failed host ss (commit_at host (at_state State.revert_failed s) w).1

abbrev pub undo_restore : Host → SessionState → World → World
undo_restore host s w =
    if not host.supports_fs_checkpoints && s.is_rollback
    then log (restored_pre_restore s.id) w
    else w

-- The last loop.
unfoldable pub mark_reverted : Host → List SessionState → World → World
mark_reverted host [] w = w
mark_reverted host (s ∷ ss) w =
    mark_reverted host ss (commit_at host (at_state State.reverted s) (undo_restore host s w)).1

-- The function from the call of `RestoreActivePackages` on.
unfoldable pub restore_and_mark : Host → List SessionState → World → Result (Unit {0}) × World
unfolding mark_revert_failed mark_reverted
restore_and_mark host ss w =
    if host.supports_fs_checkpoints
    then (ok tt, mark_reverted host ss w)
    else elim host.restore_active_packages [
      | ok u ↦ (ok tt, mark_reverted host ss (log restored_active_packages w))
      | err e ↦ (err e, mark_revert_failed host ss (log restored_active_packages w))
      | fatal e ↦ (fatal e, log restored_active_packages w)
    ]

abbrev pub after_marking : Host → Result (List SessionState) × World → Result (Unit {0}) × World
after_marking host (ok ss, w) = restore_and_mark host ss w
after_marking host (err e, w) = (err e, w)
after_marking host (fatal e, w) = (fatal e, w)

unfoldable pub revert_active_sessions : Host → String → String → World → Result (Unit {0}) × World
unfolding get_active_sessions mark_in_progress restore_and_mark
revert_active_sessions host crashing message w =
    let active = get_active_sessions w.sessions in
    if is_empty active
    then (err "Revert requested, when there are no active sessions.", w)
    else after_marking host (mark_in_progress host crashing message active w)

unfoldable pub resume_revert_if_needed : Host → World → Result (Unit {0}) × World
unfolding get_sessions_in_state revert_active_sessions
resume_revert_if_needed host w =
    if is_empty (get_sessions_in_state State.revert_in_progress w.sessions)
    then (ok tt, w)
    else revert_active_sessions host "" "" w
