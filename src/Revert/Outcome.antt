-- ===== src/Revert/Outcome.antt =====
-- What `RevertActiveSessions` of apexd/apexd.cpp leaves on disk.
use platform_system_apex.Base.{String, some, List, [], ◌∷◌, map, ◌≡◌, refl, ◌∙◌, ap, arith}
use platform_system_apex.Base.Result.{ok}
use platform_system_apex.Session.{State, SessionState, set_file}
use platform_system_apex.Session.Store.{set_all}
use platform_system_apex.Host.{Host, World, committed}
use platform_system_apex.Host.Writes.{WritesOk, There, commit_at_ok, There-set_file, log_all}
use platform_system_apex.Revert.{
  annotate, at_state, mark_in_progress, mark_revert_failed, mark_reverted, undo_restore, also,
}

module _ (host : Host) (writes : WritesOk host) where
  pub mark_in_progress_ok :
      (c m : String) (ss : List SessionState) (w : World)
      → There w.sessions ss
      → let ss' = map (λ s. at_state State.revert_in_progress (annotate c m s)) ss in
        mark_in_progress host c m ss w
        ≡ (ok ss', record { sessions = set_all ss' w.sessions; trace = log_all ss' w.trace })
  unfolding mark_in_progress
  mark_in_progress_ok c m [] w h = refl
  mark_in_progress_ok c m (s ∷ ss) w h =
      let s' = at_state State.revert_in_progress (annotate c m s) in
      let w' : World = record {
        sessions = set_file s'.id (some s') w.sessions;
        trace = committed s' ∷ w.trace;
      } in
      let e = commit_at_ok host s' w writes h.0 in
      let step : mark_in_progress host c m (s ∷ ss) w ≡ also s' (mark_in_progress host c m ss w') =
        rw (e, mark_in_progress) (rw e refl) in
      step
      ∙ ap (also s')
          (mark_in_progress_ok c m ss w' (There-set_file s'.id (some s') w.sessions ss h.1))

  pub mark_revert_failed_ok :
      (ss : List SessionState) (w : World)
      → There w.sessions ss
      → let ss' = map (at_state State.revert_failed) ss in
        mark_revert_failed host ss w
        ≡ record { sessions = set_all ss' w.sessions; trace = log_all ss' w.trace }
  unfolding mark_revert_failed
  mark_revert_failed_ok [] w h = refl
  mark_revert_failed_ok (s ∷ ss) w h =
      let s' = at_state State.revert_failed s in
      rw (commit_at_ok host s' w writes h.0, mark_revert_failed)
        (mark_revert_failed_ok ss _ (There-set_file s'.id (some s') w.sessions ss h.1))

  sessions-undo_restore :
      (s : SessionState) (w : World) → (undo_restore host s w).sessions ≡ w.sessions
  sessions-undo_restore s w = ground arith

  pub sessions-mark_reverted :
      (ss : List SessionState) (w : World)
      → There w.sessions ss
      → (mark_reverted host ss w).sessions ≡ set_all (map (at_state State.reverted) ss) w.sessions
  unfolding mark_reverted
  sessions-mark_reverted [] w h = refl
  sessions-mark_reverted (s ∷ ss) w h =
      let s' = at_state State.reverted s in
      let e = sessions-undo_restore s w in
      rw (commit_at_ok host s' (undo_restore host s w) writes (rw e h.0), mark_reverted)
        (rw e (sessions-mark_reverted ss _ (There-set_file s'.id (some s') w.sessions ss h.1)))
