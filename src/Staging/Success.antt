-- ===== src/Staging/Success.antt =====
-- What `MarkStagedSessionSuccessful` of apexd/apexd.cpp does to the sessions.
use platform_system_apex.Base.{
  ℕ, true, not, ◌&&◌, ◌||◌, some, ◌≡◌, refl, eqb, arith, if◌then◌else◌, Bool-cases, inl, inr,
}
use platform_system_apex.Base.Result.{ok, err}
use platform_system_apex.Session.{State, SessionState, has_dir, file_of, same_state}
use platform_system_apex.Session.Store.{WellFormed, file_of-set_file, has_dir_of_file, id_of_file}
use platform_system_apex.Host.{Host, World, log, deleted_backup, deleted_pre_restore}
use platform_system_apex.Host.Writes.{WritesOk, commit_at_ok}
use platform_system_apex.Staging.{at_state, after_delete_backup, mark_staged_session_successful}

after_delete_backup_ok :
    (host : Host) (s : SessionState) (w : World) (j : ℕ)
    → WritesOk host
    → has_dir s.id w.sessions ≡ true
    → ((after_delete_backup host s w).0 ≡ ok tt)
      × (file_of j (after_delete_backup host s w).1.sessions
          ≡ (if eqb s.id j then some (at_state State.success s) else file_of j w.sessions))
after_delete_backup_ok host s w j writes d =
    let s' = at_state State.success s in
    let e = file_of-set_file s.id j (some s') w.sessions in
    elim (Bool-cases (s.is_rollback && not host.supports_fs_checkpoints)) [
      | inl t ↦
          let c = commit_at_ok host s' (log (deleted_pre_restore s.id) w) writes d in
          rw (t, c) (refl, ground (arith, e, d))
      | inr f ↦ let c = commit_at_ok host s' w writes d in rw (f, c) (refl, ground (arith, e, d))
    ]

-- Marking a session among `WellFormed` ones successful, when its state file can be read and written and
-- the backup can be deleted, takes an ACTIVATED one to SUCCESS and leaves a SUCCESS one; it fails for
-- every other state and then changes nothing. No other session is touched in any case.
pub mark_staged_session_successful_only_activated :
    (host : Host) (id j : ℕ) (w : World) (s : SessionState)
    → WritesOk host
    → WellFormed w.sessions
    → host.delete_backup ≡ ok tt
    → file_of id w.sessions ≡ some s
    → let fits = same_state s.state State.success || same_state s.state State.activated in
      let r = mark_staged_session_successful host id w in
      (r.0 ≡ (if fits then ok tt else err "Session can not be marked successful"))
      × (file_of j r.1.sessions ≡ (
          if same_state s.state State.activated && eqb id j
          then some (at_state State.success s)
          else file_of j w.sessions))
unfolding mark_staged_session_successful
mark_staged_session_successful_only_activated host id j w s writes well backup h =
    let q : s.id ≡ id = id_of_file id w.sessions s well h in
    let d : has_dir s.id w.sessions ≡ true = rw q (has_dir_of_file id w.sessions s h) in
    let (done, left) = after_delete_backup_ok host s (log deleted_backup w) j writes d in
    ground arith
