-- ===== src/Tests/Staged.antt =====
-- The theorems on staged sessions at a device with two sessions.
use platform_system_apex.Base.{String, true, false, some, inr, List, [], ◌∷◌, ◌≡◌, refl}
use platform_system_apex.Base.Result.{ok, err}
use platform_system_apex.Session.{
  State, file_of, has_dir, is_active, get_active_sessions, get_sessions_in_state,
  mark_staged_session_ready, create_session,
}
use platform_system_apex.Session.Store.{WellFormed, updated}
use platform_system_apex.Session.Lifecycle.{mark_staged_session_ready_only_verified}
use platform_system_apex.Host.{commit_at, restored_active_packages}
use platform_system_apex.Host.Writes.{log_all}
use platform_system_apex.Revert.{
  annotate, at_state, revert_active_sessions, resume_revert_if_needed,
}
use platform_system_apex.Revert.Final.{
  revert_active_sessions_reverts, revert_active_sessions_fails, resume_revert_if_needed_finishes,
}
use platform_system_apex.Staging.{
  attempt, scan_staged_sessions_dir_and_stage, mark_staged_session_successful,
}
use platform_system_apex.Staging.Outcome.{Settled, scan_staged_sessions_dir_and_stage_settles}
use platform_system_apex.Staging.Success.{mark_staged_session_successful_only_activated}
use platform_system_apex.Staging.Conditions.{Staged, attempt_is_Staged}
use platform_system_apex.Submit.{Request, submit_staged_session}
use platform_system_apex.Submit.Outcome.{submit_staged_session_all_or_nothing}
use platform_system_apex.Submit.Verified.{Accepted, submit_staged_session_accepts}
use platform_system_apex.Tests.{disk, host, broken_host, session, store, world, wifi_data}

pub well : (st : State) → WellFormed (store st)
unfolding has_dir
well st = (refl, refl, (refl, refl, tt))

scan_staged_sessions_dir_and_stage_settles_example :
    Settled host
      (some (session 7 State.staged))
      (file_of 7 (scan_staged_sessions_dir_and_stage host (world State.staged)).sessions)
unfolding file_of
scan_staged_sessions_dir_and_stage_settles_example =
    scan_staged_sessions_dir_and_stage_settles host (world State.staged) 7 (λ s. refl)
      (well State.staged)

abbrev wifi_paths : List String
wifi_paths = "/data/app-staging/session_7/wifi.apex" ∷ []

attempt_is_Staged_example :
    Staged host
      (session 7 State.staged)
      wifi_paths
      (record (session 7 State.staged) { apex_names = "wifi" ∷ [] })
unfolding attempt
attempt_is_Staged_example =
    attempt_is_Staged host (session 7 State.staged) wifi_paths
      (record (session 7 State.staged) { apex_names = "wifi" ∷ [] }) refl

revert_active_sessions_reverts_example :
    ((revert_active_sessions host "init" "crashed" (world State.staged)).0 ≡ ok tt)
    × (file_of 7 (revert_active_sessions host "init" "crashed" (world State.staged)).1.sessions
        ≡ some (record (session 7 State.reverted) {
          crashing_native_process = "init";
          error_message = "crashed";
        }))
unfolding get_active_sessions file_of
revert_active_sessions_reverts_example =
    revert_active_sessions_reverts host "init" "crashed" (world State.staged) (λ s. refl)
      (well State.staged) refl 7 (inr refl)

revert_active_sessions_fails_example :
    ((revert_active_sessions broken_host "init" "" (world State.staged)).0 ≡ err "no backup")
    × (file_of 7 (revert_active_sessions broken_host "init" "" (world State.staged)).1.sessions
        ≡ updated is_active
            (λ s. at_state State.revert_failed (annotate "init" "" s))
            (file_of 7 (store State.staged)))
    × ((revert_active_sessions broken_host "init" "" (world State.staged)).1.trace
        ≡ log_all
            (record (session 7 State.revert_failed) { crashing_native_process = "init" } ∷ [])
            (restored_active_packages
              ∷ log_all
                  (record (session 7 State.revert_in_progress) { crashing_native_process = "init" }
                    ∷ [])
                  []))
unfolding get_active_sessions
revert_active_sessions_fails_example =
    revert_active_sessions_fails broken_host "init" "" (world State.staged) (λ s. refl)
      (well State.staged) refl 7 "no backup" refl refl

resume_revert_if_needed_finishes_example :
    ((resume_revert_if_needed host (world State.revert_in_progress)).0 ≡ ok tt)
    × (file_of 7 (resume_revert_if_needed host (world State.revert_in_progress)).1.sessions
        ≡ updated is_active (at_state State.reverted) (file_of 7 (store State.revert_in_progress)))
unfolding get_sessions_in_state
resume_revert_if_needed_finishes_example =
    resume_revert_if_needed_finishes host (world State.revert_in_progress) 7 (λ s. refl)
      (well State.revert_in_progress) refl (inr refl)

mark_staged_session_ready_only_verified_example :
    ((mark_staged_session_ready disk 7 (store State.verified)).0 ≡ ok tt)
    × (file_of 7 (mark_staged_session_ready disk 7 (store State.verified)).1
        ≡ some (session 7 State.staged))
unfolding file_of
mark_staged_session_ready_only_verified_example =
    mark_staged_session_ready_only_verified disk 7 7 (store State.verified)
      (session 7 State.verified) (λ t. refl) (well State.verified) refl

abbrev request : Request
request = record {
  session_id = 9;
  child_session_ids = 10 ∷ 11 ∷ [];
  has_rollback_enabled = true;
  is_rollback = false;
  rollback_id = 5;
}

submit_staged_session_accepts_example : Accepted host request (wifi_data ∷ wifi_data ∷ [])
unfolding submit_staged_session create_session commit_at
submit_staged_session_accepts_example =
    submit_staged_session_accepts host request (wifi_data ∷ wifi_data ∷ []) (world State.success)
      refl

submit_staged_session_all_or_nothing_example :
    file_of 9 (submit_staged_session host request (world State.success)).1.sessions
    ≡ some (record {
      id = 9;
      state = State.verified;
      child_session_ids = 10 ∷ 11 ∷ [];
      expected_build_fingerprint = "build";
      rollback_enabled = true;
      is_rollback = false;
      rollback_id = 5;
      crashing_native_process = "";
      apex_names = [];
      error_message = "";
    })
unfolding submit_staged_session create_session commit_at
submit_staged_session_all_or_nothing_example =
    submit_staged_session_all_or_nothing host request (world State.success) 9 (λ s. refl) refl

mark_staged_session_successful_only_activated_example :
    ((mark_staged_session_successful host 7 (world State.activated)).0 ≡ ok tt)
    × (file_of 7 (mark_staged_session_successful host 7 (world State.activated)).1.sessions
        ≡ some (session 7 State.success))
unfolding file_of
mark_staged_session_successful_only_activated_example =
    mark_staged_session_successful_only_activated host 7 7 (world State.activated)
      (session 7 State.activated) (λ t. refl) (well State.activated) refl refl
