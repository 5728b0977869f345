-- ===== src/Service/Staged.antt =====
-- What the service reports of sessions, and of a session that was submitted.
use platform_system_apex.Base.{
  ℕ, String, Bool, true, false, ◌&&◌, List, ◌≡◌, refl, sym, ap, ◌∙◌, eqb, eqb_iff, branch_true,
  branch_false,
}
use platform_system_apex.Base.Int.{ℤ, pos}
use platform_system_apex.Base.Result.{Result, ok, err, fatal}
use platform_system_apex.ApexFile.{ApexFile}
use platform_system_apex.Session.{
  State, SessionState, get_session, file_of, same_state, or_error, fresh,
}
use platform_system_apex.Host.{Host, World}
use platform_system_apex.Host.Writes.{WritesOk}
use platform_system_apex.Submit.{Request, submit_staged_session, requested}
use platform_system_apex.Submit.Outcome.{submit_staged_session_all_or_nothing, is_ok}
use platform_system_apex.Service.{
  BinderStatus, okay, exception, died, to_status, ex_service_specific,
}
use platform_system_apex.Service.Sessions.{
  ApexSessionInfo, clear_session_info, flag_of_state, convert_to_apex_session_info,
  get_staged_session_info, info_of_session, serve_submit,
}

-- The field of an info that stands for a state
abbrev pub flag : State → ApexSessionInfo → Bool
flag State.unknown info = info.is_unknown
flag State.verified info = info.is_verified
flag State.staged info = info.is_staged
flag State.activated info = info.is_activated
flag State.activation_failed info = info.is_activation_failed
flag State.success info = info.is_success
flag State.revert_in_progress info = info.is_revert_in_progress
flag State.reverted info = info.is_reverted
flag State.revert_failed info = info.is_revert_failed

flag-flag_of_state :
    (asked st : State) (info : ApexSessionInfo) (id : ℤ) (name message : String)
    → flag asked (
        flag_of_state st (record (clear_session_info info) {
          session_id = id;
          crashing_native_process = name;
          error_message = message;
        }))
      ≡ same_state asked st
unfolding flag_of_state clear_session_info
flag-flag_of_state State.unknown State.unknown info id name message = refl
flag-flag_of_state State.unknown st info id name message = refl
flag-flag_of_state State.verified State.verified info id name message = refl
flag-flag_of_state State.verified st info id name message = refl
flag-flag_of_state State.staged State.staged info id name message = refl
flag-flag_of_state State.staged st info id name message = refl
flag-flag_of_state State.activated State.activated info id name message = refl
flag-flag_of_state State.activated st info id name message = refl
flag-flag_of_state State.activation_failed State.activation_failed info id name message = refl
flag-flag_of_state State.activation_failed st info id name message = refl
flag-flag_of_state State.success State.success info id name message = refl
flag-flag_of_state State.success st info id name message = refl
flag-flag_of_state State.revert_in_progress State.revert_in_progress info id name message = refl
flag-flag_of_state State.revert_in_progress st info id name message = refl
flag-flag_of_state State.reverted State.reverted info id name message = refl
flag-flag_of_state State.reverted st info id name message = refl
flag-flag_of_state State.revert_failed State.revert_failed info id name message = refl
flag-flag_of_state State.revert_failed st info id name message = refl

kept_fields :
    (st : State) (info : ApexSessionInfo)
    → let r = flag_of_state st info in
      (r.session_id ≡ info.session_id)
      × (r.crashing_native_process ≡ info.crashing_native_process)
      × (r.error_message ≡ info.error_message)
unfolding flag_of_state
kept_fields State.unknown info = (refl, refl, refl)
kept_fields _ info = (refl, refl, refl)

-- The info of a session has its id and its two texts, and of the nine flags exactly the one of its
-- state is set, whatever the info held before.
pub convert_to_apex_session_info-one_flag :
    (session : SessionState) (info : ApexSessionInfo)
    → let r = convert_to_apex_session_info session info in
      ((asked : State) → flag asked r ≡ same_state asked session.state)
      × (r.session_id ≡ pos session.id)
      × (r.crashing_native_process ≡ session.crashing_native_process)
      × (r.error_message ≡ session.error_message)
unfolding convert_to_apex_session_info
convert_to_apex_session_info-one_flag session info =
    let (i, c, m) = kept_fields session.state (record (clear_session_info info) {
      session_id = pos session.id;
      crashing_native_process = session.crashing_native_process;
      error_message = session.error_message;
    }) in
    (λ asked. flag-flag_of_state asked session.state info _ _ _, i, c, m)

abbrev pub is_okay : BinderStatus → Bool
is_okay okay = true
is_okay (exception code message) = false
is_okay (died message) = false

is_okay-to_status :
    (r : Result (List ApexFile)) → is_okay (to_status ex_service_specific r) ≡ is_ok r
is_okay-to_status (ok a) = refl
is_okay-to_status (err e) = refl
is_okay-to_status (fatal e) = refl

reported :
    (id : ℕ) (info : ApexSessionInfo) (w w' : World)
    → file_of id w'.sessions ≡ file_of id w.sessions
    → get_staged_session_info id info w' ≡ get_staged_session_info id info w
unfolding get_staged_session_info get_session
reported id info w w' e = ap (λ f. info_of_session (or_error f) info) e

-- Where session directories and state files can be written: if `submitStagedSession` is answered by ok,
-- `getStagedSessionInfo` then reports the session as verified, and as nothing else. In all other
-- cases, and for all other sessions, it reports what it did before the call.
pub serve_submit-reported :
    (host : Host) (q : Request) (w : World) (info : ApexSessionInfo)
    → WritesOk host
    → host.disk.create_dir q.session_id ≡ true
    → let r = serve_submit host q w in
      (is_okay r.0 ≡ true
        → (asked : State)
        → flag asked (get_staged_session_info q.session_id info r.2)
          ≡ same_state asked State.verified)
      × ((j : ℕ)
          → (is_okay r.0 && eqb q.session_id j) ≡ false
          → get_staged_session_info j info r.2 ≡ get_staged_session_info j info w)
unfolding serve_submit get_staged_session_info get_session
serve_submit-reported host q w info writes dir =
    let r = submit_staged_session host q w in
    let status : is_okay (to_status ex_service_specific r.0) ≡ is_ok r.0 = is_okay-to_status r.0 in
    let stored = λ (j : ℕ). submit_staged_session_all_or_nothing host q w j writes dir in
    (
      λ done asked.
          let id = q.session_id in
          let holds : (is_ok r.0 && eqb id id) ≡ true =
            rw (sym status ∙ done) ((eqb_iff id id).1 refl) in
          ap (λ f. flag asked (info_of_session (or_error f) info))
            (stored id ∙ branch_true _ _ holds)
          ∙ (convert_to_apex_session_info-one_flag (requested host q (fresh id)) info).0 asked,
      λ j other.
          let fails : (is_ok r.0 && eqb q.session_id j) ≡ false =
            ap (λ b. b && eqb q.session_id j) (sym status) ∙ other in
          reported j info w r.1 (stored j ∙ branch_false _ _ fails),
    )
