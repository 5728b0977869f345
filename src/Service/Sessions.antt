-- ===== src/Service/Sessions.antt =====
-- The calls of apexd/apexservice.cpp on sessions.
use platform_system_apex.Base.{ℕ, String, Bool, true, false, List, [], map}
use platform_system_apex.Base.Int.{ℤ, pos, negsuc}
use platform_system_apex.Base.Result.{Result, ok, err, fatal}
use platform_system_apex.ApexFile.{ApexFile, name_of, version_of}
use platform_system_apex.Session.{
  State, SessionState, Sessions, get_session, get_sessions, mark_staged_session_ready,
  abort_staged_session,
}
use platform_system_apex.Host.{Host, World}
use platform_system_apex.Submit.{Request, submit_staged_session}
use platform_system_apex.Staging.{mark_staged_session_successful}
use platform_system_apex.Revert.{revert_active_sessions, resume_revert_if_needed}
use platform_system_apex.Service.{
  Caller, BinderStatus, ex_service_specific, ex_illegal_argument, check_debuggable, reply, behind,
}

pub record ApexSessionInfo : Type 0 where
  pub session_id : ℤ
  pub is_unknown : Bool
  pub is_verified : Bool
  pub is_staged : Bool
  pub is_activated : Bool
  pub is_revert_in_progress : Bool
  pub is_activation_failed : Bool
  pub is_success : Bool
  pub is_reverted : Bool
  pub is_revert_failed : Bool
  pub crashing_native_process : String
  pub error_message : String

-- The two texts are left as they are.
unfoldable pub clear_session_info : ApexSessionInfo → ApexSessionInfo
clear_session_info info = record info {
  session_id = negsuc 0;
  is_unknown = false;
  is_verified = false;
  is_staged = false;
  is_activated = false;
  is_revert_in_progress = false;
  is_activation_failed = false;
  is_success = false;
  is_reverted = false;
  is_revert_failed = false;
}

-- The switch over the state
unfoldable pub flag_of_state : State → ApexSessionInfo → ApexSessionInfo
flag_of_state State.verified info = record info { is_verified = true }
flag_of_state State.staged info = record info { is_staged = true }
flag_of_state State.activated info = record info { is_activated = true }
flag_of_state State.activation_failed info = record info { is_activation_failed = true }
flag_of_state State.success info = record info { is_success = true }
flag_of_state State.revert_in_progress info = record info { is_revert_in_progress = true }
flag_of_state State.reverted info = record info { is_reverted = true }
flag_of_state State.revert_failed info = record info { is_revert_failed = true }
flag_of_state State.unknown info = record info { is_unknown = true }

unfoldable pub convert_to_apex_session_info : SessionState → ApexSessionInfo → ApexSessionInfo
unfolding clear_session_info flag_of_state
convert_to_apex_session_info session info =
    flag_of_state session.state (record (clear_session_info info) {
      session_id = pos session.id;
      crashing_native_process = session.crashing_native_process;
      error_message = session.error_message;
    })

-- An info as the caller hands it in.
abbrev pub empty_info : ApexSessionInfo
empty_info = record {
  session_id = pos 0;
  is_unknown = false;
  is_verified = false;
  is_staged = false;
  is_activated = false;
  is_revert_in_progress = false;
  is_activation_failed = false;
  is_success = false;
  is_reverted = false;
  is_revert_failed = false;
  crashing_native_process = "";
  error_message = "";
}

-- `getSessions`
unfoldable pub list_sessions : World → List ApexSessionInfo
unfolding convert_to_apex_session_info get_sessions
list_sessions w = map (λ s. convert_to_apex_session_info s empty_info) (get_sessions w.sessions)

abbrev pub info_of_session : Result SessionState → ApexSessionInfo → ApexSessionInfo
info_of_session (ok session) info = convert_to_apex_session_info session info
info_of_session (err e) info = record (clear_session_info info) { is_unknown = true }
info_of_session (fatal e) info = record (clear_session_info info) { is_unknown = true }

unfoldable pub get_staged_session_info : ℕ → ApexSessionInfo → World → ApexSessionInfo
unfolding convert_to_apex_session_info clear_session_info get_session
get_staged_session_info session_id info w = info_of_session (get_session session_id w.sessions) info

-- The fields of `ApexInfo` that `submitStagedSession` fills in
pub record ModuleInfo : Type 0 where
  pub module_name : String
  pub module_path : String
  pub version_code : ℤ

abbrev pub module_infos : Result (List ApexFile) → List ModuleInfo
module_infos (ok packages) =
    map
      (λ a. record {
        module_name = name_of a;
        module_path = a.apex_path;
        version_code = version_of a;
      })
      packages
module_infos (err e) = []
module_infos (fatal e) = []

-- `submitStagedSession`: the status, the list that is filled in, and the new world.
unfoldable pub serve_submit : Host → Request → World → BinderStatus × List ModuleInfo × World
serve_submit host q w =
    let (packages, w') = submit_staged_session host q w in
    let (status, w'') = reply ex_service_specific (packages, w') in
    (status, module_infos packages, w'')

-- The other calls that change sessions
pub data SessionCall : Type 0 where
  mark_ready : ℕ → SessionCall
  mark_successful : ℕ → SessionCall
  abort_session : ℕ → SessionCall
  revert_sessions : SessionCall
  resume_revert : SessionCall

abbrev pub on_sessions : World → Result (Unit {0}) × Sessions → Result (Unit {0}) × World
on_sessions w (r, sessions) = (r, record w { sessions = sessions })

unfoldable pub serve_mark_ready : Host → ℕ → World → BinderStatus × World
serve_mark_ready host id w =
    reply ex_service_specific (on_sessions w (mark_staged_session_ready host.disk id w.sessions))

unfoldable pub serve_mark_successful : Host → ℕ → World → BinderStatus × World
serve_mark_successful host id w =
    reply ex_illegal_argument (mark_staged_session_successful host id w)

unfoldable pub serve_session : Caller → Host → SessionCall → World → BinderStatus × World
unfolding check_debuggable serve_mark_ready serve_mark_successful
serve_session caller host (mark_ready id) w = serve_mark_ready host id w
serve_session caller host (mark_successful id) w = serve_mark_successful host id w
serve_session caller host (abort_session id) w =
    reply ex_illegal_argument (on_sessions w (abort_staged_session host.disk id w.sessions))
serve_session caller host revert_sessions w =
    reply ex_illegal_argument (revert_active_sessions host "" "" w)
serve_session caller host resume_revert w =
    behind (check_debuggable caller "resumeRevertIfNeeded")
      (λ v. reply ex_illegal_argument (resume_revert_if_needed host v)) w
