-- ===== src/Tests/Served.antt =====
-- Calls of the service: of a session, of a package by another user, and for space.
use platform_system_apex.Base.{
  ℕ, Bool, true, false, ◌&&◌, none, some, [], ◌∷◌, ◌≡◌, refl, eqb, ◌==◌,
}
use platform_system_apex.Base.Int.{pos}
use platform_system_apex.Session.{State, same_state}
use platform_system_apex.Submit.{Request}
use platform_system_apex.Machine.{Texts}
use platform_system_apex.Snapshot.{look}
use platform_system_apex.Service.{Caller}
use platform_system_apex.Service.Sessions.{
  convert_to_apex_session_info, empty_info, get_staged_session_info, serve_submit,
}
use platform_system_apex.Service.Packages.{call_remount, serve_package}
use platform_system_apex.Service.Guarded.{is_security, serve_package-refused}
use platform_system_apex.Service.Staged.{
  flag, is_okay, convert_to_apex_session_info-one_flag, serve_submit-reported,
}
use platform_system_apex.Service.Space.{SpaceCalls, SizeMap, reserve_space}
use platform_system_apex.Service.Space.Reserved.{reserve_space-exactly}
use platform_system_apex.Tests.{host, session, world}
use platform_system_apex.Tests.Installed.{services, machine}

convert_to_apex_session_info-one_flag_example :
    let r = convert_to_apex_session_info (session 7 State.staged) empty_info in
    ((asked : State) → flag asked r ≡ same_state asked State.staged)
    × (r.session_id ≡ pos 7)
    × (r.crashing_native_process ≡ "")
    × (r.error_message ≡ "")
convert_to_apex_session_info-one_flag_example =
    convert_to_apex_session_info-one_flag (session 7 State.staged) empty_info

abbrev request : Request
request = record {
  session_id = 9;
  child_session_ids = [];
  has_rollback_enabled = true;
  is_rollback = false;
  rollback_id = 0;
}

serve_submit-reported_example :
    let r = serve_submit host request (world State.success) in
    (is_okay r.0 ≡ true
      → (asked : State)
      → flag asked (get_staged_session_info 9 empty_info r.2) ≡ same_state asked State.verified)
    × ((j : ℕ)
        → (is_okay r.0 && eqb 9 j) ≡ false
        → get_staged_session_info j empty_info r.2
          ≡ get_staged_session_info j empty_info (world State.success))
serve_submit-reported_example =
    serve_submit-reported host request (world State.success) empty_info (λ s. refl) refl

-- An ordinary user on a debuggable device
abbrev caller : Caller
caller = record { is_debuggable = true; uid = 1000 }

abbrev texts : Texts
texts = record {
  consume_prefix = λ prefix s. some s;
  after_last = λ c s. none;
  parse_uint = λ s. none;
  can_list_devices = true;
}

serve_package-refused_example :
    (is_security (serve_package caller services texts call_remount machine).0 ≡ true)
    × (◌≡◌ {A = Bool} true true
        → (serve_package caller services texts call_remount machine).1 ≡ machine)
serve_package-refused_example = serve_package-refused caller services texts call_remount machine

abbrev space : SpaceCalls
space = record {
  can_scan = true;
  is_ota_apex = λ path. path == "/data/apex/decompressed/wifi@2.ota.apex";
  can_unlink = λ path. true;
  can_open = λ path. true;
  can_resize = λ path. true;
}

abbrev left : SizeMap
left = ("/data/apex/decompressed/wifi@2.ota.apex", 30) ∷ ("/data/apex/active/wifi@2.apex", 20) ∷ []

abbrev reserved : SizeMap
reserved = ("/data/apex/ota_reserved/full.tmp", 64) ∷ ("/data/apex/active/wifi@2.apex", 20) ∷ []

reserve_space-exactly_example : look "/data/apex/ota_reserved/full.tmp" reserved ≡ some 64
unfolding reserve_space
reserve_space-exactly_example =
    reserve_space-exactly space (λ p. refl) 64 "/data/apex/ota_reserved"
      "/data/apex/ota_reserved/full.tmp" left reserved refl refl
