-- ===== src/Service.antt =====
-- apexd/apexservice.cpp: the calls of the binder service. What the binder library tells of the caller
-- is a record; each call answers by a status.
pub mod Sessions
pub mod Packages
pub mod Space
pub mod Staged
pub mod Guarded
use platform_system_apex.Base.{ℕ, String, ◌^^◌, Bool, true, false, eqb, if◌then◌else◌}
use platform_system_apex.Base.Result.{Result, ok, err, fatal}

pub data ExceptionCode : Type 0 where
  ex_security : ExceptionCode
  ex_service_specific : ExceptionCode
  ex_illegal_argument : ExceptionCode

-- `binder::Status`; `died` where a fatal error ends the process and nothing is answered.
pub data BinderStatus : Type 0 where
  okay : BinderStatus
  exception : ExceptionCode → String → BinderStatus
  died : String → BinderStatus

-- The property `ro.debuggable`, and the user id of the caller
pub record Caller : Type 0 where
  pub is_debuggable : Bool
  pub uid : ℕ

abbrev pub aid_root : ℕ
aid_root = 0

unfoldable pub check_debuggable : Caller → String → BinderStatus
check_debuggable caller name =
    if caller.is_debuggable then okay else exception ex_security (name ^^ " unavailable")

-- The message that is put together is not the one that is sent.
unfoldable pub check_caller_is_root : Caller → String → BinderStatus
check_caller_is_root caller name =
    if eqb caller.uid aid_root then okay else exception ex_security name

-- A result as the status of a call, which sends its error by the code.
abbrev pub to_status {ℓ} : {A : Type ℓ} → ExceptionCode → Result A → BinderStatus
to_status code (ok a) = okay
to_status code (err e) = exception code e
to_status code (fatal e) = died e

module _ {S : Type 0} where
  abbrev pub reply {ℓ} : {A : Type ℓ} → ExceptionCode → Result A × S → BinderStatus × S
  reply code (r, s) = (to_status code r, s)

  -- A call behind a check, which answers by the status of the check if that fails.
  abbrev pub behind : BinderStatus → (S → BinderStatus × S) → S → BinderStatus × S
  behind okay call s = call s
  behind (exception code message) call s = (exception code message, s)
  behind (died message) call s = (died message, s)
