-- ===== src/Session.antt =====
-- apexd/apexd_session.cpp and proto/session_state.proto: the sessions on disk. A session has one
-- directory, named by its id, with a state file; ids are only compared, so they are numbers. The
-- disk decides whether a write succeeds, and what a failed one leaves in the truncated file.
pub mod Lifecycle
pub mod Store
use platform_system_apex.Base.{
  ℕ, String, Bool, true, false, not, ◌&&◌, Option, none, some, List, [], ◌∷◌, ◌++◌, eqb,
  if◌then◌else◌, keep,
}
use platform_system_apex.Base.Result.{Result, ok, err}

-- `SessionState::State`
pub data State : Type 0 where
  unknown verified staged activated activation_failed success : State
  revert_in_progress reverted revert_failed : State

pub record SessionState : Type 0 where
  pub id : ℕ
  pub state : State
  pub child_session_ids : List ℕ
  pub expected_build_fingerprint : String
  pub rollback_enabled : Bool
  pub is_rollback : Bool
  pub rollback_id : ℕ
  pub crashing_native_process : String
  pub apex_names : List String
  pub error_message : String

-- A session's directory; the file is `none` where it is missing or does not parse.
pub record SessionDir : Type 0 where
  pub dir : ℕ
  pub file : Option SessionState

abbrev pub Sessions : Type 0
Sessions = List SessionDir

pub data Write : Type 0 where
  written : Write
  write_failed : Option SessionState → Write

pub data Removal : Type 0 where
  removed : Removal
  -- What a failed `remove_all` leaves in the directory.
  remove_failed : Option SessionState → Removal

pub record Disk : Type 0 where
  -- whether `CreateDirIfNeeded` of a session's directory succeeds
  pub create_dir : ℕ → Bool
  pub write : SessionState → Write
  pub remove : ℕ → Removal

unfoldable pub has_dir : ℕ → Sessions → Bool
has_dir id [] = false
has_dir id (e ∷ rest) = let more = has_dir id rest in if eqb e.dir id then true else more

-- The state file of a session, if it can be read.
unfoldable pub file_of : ℕ → Sessions → Option SessionState
file_of id [] = none
file_of id (e ∷ rest) = let more = file_of id rest in if eqb e.dir id then e.file else more

unfoldable pub set_file : ℕ → Option SessionState → Sessions → Sessions
set_file id f [] = []
set_file id f (e ∷ rest) =
    let more = e ∷ set_file id f rest in if eqb e.dir id then record e { file = f } ∷ rest else more

unfoldable pub remove_dir : ℕ → Sessions → Sessions
remove_dir id [] = []
remove_dir id (e ∷ rest) = let more = e ∷ remove_dir id rest in if eqb e.dir id then rest else more

-- A session as the default constructor of the message makes it, with its id.
abbrev pub fresh : ℕ → SessionState
fresh id = record {
  id = id;
  state = State.unknown;
  child_session_ids = [];
  expected_build_fingerprint = "";
  rollback_enabled = false;
  is_rollback = false;
  rollback_id = 0;
  crashing_native_process = "";
  apex_names = [];
  error_message = "";
}

-- `ApexSession::CreateSession`: only the directory is made.
unfoldable pub create_session : Disk → ℕ → Sessions → Result SessionState × Sessions
unfolding has_dir
create_session disk id store =
    if disk.create_dir id
    then (
      ok (fresh id),
      if has_dir id store then store else store ++ record { dir = id; file = none } ∷ [],
    )
    else (err "Could not create the session's directory", store)

abbrev pub or_error : Option SessionState → Result SessionState
or_error none = err "Failed to open or to parse the state file"
or_error (some s) = ok s

unfoldable pub get_session : ℕ → Sessions → Result SessionState
unfolding file_of
get_session id store = or_error (file_of id store)

abbrev pub readable : Option SessionState → List SessionState → List SessionState
readable none more = more
readable (some s) more = s ∷ more

-- `GetSessions`: directories whose state file cannot be read are skipped.
unfoldable pub get_sessions : Sessions → List SessionState
get_sessions [] = []
get_sessions (e ∷ rest) = readable e.file (get_sessions rest)

abbrev pub same_state : State → State → Bool
same_state State.unknown State.unknown = true
same_state State.verified State.verified = true
same_state State.staged State.staged = true
same_state State.activated State.activated = true
same_state State.activation_failed State.activation_failed = true
same_state State.success State.success = true
same_state State.revert_in_progress State.revert_in_progress = true
same_state State.reverted State.reverted = true
same_state State.revert_failed State.revert_failed = true
same_state _ _ = false

unfoldable pub get_sessions_in_state : State → Sessions → List SessionState
unfolding get_sessions
get_sessions_in_state st store = keep (λ s. same_state s.state st) (get_sessions store)

abbrev pub is_finalized : State → Bool
is_finalized State.success = true
is_finalized State.activation_failed = true
is_finalized State.reverted = true
is_finalized State.revert_failed = true
is_finalized _ = false

-- The test of `GetActiveSessions`.
abbrev pub active_state : State → Bool
active_state st = not (is_finalized st) && not (same_state st State.unknown)

abbrev pub is_active : SessionState → Bool
is_active s = active_state s.state

unfoldable pub get_active_sessions : Sessions → List SessionState
unfolding get_sessions
get_active_sessions store = keep is_active (get_sessions store)

-- The write of `UpdateStateAndCommit`: a file in a directory that is missing cannot be opened.
unfoldable pub commit : Disk → SessionState → Sessions → Result (Unit {0}) × Sessions
unfolding has_dir set_file
commit disk s store =
    if has_dir s.id store
    then elim (disk.write s) [
      | written ↦ (ok tt, set_file s.id (some s) store)
      | write_failed left ↦ (err "Failed to write state file", set_file s.id left store)
    ]
    else (err "Failed to write state file", store)

unfoldable pub update_state_and_commit :
    Disk → State → SessionState → Sessions → Result (Unit {0}) × Sessions
unfolding commit
update_state_and_commit disk st s store = commit disk (record s { state = st }) store

-- `DeleteSession`; to remove a directory that is missing is no error.
unfoldable pub delete_session : Disk → SessionState → Sessions → Result (Unit {0}) × Sessions
unfolding remove_dir set_file
delete_session disk s store = elim (disk.remove s.id) [
  | removed ↦ (ok tt, remove_dir s.id store)
  | remove_failed left ↦ (err "Failed to delete", set_file s.id left store)
]

-- The loop of `DeleteFinalizedSessions` over the sessions read at its start.
unfoldable pub delete_finalized_of : Disk → List SessionState → Sessions → Sessions
unfolding delete_session
delete_finalized_of disk [] store = store
delete_finalized_of disk (s ∷ ss) store =
    delete_finalized_of disk ss
      (if is_finalized s.state then (delete_session disk s store).1 else store)

unfoldable pub delete_finalized_sessions : Disk → Sessions → Sessions
unfolding delete_finalized_of get_sessions
delete_finalized_sessions disk store = delete_finalized_of disk (get_sessions store) store

-- `AbortStagedSession` of apexd.cpp
unfoldable pub abort_staged_session : Disk → ℕ → Sessions → Result (Unit {0}) × Sessions
unfolding file_of delete_session
abort_staged_session disk id store = elim (file_of id store) [
  | none ↦ (err "No session found with id", store)
  | some s ↦
      if same_state s.state State.verified
      then delete_session disk s store
      else if same_state s.state State.staged
      then delete_session disk s store
      else (err "Session can't be aborted", store)
]

-- `MarkStagedSessionReady` of apexd.cpp
unfoldable pub mark_staged_session_ready : Disk → ℕ → Sessions → Result (Unit {0}) × Sessions
unfolding file_of update_state_and_commit
mark_staged_session_ready disk id store = elim (file_of id store) [
  | none ↦ (err "Failed to open or to parse the state file", store)
  | some s ↦
      if same_state s.state State.staged
      then (ok tt, store)
      else if same_state s.state State.verified
      then update_state_and_commit disk State.staged s store
      else (err "Invalid state for session. Cannot mark it as ready.", store)
]
