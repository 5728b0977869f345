-- ===== src/Staging/Outcome.antt =====
-- What `ScanStagedSessionsDirAndStage` of apexd/apexd.cpp leaves on disk.
use platform_system_apex.Base.{
  ℕ, String, Bool, true, false, ◌&&◌, ◌||◌, Option, none, some, List, [], ◌∷◌, ◌++◌, map, ◌≡◌, refl,
  sym, ◌∙◌, ap, ◌⊎◌, inl, inr, arith, if◌then◌else◌, Bool-cases, keep, All-append,
}
use platform_system_apex.Session.{
  State, SessionState, Sessions, has_dir, file_of, get_sessions, get_sessions_in_state, same_state,
}
use platform_system_apex.Session.Store.{
  WellFormed, set_all, last_for, last_for-append, changed, changed_at, updated, map-keep,
  file_of-set_all, has_dir-set_all, file_of_absent, last_for-changed,
}
use platform_system_apex.Host.{Host, World}
use platform_system_apex.Host.Writes.{
  WritesOk, There, There-set_file, There-keep, There-get_sessions, commit_at_ok,
}
use platform_system_apex.Staging.Settled.{Activated, Failed, finish-attempt}
use platform_system_apex.Staging.{
  Attempt, failed, staged, attempt, finish, note_staged, after_scan, scan_dirs, ids_to_scan,
  stage_scanned, add_apex_names, stage_sessions, scan_staged_sessions_dir_and_stage,
}

id-add_apex_names :
    (host : Host) (paths : List String) (s : SessionState) → (add_apex_names host paths s).id ≡ s.id
unfolding add_apex_names
id-add_apex_names host [] s = refl
id-add_apex_names host (path ∷ paths) s = id-add_apex_names host paths _

id-stage_scanned :
    (host : Host) (apexes : List String) (s : SessionState)
    → (finish (stage_scanned host apexes s)).id ≡ s.id
unfolding stage_scanned
id-stage_scanned host apexes s = ground (arith, id-add_apex_names host apexes s)

id-after_scan :
    (host : Host) (s : SessionState) (r : String ⊎ List String)
    → (finish (after_scan host s r)).id ≡ s.id
unfolding after_scan
id-after_scan host s (inl m) = refl
id-after_scan host s (inr apexes) = id-stage_scanned host apexes s

pub id-attempt : (host : Host) (s : SessionState) → (finish (attempt host s)).id ≡ s.id
unfolding attempt
id-attempt host s =
    ground
      (arith, id-after_scan host s (scan_dirs host s.id (ids_to_scan s.id s.child_session_ids)))

sessions-note_staged : (r : Attempt) (w : World) → (note_staged r w).sessions ≡ w.sessions
sessions-note_staged (failed s) w = refl
sessions-note_staged (staged apexes s) w = refl

abbrev pub tried : Host → SessionState → SessionState
tried host s = finish (attempt host s)

sessions-stage_sessions :
    (host : Host) (ss : List SessionState) (w : World)
    → WritesOk host
    → There w.sessions ss
    → (stage_sessions host ss w).sessions ≡ set_all (map (tried host) ss) w.sessions
unfolding stage_sessions
sessions-stage_sessions host [] w writes h = refl
sessions-stage_sessions host (s ∷ ss) w writes h =
    let s' = tried host s in
    let w' = note_staged (attempt host s) w in
    let e : w'.sessions ≡ w.sessions = sessions-note_staged (attempt host s) w in
    let there : has_dir s'.id w'.sessions ≡ true = rw (e, id-attempt host s) h.0 in
    rw (commit_at_ok host s' w' writes there, stage_sessions)
      (rw e (
        sessions-stage_sessions host ss _ writes
          (There-set_file s'.id (some s') w.sessions ss h.1)))

-- The sessions that are staged: the activated ones too, where a checkpoint may have undone them.
abbrev pub candidate : Host → SessionState → Bool
candidate host s =
    same_state s.state State.staged
    || (host.supports_fs_checkpoints && same_state s.state State.activated)

abbrev is_staged : SessionState → Bool
is_staged s = same_state s.state State.staged

abbrev activated_again : Host → SessionState → Bool
activated_again host s = host.supports_fs_checkpoints && same_state s.state State.activated

two_passes :
    (host : Host) (f : SessionState → SessionState) (o : Option SessionState)
    → changed_at (activated_again host) f o (changed_at is_staged f o o)
      ≡ updated (candidate host) f o
two_passes host f none = refl
two_passes host f (some s) = ground arith

keep_none : (ss : List SessionState) → keep (λ s. false) ss ≡ []
keep_none [] = refl
keep_none (s ∷ ss) = keep_none ss

map-append :
    (f : SessionState → SessionState) (xs ys : List SessionState)
    → map f (xs ++ ys) ≡ map f xs ++ map f ys
map-append f [] ys = refl
map-append f (x ∷ xs) ys = ap (λ more. f x ∷ more) (map-append f xs ys)

-- The list that the loop runs over, without the test of the flag around its second half.
abbrev candidates : Host → Sessions → List SessionState
candidates host store =
    keep is_staged (get_sessions store) ++ keep (activated_again host) (get_sessions store)

keep_if :
    (b : Bool) (ss : List SessionState)
    → (if b then keep (λ s. same_state s.state State.activated) ss else [])
      ≡ keep (λ s. b && same_state s.state State.activated) ss
keep_if true ss = refl
keep_if false ss = sym (keep_none ss)

scan_candidates :
    (host : Host) (w : World)
    → scan_staged_sessions_dir_and_stage host w ≡ stage_sessions host (candidates host w.sessions) w
unfolding scan_staged_sessions_dir_and_stage get_sessions_in_state
scan_candidates host w =
    ap (λ k. stage_sessions host (keep is_staged (get_sessions w.sessions) ++ k) w)
      (keep_if host.supports_fs_checkpoints (get_sessions w.sessions))

halves :
    (host : Host) (f : SessionState → SessionState) (store : Sessions)
    → map f (candidates host store)
      ≡ changed is_staged f (get_sessions store)
        ++ changed (activated_again host) f (get_sessions store)
halves host f store =
    let ss = get_sessions store in
    map-append f (keep is_staged ss) (keep (activated_again host) ss)
    ∙ ap (λ xs. xs ++ map f (keep (activated_again host) ss)) (map-keep is_staged f ss)
    ∙ ap (λ ys. changed is_staged f ss ++ ys) (map-keep (activated_again host) f ss)

last_for-candidates :
    (host : Host) (f : SessionState → SessionState) (i : ℕ) (store : Sessions)
    → ((s : SessionState) → (f s).id ≡ s.id)
    → WellFormed store
    → last_for i (map f (candidates host store)) (file_of i store)
      ≡ updated (candidate host) f (file_of i store)
last_for-candidates host f i store same_id well =
    ap (λ xs. last_for i xs (file_of i store)) (halves host f store)
    ∙ last_for-append i (changed is_staged f (get_sessions store))
        (changed (activated_again host) f (get_sessions store)) (file_of i store)
    ∙ last_for-changed (activated_again host) f same_id i store _ well
    ∙ ap (changed_at (activated_again host) f (file_of i store))
        (last_for-changed is_staged f same_id i store _ well)
    ∙ two_passes host f (file_of i store)

attempts_written :
    (host : Host) (w : World) (i : ℕ)
    → WritesOk host
    → WellFormed w.sessions
    → file_of i (scan_staged_sessions_dir_and_stage host w).sessions
      ≡ updated (candidate host) (λ s. finish (attempt host s)) (file_of i w.sessions)
attempts_written host w i writes well =
    let ss = candidates host w.sessions in
    let all = There-get_sessions w.sessions well in
    let there : There w.sessions ss =
      All-append (λ s. has_dir s.id w.sessions ≡ true) (keep is_staged (get_sessions w.sessions))
        (keep (activated_again host) (get_sessions w.sessions))
        (There-keep is_staged _ w.sessions all)
        (There-keep (activated_again host) _ w.sessions all) in
    ap (λ k. file_of i k.sessions) (scan_candidates host w)
    ∙ ap (file_of i) (sessions-stage_sessions host ss w writes there)
    ∙ elim (Bool-cases (has_dir i w.sessions)) [
      | inl t ↦
          file_of-set_all i (map (tried host) ss) w.sessions t
          ∙ last_for-candidates host (tried host) i w.sessions (id-attempt host) well
      | inr f ↦
          file_of_absent i _ (has_dir-set_all i (map (tried host) ss) w.sessions ∙ f)
          ∙ ap (updated (candidate host) (tried host)) (sym (file_of_absent i w.sessions f))
    ]

-- The file of a candidate, and of any other session, afterwards
abbrev pub SettledIf : Host → SessionState → Bool → Option SessionState → Type 0
SettledIf host s true after =
    (s' : SessionState) × (after ≡ some s') × (Activated host s s' ⊎ Failed host s s')
SettledIf host s false after = after ≡ some s

abbrev pub Settled : Host → Option SessionState → Option SessionState → Type 0
Settled host none after = after ≡ none
Settled host (some s) after = SettledIf host s (candidate host s) after

settled_if :
    (host : Host) (s : SessionState) (b : Bool) (after : Option SessionState)
    → after ≡ (if b then some (tried host s) else some s)
    → SettledIf host s b after
settled_if host s true after e = (tried host s, e, finish-attempt host s)
settled_if host s false after e = e

file_as_tried :
    (host : Host) (before after : Option SessionState)
    → after ≡ updated (candidate host) (tried host) before
    → Settled host before after
file_as_tried host none after e = e
file_as_tried host (some s) after e = settled_if host s (candidate host s) after e

-- When the state files of `WellFormed` sessions can be written, every session that is STAGED (or
-- ACTIVATED, on a device with checkpoints) is settled by the conditions under which packages are staged:
-- where they hold it is ACTIVATED afterwards and holds the names of its packages, where not it is
-- ACTIVATION_FAILED, in both cases with all else but the error message and the names as it was. Every
-- other session is as it was.
pub scan_staged_sessions_dir_and_stage_settles :
    (host : Host) (w : World) (i : ℕ)
    → WritesOk host
    → WellFormed w.sessions
    → Settled host
        (file_of i w.sessions)
        (file_of i (scan_staged_sessions_dir_and_stage host w).sessions)
scan_staged_sessions_dir_and_stage_settles host w i writes well =
    file_as_tried host (file_of i w.sessions)
      (file_of i (scan_staged_sessions_dir_and_stage host w).sessions)
      (attempts_written host w i writes well)
