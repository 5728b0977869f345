-- ===== src/Host/Writes.antt =====
-- Writes of sessions that succeed, and the directories they go to.
use platform_system_apex.Base.{
  ℕ, Bool, true, Option, none, some, List, [], ◌∷◌, map, ◌≡◌, ◌∙◌, inl, inr, arith, Bool-cases, All,
  keep,
}
use platform_system_apex.Base.Result.{ok}
use platform_system_apex.Session.{
  SessionState, SessionDir, Sessions, written, has_dir, set_file, get_sessions, commit, readable,
}
use platform_system_apex.Session.Store.{WellFormed, HasId, set_all, has_dir-set_file}
use platform_system_apex.Host.{Host, World, Event, commit_at, committed}

-- Every write of a state file succeeds.
abbrev pub WritesOk : Host → Type 0
WritesOk host = (s : SessionState) → host.disk.write s ≡ written

abbrev pub There : Sessions → List SessionState → Type 0
There store = All (λ s. has_dir s.id store ≡ true)

pub commit_at_ok :
    (host : Host) (s : SessionState) (w : World)
    → WritesOk host
    → has_dir s.id w.sessions ≡ true
    → commit_at host s w ≡ (
      ok tt,
      record { sessions = set_file s.id (some s) w.sessions; trace = committed s ∷ w.trace },
    )
unfolding commit_at commit
commit_at_ok host s w ok_writes h = rw (h, ok_writes s)

pub There-set_file :
    (i : ℕ) (f : Option SessionState) (store : Sessions) (ss : List SessionState)
    → There store ss
    → There (set_file i f store) ss
There-set_file i f store [] h = tt
There-set_file i f store (s ∷ ss) h =
    (has_dir-set_file i s.id f store ∙ h.0, There-set_file i f store ss h.1)

-- The trace of a run of writes.
abbrev pub log_all : List SessionState → List Event → List Event
log_all [] t = t
log_all (s ∷ ss) t = log_all ss (committed s ∷ t)

pub There-set_all :
    (us ss : List SessionState) (store : Sessions) → There store ss → There (set_all us store) ss
There-set_all [] ss store h = h
There-set_all (u ∷ us) ss store h =
    There-set_all us ss (set_file u.id (some u) store) (There-set_file u.id (some u) store ss h)

pub There-map :
    (f : SessionState → SessionState) (ss : List SessionState) (store : Sessions)
    → ((s : SessionState) → (f s).id ≡ s.id)
    → There store ss
    → There store (map f ss)
There-map f [] store same_id h = tt
There-map f (s ∷ ss) store same_id h = (rw (same_id s) h.0, There-map f ss store same_id h.1)

pub There-keep :
    (p : SessionState → Bool) (ss : List SessionState) (store : Sessions)
    → There store ss
    → There store (keep p ss)
There-keep p [] store h = tt
There-keep p (s ∷ ss) store h = elim (Bool-cases (p s)) [
  | inl t ↦ rw t (h.0, There-keep p ss store h.1)
  | inr f ↦ rw f (There-keep p ss store h.1)
]

There-cons :
    (e : SessionDir) (ss : List SessionState) (store : Sessions)
    → There store ss
    → There (e ∷ store) ss
unfolding has_dir
There-cons e [] store h = tt
There-cons e (s ∷ ss) store h = (ground (arith, h.0), There-cons e ss store h.1)

There-readable :
    (e : SessionDir) (o : Option SessionState) (ss : List SessionState) (store : Sessions)
    → HasId e.dir o
    → There (e ∷ store) ss
    → There (e ∷ store) (readable o ss)
unfolding has_dir
There-readable e none ss store v h = h
There-readable e (some s) ss store v h = (ground arith, h)

-- The sessions that are read have their directories.
pub There-get_sessions : (store : Sessions) → WellFormed store → There store (get_sessions store)
unfolding get_sessions
There-get_sessions [] w = tt
There-get_sessions (e ∷ rest) w =
    There-readable e e.file (get_sessions rest) rest w.0
      (There-cons e (get_sessions rest) rest (There-get_sessions rest w.2))
