-- ===== src/Session/Store.antt =====
-- Laws of the session directories of apexd/apexd_session.cpp.
use platform_system_apex.Base.{
  ℕ, Bool, true, false, ◌&&◌, Option, none, some, List, [], ◌∷◌, ◌++◌, map, ◌≡◌, refl, sym, ◌∙◌, ap,
  eqb, arith, if◌then◌else◌, keep, inl, inr, Bool-cases,
}
use platform_system_apex.Session.{
  SessionState, Sessions, has_dir, file_of, set_file, get_sessions, readable,
}

pub file_of-set_file :
    (i j : ℕ) (f : Option SessionState) (store : Sessions)
    → file_of j (set_file i f store) ≡ (if has_dir i store && eqb i j then f else file_of j store)
unfolding file_of set_file has_dir
file_of-set_file i j f [] = refl
file_of-set_file i j f (e ∷ rest) = ground (arith, file_of-set_file i j f rest)

pub has_dir-set_file :
    (i j : ℕ) (f : Option SessionState) (store : Sessions)
    → has_dir j (set_file i f store) ≡ has_dir j store
unfolding set_file has_dir
has_dir-set_file i j f [] = refl
has_dir-set_file i j f (e ∷ rest) = ground (arith, has_dir-set_file i j f rest)

pub has_dir_of_file :
    (i : ℕ) (store : Sessions) (s : SessionState)
    → file_of i store ≡ some s
    → has_dir i store ≡ true
unfolding file_of has_dir
has_dir_of_file i [] s h = ground arith
has_dir_of_file i (e ∷ rest) s h = ground (arith, has_dir_of_file i rest s)

-- One directory for an id, which is the id in its state file.
abbrev pub HasId : ℕ → Option SessionState → Type 0
HasId d none = Unit
HasId d (some s) = s.id ≡ d

abbrev pub WellFormed : Sessions → Type 0
WellFormed [] = Unit
WellFormed (e ∷ rest) = HasId e.dir e.file × (has_dir e.dir rest ≡ false) × WellFormed rest

pub HasId-of :
    (d : ℕ) (o : Option SessionState) (s : SessionState) → HasId d o → o ≡ some s → s.id ≡ d
HasId-of d none s v e = ground arith
HasId-of d (some r) s v e = ground arith

pub id_of_file :
    (i : ℕ) (store : Sessions) (s : SessionState)
    → WellFormed store
    → file_of i store ≡ some s
    → s.id ≡ i
unfolding file_of
id_of_file i [] s w h = ground arith
id_of_file i (e ∷ rest) s w h = elim (Bool-cases (eqb e.dir i)) [
  | inl t ↦ let q : s.id ≡ e.dir = HasId-of e.dir e.file s w.0 (ground arith) in ground arith
  | inr f ↦ id_of_file i rest s w.2 (ground arith)
]

pub set_file-WellFormed :
    (i : ℕ) (f : Option SessionState) (store : Sessions)
    → HasId i f
    → WellFormed store
    → WellFormed (set_file i f store)
unfolding set_file
set_file-WellFormed i f [] v w = tt
set_file-WellFormed i f (e ∷ rest) v w = elim (Bool-cases (eqb e.dir i)) [
  | inl t ↦ let q : i ≡ e.dir = ground arith in rw t (rw q at v, w.1, w.2)
  | inr g ↦ rw g (w.0, rw (has_dir-set_file i e.dir f rest) w.1, set_file-WellFormed i f rest v w.2)
]

-- In the directory of a session that is there.
pub file_of-set_file_there :
    (i j : ℕ) (f : Option SessionState) (store : Sessions)
    → has_dir j store ≡ true
    → file_of j (set_file i f store) ≡ (if eqb i j then f else file_of j store)
file_of-set_file_there i j f store h = ground (arith, file_of-set_file i j f store)

-- The sessions of a list that a loop commits one after the other; what the last write says of an id.
abbrev pub last_for : ℕ → List SessionState → Option SessionState → Option SessionState
last_for i [] f = f
last_for i (s ∷ ss) f = last_for i ss (if eqb s.id i then some s else f)

abbrev pub set_all : List SessionState → Sessions → Sessions
set_all [] store = store
set_all (s ∷ ss) store = set_all ss (set_file s.id (some s) store)

pub file_of-set_all :
    (i : ℕ) (ss : List SessionState) (store : Sessions)
    → has_dir i store ≡ true
    → file_of i (set_all ss store) ≡ last_for i ss (file_of i store)
file_of-set_all i [] store h = refl
file_of-set_all i (s ∷ ss) store h =
    file_of-set_all i ss (set_file s.id (some s) store) (has_dir-set_file s.id i (some s) store ∙ h)
    ∙ ap (last_for i ss) (file_of-set_file_there s.id i (some s) store h)

pub last_for-append :
    (i : ℕ) (xs ys : List SessionState) (f : Option SessionState)
    → last_for i (xs ++ ys) f ≡ last_for i ys (last_for i xs f)
last_for-append i [] ys f = refl
last_for-append i (s ∷ xs) ys f = last_for-append i xs ys (if eqb s.id i then some s else f)

-- The sessions of a store that pass a test, each changed by `f`.
abbrev pub changed :
    (SessionState → Bool) → (SessionState → SessionState) → List SessionState → List SessionState
changed p f [] = []
changed p f (s ∷ ss) = let more = changed p f ss in if p s then f s ∷ more else more

-- What a loop over the sessions that pass the test leaves at one id.
abbrev pub changed_at :
    (SessionState → Bool)
    → (SessionState → SessionState)
    → Option SessionState
    → Option SessionState
    → Option SessionState
changed_at p f none old = old
changed_at p f (some s) old = if p s then some (f s) else old

pub map-keep :
    (p : SessionState → Bool) (f : SessionState → SessionState) (ss : List SessionState)
    → map f (keep p ss) ≡ changed p f ss
map-keep p f [] = refl
map-keep p f (s ∷ ss) = ground (arith, map-keep p f ss)

pub map-changed :
    (p : SessionState → Bool) (f g : SessionState → SessionState) (ss : List SessionState)
    → map g (changed p f ss) ≡ changed p (λ s. g (f s)) ss
map-changed p f g [] = refl
map-changed p f g (s ∷ ss) = ground (arith, map-changed p f g ss)

pub has_dir-set_all :
    (i : ℕ) (ss : List SessionState) (store : Sessions)
    → has_dir i (set_all ss store) ≡ has_dir i store
has_dir-set_all i [] store = refl
has_dir-set_all i (s ∷ ss) store =
    has_dir-set_all i ss (set_file s.id (some s) store) ∙ has_dir-set_file s.id i (some s) store

pub file_of_absent : (i : ℕ) (store : Sessions) → has_dir i store ≡ false → file_of i store ≡ none
unfolding file_of has_dir
file_of_absent i [] h = refl
file_of_absent i (e ∷ rest) h = ground (arith, file_of_absent i rest)

module _ (p : SessionState → Bool) (f : SessionState → SessionState)
    (same_id : (s : SessionState) → (f s).id ≡ s.id) where
  last_for_skip :
      (i d : ℕ) (o old : Option SessionState) (ss : List SessionState)
      → HasId d o
      → eqb d i ≡ false
      → last_for i (changed p f (readable o ss)) old ≡ last_for i (changed p f ss) old
  last_for_skip i d none old ss v e = refl
  last_for_skip i d (some s) old ss v e = ground (arith, same_id s)

  last_for_absent :
      (i : ℕ) (store : Sessions) (old : Option SessionState)
      → WellFormed store
      → has_dir i store ≡ false
      → last_for i (changed p f (get_sessions store)) old ≡ old
  unfolding has_dir get_sessions
  last_for_absent i [] old w h = refl
  last_for_absent i (e ∷ rest) old w h =
      last_for_skip i e.dir e.file old (get_sessions rest) w.0 (ground arith)
      ∙ last_for_absent i rest old w.2 (ground arith)

  last_for_here :
      (i d : ℕ) (o old : Option SessionState) (rest : Sessions)
      → WellFormed rest
      → has_dir i rest ≡ false
      → HasId d o
      → eqb d i ≡ true
      → last_for i (changed p f (readable o (get_sessions rest))) old ≡ changed_at p f o old
  last_for_here i d none old rest w h v e = last_for_absent i rest old w h
  last_for_here i d (some s) old rest w h v e =
      ground
        (arith, last_for_absent i rest old w h, last_for_absent i rest (some (f s)) w h, same_id s)

  pub last_for-changed :
      (i : ℕ) (store : Sessions) (old : Option SessionState)
      → WellFormed store
      → last_for i (changed p f (get_sessions store)) old ≡ changed_at p f (file_of i store) old
  unfolding get_sessions file_of
  last_for-changed i [] old w = refl
  last_for-changed i (e ∷ rest) old w = elim (Bool-cases (eqb e.dir i)) [
    | inl t ↦
        let q : e.dir ≡ i = ground arith in
        rw t (last_for_here i e.dir e.file old rest w.2 (rw q at w.1) w.0 t)
    | inr g ↦ rw g (
        last_for_skip i e.dir e.file old (get_sessions rest) w.0 g
        ∙ last_for-changed i rest old w.2)
  ]

-- What a whole loop over the sessions of the store that pass the test leaves at one id.
abbrev pub updated :
    (SessionState → Bool)
    → (SessionState → SessionState)
    → Option SessionState
    → Option SessionState
updated p f none = none
updated p f (some s) = if p s then some (f s) else some s

module _ (p : SessionState → Bool) (f g : SessionState → SessionState)
    (f_id : (s : SessionState) → (f s).id ≡ s.id)
    (g_id : (s : SessionState) → (g s).id ≡ s.id) where
  changed_twice :
      (o : Option SessionState)
      → changed_at p (λ s. g (f s)) o (changed_at p f o o) ≡ updated p (λ s. g (f s)) o
  changed_twice none = refl
  changed_twice (some s) = ground arith

  pub file_of_twice :
      (i : ℕ) (store : Sessions)
      → WellFormed store
      → let ss = map f (keep p (get_sessions store)) in
        file_of i (set_all (map g ss) (set_all ss store))
        ≡ updated p (λ s. g (f s)) (file_of i store)
  file_of_twice i store w =
      let ss = map f (keep p (get_sessions store)) in
      let e : ss ≡ changed p f (get_sessions store) = map-keep p f (get_sessions store) in
      let e' : map g ss ≡ changed p (λ s. g (f s)) (get_sessions store) =
        ap (map g) e ∙ map-changed p f g (get_sessions store) in
      elim (Bool-cases (has_dir i store)) [
        | inl t ↦
            file_of-set_all i (map g ss) (set_all ss store) (has_dir-set_all i ss store ∙ t)
            ∙ ap (last_for i (map g ss)) (file_of-set_all i ss store t)
            ∙ ap (λ xs. last_for i (map g ss) (last_for i xs (file_of i store))) e
            ∙ ap
                (λ xs.
                  last_for i xs (last_for i (changed p f (get_sessions store)) (file_of i store)))
                e'
            ∙ last_for-changed p (λ s. g (f s)) (λ s. g_id (f s) ∙ f_id s) i store _ w
            ∙ ap (changed_at p (λ s. g (f s)) (file_of i store))
                (last_for-changed p f f_id i store _ w)
            ∙ changed_twice (file_of i store)
        | inr h ↦
            let lost : has_dir i (set_all (map g ss) (set_all ss store)) ≡ false =
              has_dir-set_all i (map g ss) (set_all ss store) ∙ has_dir-set_all i ss store ∙ h in
            file_of_absent i _ lost ∙ ap (updated p (λ s. g (f s))) (sym (file_of_absent i store h))
      ]
