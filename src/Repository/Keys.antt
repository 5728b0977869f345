-- ===== src/Repository/Keys.antt =====
-- The stores of apexd/apex_file_repository.cpp as maps: what every sequence of scans keeps.
use platform_system_apex.Base.{
  String, none, some, List, [], ◌∷◌, ◌++◌, ◌==◌, ◌≡◌, refl, sym, ◌⊎◌, inl, inr, arith, eq_iff,
  Bool-cases, Option-cases,
}
use platform_system_apex.Base.Result.{ok, >>=-eq-ok}
use platform_system_apex.ApexFile.{ApexFile, name_of}
use platform_system_apex.Files.{Files, find_files_by_suffix}
use platform_system_apex.Repository.Data.{lookup-append, add_data_file_origin, store_data-pre}
use platform_system_apex.Repository.{
  Store, ApexFileRepository, lookup, assign, add_data_file, add_data_files, add_data_apex,
  store_data, clash, opened, add_built_in, add_all_built_in, scan_built_in_dir,
  add_pre_installed_apex,
}

-- Each file stands under its own name, and no name twice.
abbrev pub WellKeyed : Store → Type 0
WellKeyed [] = Unit
WellKeyed ((n, a) ∷ rest) = (name_of a ≡ n) × (lookup n rest ≡ none) × WellKeyed rest

WellKeyed-append :
    (a : ApexFile) (s : Store)
    → lookup (name_of a) s ≡ none
    → WellKeyed s
    → WellKeyed (s ++ (name_of a, a) ∷ [])
unfolding lookup
WellKeyed-append a [] h w = (refl, refl, tt)
WellKeyed-append a ((n, b) ∷ rest) h w = (
  w.0,
  ground
      (arith, lookup-append n (name_of a) a rest, eq_iff n (name_of a), eq_iff (name_of a) n, w.1),
  WellKeyed-append a rest (ground arith) w.2,
)

lookup-assign-none :
    (n k : String) (a : ApexFile) (s : Store) → lookup n s ≡ none → lookup n (assign k a s) ≡ none
unfolding lookup assign
lookup-assign-none n k a [] h = refl
lookup-assign-none n k a ((i, b) ∷ rest) h = ground (arith, lookup-assign-none n k a rest)

WellKeyed-assign : (a : ApexFile) (s : Store) → WellKeyed s → WellKeyed (assign (name_of a) a s)
unfolding assign
WellKeyed-assign a [] w = tt
WellKeyed-assign a ((n, b) ∷ rest) w = elim (Bool-cases (n == name_of a)) [
  | inl t ↦ rw t (sym ((eq_iff n (name_of a)).0 t), w.1, w.2)
  | inr f ↦ rw f (w.0, lookup-assign-none n (name_of a) a rest w.1, WellKeyed-assign a rest w.2)
]

store_data-WellKeyed :
    (fs : Files) (r : ApexFileRepository) (a : ApexFile)
    → WellKeyed r.data_store
    → WellKeyed (store_data fs r a (lookup (name_of a) r.data_store)).data_store
store_data-WellKeyed fs r a w = elim (Option-cases (lookup (name_of a) r.data_store)) [
  | inl e ↦ rw e (WellKeyed-append a r.data_store e w)
  | inr (b, e) ↦ rw e (ground (arith, WellKeyed-assign a r.data_store w))
]

-- Both stores are maps, and every data APEX has a pre-installed one of its name with the same key.
pub record IsValid (r : ApexFileRepository) : Type 0 where
  pub pre_keyed : WellKeyed r.pre_installed_store
  pub data_keyed : WellKeyed r.data_store
  pub backed :
      (n : String) (b : ApexFile)
      → lookup n r.data_store ≡ some b
      → (p : ApexFile) × (lookup n r.pre_installed_store ≡ some p) × (b.apex_pubkey ≡ p.apex_pubkey)

add_data_file_cases :
    (fs : Files) (r : ApexFileRepository) (a : ApexFile)
    → (add_data_file fs r a ≡ r)
      ⊎ (add_data_file fs r a ≡ store_data fs r a (lookup (name_of a) r.data_store))
unfolding add_data_file
add_data_file_cases fs r a = ground arith

pub add_data_file-pre :
    (fs : Files) (r : ApexFileRepository) (a : ApexFile)
    → (add_data_file fs r a).pre_installed_store ≡ r.pre_installed_store
add_data_file-pre fs r a = elim (add_data_file_cases fs r a) [
  | inl e ↦ rw e
  | inr e ↦ rw e (store_data-pre fs r a (lookup (name_of a) r.data_store))
]

add_data_file-WellKeyed :
    (fs : Files) (r : ApexFileRepository) (a : ApexFile)
    → WellKeyed r.data_store
    → WellKeyed (add_data_file fs r a).data_store
add_data_file-WellKeyed fs r a w = elim (add_data_file_cases fs r a) [
  | inl e ↦ rw e w
  | inr e ↦ rw e (store_data-WellKeyed fs r a w)
]

add_data_file-IsValid :
    (fs : Files) (r : ApexFileRepository) (a : ApexFile)
    → IsValid r
    → IsValid (add_data_file fs r a)
add_data_file-IsValid fs r a v = record {
  pre_keyed = rw (add_data_file-pre fs r a) v.pre_keyed;
  data_keyed = add_data_file-WellKeyed fs r a v.data_keyed;
  backed = λ n b h. rw (add_data_file-pre fs r a) (elim (add_data_file_origin fs r a n b h) [
    | inl old ↦ v.backed n b old
    | inr (x, el, e) ↦ (el.pre, rw (← e) el.installed, rw x el.same_key)
  ]);
}

add_data_files-IsValid :
    (fs : Files) (r : ApexFileRepository) (found : List ApexFile)
    → IsValid r
    → IsValid (add_data_files fs r found)
unfolding add_data_files
add_data_files-IsValid fs r [] v = v
add_data_files-IsValid fs r (a ∷ found) v =
    add_data_files-IsValid fs (add_data_file fs r a) found (add_data_file-IsValid fs r a v)

add_data_apex-IsValid :
    (fs : Files) (r q : ApexFileRepository) (dir : String)
    → IsValid r
    → add_data_apex fs r dir ≡ ok q
    → IsValid q
unfolding add_data_apex
add_data_apex-IsValid fs r q dir v h = elim (Bool-cases (fs.is_missing dir)) [
  | inl m ↦ let e : r ≡ q = ground arith in rw (← e) v
  | inr m ↦
      let (files, _, k) = >>=-eq-ok (find_files_by_suffix fs dir (".apex" ∷ [])) _ (rw m at h) in
      done files k
]
  where
    done : (files : List String) → ok (add_data_files fs r (opened fs files)) ≡ ok q → IsValid q
    done files k =
        let e : add_data_files fs r (opened fs files) ≡ q = ground arith in
        rw (← e) (add_data_files-IsValid fs r (opened fs files) v)

-- A pre-installed file that is new under its name.
install-IsValid :
    (r : ApexFileRepository) (a : ApexFile)
    → lookup (name_of a) r.pre_installed_store ≡ none
    → IsValid r
    → IsValid (record r { pre_installed_store = r.pre_installed_store ++ (name_of a, a) ∷ [] })
install-IsValid r a e v = record {
  pre_keyed = WellKeyed-append a r.pre_installed_store e v.pre_keyed;
  data_keyed = v.data_keyed;
  backed = λ n b h.
      let (p, found, key) = v.backed n b h in
      (
        p,
        ground (arith, lookup-append n (name_of a) a r.pre_installed_store e, eq_iff (name_of a) n),
        key,
      );
}

clash-same :
    (fs : Files) (r q : ApexFileRepository) (it a : ApexFile) → clash fs r it a ≡ ok q → q ≡ r
unfolding clash
clash-same fs r q it a h = ground arith

add_built_in-IsValid :
    (fs : Files) (r q : ApexFileRepository) (file : String)
    → IsValid r
    → add_built_in fs r file ≡ ok q
    → IsValid q
unfolding add_built_in
add_built_in-IsValid fs r q file v h = opens (fs.open_apex file) refl
  where
    opens : (o : String ⊎ ApexFile) → fs.open_apex file ≡ o → IsValid q
    opens (inl e) o = absurd (ground arith)
    opens (inr a) o = elim (Option-cases (lookup (name_of a) r.pre_installed_store)) [
      | inl e ↦
          let x : record r { pre_installed_store = r.pre_installed_store ++ (name_of a, a) ∷ [] }
              ≡ q =
            ground arith in
          rw (← x) (install-IsValid r a e v)
      | inr (it, e) ↦
          let x : clash fs r it a ≡ ok q = ground arith in rw (clash-same fs r q it a x) v
    ]

add_all_built_in-IsValid :
    (fs : Files) (r q : ApexFileRepository) (files : List String)
    → IsValid r
    → add_all_built_in fs r files ≡ ok q
    → IsValid q
unfolding add_all_built_in
add_all_built_in-IsValid fs r q [] v h = let e : r ≡ q = ground arith in rw (← e) v
add_all_built_in-IsValid fs r q (file ∷ files) v h =
    let (mid, p, k) = >>=-eq-ok (add_built_in fs r file) (λ r'. add_all_built_in fs r' files) h in
    add_all_built_in-IsValid fs mid q files (add_built_in-IsValid fs r mid file v p) k

scan_built_in_dir-IsValid :
    (fs : Files) (r q : ApexFileRepository) (dir : String)
    → IsValid r
    → scan_built_in_dir fs r dir ≡ ok q
    → IsValid q
unfolding scan_built_in_dir
scan_built_in_dir-IsValid fs r q dir v h = elim (Bool-cases (fs.is_missing dir)) [
  | inl m ↦ let e : r ≡ q = ground arith in rw (← e) v
  | inr m ↦
      let (files, _, k) =
        >>=-eq-ok (find_files_by_suffix fs dir (".apex" ∷ ".capex" ∷ [])) (add_all_built_in fs r)
          (rw m at h) in
      add_all_built_in-IsValid fs r q files v k
]

add_pre_installed_apex-IsValid :
    (fs : Files) (r q : ApexFileRepository) (dirs : List String)
    → IsValid r
    → add_pre_installed_apex fs r dirs ≡ ok q
    → IsValid q
unfolding add_pre_installed_apex
add_pre_installed_apex-IsValid fs r q [] v h = let e : r ≡ q = ground arith in rw (← e) v
add_pre_installed_apex-IsValid fs r q (dir ∷ dirs) v h =
    let (mid, p, k) =
      >>=-eq-ok (scan_built_in_dir fs r dir) (λ r'. add_pre_installed_apex fs r' dirs) h in
    add_pre_installed_apex-IsValid fs mid q dirs (scan_built_in_dir-IsValid fs r mid dir v p) k

abbrev pub new_repository : String → ApexFileRepository
new_repository dir = record { pre_installed_store = []; data_store = []; decompression_dir = dir }

-- The scans that fill a repository, each over the files as they are at that time.
pub data Scans : ApexFileRepository → ApexFileRepository → Type 0 where
  start : {r : ApexFileRepository} → Scans r r
  built_in :
      {r s q : ApexFileRepository} (fs : Files) (dirs : List String)
      → Scans r s
      → add_pre_installed_apex fs s dirs ≡ ok q
      → Scans r q
  on_data :
      {r s q : ApexFileRepository} (fs : Files) (dir : String)
      → Scans r s
      → add_data_apex fs s dir ≡ ok q
      → Scans r q

new_repository-IsValid : (dir : String) → IsValid (new_repository dir)
unfolding lookup
new_repository-IsValid dir = record {
  pre_keyed = tt;
  data_keyed = tt;
  backed = λ n b h. absurd (ground arith);
}

Scans-keep : {r q : ApexFileRepository} → IsValid r → Scans r q → IsValid q
Scans-keep v start = v
Scans-keep v (built_in {s = s} {q = q} fs dirs before h) =
    add_pre_installed_apex-IsValid fs s q dirs (Scans-keep v before) h
Scans-keep v (on_data {s = s} {q = q} fs dir before h) =
    add_data_apex-IsValid fs s q dir (Scans-keep v before) h

-- Whatever is scanned, in whatever order: each store of a repository has every name at most once,
-- each file stands under its own name, and each data APEX has a pre-installed APEX of its name
-- with the same public key.
pub Scans-IsValid :
    {q : ApexFileRepository} (dir : String) → Scans (new_repository dir) q → IsValid q
Scans-IsValid dir s = Scans-keep (new_repository-IsValid dir) s
