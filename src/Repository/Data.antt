-- ===== src/Repository/Data.antt =====
-- What `AddDataApex` of apexd/apex_file_repository.cpp leaves in the data store.
use platform_system_apex.Base.{
  String, false, Option, none, some, List, [], ◌∷◌, ◌++◌, ◌==◌, ◌≡◌, refl, sym, ◌⊎◌, inl, inr,
  arith, eq_iff, if◌then◌else◌, Bool-cases, Option-cases, Member,
}
use platform_system_apex.Base.Int.{ltb_ℤ, ◌≤ℤ◌}
use platform_system_apex.ApexFile.{ApexFile, name_of, version_of}
use platform_system_apex.Files.{Files}
use platform_system_apex.Repository.{
  Store, ApexFileRepository, lookup, assign, add_data_file, add_data_files, store_data,
}

pub lookup-append :
    (n k : String) (a : ApexFile) (s : Store)
    → lookup k s ≡ none
    → lookup n (s ++ (k, a) ∷ []) ≡ (if k == n then some a else lookup n s)
unfolding lookup
lookup-append n k a [] h = refl
lookup-append n k a ((i, b) ∷ rest) h =
    ground (arith, lookup-append n k a rest, eq_iff i n, eq_iff i k, eq_iff k n)

pub lookup-assign :
    (n k : String) (a b : ApexFile) (s : Store)
    → lookup k s ≡ some b
    → lookup n (assign k a s) ≡ (if k == n then some a else lookup n s)
unfolding lookup assign
lookup-assign n k a b [] h = ground arith
lookup-assign n k a b ((i, c) ∷ rest) h =
    ground (arith, lookup-assign n k a b rest, eq_iff i n, eq_iff i k, eq_iff k n)

-- A data APEX that may be used: its package is pre-installed, with the same key, and it is no
-- decompressed copy.
pub record Eligible (fs : Files) (r : ApexFileRepository) (a : ApexFile) : Type 0 where
  pub pre : ApexFile
  pub installed : lookup (name_of a) r.pre_installed_store ≡ some pre
  pub same_key : a.apex_pubkey ≡ pre.apex_pubkey
  pub not_decompressed : fs.ends_with a.apex_path ".decompressed.apex" ≡ false

abbrev pub winner : ApexFile → Option ApexFile → ApexFile
winner a none = a
winner a (some it) = if ltb_ℤ (version_of it) (version_of a) then a else it

-- What one round does: a file that is not eligible changes nothing.
record Round (fs : Files) (r : ApexFileRepository) (a : ApexFile) : Type 0 where
  pre_kept : (add_data_file fs r a).pre_installed_store ≡ r.pre_installed_store
  outcome :
      (add_data_file fs r a ≡ r)
      ⊎ (Eligible fs r a
          × ((n : String)
              → lookup n (add_data_file fs r a).data_store ≡ (
                  if name_of a == n
                  then some (winner a (lookup (name_of a) r.data_store))
                  else lookup n r.data_store)))

store_data-lookup :
    (fs : Files) (r : ApexFileRepository) (a : ApexFile) (n : String)
    → lookup n (store_data fs r a (lookup (name_of a) r.data_store)).data_store ≡ (
        if name_of a == n
        then some (winner a (lookup (name_of a) r.data_store))
        else lookup n r.data_store)
store_data-lookup fs r a n = elim (Option-cases (lookup (name_of a) r.data_store)) [
  | inl e ↦ rw e (lookup-append n (name_of a) a r.data_store e)
  | inr (b, e) ↦
      rw e (ground (arith, lookup-assign n (name_of a) a b r.data_store e, eq_iff (name_of a) n))
]

pub store_data-pre :
    (fs : Files) (r : ApexFileRepository) (a : ApexFile) (o : Option ApexFile)
    → (store_data fs r a o).pre_installed_store ≡ r.pre_installed_store
store_data-pre fs r a none = refl
store_data-pre fs r a (some b) = ground arith

skip-Round :
    (fs : Files) (r : ApexFileRepository) (a : ApexFile) → add_data_file fs r a ≡ r → Round fs r a
skip-Round fs r a e = record { pre_kept = rw e; outcome = inl e }

add_data_file-Round : (fs : Files) (r : ApexFileRepository) (a : ApexFile) → Round fs r a
unfolding add_data_file
add_data_file-Round fs r a = elim (Option-cases (lookup (name_of a) r.pre_installed_store)) [
  | inl e ↦ skip-Round fs r a (ground arith)
  | inr (p, e) ↦ elim (Bool-cases (a.apex_pubkey == p.apex_pubkey)) [
    | inr k ↦ skip-Round fs r a (ground arith)
    | inl k ↦ elim (Bool-cases (fs.ends_with a.apex_path ".decompressed.apex")) [
      | inl d ↦ skip-Round fs r a (ground arith)
      | inr d ↦
          let taken : add_data_file fs r a ≡ store_data fs r a (lookup (name_of a) r.data_store) =
            ground arith in
          record {
            pre_kept = rw taken (store_data-pre fs r a (lookup (name_of a) r.data_store));
            outcome = inr (
              record { pre = p; installed = e; same_key = (eq_iff _ _).0 k; not_decompressed = d },
              λ n. rw taken (store_data-lookup fs r a n),
            );
          }
    ]
  ]
]

-- Eligibility is decided by the pre-installed store, which the scan leaves alone.
Eligible-of_pre :
    {fs : Files} {r q : ApexFileRepository} {a : ApexFile}
    → q.pre_installed_store ≡ r.pre_installed_store
    → Eligible fs r a
    → Eligible fs q a
Eligible-of_pre e h = record {
  pre = h.pre;
  installed = rw e h.installed;
  same_key = h.same_key;
  not_decompressed = h.not_decompressed;
}

add_data_file_takes :
    (fs : Files) (r : ApexFileRepository) (a : ApexFile)
    → Eligible fs r a
    → (n : String)
    → lookup n (add_data_file fs r a).data_store ≡ (
        if name_of a == n
        then some (winner a (lookup (name_of a) r.data_store))
        else lookup n r.data_store)
unfolding add_data_file
add_data_file_takes fs r a h n =
    let k = (eq_iff a.apex_pubkey h.pre.apex_pubkey).1 h.same_key in
    let taken : add_data_file fs r a ≡ store_data fs r a (lookup (name_of a) r.data_store) =
      ground (arith, h.installed, h.not_decompressed, k) in
    rw taken (store_data-lookup fs r a n)

-- A version at least as high as that of `a` is stored under its name.
abbrev pub StoredFrom : ApexFile → Option ApexFile → Type 0
StoredFrom a none = ⊥
StoredFrom a (some b) = version_of a ≤ℤ version_of b

winner_le : (a : ApexFile) (o : Option ApexFile) → version_of a ≤ℤ version_of (winner a o)
winner_le a none = omega arith
winner_le a (some it) = ground arith

winner_grows :
    (a b : ApexFile) (o : Option ApexFile)
    → StoredFrom a o
    → version_of a ≤ℤ version_of (winner b o)
winner_grows a b none h = absurd h
winner_grows a b (some it) h = ground arith

add_data_file-StoredFrom :
    (fs : Files) (r : ApexFileRepository) (b a : ApexFile) (n : String)
    → StoredFrom a (lookup n r.data_store)
    → StoredFrom a (lookup n (add_data_file fs r b).data_store)
add_data_file-StoredFrom fs r b a n h = elim (add_data_file-Round fs r b).outcome [
  | inl e ↦ rw e h
  | inr (el, at) ↦ elim (Bool-cases (name_of b == n)) [
    | inr ne ↦ rw (at n, ne) h
    | inl eq ↦
        let same : name_of b ≡ n = (eq_iff _ _).0 eq in
        rw (at n, eq) (winner_grows a b _ (rw same h))
  ]
]

add_data_files-StoredFrom :
    (fs : Files) (r : ApexFileRepository) (found : List ApexFile) (a : ApexFile) (n : String)
    → StoredFrom a (lookup n r.data_store)
    → StoredFrom a (lookup n (add_data_files fs r found).data_store)
unfolding add_data_files
add_data_files-StoredFrom fs r [] a n h = h
add_data_files-StoredFrom fs r (b ∷ found) a n h =
    add_data_files-StoredFrom fs (add_data_file fs r b) found a n
      (add_data_file-StoredFrom fs r b a n h)

-- After the scan every eligible file that was found has, under its name, a file of at least its
-- version in the data store.
pub add_data_files_highest :
    (fs : Files) (r : ApexFileRepository) (found : List ApexFile) (a : ApexFile)
    → Member a found
    → Eligible fs r a
    → StoredFrom a (lookup (name_of a) (add_data_files fs r found).data_store)
unfolding add_data_files
add_data_files_highest fs r [] a m h = absurd m
add_data_files_highest fs r (b ∷ found) a (inl e) h =
    add_data_files-StoredFrom fs (add_data_file fs r b) found a (name_of a) (
      rw (← e) (
        rw (add_data_file_takes fs r a h (name_of a), (eq_iff (name_of a) (name_of a)).1 refl)
          (winner_le a (lookup (name_of a) r.data_store))))
add_data_files_highest fs r (b ∷ found) a (inr m) h =
    add_data_files_highest fs (add_data_file fs r b) found a m
      (Eligible-of_pre (add_data_file-Round fs r b).pre_kept h)

winner_one_of : (a b : ApexFile) (o : Option ApexFile) → winner a o ≡ b → (b ≡ a) ⊎ (o ≡ some b)
winner_one_of a b none h = inl (sym h)
winner_one_of a b (some it) h = ground arith

pub add_data_file_origin :
    (fs : Files) (r : ApexFileRepository) (a : ApexFile) (n : String) (b : ApexFile)
    → lookup n (add_data_file fs r a).data_store ≡ some b
    → (lookup n r.data_store ≡ some b) ⊎ ((b ≡ a) × Eligible fs r a × (name_of a ≡ n))
add_data_file_origin fs r a n b h = elim (add_data_file-Round fs r a).outcome [
  | inl e ↦ inl (rw e at h)
  | inr (el, at) ↦ elim (Bool-cases (name_of a == n)) [
    | inr ne ↦ inl (ground (arith, at n))
    | inl eq ↦
        let same : name_of a ≡ n = (eq_iff _ _).0 eq in
        let w : winner a (lookup (name_of a) r.data_store) ≡ b = ground (arith, at n) in
        elim (winner_one_of a b _ w) [ inl x ↦ inr (x, el, same) | inr y ↦ inl (rw (← same) y) ]
  ]
]

-- Every file in the data store after the scan was there before it under that name, or is an eligible
-- file of that name that was found.
pub add_data_files_origin :
    (fs : Files) (r : ApexFileRepository) (found : List ApexFile) (n : String) (b : ApexFile)
    → lookup n (add_data_files fs r found).data_store ≡ some b
    → (lookup n r.data_store ≡ some b) ⊎ (Member b found × Eligible fs r b × (name_of b ≡ n))
unfolding add_data_files
add_data_files_origin fs r [] n b h = inl h
add_data_files_origin fs r (a ∷ found) n b h =
    elim (add_data_files_origin fs (add_data_file fs r a) found n b h) [
      | inr (m, el, e) ↦
          inr (inr m, Eligible-of_pre (sym (add_data_file-Round fs r a).pre_kept) el, e)
      | inl k ↦ elim (add_data_file_origin fs r a n b k) [
        | inl old ↦ inl old
        | inr (x, el, e) ↦ inr (inl x, rw x el, rw x e)
      ]
    ]
