-- ===== src/Install/Minor.antt =====
-- The loop of `ComputePackageIdMinor` of apexd/apexd.cpp ends at a file that does not exist.
use text.Mathlib.TextLemmas.{append_cancel_left, append_cancel_right}
use platform_system_apex.Base.{
  ℕ, zero, suc, ◌+◌, ◌≤◌, ◌<◌, String, true, false, none, List, [], ◌∷◌, ◌≡◌, ◌≢◌, refl, ap, ◌∙◌,
  ◌⊎◌, inl, inr, ◌==◌, eq_iff, arith, length, Bool-cases,
}
use platform_system_apex.Base.Int.{pos, pos_part}
use platform_system_apex.ApexFile.{ApexFile, to_string, get_package_id}
use platform_system_apex.ApexFile.PackageId.{to_string-injective}
use platform_system_apex.Machine.{Machine, Services, find_file, erase_file}
use platform_system_apex.Install.Package.{minor_id, target_file, exists, free_minor, size_t}

target_file-injective :
    (s : Services) (apex : ApexFile) (a b : ℕ) → target_file s apex a ≡ target_file s apex b → a ≡ b
target_file-injective s apex a b h =
    let ids : minor_id apex a ≡ minor_id apex b =
      append_cancel_right _ _ ".apex"
        (append_cancel_left "/" _ _ (append_cancel_left s.active_apex_data_dir _ _ h)) in
    let numbers : to_string (pos a) ≡ to_string (pos b) =
      append_cancel_left "_" _ _ (append_cancel_left (get_package_id apex.manifest) _ _ ids) in
    ap pos_part (to_string-injective (pos a) (pos b) numbers)

abbrev Files : Type 0
Files = List (String × (String ⊎ ApexFile))

length-erase_file : (p : String) (files : Files) → length (erase_file p files) ≤ length files
length-erase_file p [] = omega arith
length-erase_file p ((q, c) ∷ files) = ground (arith, length-erase_file p files)

length-erase_file-found :
    (p : String) (files : Files)
    → exists (find_file p files) ≡ true
    → length (erase_file p files) < length files
length-erase_file-found p [] h = absurd (ground (arith, h))
length-erase_file-found p ((q, c) ∷ files) h = elim (Bool-cases (q == p)) [
  | inl t ↦ ground (arith, t, length-erase_file p files)
  | inr f ↦ ground (arith, f, h, length-erase_file-found p files)
]

pub find_file-erase_file :
    (p q : String) (files : Files)
    → (p == q) ≡ false
    → find_file q (erase_file p files) ≡ find_file q files
find_file-erase_file p q [] h = refl
find_file-erase_file p q ((r, c) ∷ files) h =
    ground (arith, h, find_file-erase_file p q files, eq_iff r p, eq_iff r q, eq_iff p q)

pub find_file-erased : (p : String) (files : Files) → find_file p (erase_file p files) ≡ none
find_file-erased p [] = refl
find_file-erased p ((r, c) ∷ files) = ground (arith, find_file-erased p files)

other_path :
    (path : ℕ → String) (a b : ℕ)
    → ((a b : ℕ) → path a ≡ path b → a ≡ b)
    → a ≢ b
    → (path a == path b) ≡ false
other_path path a b inj differ = elim (Bool-cases (path a == path b)) [
  | inl t ↦ absurd (differ (inj a b ((eq_iff (path a) (path b)).0 t)))
  | inr f ↦ f
]

-- Different paths that all exist are no more than the files.
distinct_files :
    (path : ℕ → String) (fuel n : ℕ) (files : Files)
    → ((a b : ℕ) → path a ≡ path b → a ≡ b)
    → ((i : ℕ) → i < fuel → exists (find_file (path (n + i)) files) ≡ true)
    → fuel ≤ length files
distinct_files path zero n files inj all = omega arith
distinct_files path (suc fuel) n files inj all =
    let here : exists (find_file (path n) files) ≡ true =
      ap (λ (k : ℕ). exists (find_file (path k) files)) (omega arith) ∙ all 0 (omega arith) in
    let rest : fuel ≤ length (erase_file (path n) files) =
      distinct_files path fuel (suc n) (erase_file (path n) files) inj (λ i l.
        ap exists (
          find_file-erase_file (path n) (path (suc n + i)) files
            (other_path path n (suc n + i) inj (λ e. omega (arith, e))))
        ∙ ap (λ (k : ℕ). exists (find_file (path k) files)) (omega arith)
        ∙ all (suc i) (omega (arith, l))) in
    omega (arith, rest, length-erase_file-found (path n) files here)

all_from :
    (s : Services) (apex : ApexFile) (m : Machine) (fuel n : ℕ)
    → exists (find_file (target_file s apex n) m.files) ≡ true
    → ((i : ℕ) → i < fuel → exists (find_file (target_file s apex (suc n + i)) m.files) ≡ true)
    → (i : ℕ) → i < suc fuel
    → exists (find_file (target_file s apex (n + i)) m.files) ≡ true
all_from s apex m fuel n first rest zero l =
    ap (λ (k : ℕ). exists (find_file (target_file s apex k) m.files)) (omega arith) ∙ first
all_from s apex m fuel n first rest (suc i) l =
    ap (λ (k : ℕ). exists (find_file (target_file s apex k) m.files)) (omega arith)
    ∙ rest i (omega (arith, l))

-- A run of the loop: it stops at a file that does not exist, or all those that it has met exist.
free_minor-run :
    (s : Services) (apex : ApexFile) (m : Machine) (fuel n : ℕ)
    → n + fuel < 18446744073709551616
    → ((exists (find_file (target_file s apex (free_minor s apex m fuel n)) m.files) ≡ false)
        × (n ≤ free_minor s apex m fuel n)
        × (free_minor s apex m fuel n < n + fuel))
      ⊎ ((i : ℕ) → i < fuel → exists (find_file (target_file s apex (n + i)) m.files) ≡ true)
unfolding free_minor
free_minor-run s apex m zero n bound = inr (λ i l. absurd (omega (arith, l)))
free_minor-run s apex m (suc fuel) n bound =
    let more : size_t (n + 1) ≡ suc n = omega (arith, bound) in
    elim (Bool-cases (exists (find_file (target_file s apex n) m.files))) [
      | inr f ↦ inl (rw (f, free_minor) (f, omega arith, omega arith))
      | inl t ↦ elim (free_minor-run s apex m fuel (suc n) (omega (arith, bound))) [
        | inl (free, low, high) ↦
            inl (rw (t, more, free_minor) (free, omega (arith, low), omega (arith, high)))
        | inr all ↦ inr (all_from s apex m fuel n t all)
      ]
    ]

-- From a number that is not near the end of `size_t`, the loop of `ComputePackageIdMinor` ends after at
-- most one round more than there are files, at a number that is not lower and whose file does not exist.
pub free_minor-free :
    (s : Services) (apex : ApexFile) (m : Machine) (n : ℕ)
    → n + suc (length m.files) < 18446744073709551616
    → (exists
          (find_file (target_file s apex (free_minor s apex m (suc (length m.files)) n)) m.files)
        ≡ false)
      × (n ≤ free_minor s apex m (suc (length m.files)) n)
      × (free_minor s apex m (suc (length m.files)) n ≤ n + length m.files)
free_minor-free s apex m n bound = elim (free_minor-run s apex m (suc (length m.files)) n bound) [
  | inl (free, low, high) ↦ (free, low, omega (arith, high))
  | inr all ↦ absurd (
      omega (
        arith,
        distinct_files (target_file s apex) (suc (length m.files)) n m.files
            (target_file-injective s apex) all,
      ))
]
