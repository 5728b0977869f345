-- ===== src/Select/Activation.antt =====
-- `SelectApexForActivation` of apexd/apexd.cpp over a whole repository.
use platform_system_apex.Base.{
  String, true, false, Option, none, some, List, [], ◌∷◌, ◌++◌, ◌==◌, ◌≡◌, ◌≢◌, refl, sym, ◌∙◌, ap,
  ◌⊎◌, inl, inr, arith, eq_iff, eq_refl, if◌then◌else◌, Bool-cases, All, keep,
}
use mathlib.Core.List.{append-nil}
use platform_system_apex.Base.Int.{FitsInt32}
use platform_system_apex.Base.Result.{ok}
use platform_system_apex.ApexFile.{ApexFile, name_of, version_of}
use platform_system_apex.Repository.{
  Store, ApexFileRepository, ApexGroups, lookup, all_apex_files_by_name, has_pre_installed_version,
  is_pre_installed_apex,
}
use platform_system_apex.Repository.Keys.{WellKeyed, IsValid}
use platform_system_apex.Select.{select_for_package, select_apex_for_activation}
use platform_system_apex.Select.Groups.{
  group_of, named, keep-append, WellGrouped, all_apex_files_by_name-WellGrouped, to_list,
  group_of_all,
}
use platform_system_apex.Select.Choice.{IsPair, chosen, select_for_package-chosen}

-- A group of one file, or of a pre-installed one and one on /data.
abbrev GroupOk : ApexFileRepository → List ApexFile → Type 0
GroupOk r [] = ⊥
GroupOk r (a ∷ []) = Unit
GroupOk r (a ∷ b ∷ []) = IsPair r a b
GroupOk r (a ∷ b ∷ c ∷ more) = ⊥

-- What is taken of a group.
abbrev picked : ApexFileRepository → String → List ApexFile → List ApexFile
picked r n [] = []
picked r n (a ∷ []) = if has_pre_installed_version r n then a ∷ [] else []
picked r n (a ∷ b ∷ more) = if has_pre_installed_version r n then chosen a b else []

select_one :
    (r : ApexFileRepository) (n : String) (a : ApexFile)
    → select_for_package r n (a ∷ []) ≡ ok (picked r n (a ∷ []))
unfolding select_for_package
select_one r n a = ground arith

select_none :
    (r : ApexFileRepository) (n : String) (a b : ApexFile)
    → has_pre_installed_version r n ≡ false
    → select_for_package r n (a ∷ b ∷ []) ≡ ok []
unfolding select_for_package
select_none r n a b h = rw h

select_for_package-picked :
    (r : ApexFileRepository) (n : String) (g : List ApexFile)
    → GroupOk r g
    → select_for_package r n g ≡ ok (picked r n g)
select_for_package-picked r n [] h = absurd h
select_for_package-picked r n (a ∷ []) h = select_one r n a
select_for_package-picked r n (a ∷ b ∷ []) h = elim (Bool-cases (has_pre_installed_version r n)) [
  | inl t ↦ rw t (select_for_package-chosen r n a b t h)
  | inr f ↦ rw f (select_none r n a b f)
]
select_for_package-picked r n (a ∷ b ∷ c ∷ more) h = absurd h

keep-picked_self :
    (r : ApexFileRepository) (n : String) (g : List ApexFile)
    → GroupOk r g
    → keep (named n) g ≡ g
    → keep (named n) (picked r n g) ≡ picked r n g
keep-picked_self r n [] o h = refl
keep-picked_self r n (a ∷ []) o h = ground arith
keep-picked_self r n (a ∷ b ∷ []) o h = ground arith
keep-picked_self r n (a ∷ b ∷ c ∷ more) o h = absurd o

keep-picked_other :
    (r : ApexFileRepository) (m n : String) (g : List ApexFile)
    → GroupOk r g
    → keep (named m) g ≡ g
    → (m == n) ≡ false
    → keep (named n) (picked r m g) ≡ []
keep-picked_other r m n [] o h e = refl
keep-picked_other r m n (a ∷ []) o h e =
    ground (arith, eq_iff (name_of a) m, eq_iff (name_of a) n, eq_iff m n)
keep-picked_other r m n (a ∷ b ∷ []) o h e = ground (
  arith,
  eq_iff (name_of a) m,
  eq_iff (name_of a) n,
  eq_iff m n,
  eq_iff (name_of b) m,
  eq_iff (name_of b) n,
)
keep-picked_other r m n (a ∷ b ∷ c ∷ more) o h e = absurd o

abbrev AllOk : ApexFileRepository → ApexGroups → Type 0
AllOk r = All (λ (e : String × List ApexFile). GroupOk r e.1)

select-picked :
    (r : ApexFileRepository) (gs : ApexGroups)
    → WellGrouped gs
    → AllOk r gs
    → (xs : List ApexFile) × (select_apex_for_activation gs r ≡ ok xs)
      × ((n : String) → keep (named n) xs ≡ picked r n (group_of n gs))
unfolding select_apex_for_activation group_of
select-picked r [] w o = ([], refl, λ n. refl)
select-picked r ((m, g) ∷ rest) w o =
    let (ys, e, h) = select-picked r rest w.3 o.1 in
    (
      picked r m g ++ ys,
      rw (select_for_package-picked r m g o.0, e),
      λ n. keep-append (named n) (picked r m g) ys ∙ elim (Bool-cases (m == n)) [
        | inl t ↦
            let q : m ≡ n = (eq_iff _ _).0 t in
            rw (t, h n, ← q, w.0) (append_nil_of (picked r m g) (keep-picked_self r m g o.0 w.2))
        | inr f ↦ rw (f, keep-picked_other r m n g o.0 w.2 f, h n)
      ],
    )
  where
    append_nil_of : (xs : List ApexFile) → keep (named m) xs ≡ xs → keep (named m) xs ++ [] ≡ xs
    append_nil_of xs q = append-nil (keep (named m) xs) ∙ q

-- What the groups of a repository are made of.
abbrev OneOf : ApexFileRepository → String → List ApexFile → Type 0
OneOf r n g =
    (g ≡ []) ⊎ (g ≡ to_list (lookup n r.pre_installed_store) ++ to_list (lookup n r.data_store))

AllOk-of_pairs :
    (r : ApexFileRepository) (gs : ApexGroups)
    → ((n : String) (p d : ApexFile)
        → lookup n r.pre_installed_store ≡ some p
        → lookup n r.data_store ≡ some d
        → IsPair r p d)
    → WellGrouped gs
    → ((n : String) → OneOf r n (group_of n gs))
    → AllOk r gs
unfolding group_of
AllOk-of_pairs r [] pairs w each = tt
AllOk-of_pairs r ((m, g) ∷ rest) pairs w each = (
  this g w.1 each_at,
  AllOk-of_pairs r rest pairs w.3 λ n. elim (Bool-cases (m == n)) [
    | inl t ↦ inl (rw (← (eq_iff m n).0 t) w.0)
    | inr f ↦ rw f at (each n)
  ],
)
  where
    each_at : OneOf r m g
    each_at = rw (eq_refl m) at (each m)

    this : (h : List ApexFile) → h ≢ [] → OneOf r m h → GroupOk r h
    this h ne (inl e) = absurd (ne e)
    this h ne (inr e) =
        rw e (
          made (lookup m r.pre_installed_store) (lookup m r.data_store) refl refl (λ q. ne (e ∙ q)))
      where
        made :
            (x y : Option ApexFile)
            → lookup m r.pre_installed_store ≡ x
            → lookup m r.data_store ≡ y
            → to_list x ++ to_list y ≢ []
            → GroupOk r (to_list x ++ to_list y)
        made none none p q f = absurd (f refl)
        made none (some d) p q f = tt
        made (some a) none p q f = tt
        made (some a) (some d) p q f = pairs m a d p q

-- A repository that `OnStart` can select from: the files of the data store are neither pre-installed
-- nor decompressed ones, and every version fits an `int`.
pub record IsReady (r : ApexFileRepository) : Type 0 where
  pub valid : IsValid r
  pub data_outside :
      (n : String) (d : ApexFile)
      → lookup n r.data_store ≡ some d
      → is_pre_installed_apex r d ≡ false
  pub pre_fits :
      (n : String) (p : ApexFile)
      → lookup n r.pre_installed_store ≡ some p
      → FitsInt32 (version_of p)
  pub data_fits :
      (n : String) (d : ApexFile) → lookup n r.data_store ≡ some d → FitsInt32 (version_of d)

name_of_found :
    (n : String) (s : Store) (a : ApexFile) → WellKeyed s → lookup n s ≡ some a → name_of a ≡ n
unfolding lookup
name_of_found n [] a w h = absurd (ground arith)
name_of_found n ((m, b) ∷ rest) a w h = elim (Bool-cases (m == n)) [
  | inl t ↦ ground (arith, eq_iff m n)
  | inr f ↦ name_of_found n rest a w.2 (ground arith)
]

is_pre_installed_apex_found :
    (r : ApexFileRepository) (p : ApexFile)
    → lookup (name_of p) r.pre_installed_store ≡ some p
    → is_pre_installed_apex r p ≡ true
unfolding is_pre_installed_apex
is_pre_installed_apex_found r p h = ground (arith, eq_refl p.apex_path)

IsReady-IsPair :
    (r : ApexFileRepository)
    → IsReady r
    → (n : String) (p d : ApexFile) → lookup n r.pre_installed_store ≡ some p
    → lookup n r.data_store ≡ some d
    → IsPair r p d
IsReady-IsPair r v n p d h k = record {
  pre = is_pre_installed_apex_found r p (
      ap (λ (k : String). lookup k r.pre_installed_store)
        (name_of_found n r.pre_installed_store p v.valid.pre_keyed h)
      ∙ h);
  on_data = v.data_outside n d k;
  pre_fits = v.pre_fits n p h;
  data_fits = v.data_fits n d k;
}

-- The files to activate for a package, from its pre-installed and its data APEX.
abbrev pub expected : Option ApexFile → Option ApexFile → List ApexFile
expected none d = []
expected (some p) none = p ∷ []
expected (some p) (some d) = chosen p d

has_of_found :
    (r : ApexFileRepository) (n : String) (p : ApexFile)
    → lookup n r.pre_installed_store ≡ some p
    → has_pre_installed_version r n ≡ true
unfolding has_pre_installed_version
has_of_found r n p h = rw h

picked-expected :
    (r : ApexFileRepository) (n : String)
    → IsValid r
    → (x y : Option ApexFile) → lookup n r.pre_installed_store ≡ x
    → lookup n r.data_store ≡ y
    → picked r n (to_list x ++ to_list y) ≡ expected x y
picked-expected r n v none none h k = refl
picked-expected r n v none (some d) h k =
    let (p, found, key) = v.backed n d k in absurd (ground arith)
picked-expected r n v (some p) none h k = rw (has_of_found r n p h)
picked-expected r n v (some p) (some d) h k = rw (has_of_found r n p h)

-- Over the groups of a ready repository the selection never meets the fatal error, and for every
-- package name it takes exactly the expected files: none where the package is not pre-installed,
-- the pre-installed file where there is no data file, and the chosen ones of the two otherwise.
pub select_apex_for_activation-expected :
    (r : ApexFileRepository)
    → IsReady r
    → (xs : List ApexFile) × (select_apex_for_activation (all_apex_files_by_name r) r ≡ ok xs)
      × ((n : String)
          → keep (named n) xs ≡ expected (lookup n r.pre_installed_store) (lookup n r.data_store))
select_apex_for_activation-expected r v =
    let gs = all_apex_files_by_name r in
    let w = all_apex_files_by_name-WellGrouped r in
    let (xs, e, h) =
      select-picked r gs w
        (AllOk-of_pairs r gs (IsReady-IsPair r v) w (λ n. inr (group_of_all r n v.valid))) in
    (
      xs,
      e,
      λ n.
          h n
          ∙ rw (group_of_all r n v.valid) (
              picked-expected r n v.valid (lookup n r.pre_installed_store) (lookup n r.data_store)
                refl refl),
    )

-- In a ready repository, a package that has a pre-installed file has some file in every activation list
-- that the selection over the repository's groups gives.
pub select_apex_for_activation_covers :
    (r : ApexFileRepository) (n : String) (p : ApexFile) (xs : List ApexFile)
    → IsReady r
    → lookup n r.pre_installed_store ≡ some p
    → select_apex_for_activation (all_apex_files_by_name r) r ≡ ok xs
    → keep (named n) xs ≢ []
select_apex_for_activation_covers r n p xs v h e none_left =
    let (ys, k, at) = select_apex_for_activation-expected r v in
    let q : xs ≡ ys = ground arith in
    nonempty (lookup n r.data_store) (sym (at n ∙ rw h) ∙ rw (← q) none_left)
  where
    nonempty : (y : Option ApexFile) → expected (some p) y ≢ []
    nonempty none f = cc
    nonempty (some d) f = ground arith
