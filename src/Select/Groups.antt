-- ===== src/Select/Groups.antt =====
-- `AllApexFilesByName` of apexd/apex_file_repository.cpp: what each group holds.
use platform_system_apex.Base.{
  String, Bool, true, Option, none, some, List, [], ◌∷◌, ◌++◌, ◌==◌, ◌≡◌, refl, sym, ◌∙◌, ap, ◌≢◌,
  inl, inr, arith, eq_iff, eq_refl, if◌then◌else◌, Bool-cases, keep,
}
use mathlib.Core.List.{append-nil, append_assoc}
use platform_system_apex.ApexFile.{ApexFile, name_of}
use platform_system_apex.Repository.{
  Store, ApexFileRepository, lookup, files_of, ApexGroups, group_add, group_all,
  all_apex_files_by_name,
}
use platform_system_apex.Repository.Keys.{WellKeyed, IsValid}

unfoldable pub group_of : String → ApexGroups → List ApexFile
group_of n [] = []
group_of n ((m, g) ∷ rest) = if m == n then g else group_of n rest

abbrev pub named : String → ApexFile → Bool
named n a = name_of a == n

pub keep-append :
    (p : ApexFile → Bool) (xs ys : List ApexFile) → keep p (xs ++ ys) ≡ keep p xs ++ keep p ys
keep-append p [] ys = refl
keep-append p (x ∷ xs) ys = ground (arith, keep-append p xs ys)

group_of-group_add :
    (n : String) (a : ApexFile) (gs : ApexGroups)
    → group_of n (group_add a gs) ≡ group_of n gs ++ keep (named n) (a ∷ [])
unfolding group_of group_add
group_of-group_add n a [] = ground arith
group_of-group_add n a ((m, g) ∷ rest) = ground (
  arith,
  group_of-group_add n a rest,
  eq_iff m n,
  eq_iff m (name_of a),
  eq_iff (name_of a) n,
  append-nil g,
  append-nil (group_of n rest),
)

group_of-group_all :
    (n : String) (gs : ApexGroups) (found : List ApexFile)
    → group_of n (group_all gs found) ≡ group_of n gs ++ keep (named n) found
unfolding group_all
group_of-group_all n gs [] = sym (append-nil (group_of n gs))
group_of-group_all n gs (a ∷ found) =
    group_of-group_all n (group_add a gs) found
    ∙ rw (group_of-group_add n a gs, append_assoc)
        (ap (◌++◌ (group_of n gs)) (sym (keep-append (named n) (a ∷ []) found)))

-- Names once, no empty group, and each file in the group of its name.
abbrev pub WellGrouped : ApexGroups → Type 0
WellGrouped [] = Unit
WellGrouped ((n, g) ∷ rest) =
    (group_of n rest ≡ []) × (g ≢ []) × (keep (named n) g ≡ g) × WellGrouped rest

keep_self-append :
    (n : String) (a : ApexFile) (g : List ApexFile)
    → keep (named n) g ≡ g
    → (name_of a == n) ≡ true
    → keep (named n) (g ++ a ∷ []) ≡ g ++ a ∷ []
keep_self-append n a g h e = rw (keep-append (named n) g (a ∷ []), h, e)

append-ne-nil : (g : List ApexFile) (a : ApexFile) → g ++ a ∷ [] ≢ []
append-ne-nil [] a e = cc
append-ne-nil (b ∷ g) a e = cc

group_add-WellGrouped :
    (a : ApexFile) (gs : ApexGroups) → WellGrouped gs → WellGrouped (group_add a gs)
unfolding group_of group_add
group_add-WellGrouped a [] w = (refl, λ e. cc, ground (arith, eq_refl (name_of a)), tt)
group_add-WellGrouped a ((n, g) ∷ rest) w = elim (Bool-cases (n == name_of a)) [
  | inl t ↦
      let e : n ≡ name_of a = (eq_iff _ _).0 t in
      rw t (w.0, append-ne-nil g a, keep_self-append n a g w.2 ((eq_iff _ _).1 (sym e)), w.3)
  | inr f ↦ rw f (
    ground (
      arith,
      group_of-group_add n a rest,
      eq_iff n (name_of a),
      eq_iff (name_of a) n,
      append-nil (group_of n rest),
      w.0,
    ),
    w.1,
    w.2,
    group_add-WellGrouped a rest w.3,
  )
]

group_all-WellGrouped :
    (gs : ApexGroups) (found : List ApexFile) → WellGrouped gs → WellGrouped (group_all gs found)
unfolding group_all
group_all-WellGrouped gs [] w = w
group_all-WellGrouped gs (a ∷ found) w =
    group_all-WellGrouped (group_add a gs) found (group_add-WellGrouped a gs w)

pub all_apex_files_by_name-WellGrouped :
    (r : ApexFileRepository) → WellGrouped (all_apex_files_by_name r)
unfolding all_apex_files_by_name
all_apex_files_by_name-WellGrouped r =
    group_all-WellGrouped [] (files_of r.pre_installed_store ++ files_of r.data_store) tt

abbrev pub to_list : Option ApexFile → List ApexFile
to_list none = []
to_list (some a) = a ∷ []

keep-files_of :
    (n : String) (s : Store) → WellKeyed s → keep (named n) (files_of s) ≡ to_list (lookup n s)
unfolding lookup
keep-files_of n [] w = refl
keep-files_of n ((m, a) ∷ rest) w =
    ground (arith, keep-files_of n rest w.2, eq_iff (name_of a) n, eq_iff m n, w.0, w.1)

-- In a valid repository the group of a name is its pre-installed file, if there is one, followed by
-- its data file, if there is one.
pub group_of_all :
    (r : ApexFileRepository) (n : String)
    → IsValid r
    → group_of n (all_apex_files_by_name r)
      ≡ to_list (lookup n r.pre_installed_store) ++ to_list (lookup n r.data_store)
unfolding all_apex_files_by_name group_of
group_of_all r n v =
    group_of-group_all n [] (files_of r.pre_installed_store ++ files_of r.data_store)
    ∙ rw (
      keep-append (named n) (files_of r.pre_installed_store) (files_of r.data_store),
      keep-files_of n r.pre_installed_store v.pre_keyed,
      keep-files_of n r.data_store v.data_keyed,
    )
