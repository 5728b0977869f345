-- ===== src/Populate/Highest.antt =====
-- The highest version among the mounts that `PopulateFromMounts` finds.
use platform_system_apex.Base.{
  String, Bool, true, false, Option, none, some, List, [], ◌∷◌, ◌≡◌, ap, ◌∙◌, inl, inr, ◌==◌, ◌&&◌,
  arith, if◌then◌else◌, Bool-cases, find_if,
}
use platform_system_apex.Base.Int.{ℤ, ltb_ℤ, eqb_ℤ}
use platform_system_apex.Populate.{Mounts, Dirs, Found, find_mount}

-- The mounts that the lines show, in order.
abbrev keep_found : Option Found → List Found → List Found
keep_found none fs = fs
keep_found (some f) fs = f ∷ fs

abbrev pub found_mounts : Mounts → Dirs → List String → List Found
found_mounts m dirs [] = []
found_mounts m dirs (line ∷ lines) = keep_found (find_mount m dirs line) (found_mounts m dirs lines)

-- The highest of `v` and the versions of a package.
abbrev pub highest : String → ℤ → List Found → ℤ
highest p v [] = v
highest p v (f ∷ fs) =
    highest p (if f.found_package == p && ltb_ℤ v f.found_version then f.found_version else v) fs

abbrev path_of : Option Found → Option String
path_of none = none
path_of (some f) = some f.found_data.full_path

-- The path of the first mount of the package with that version.
abbrev pub path_at : String → ℤ → List Found → Option String
path_at p v fs = path_of (find_if (λ f. f.found_package == p && eqb_ℤ f.found_version v) fs)

abbrev pub expected_path : String → ℤ → Option String → List Found → Option String
expected_path p v before fs =
    if ltb_ℤ v (highest p v fs) then path_at p (highest p v fs) fs else before

highest_le : (p : String) (v : ℤ) (fs : List Found) → ltb_ℤ (highest p v fs) v ≡ false
highest_le p v [] = ground arith
highest_le p v (f ∷ fs) = elim (Bool-cases (f.found_package == p && ltb_ℤ v f.found_version)) [
  | inl t ↦ rw t (ground (arith, t, highest_le p f.found_version fs))
  | inr g ↦ rw g (highest_le p v fs)
]

-- `f` raises the highest version to its own, which `h` is at least.
raised :
    (p : String) (v h : ℤ) (before : Option String) (f : Found) (fs : List Found)
    → f.found_package == p && ltb_ℤ v f.found_version ≡ true
    → ltb_ℤ h f.found_version ≡ false
    → (if ltb_ℤ v h then path_at p h (f ∷ fs) else before)
      ≡ (if ltb_ℤ f.found_version h then path_at p h fs else some f.found_data.full_path)
raised p v h before f fs t le = elim (Bool-cases (f.found_package == p)) [
  | inl e ↦ ground (arith, e, t, le)
  | inr e ↦ absurd (ground (arith, e, t))
]

not_raised :
    (p : String) (v h : ℤ) (before : Option String) (f : Found) (fs : List Found)
    → f.found_package == p && ltb_ℤ v f.found_version ≡ false
    → (if ltb_ℤ v h then path_at p h (f ∷ fs) else before)
      ≡ (if ltb_ℤ v h then path_at p h fs else before)
not_raised p v h before f fs t = elim (Bool-cases (f.found_package == p)) [
  | inl e ↦ ground (arith, e, t)
  | inr e ↦ ground (arith, e, t)
]

highest_if :
    (p : String) (v : ℤ) (f : Found) (fs : List Found) (b : Bool)
    → f.found_package == p && ltb_ℤ v f.found_version ≡ b
    → highest p v (f ∷ fs) ≡ highest p (if b then f.found_version else v) fs
highest_if p v f fs b e = ap (λ c. highest p (if c then f.found_version else v) fs) e

-- What one mount changes in the expectation.
pub expected_path-cons :
    (p : String) (v : ℤ) (before : Option String) (f : Found) (fs : List Found)
    → expected_path p v before (f ∷ fs) ≡ (
        if f.found_package == p && ltb_ℤ v f.found_version
        then expected_path p f.found_version (some f.found_data.full_path) fs
        else expected_path p v before fs)
expected_path-cons p v before f fs =
    elim (Bool-cases (f.found_package == p && ltb_ℤ v f.found_version)) [
      | inl t ↦
          ap (λ h. if ltb_ℤ v h then path_at p h (f ∷ fs) else before) (highest_if p v f fs true t)
          ∙ rw t (
              raised p v (highest p f.found_version fs) before f fs t
                (highest_le p f.found_version fs))
      | inr g ↦
          ap (λ h. if ltb_ℤ v h then path_at p h (f ∷ fs) else before) (highest_if p v f fs false g)
          ∙ rw g (not_raised p v (highest p v fs) before f fs g)
    ]
