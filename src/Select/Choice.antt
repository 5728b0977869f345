-- ===== src/Select/Choice.antt =====
-- Which of the two APEXes of a package `SelectApexForActivation` (apexd/apexd.cpp) takes.
use platform_system_apex.Base.{
  ℕ, ◌+◌, ◌<◌, String, Bool, true, false, not, List, [], ◌∷◌, ◌++◌, ◌≡◌, arith, if◌then◌else◌,
}
use platform_system_apex.Base.Int.{pos, ltb_ℤ, leb_ℤ, eqb_ℤ, to_int32, FitsInt32, to_int32_fits}
use platform_system_apex.Base.Result.{ok}
use platform_system_apex.ApexFile.{ApexFile, version_of}
use platform_system_apex.Repository.{
  ApexFileRepository, has_pre_installed_version, is_pre_installed_apex,
}
use platform_system_apex.Select.{should_activate, select_apex, select_for_package}

-- Two files of one package, one pre-installed and one on /data, with versions that fit an `int`.
pub record IsPair (r : ApexFileRepository) (p d : ApexFile) : Type 0 where
  pub pre : is_pre_installed_apex r p ≡ true
  pub on_data : is_pre_installed_apex r d ≡ false
  pub pre_fits : FitsInt32 (version_of p)
  pub data_fits : FitsInt32 (version_of d)

-- What the comment of `SelectApexForActivation` asks for: the higher version, the one on /data
-- where they are equal; a pre-installed APEX with shared libraries also where it is lower.
abbrev pub takes_pre : ApexFile → ApexFile → Bool
takes_pre p d =
    if p.manifest.provide_shared_apex_libs
    then not (eqb_ℤ (version_of p) (version_of d))
    else ltb_ℤ (version_of d) (version_of p)

abbrev pub takes_data : ApexFile → ApexFile → Bool
takes_data p d = leb_ℤ (version_of p) (version_of d)

abbrev pub chosen : ApexFile → ApexFile → List ApexFile
chosen p d = (if takes_pre p d then p ∷ [] else []) ++ (if takes_data p d then d ∷ [] else [])

should_activate_pre :
    (r : ApexFileRepository) (p d : ApexFile)
    → IsPair r p d
    → should_activate r p (to_int32 (version_of d)) ≡ takes_pre p d
unfolding should_activate
should_activate_pre r p d h = rw (to_int32_fits (version_of d) h.data_fits, h.pre) (ground arith)

should_activate_data :
    (r : ApexFileRepository) (p d : ApexFile)
    → IsPair r p d
    → should_activate r d (to_int32 (version_of p)) ≡ takes_data p d
unfolding should_activate
should_activate_data r p d h =
    rw (to_int32_fits (version_of p) h.pre_fits, h.on_data) (ground arith)

-- Of the pre-installed and the data file of a pre-installed package, with versions that fit an `int`,
-- exactly the `chosen` ones are taken.
pub select_for_package-chosen :
    (r : ApexFileRepository) (name : String) (p d : ApexFile)
    → has_pre_installed_version r name ≡ true
    → IsPair r p d
    → select_for_package r name (p ∷ d ∷ []) ≡ ok (chosen p d)
unfolding select_for_package select_apex
select_for_package-chosen r name p d h pair =
    rw (h, should_activate_pre r p d pair, should_activate_data r p d pair)

-- Of two files of a pre-installed package, neither of which provides shared libraries, both are taken
-- when their versions are `2 ^ 32 + a` and `2 ^ 32 + b` with `a` and `b` below `2 ^ 31`.
pub select_for_package_truncates :
    (r : ApexFileRepository) (name : String) (p d : ApexFile) (a b : ℕ)
    → has_pre_installed_version r name ≡ true
    → p.manifest.provide_shared_apex_libs ≡ false
    → d.manifest.provide_shared_apex_libs ≡ false
    → a < 2147483648
    → b < 2147483648
    → version_of p ≡ pos (4294967296 + a)
    → version_of d ≡ pos (4294967296 + b)
    → select_for_package r name (p ∷ d ∷ []) ≡ ok (p ∷ d ∷ [])
unfolding select_for_package select_apex should_activate to_int32
select_for_package_truncates r name p d a b h sp sd la lb vp vd =
    rw (h, vp, vd, sp, sd) (ground arith)
