-- ===== src/Select.antt =====
-- `SelectApexForActivation` of apexd/apexd.cpp, and `ShouldAllocateSpaceForDecompression`.
pub mod Groups
pub mod Choice
pub mod Activation
pub mod Space
use platform_system_apex.Base.{
  String, Bool, true, false, not, ◌&&◌, ◌||◌, List, [], ◌∷◌, ◌++◌, if◌then◌else◌,
}
use platform_system_apex.Base.Int.{ℤ, ltb_ℤ, leb_ℤ, eqb_ℤ, to_int32}
use platform_system_apex.Base.Result.{Result, ok, fatal, ◌>>=◌}
use platform_system_apex.ApexFile.{ApexFile, version_of}
use platform_system_apex.Repository.{
  ApexFileRepository, ApexGroups, has_pre_installed_version, has_data_version,
  is_pre_installed_apex, get_pre_installed_apex, get_data_apex,
}

-- The flag `activate` of the lambda `select_apex`. `version_b` is an `int`.
unfoldable pub should_activate : ApexFileRepository → ApexFile → ℤ → Bool
unfolding is_pre_installed_apex
should_activate r a version_b =
    let pre_installed = is_pre_installed_apex r a in
    let higher_version = ltb_ℤ version_b (version_of a) in
    let same_version_priority_to_data = eqb_ℤ (version_of a) version_b && not pre_installed in
    if a.manifest.provide_shared_apex_libs
    then pre_installed && not (eqb_ℤ (version_of a) version_b)
      || not pre_installed && leb_ℤ version_b (version_of a)
    else higher_version || same_version_priority_to_data

unfoldable pub select_apex : ApexFileRepository → ApexFile → ℤ → List ApexFile
unfolding should_activate
select_apex r a version_b = if should_activate r a version_b then a ∷ [] else []

-- The body of the loop over the packages: what it appends to `activation_list`.
unfoldable pub select_for_package :
    ApexFileRepository → String → List ApexFile → Result (List ApexFile)
unfolding has_pre_installed_version select_apex
select_for_package r name [] =
    fatal "Unexpectedly found more than two versions or none for APEX package"
select_for_package r name (a ∷ []) =
    if not (has_pre_installed_version r name) then ok [] else ok (a ∷ [])
select_for_package r name (a ∷ b ∷ []) =
    if not (has_pre_installed_version r name)
    then ok []
    else ok (select_apex r a (to_int32 (version_of b)) ++ select_apex r b (to_int32 (version_of a)))
select_for_package r name (a ∷ b ∷ c ∷ more) =
    fatal "Unexpectedly found more than two versions or none for APEX package"

unfoldable pub select_apex_for_activation : ApexGroups → ApexFileRepository → Result (List ApexFile)
unfolding select_for_package
select_apex_for_activation [] r = ok []
select_apex_for_activation ((name, files) ∷ rest) r = do
  here ← select_for_package r name files
  later ← select_apex_for_activation rest r
  ok (here ++ later)

unfoldable pub should_allocate_space_for_decompression :
    String → ℤ → ApexFileRepository → Result Bool
unfolding has_pre_installed_version has_data_version get_pre_installed_apex get_data_apex
should_allocate_space_for_decompression name version r =
    if not (has_pre_installed_version r name)
    then ok true
    else if not (has_data_version r name)
    then (do
      p ← get_pre_installed_apex r name
      if not p.is_compressed then ok true else ok (not (eqb_ℤ version (version_of p))))
    else do d ← get_data_apex r name; ok (ltb_ℤ (version_of d) version)
