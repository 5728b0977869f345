-- ===== src/Select/Space.antt =====
-- `ShouldAllocateSpaceForDecompression` of apexd/apexd.cpp as a table.
use platform_system_apex.Base.{
  String, Bool, true, not, ◌||◌, Option, none, some, ◌≡◌, arith, Option-cases, inl, inr,
}
use platform_system_apex.Base.Int.{ℤ, ltb_ℤ, eqb_ℤ}
use platform_system_apex.Base.Result.{ok}
use platform_system_apex.ApexFile.{ApexFile, version_of}
use platform_system_apex.Repository.{
  ApexFileRepository, lookup, has_pre_installed_version, has_data_version, get_pre_installed_apex,
  get_data_apex,
}
use platform_system_apex.Select.{should_allocate_space_for_decompression}

-- Whether a new compressed APEX of a version needs space, by the two files of its package.
abbrev pub needs_space : ℤ → Option ApexFile → Option ApexFile → Bool
needs_space version none on_data = true
needs_space version (some pre) none = not pre.is_compressed || not (eqb_ℤ version (version_of pre))
needs_space version (some pre) (some on_data) = ltb_ℤ (version_of on_data) version

-- The answer never meets the failed check of a missing entry, and is: yes, for a package that is not
-- pre-installed; without a data file, yes unless the pre-installed file is a compressed one of the same
-- version; with one, yes exactly if the new version is above that of the data file.
pub should_allocate_space_for_decompression-table :
    (name : String) (version : ℤ) (r : ApexFileRepository)
    → should_allocate_space_for_decompression name version r
      ≡ ok (needs_space version (lookup name r.pre_installed_store) (lookup name r.data_store))
unfolding should_allocate_space_for_decompression has_pre_installed_version has_data_version
    get_pre_installed_apex get_data_apex
should_allocate_space_for_decompression-table name version r =
    elim (Option-cases (lookup name r.pre_installed_store)) [
      | inl a ↦ ground (arith, a)
      | inr (p, a) ↦ elim (Option-cases (lookup name r.data_store)) [
        | inl b ↦ ground (arith, a, b)
        | inr (d, b) ↦ ground (arith, a, b)
      ]
    ]
