-- ===== src/Boot/Fallback.antt =====
-- Which pre-installed files `ActivateMissingApexes` of apexd/apexd.cpp falls back to.
use platform_system_apex.Base.{
  String, List, [], ◌∷◌, ◌≡◌, refl, inl, inr, keep, map, Bool-cases, Member,
}
use platform_system_apex.Base.Result.{ok}
use platform_system_apex.ApexFile.{ApexFile, name_of}
use platform_system_apex.Repository.{ApexFileRepository, get_pre_installed_apex}
use platform_system_apex.Boot.{needs_fallback, fallback_apexes}

-- Where the packages of the list have pre-installed files (`pre`), `ActivateMissingApexes` falls back, in
-- the order of the list, to the pre-installed files of exactly those that provide no shared libraries,
-- are not pre-installed themselves and have no active package of their name.
pub fallback_apexes-exactly :
    (repo : ApexFileRepository) (active apexes : List ApexFile) (pre : String → ApexFile)
    → ((a : ApexFile)
        → Member a apexes
        → get_pre_installed_apex repo (name_of a) ≡ ok (pre (name_of a)))
    → fallback_apexes repo active apexes
      ≡ ok (map (λ a. pre (name_of a)) (keep (needs_fallback repo active) apexes))
unfolding fallback_apexes
fallback_apexes-exactly repo active [] pre h = refl
fallback_apexes-exactly repo active (a ∷ apexes) pre h =
    let rest = fallback_apexes-exactly repo active apexes pre (λ b k. h b (inr k)) in
    let here = h a (inl refl) in
    elim (Bool-cases (needs_fallback repo active a)) [
      | inl t ↦ simp (t, here, rest) refl
      | inr f ↦ simp (f, rest) refl
    ]
