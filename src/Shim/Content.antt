-- ===== src/Shim/Content.antt =====
-- What the shim APEX may hold.
use mathlib.Core.Path.{subst}
use platform_system_apex.Base.{
  String, Bool, true, false, some, List, [], ◌∷◌, ◌==◌, ◌≡◌, sym, inl, inr, arith, eq_iff, any,
  keep, not, Member, Bool-cases,
}
use platform_system_apex.Base.Result.{ok, >>=-eq-ok, ok_injective}
use platform_system_apex.ApexFile.{ApexFile}
use platform_system_apex.Shim.{
  ShimEntry, EntryKind, symlink, regular, directory, unknown, validate_entry, validate_entries,
  validate_shim_apex, k_expected_cts_shim_files,
}
use platform_system_apex.Shim.Update.{any-Member}

Member-keep :
    (p : String → Bool) (f : String) (fs : List String) → Member f (keep p fs) → Member f fs
Member-keep p f [] m = m
Member-keep p f (x ∷ fs) m = elim (Bool-cases (p x)) [
  | inl kept ↦
      let m' : Member f (x ∷ keep p fs) = rw kept at m in
      elim m' [ inl e ↦ inl e | inr later ↦ inr (Member-keep p f fs later) ]
  | inr gone ↦ let m' : Member f (keep p fs) = rw gone at m in inr (Member-keep p f fs m')
]

-- An entry that the shim APEX may hold: a directory, or an expected file that nobody may execute.
abbrev pub AllowedAs : List String → ShimEntry → EntryKind → Type 0
AllowedAs expected e symlink = ⊥
AllowedAs expected e regular = (e.executable ≡ false) × Member e.local_path expected
AllowedAs expected e directory = Unit
AllowedAs expected e unknown = ⊥

AllowedAs-more :
    (e : ShimEntry) (kind : EntryKind) (fs gs : List String)
    → ((f : String) → Member f fs → Member f gs)
    → AllowedAs fs e kind
    → AllowedAs gs e kind
AllowedAs-more e symlink fs gs sub a = a
AllowedAs-more e regular fs gs sub a = (a.0, sub e.local_path a.1)
AllowedAs-more e directory fs gs sub a = a
AllowedAs-more e unknown fs gs sub a = a

validate_entry-allowed :
    (e : ShimEntry) (kind : EntryKind) (expected : List String) {left : List String}
    → validate_entry e kind expected ≡ ok left
    → AllowedAs expected e kind × ((f : String) → Member f left → Member f expected)
unfolding validate_entry
validate_entry-allowed e symlink expected h = cc
validate_entry-allowed e regular expected h =
    let found : any (λ f. f == e.local_path) expected ≡ true = ground (arith, h) in
    let shut : e.executable ≡ false = ground (arith, h) in
    (
      (shut, any-Member e.local_path expected found),
      λ f m.
          Member-keep (λ g. not (g == e.local_path)) f expected
            (subst (Member f) (sym (ok_injective (rw (shut, found) at h))) m),
    )
validate_entry-allowed e directory expected h =
    (tt, λ f m. subst (Member f) (sym (ok_injective h)) m)
validate_entry-allowed e unknown expected h = cc

validate_entries-allowed :
    (entries : List ShimEntry) (expected : List String)
    → validate_entries entries expected ≡ ok tt
    → (e : ShimEntry) → Member e entries
    → AllowedAs expected e e.kind
unfolding validate_entries
validate_entries-allowed [] expected h e m = absurd m
validate_entries-allowed (x ∷ entries) expected h e m =
    let (left, one, h1) = >>=-eq-ok (validate_entry x x.kind expected) _ h in
    let (here, fewer) = validate_entry-allowed x x.kind expected one in
    let later : validate_entries entries left ≡ ok tt = ground (arith, h1) in
    elim m [
      | inl same ↦ subst (λ y. AllowedAs expected y y.kind) (sym same) here
      | inr there ↦
          AllowedAs-more e e.kind left expected fewer
            (validate_entries-allowed entries left later e there)
    ]

-- The files that the shim APEX of the CTS consists of
abbrev pub shim_files : List String
shim_files =
    "apex_manifest.json" ∷ "apex_manifest.pb" ∷ "etc/hash.txt" ∷ "app/CtsShim/CtsShim.apk"
    ∷ "app/CtsShimTargetPSdk/CtsShimTargetPSdk.apk" ∷ "priv-app/CtsShimPriv/CtsShimPriv.apk" ∷ []

-- A shim APEX whose content can be listed, and which `ValidateShimApex` accepts, has no hooks, and
-- all that it holds is what `status`, which follows links, calls a directory, or a regular file that
-- nobody may execute and that is one of the two manifests, etc/hash.txt and the three CtsShim packages.
pub validate_shim_apex-allowed :
    (entries : List ShimEntry) (apex : ApexFile)
    → validate_shim_apex (some entries) apex ≡ ok tt
    → (apex.manifest.pre_install_hook ≡ "")
      × (apex.manifest.post_install_hook ≡ "")
      × ((e : ShimEntry) → Member e entries → AllowedAs shim_files e e.kind)
unfolding validate_shim_apex
validate_shim_apex-allowed entries apex h =
    let pre = eq_iff apex.manifest.pre_install_hook "" in
    let post = eq_iff apex.manifest.post_install_hook "" in
    let run : validate_entries entries k_expected_cts_shim_files ≡ ok tt = ground (arith, h) in
    (
      pre.0 (ground (arith, h)),
      post.0 (ground (arith, h)),
      validate_entries-allowed entries k_expected_cts_shim_files run,
    )
