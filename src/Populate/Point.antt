-- ===== src/Populate/Point.antt =====
-- Mount points: `ParseMountPoint` of apexd/apex_database.cpp reads what `GetPackageMountPoint` of
-- apexd/apexd.cpp writes.
use platform_system_apex.Base.{
  String, ◌^^◌, Bool, none, some, [], ◌∷◌, ◌≡◌, ap, ◌∙◌, ◌&&◌, arith, if◌then◌else◌, inl, inr, ltb,
  leb, Bool-cases,
}
use platform_system_apex.Base.Int.{ℤ, negsuc, pos_part, neg_part}
use platform_system_apex.ApexFile.{ApexManifest, to_string, get_package_id, get_package_mount_point}
use platform_system_apex.ApexFile.PackageId.{Lacks, Lacks-to_string, Lacks-get_package_id}
use platform_system_apex.Populate.{Mounts, parse_mount_point, package_of, or_minus_one}

-- An `int` holds the value.
abbrev pub fits_int : ℤ → Bool
fits_int v = ltb (pos_part v) 2147483648 && leb (neg_part v) 2147483648

-- What the documentation of the three functions says of the texts that matter here.
pub record Documented (m : Mounts) : Type 0 where
  -- `path::filename`: what follows the last '/'
  pub filename_last : (s : String) → Lacks 47 s → m.filename ("/apex" ^^ "/" ^^ s) ≡ s
  -- `Split`: the pieces between the separators
  pub split_once :
      (s t : String) → Lacks 64 s → Lacks 64 t → m.split (s ^^ "@" ^^ t) "@" ≡ s ∷ t ∷ []
  -- `ParseInt<int>`: the number that is spelled, or a failure where it is out of range
  pub parse_int_of : (v : ℤ) → m.parse_int (to_string v) ≡ (if fits_int v then some v else none)

abbrev pub int_or_minus_one : ℤ → ℤ
int_or_minus_one v = if fits_int v then v else negsuc 0

read_version :
    (files : Mounts) (v : ℤ)
    → files.parse_int (to_string v) ≡ (if fits_int v then some v else none)
    → or_minus_one (files.parse_int (to_string v)) ≡ int_or_minus_one v
read_version files v h = elim (Bool-cases (fits_int v)) [
  | inl t ↦ ground (arith, h, t)
  | inr f ↦ ground (arith, h, f)
]

-- For a package without '@' and '/' in its name, the mount point that `GetPackageMountPoint` makes is
-- read back by `ParseMountPoint` as the name and the version where an `int` holds the version, and as
-- the name and -1 where not.
pub parse_mount_point-get_package_mount_point :
    (files : Mounts) (m : ApexManifest)
    → Documented files
    → Lacks 64 m.name
    → Lacks 47 m.name
    → parse_mount_point files (get_package_mount_point m) ≡ (m.name, int_or_minus_one m.version)
unfolding parse_mount_point get_package_mount_point get_package_id
parse_mount_point-get_package_mount_point files m doc h k =
    let last = doc.filename_last (get_package_id m) (Lacks-get_package_id m k) in
    let number =
      Lacks-to_string 64 m.version (λ n l e. omega (arith, l, e)) (λ e. ground (arith, e)) in
    let pieces = doc.split_once m.name (to_string m.version) h number in
    ap (λ s. package_of files s (files.split s "@")) last
    ∙ ap (package_of files (get_package_id m)) pieces
    ∙ ap (λ (v : ℤ). (m.name, v)) (read_version files m.version (doc.parse_int_of m.version))
