-- ===== src/Shim.antt =====
-- apexd/apex_shim.cpp: what the shim APEX may hold, and which files may replace it. SHA-512 is the
-- library BoringSSL, a parameter.
pub mod Hash
pub mod Update
pub mod Content
use platform_system_apex.Base.{
  ℕ, zero, suc, String, Bool, true, false, ◌&&◌, ◌||◌, Option, none, some, List, [], ◌∷◌, ◌++◌,
  ◌==◌, not, any, keep, if◌then◌else◌, length, ltb,
}
use platform_system_apex.Base.Result.{Result, ok, err, fatal, ◌>>=◌, ◌>>◌}
use platform_system_apex.ApexFile.{ApexFile, name_of}
use platform_system_apex.Verity.{bytes_to_hex}

-- `SHA512_Init`, `SHA512_Update` and `SHA512_Final`
pub record Sha512 : Type 1 where
  pub Context : Type 0
  pub init : Context
  pub update : Context → List ℕ → Context
  pub final : Context → List ℕ

-- A file that is read: its bytes, and whether it ends after them or with an error of the medium.
pub record Medium : Type 0 where
  pub bytes : List ℕ
  pub intact : Bool

-- `std::ifstream`
pub record Stream : Type 0 where
  pub medium : Medium
  pub eof : Bool
  pub fail : Bool
  pub bad : Bool

-- A file that does not open sets the failbit only.
abbrev pub open_stream : Option Medium → Stream
open_stream none = record {
  medium = record { bytes = []; intact = true };
  eof = false;
  fail = true;
  bad = false;
}
open_stream (some m) = record { medium = m; eof = false; fail = false; bad = false }

abbrev pub take : ℕ → List ℕ → List ℕ
take zero bytes = []
take (suc n) [] = []
take (suc n) (b ∷ bytes) = b ∷ take n bytes

abbrev pub drop : ℕ → List ℕ → List ℕ
drop zero bytes = bytes
drop (suc n) [] = []
drop (suc n) (b ∷ bytes) = drop n bytes

-- `read`: what it puts in the buffer (`gcount` bytes), and the stream after it. A stream that is not good
-- reads nothing; one that ends before `n` bytes sets the eofbit, or the badbit after an error.
unfoldable pub read : ℕ → Stream → List ℕ × Stream
read n s =
    if s.eof || s.fail || s.bad
    then ([], record s { fail = true })
    else if ltb (length s.medium.bytes) n
    then (
      s.medium.bytes,
      record s {
        medium = record { bytes = []; intact = s.medium.intact };
        eof = s.medium.intact;
        fail = s.medium.intact;
        bad = not s.medium.intact;
      },
    )
    else (
      take n s.medium.bytes,
      record s { medium = record { bytes = drop n s.medium.bytes; intact = s.medium.intact } },
    )

module _ (sha : Sha512) where
  -- `while (!apex.eof())`, on fuel; `none` where it has not ended.
  unfoldable pub hash_loop : ℕ → ℕ → Stream → sha.Context → Option (Result sha.Context)
  unfolding read
  hash_loop zero size s ctx = none
  hash_loop (suc fuel) size s ctx =
      let (buf, s') = read size s in
      let rest = hash_loop fuel size s' (sha.update ctx buf) in
      if s.eof then some (ok ctx) else if s'.bad then some (err "Failed to read") else rest

  abbrev pub printed : Result sha.Context → Result String
  printed r = do ctx ← r; ok (bytes_to_hex (sha.final ctx))

  abbrev pub print_hash : Option (Result sha.Context) → Option (Result String)
  print_hash none = none
  print_hash (some r) = some (printed r)

  -- `CalculateSha512` of a file, `none` where that does not open; the buffer has 1024 bytes.
  unfoldable pub calculate_sha512 : ℕ → Option Medium → Option (Result String)
  unfolding hash_loop
  calculate_sha512 fuel file =
      let s = open_stream file in
      if s.bad then some (err "Failed to open") else print_hash (hash_loop fuel 1024 s sha.init)

-- What is outside: the texts of files, `android::base::Split`, and the answer of `CalculateSha512`, whose
-- run on an open file is above, for the file of a path.
pub record ShimCalls : Type 0 where
  pub read_file_to_string : String → Option String
  pub split : String → String → List String
  pub sha512_of : String → Result String

-- `GetAllowedHashes` of the text of the file
abbrev pub allowed_with : ShimCalls → String → Option String → Result (List String)
allowed_with calls system_shim none = err "Failed to read"
allowed_with calls system_shim (some hash) = do
  system_shim_hash ← calls.sha512_of system_shim
  ok (calls.split hash "\n" ++ system_shim_hash ∷ [])

unfoldable pub get_allowed_hashes : ShimCalls → String → String → Result (List String)
get_allowed_hashes calls system_shim path =
    allowed_with calls system_shim (calls.read_file_to_string path)

unfoldable pub validate_update : ShimCalls → String → String → String → Result (Unit {0})
unfolding get_allowed_hashes
validate_update calls system_shim hash_file new_apex_path = do
  allowed ← get_allowed_hashes calls system_shim hash_file
  actual ← calls.sha512_of new_apex_path
  if any (λ h. h == actual) allowed then ok tt else err "has unexpected SHA512 hash"

abbrev pub k_apex_cts_shim_package : String
k_apex_cts_shim_package = "com.android.apex.cts.shim"

unfoldable pub is_shim_apex : ApexFile → Bool
is_shim_apex apex = name_of apex == k_apex_cts_shim_package

abbrev pub k_expected_cts_shim_files : List String
k_expected_cts_shim_files =
    "apex_manifest.json" ∷ "apex_manifest.pb" ∷ "etc/hash.txt" ∷ "app/CtsShim/CtsShim.apk"
    ∷ "app/CtsShimTargetPSdk/CtsShimTargetPSdk.apk" ∷ "priv-app/CtsShimPriv/CtsShimPriv.apk" ∷ []

-- The kinds of an entry as `directory_entry::status` gives them
pub data EntryKind : Type 0 where
  symlink : EntryKind
  regular : EntryKind
  directory : EntryKind
  unknown : EntryKind

-- An entry below the mount point, and whether the step to the next one succeeds.
pub record ShimEntry : Type 0 where
  pub local_path : String
  pub kind : EntryKind
  pub executable : Bool  -- any of kForbiddenFilePermissions
  pub increment_ok : Bool

-- One entry, with the expected files that are still to be found.
unfoldable pub validate_entry : ShimEntry → EntryKind → List String → Result (List String)
validate_entry e symlink expected = err "Shim apex is not allowed to contain symbolic links"
validate_entry e regular expected =
    if e.executable
    then err "has illegal permissions"
    else if any (λ f. f == e.local_path) expected
    then ok (keep (λ f. not (f == e.local_path)) expected)
    else err "is an unexpected file inside the shim apex"
validate_entry e directory expected = ok expected
validate_entry e unknown expected = err "Unexpected file entry in shim apex"

unfoldable pub validate_entries : List ShimEntry → List String → Result (Unit {0})
unfolding validate_entry
validate_entries [] expected = ok tt
validate_entries (e ∷ entries) expected = do
  expected' ← validate_entry e e.kind expected
  let rest = validate_entries entries expected'
  if e.increment_ok then rest else err "Failed to scan"

-- The entries are `none` where the iterator cannot be made: it is at its end then, nothing is checked.
abbrev pub validate_found : Option (List ShimEntry) → Result (Unit {0})
validate_found none = ok tt
validate_found (some entries) = validate_entries entries k_expected_cts_shim_files

unfoldable pub validate_shim_apex : Option (List ShimEntry) → ApexFile → Result (Unit {0})
unfolding validate_entries
validate_shim_apex entries apex =
    if apex.manifest.pre_install_hook == "" && apex.manifest.post_install_hook == ""
    then validate_found entries
    else err "Shim apex is not allowed to have pre or post install hooks"
