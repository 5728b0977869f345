-- ===== src/Tests/Shims.antt =====
-- A shim APEX, its update, and a toy hash: the bytes themselves.
use platform_system_apex.Base.{
  ℕ, true, false, String, none, some, List, [], ◌∷◌, ◌++◌, ◌≡◌, refl, arith, ap, ◌⊎◌, ◌↔◌, Member,
}
use platform_system_apex.Base.Int.{pos}
use platform_system_apex.Base.Result.{ok}
use platform_system_apex.Verity.{bytes_to_hex}
use platform_system_apex.Shim.{
  Sha512, Medium, ShimCalls, ShimEntry, EntryKind, calculate_sha512, validate_update,
  validate_shim_apex, k_expected_cts_shim_files,
}
use platform_system_apex.Shim.Hash.{IsIncremental, calculate_sha512-open, calculate_sha512-missing}
use platform_system_apex.Shim.Update.{validate_update-exactly}
use platform_system_apex.Shim.Content.{AllowedAs, validate_shim_apex-allowed}
use platform_system_apex.Tests.{apex}

abbrev sha : Sha512
sha = record { Context = List ℕ; init = []; update = λ c bytes. c ++ bytes; final = λ c. c }

append_assoc' : (xs ys zs : List ℕ) → (xs ++ ys) ++ zs ≡ xs ++ (ys ++ zs)
append_assoc' [] ys zs = refl
append_assoc' (x ∷ xs) ys zs = ap (λ rest. x ∷ rest) (append_assoc' xs ys zs)

incremental : IsIncremental sha
incremental = record { update_append = λ c xs ys. append_assoc' c xs ys }

abbrev shim_bytes : Medium
shim_bytes = record { bytes = 1 ∷ 2 ∷ 171 ∷ []; intact = true }

calculate_sha512-open_example :
    calculate_sha512 sha 6 (some shim_bytes) ≡ some (ok (bytes_to_hex (1 ∷ 2 ∷ 171 ∷ [])))
calculate_sha512-open_example = calculate_sha512-open sha incremental 6 shim_bytes (omega arith)

calculate_sha512-missing_example : calculate_sha512 sha 100 none ≡ none
calculate_sha512-missing_example = calculate_sha512-missing sha 100

abbrev calls : ShimCalls
calls = record {
  read_file_to_string = λ path. some "aa\nbb";
  split = λ text by. "aa" ∷ "bb" ∷ [];
  sha512_of = λ path. ok "bb";
}

validate_update-exactly_example :
    (validate_update calls "/system/apex/com.android.apex.cts.shim.apex" "etc/hash.txt" "new.apex"
      ≡ ok tt)
    ↔ (Member {A = String} "bb" ("aa" ∷ "bb" ∷ []) ⊎ (◌≡◌ {A = String} "bb" "bb"))
validate_update-exactly_example =
    validate_update-exactly calls "/system/apex/com.android.apex.cts.shim.apex" "etc/hash.txt"
      "new.apex" "aa\nbb" "bb" "bb" refl refl refl

abbrev entries : List ShimEntry
entries =
    record {
      local_path = "etc";
      kind = EntryKind.directory;
      executable = true;
      increment_ok = true;
    }
    ∷ record {
      local_path = "etc/hash.txt";
      kind = EntryKind.regular;
      executable = false;
      increment_ok = true;
    }
    ∷ []

validate_shim_apex-allowed_example :
    (Path String "" "")
    × (Path String "" "")
    × ((e : ShimEntry) → Member e entries → AllowedAs k_expected_cts_shim_files e e.kind)
unfolding validate_shim_apex
validate_shim_apex-allowed_example =
    validate_shim_apex-allowed entries (apex "shim.apex" "shim" (pos 1)) refl
