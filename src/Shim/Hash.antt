-- ===== src/Shim/Hash.antt =====
-- When `CalculateSha512` ends, and with which hash.
use platform_system_apex.Base.{
  ℕ, zero, suc, ◌+◌, ◌<◌, ◌≤◌, true, false, none, some, List, [], ◌∷◌, ◌++◌, ◌≡◌, refl, ap, ◌∙◌,
  arith, length, ltb, Bool-cases, inl, inr, if◌then◌else◌,
}
use platform_system_apex.Base.Result.{Result, ok, err}
use platform_system_apex.Verity.{bytes_to_hex}
use platform_system_apex.Shim.{
  Sha512, Medium, Stream, open_stream, take, drop, read, hash_loop, print_hash, calculate_sha512,
}

take-append-drop : (n : ℕ) (xs : List ℕ) → take n xs ++ drop n xs ≡ xs
take-append-drop zero xs = refl
take-append-drop (suc n) [] = refl
take-append-drop (suc n) (x ∷ xs) = ap (λ ys. x ∷ ys) (take-append-drop n xs)

length-drop_le : (n : ℕ) (xs : List ℕ) → length (drop n xs) ≤ length xs
length-drop_le zero xs = omega arith
length-drop_le (suc n) [] = omega arith
length-drop_le (suc n) (x ∷ xs) = omega (arith, length-drop_le n xs)

length-drop_lt : (n : ℕ) (xs : List ℕ) → 0 < n → n ≤ length xs → length (drop n xs) < length xs
length-drop_lt zero xs p h = absurd (omega arith)
length-drop_lt (suc n) [] p h = absurd (omega arith)
length-drop_lt (suc n) (x ∷ xs) p h = omega (arith, length-drop_le n xs)

-- What BoringSSL documents: a text may be hashed in parts.
pub record IsIncremental (sha : Sha512) : Type 0 where
  pub update_append :
      (c : sha.Context) (xs ys : List ℕ) → sha.update (sha.update c xs) ys ≡ sha.update c (xs ++ ys)

-- The stream of a file that is open, not yet read to its end.
abbrev open_at : Medium → Stream
open_at m = open_stream (some m)

module _ (sha : Sha512) where
  abbrev outcome : Medium → sha.Context → Result sha.Context
  outcome m ctx = if m.intact then ok (sha.update ctx m.bytes) else err "Failed to read"

  hash_loop-open :
      IsIncremental sha
      → (fuel size : ℕ) (m : Medium) (ctx : sha.Context) → 0 < size
      → length m.bytes + 1 < fuel
      → hash_loop sha fuel size (open_at m) ctx ≡ some (outcome m ctx)
  unfolding hash_loop read
  hash_loop-open inc zero size m ctx pos enough = absurd (omega arith)
  hash_loop-open inc (suc zero) size m ctx pos enough = absurd (omega arith)
  hash_loop-open inc (suc (suc fuel)) size m ctx pos enough =
      elim (Bool-cases (ltb (length m.bytes) size)) [
        | inl last ↦ elim (Bool-cases m.intact) [
          | inl fine ↦ rw (last, fine) refl
          | inr broken ↦ rw (last, broken) refl
        ]
        | inr more ↦
            let whole =
              inc.update_append ctx (take size m.bytes) (drop size m.bytes)
              ∙ ap (sha.update ctx) (take-append-drop size m.bytes) in
            let shorter = length-drop_lt size m.bytes pos (ground (arith, more)) in
            rw more (
              hash_loop-open inc (suc fuel) size (record m { bytes = drop size m.bytes })
                (sha.update ctx (take size m.bytes)) pos (omega (arith, shorter))
              ∙ ap (λ c. some (if m.intact then ok c else err "Failed to read")) whole)
      ]

  hash_loop-closed :
      (fuel size : ℕ) (s : Stream) (ctx : sha.Context)
      → s.eof ≡ false
      → s.bad ≡ false
      → s.fail ≡ true
      → hash_loop sha fuel size s ctx ≡ none
  unfolding hash_loop read
  hash_loop-closed zero size s ctx eof bad fail = refl
  hash_loop-closed (suc fuel) size s ctx eof bad fail =
      let again =
        hash_loop-closed fuel size (record s { fail = true }) (sha.update ctx []) eof bad refl in
      ground (arith, again)

  -- `CalculateSha512` of a file that opens ends, after no more rounds than the file has bytes and one
  -- more. If the medium is intact, the answer is the hash of the whole file, read in parts as it was.
  pub calculate_sha512-open :
      IsIncremental sha
      → (fuel : ℕ) (m : Medium) → length m.bytes + 1 < fuel
      → calculate_sha512 sha fuel (some m)
        ≡ some (
            if m.intact
            then ok (bytes_to_hex (sha.final (sha.update sha.init m.bytes)))
            else err "Failed to read")
  unfolding calculate_sha512
  calculate_sha512-open inc fuel m enough =
      ap (print_hash sha) (hash_loop-open inc fuel 1024 m sha.init (omega arith) enough)
      ∙ elim (Bool-cases m.intact) [ inl fine ↦ rw fine refl | inr broken ↦ rw broken refl ]

  -- `CalculateSha512` of a file that does not open never ends: the failbit is not what its tests read.
  pub calculate_sha512-missing : (fuel : ℕ) → calculate_sha512 sha fuel none ≡ none
  unfolding calculate_sha512
  calculate_sha512-missing fuel =
      ap (print_hash sha) (hash_loop-closed fuel 1024 (open_stream none) sha.init refl refl refl)
