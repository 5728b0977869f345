-- ===== src/Verity/Digest.antt =====
-- The digest of the hash tree that `PrepareHashTree` leaves on disk.
use mathlib.Core.Path.{subst}
use platform_system_apex.Base.{
  ℕ, zero, suc, ◌/◌, ◌≤◌, Bool, true, false, not, String, Option, none, some, List, [], ◌∷◌, ◌≡◌,
  refl, sym, ap, ◌∙◌, arith, eqb, eqb_iff, length, All, ◌==◌, eq_iff,
}
use platform_system_apex.Base.Result.{Result, ok, err, fatal, check, >>=-eq-ok, ok_injective}
use platform_system_apex.Verity.{
  bytes_to_hex, hex_to_bin, resize, resize_text, text_size, same_bytes, front, HashTreeLibrary,
  ApexVerityData, VerityCalls, PrepareHashTreeResult, or_error, require_ok, builder_for,
  read_blocks, build_tree, write_tree, generate_hash_tree, calculate_root_digest, should_regenerate,
  regenerated, reuse_or_generate, prepare_hash_tree,
}
use platform_system_apex.Verity.Hex.{IsByte, hex_to_bin-bytes_to_hex, resize_text-bytes_to_hex}

same_bytes-eq : (xs ys : List ℕ) → same_bytes xs ys ≡ true → xs ≡ ys
same_bytes-eq [] [] h = refl
same_bytes-eq [] (y ∷ ys) h = cc
same_bytes-eq (x ∷ xs) [] h = cc
same_bytes-eq (x ∷ xs) (y ∷ ys) h = ground (arith, eqb_iff x y, same_bytes-eq xs ys)

or_error-eq-ok {ℓ} :
    {A : Type ℓ} (message : String) (o : Option A) {a : A} → or_error message o ≡ ok a → o ≡ some a
or_error-eq-ok message none h = cc
or_error-eq-ok message (some b) h = ap some (ok_injective h)

require_ok-eq-ok :
    (b : Bool) (message : String) {u : Unit {0}} → require_ok b message ≡ ok u → b ≡ true
require_ok-eq-ok true message h = refl
require_ok-eq-ok false message h = cc

digest_text :
    (s : String) (golden bytes : List ℕ)
    → s ≡ bytes_to_hex golden
    → All IsByte golden
    → length golden ≤ length bytes
    → resize (length (hex_to_bin s)) bytes ≡ hex_to_bin s
    → resize_text (text_size s) (bytes_to_hex bytes) ≡ s
digest_text s golden bytes is valid long same =
    let back : hex_to_bin s ≡ golden = ap hex_to_bin is ∙ hex_to_bin-bytes_to_hex golden valid in
    ap (λ t. resize_text (text_size t) (bytes_to_hex bytes)) is
    ∙ resize_text-bytes_to_hex golden bytes long
    ∙ ap bytes_to_hex (sym (ap (λ t. resize (length t) bytes) back) ∙ same ∙ back)
    ∙ sym is

regenerated-eq-ok :
    (g : Result (Unit {0}) × Option (List ℕ)) {r : PrepareHashTreeResult} {file : Option (List ℕ)}
    → regenerated g ≡ (ok r, file)
    → g ≡ (ok tt, file)
regenerated-eq-ok (ok u, f) h = ground (arith, h)
regenerated-eq-ok (err e, f) h = ground (arith, h)
regenerated-eq-ok (fatal e, f) h = ground (arith, h)

-- A builder after any number of updates
pub data Updated (lib : HashTreeLibrary) : lib.Builder → lib.Builder → Type 0 where
  unchanged : {b : lib.Builder} → Updated lib b b
  updated :
      {b c d : lib.Builder} (block : List ℕ)
      → lib.update b block ≡ some c
      → Updated lib c d
      → Updated lib b d

-- What libverity documents: texts in hexadecimal, a root hash padded to no less than its digest, and a
-- tree with its top block first, whose digest is the root hash.
pub record IsHashTreeLibrary (lib : HashTreeLibrary) (v : ApexVerityData) (golden : List ℕ)
    : Type 0 where
  pub prints_hex : (bytes : List ℕ) → lib.bytes_array_to_string bytes ≡ bytes_to_hex bytes
  pub padded :
      (b c : lib.Builder)
      → lib.build_hash_tree b ≡ some c
      → length golden ≤ length (lib.root_hash c)
  pub top_first :
      (b c d : lib.Builder)
      → builder_for lib v ≡ ok b
      → Updated lib b c
      → lib.build_hash_tree c ≡ some d
      → (top : List ℕ) × (front v.hash_block_size (lib.tree d) ≡ some top)
        × (lib.calculate_root_digest b top ≡ some (lib.root_hash d))

module _ (lib : HashTreeLibrary) (calls : VerityCalls) where
  read_blocks-Updated :
      (n : ℕ) (b : lib.Builder) {c : lib.Builder}
      → read_blocks lib calls n b ≡ ok c
      → Updated lib b c
  unfolding read_blocks
  read_blocks-Updated zero b h = subst (λ c. Updated lib b c) (ok_injective h) unchanged
  read_blocks-Updated (suc n) b h =
      let (buf, read, h1) = >>=-eq-ok (or_error _ (calls.read_block n)) _ h in
      let (b', fed, h2) = >>=-eq-ok (or_error _ (lib.update b buf)) _ h1 in
      updated buf (or_error-eq-ok _ _ fed) (read_blocks-Updated n b' h2)

  abbrev Built : ApexVerityData → List ℕ → Type 0
  Built v tree =
      (b : lib.Builder) × (c : lib.Builder) × (d : lib.Builder) × (builder_for lib v ≡ ok b)
      × Updated lib b c
      × (lib.build_hash_tree c ≡ some d)
      × (resize (length (hex_to_bin v.root_digest)) (lib.root_hash d) ≡ hex_to_bin v.root_digest)
      × (tree ≡ lib.tree d)

  build_tree-Built :
      (v : ApexVerityData) {tree : List ℕ} → build_tree lib calls v ≡ ok tree → Built v tree
  unfolding build_tree
  build_tree-Built v h =
      let (u1, g1, h1) = >>=-eq-ok (require_ok calls.can_open_apex _) _ h in
      let (b, made, h2) = >>=-eq-ok (builder_for lib v) _ h1 in
      let (u2, g2, h3) = >>=-eq-ok (require_ok calls.has_image_offset _) _ h2 in
      let (u3, g3, h4) = >>=-eq-ok (require_ok calls.can_seek _) _ h3 in
      let (u4, g4, h5) = >>=-eq-ok (check (not (eqb v.hash_block_size 0)) _) _ h4 in
      let (c, read, h6) =
        >>=-eq-ok (read_blocks lib calls (v.verified_size / v.hash_block_size) b) _ h5 in
      let (d, built, h7) = >>=-eq-ok (or_error _ (lib.build_hash_tree c)) _ h6 in
      let (u5, g5, h8) = >>=-eq-ok (require_ok _ _) _ h7 in
      (
        b,
        c,
        d,
        made,
        read_blocks-Updated _ b read,
        or_error-eq-ok _ _ built,
        same_bytes-eq _ _ (require_ok-eq-ok _ _ g5),
        sym (ok_injective h8),
      )

  module _ (v : ApexVerityData) (golden : List ℕ) (laws : IsHashTreeLibrary lib v golden)
      (valid : All IsByte golden) (is : v.root_digest ≡ bytes_to_hex golden)
      (can : calls.can_open_tree ≡ true) where
    Built-digest :
        (tree : List ℕ) → Built v tree → calculate_root_digest lib calls v tree ≡ ok v.root_digest
    unfolding calculate_root_digest
    Built-digest tree (b, c, d, made, ups, built, same, is_tree) =
        let (top, is_front, digest) = laws.top_first b c d made ups built in
        simp (can, is_tree, is_front, made, digest, laws.prints_hex)
          (ap ok (
            digest_text v.root_digest golden (lib.root_hash d) is valid (laws.padded c d built)
              same))

    abbrev Verified : Option (List ℕ) → Type 0
    Verified file =
        (bytes : List ℕ) × (file ≡ some bytes)
        × (calculate_root_digest lib calls v bytes ≡ ok v.root_digest)

    write_tree-Verified :
        (file : Option (List ℕ)) (plan : Result (List ℕ)) {u : Unit {0}} {file' : Option (List ℕ)}
        → build_tree lib calls v ≡ plan
        → write_tree calls file plan ≡ (ok u, file')
        → Verified file'
    write_tree-Verified file (ok tree) p h =
        (tree, ground (arith, h), Built-digest tree (build_tree-Built v p))
    write_tree-Verified file (err e) p h = cc
    write_tree-Verified file (fatal e) p h = cc

    should_regenerate-Verified :
        (file : Option (List ℕ)) → should_regenerate lib calls v file ≡ ok false → Verified file
    unfolding should_regenerate
    should_regenerate-Verified none h = ground (arith, h)
    should_regenerate-Verified (some bytes) h =
        let (digest, calculated, h1) = >>=-eq-ok (calculate_root_digest lib calls v bytes) _ h in
        let found = eq_iff digest v.root_digest in
        let is_same : (digest == v.root_digest) ≡ true = ground (arith, h1) in
        (bytes, refl, calculated ∙ ap ok (found.0 is_same))

    planned_Verified :
        (file : Option (List ℕ)) (plan : Result Bool) {r : PrepareHashTreeResult}
        {file' : Option (List ℕ)}
        → (plan ≡ ok false → should_regenerate lib calls v file ≡ ok false)
        → reuse_or_generate lib calls v file plan ≡ (ok r, file')
        → Verified file'
    unfolding generate_hash_tree
    planned_Verified file (ok true) keeps h =
        write_tree-Verified file (build_tree lib calls v) refl
          (regenerated-eq-ok (generate_hash_tree lib calls v file) h)
    planned_Verified file (ok false) keeps h =
        subst Verified (ap (λ p. p.1) h) (should_regenerate-Verified file (keeps refl))
    planned_Verified file (err e) keeps h = cc
    planned_Verified file (fatal e) keeps h = cc

    -- Where `PrepareHashTree` succeeds, the hash tree file is there, and its digest as
    -- `CalculateRootDigest` finds it is the one that was verified with the APEX.
    pub prepare_hash_tree-Verified :
        (is_compressed : Bool) (file : Option (List ℕ)) {r : PrepareHashTreeResult}
        {file' : Option (List ℕ)}
        → prepare_hash_tree lib calls is_compressed v file ≡ (ok r, file')
        → (bytes : List ℕ) × (file' ≡ some bytes)
          × (calculate_root_digest lib calls v bytes ≡ ok v.root_digest)
    unfolding prepare_hash_tree
    prepare_hash_tree-Verified is_compressed file h =
        planned_Verified file _
          (λ e.
            let (u, g, h1) = >>=-eq-ok (require_ok (not is_compressed) _) _ e in
            let (u2, g2, h2) = >>=-eq-ok calls.create_dir _ h1 in
            let (u3, g3, h3) = >>=-eq-ok (require_ok calls.can_stat _) _ h2 in h3)
          h
