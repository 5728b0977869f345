-- ===== src/Tests/HashTrees.antt =====
-- A hash tree that is built for an APEX of one block, whose digest is the block itself.
use platform_system_apex.Base.{
  ℕ, true, false, Option, none, some, List, [], ◌∷◌, ◌++◌, ◌≡◌, refl, arith, length,
}
use platform_system_apex.Base.Result.{ok}
use platform_system_apex.Verity.{
  HashTreeLibrary, ApexVerityData, VerityCalls, regenerate, resize, front, bytes_to_hex, hex_to_bin,
  prepare_hash_tree, calculate_root_digest,
}
use platform_system_apex.Verity.Digest.{IsHashTreeLibrary, prepare_hash_tree-Verified}

abbrev lib : HashTreeLibrary
lib = record {
  Builder = List ℕ;
  new = λ algorithm size. some [];
  initialize = λ b size salt. some b;
  update = λ b block. some (b ++ block);
  build_hash_tree = λ b. some b;
  root_hash = λ b. resize 2 b;
  tree = λ b. resize 2 b;
  calculate_root_digest = λ b top. some top;
  bytes_array_to_string = bytes_to_hex;
}

abbrev data_of_apex : ApexVerityData
data_of_apex = record {
  hash_block_size = 2;
  verified_size = 2;
  hash_algorithm = "sha256";
  salt = "";
  root_digest = "ab05";
}

abbrev calls : VerityCalls
calls = record {
  can_open_apex = true;
  has_image_offset = true;
  can_seek = true;
  read_block = λ n. some (171 ∷ 5 ∷ []);
  create_dir = ok tt;
  can_stat = true;
  can_open_tree = true;
  can_create_tree = true;
  can_write = true;
  partial = λ bytes. [];
}

front_two : (b : List ℕ) → front 2 (resize 2 b) ≡ some (resize 2 b)
front_two [] = refl
front_two (x ∷ []) = refl
front_two (x ∷ (y ∷ ys)) = refl

two : (b : List ℕ) → length (resize 2 b) ≡ 2
two [] = refl
two (x ∷ []) = refl
two (x ∷ (y ∷ ys)) = refl

laws : IsHashTreeLibrary lib data_of_apex (171 ∷ 5 ∷ [])
laws = record {
  prints_hex = λ bytes. refl;
  padded = λ b c h. omega (arith, two c);
  top_first = λ b c d made ups built. (resize 2 d, front_two d, refl);
}

prepare_hash_tree-Verified_example :
    (bytes : List ℕ) × (Path (Option (List ℕ)) (some (171 ∷ 5 ∷ [])) (some bytes))
    × (calculate_root_digest lib calls data_of_apex bytes ≡ ok "ab05")
unfolding prepare_hash_tree bytes_to_hex hex_to_bin
prepare_hash_tree-Verified_example =
    prepare_hash_tree-Verified lib calls data_of_apex (171 ∷ 5 ∷ []) laws (omega arith) refl refl
      false none {r = regenerate} refl
