-- ===== src/Verity.antt =====
-- apexd/apexd_verity.cpp, and `BytesToHex` of apexd/apex_file.cpp: the hash tree of an APEX on disk. The
-- builder of hash trees is the library libverity, a parameter.
pub mod Hex
pub mod Digest
use Prim.Native.Char.{Char, code}
use platform_system_apex.Base.{
  ℕ, zero, suc, ◌+◌, ◌-◌, ◌*◌, ◌/◌, ◌%◌, String, Bool, true, false, ◌&&◌, Option, none, some, List,
  [], ◌∷◌, ◌==◌, not, leb, eqb, length, if◌then◌else◌, push_front,
}
use platform_system_apex.Base.Result.{Result, ok, err, fatal, check, ◌>>=◌, ◌>>◌}

-- The character of `s` at place `n`; past the end, a space.
abbrev pub char_in : String → ℕ → Char
char_in String.[] n = " "
char_in (String.◌∷◌ c s) zero = c
char_in (String.◌∷◌ c s) (suc n) = char_in s n

abbrev pub hex_digit : ℕ → Char
hex_digit n = char_in "0123456789abcdef" n

-- Two digits for each byte, by `setw(2)` and `setfill('0')`.
unfoldable pub bytes_to_hex : List ℕ → String
bytes_to_hex [] = ""
bytes_to_hex (b ∷ bytes) =
    String.◌∷◌ (hex_digit (b / 16)) (String.◌∷◌ (hex_digit (b % 16)) (bytes_to_hex bytes))

-- `HexToBin(char)`, with the wrap-around of its `uint8_t`; the ranges end at the letter H.
unfoldable pub hex_value : Char → ℕ
hex_value h =
    if leb b'A' (code h) && leb (code h) b'H'
    then (code h - b'A' + 10) % 256
    else if leb b'a' (code h) && leb (code h) b'h'
    then (code h - b'a' + 10) % 256
    else (code h + 256 - b'0') % 256

unfoldable pub hex_to_bin : String → List ℕ
unfolding hex_value
hex_to_bin String.[] = []
hex_to_bin (String.◌∷◌ c String.[]) = []
hex_to_bin (String.◌∷◌ c (String.◌∷◌ d s)) = ((hex_value c * 16 + hex_value d) % 256) ∷ hex_to_bin s

-- `resize` of a vector of bytes and of a text: what is cut off, or filled up with zeros.
abbrev pub resize : ℕ → List ℕ → List ℕ
resize zero bytes = []
resize (suc n) [] = 0 ∷ resize n []
resize (suc n) (b ∷ bytes) = b ∷ resize n bytes

abbrev pub resize_text : ℕ → String → String
resize_text zero s = String.[]
resize_text (suc n) String.[] = String.◌∷◌ "\0" (resize_text n String.[])
resize_text (suc n) (String.◌∷◌ c s) = String.◌∷◌ c (resize_text n s)

abbrev pub text_size : String → ℕ
text_size String.[] = 0
text_size (String.◌∷◌ c s) = suc (text_size s)

abbrev pub same_bytes : List ℕ → List ℕ → Bool
same_bytes [] [] = true
same_bytes [] (b ∷ bs) = false
same_bytes (a ∷ as') [] = false
same_bytes (a ∷ as') (b ∷ bs) = eqb a b && same_bytes as' bs

-- `ReadFully` from the start of a file: the first `n` bytes, if there are as many.
abbrev pub front : ℕ → List ℕ → Option (List ℕ)
front zero bytes = some []
front (suc n) [] = none
front (suc n) (b ∷ bytes) = push_front b (front n bytes)

-- `HashTreeBuilder` of libverity: each step gives the next state of the builder, or fails.
pub record HashTreeLibrary : Type 1 where
  pub Builder : Type 0
  pub new : String → ℕ → Option Builder  -- from `HashFunction` of an algorithm, and the block size
  pub initialize : Builder → ℕ → List ℕ → Option Builder
  pub update : Builder → List ℕ → Option Builder
  pub build_hash_tree : Builder → Option Builder
  pub root_hash : Builder → List ℕ
  pub tree : Builder → List ℕ  -- the bytes that `WriteHashTreeToFd` writes
  pub calculate_root_digest : Builder → List ℕ → Option (List ℕ)
  pub bytes_array_to_string : List ℕ → String

-- `ApexVerityData`, with the fields of its descriptor that are used here
pub record ApexVerityData : Type 0 where
  pub hash_block_size : ℕ
  pub verified_size : ℕ  -- desc->image_size
  pub hash_algorithm : String
  pub salt : String
  pub root_digest : String

-- What the system answers for one APEX and its hash tree file.
pub record VerityCalls : Type 0 where
  pub can_open_apex : Bool
  pub has_image_offset : Bool
  pub can_seek : Bool
  pub read_block : ℕ → Option (List ℕ)  -- the block of the image that is as many blocks from its end
  pub create_dir : Result (Unit {0})
  pub can_stat : Bool
  pub can_open_tree : Bool
  pub can_create_tree : Bool
  pub can_write : Bool
  pub partial : List ℕ → List ℕ  -- what a failed write leaves in the file

pub data PrepareHashTreeResult : Type 0 where
  reuse : PrepareHashTreeResult
  regenerate : PrepareHashTreeResult

abbrev pub or_error {ℓ} : {A : Type ℓ} → String → Option A → Result A
or_error message none = err message
or_error message (some a) = ok a

abbrev pub require_ok : Bool → String → Result (Unit {0})
require_ok true message = ok tt
require_ok false message = err message

-- The file is the bytes of the hash tree file, if there is one.
abbrev pub write_tree :
    VerityCalls → Option (List ℕ) → Result (List ℕ) → Result (Unit {0}) × Option (List ℕ)
write_tree calls file (ok tree) =
    if calls.can_create_tree
    then if calls.can_write
      then (ok tt, some tree)
      else (err "Failed to write hashtree", some (calls.partial tree))
    else (err "Failed to write hashtree", file)
write_tree calls file (err e) = (err e, file)
write_tree calls file (fatal e) = (fatal e, file)

abbrev pub regenerated :
    Result (Unit {0}) × Option (List ℕ) → Result PrepareHashTreeResult × Option (List ℕ)
regenerated (ok u, file) = (ok regenerate, file)
regenerated (err e, file) = (err e, file)
regenerated (fatal e, file) = (fatal e, file)

module _ (lib : HashTreeLibrary) where
  abbrev pub builder_for : ApexVerityData → Result lib.Builder
  builder_for v = do
    builder ← or_error "Unsupported hash algorithm" (lib.new v.hash_algorithm v.hash_block_size)
    or_error "Invalid image size" (lib.initialize builder v.verified_size (hex_to_bin v.salt))

  -- `while (block_count-- > 0)`
  unfoldable pub read_blocks : VerityCalls → ℕ → lib.Builder → Result lib.Builder
  read_blocks calls zero builder = ok builder
  read_blocks calls (suc block_count) builder = do
    buf ← or_error "Failed to read" (calls.read_block block_count)
    builder' ← or_error "Failed to build hashtree: Update" (lib.update builder buf)
    read_blocks calls block_count builder'

  -- `GenerateHashTree` up to the check of the digest: what it is about to write.
  unfoldable pub build_tree : VerityCalls → ApexVerityData → Result (List ℕ)
  build_tree calls v = do
    require_ok calls.can_open_apex "Failed to open"
    builder ← builder_for v
    require_ok calls.has_image_offset "Cannot generate HashTree without image offset"
    require_ok calls.can_seek "Failed to seek"
    check (not (eqb v.hash_block_size 0)) "division by zero"
    full ← read_blocks calls (v.verified_size / v.hash_block_size) builder
    built ← or_error "Failed to build hashtree: incomplete data" (lib.build_hash_tree full)
    let golden_digest = hex_to_bin v.root_digest
    require_ok (same_bytes (resize (length golden_digest) (lib.root_hash built)) golden_digest)
        "Failed to build hashtree: root digest mismatch"
    ok (lib.tree built)

  unfoldable pub generate_hash_tree :
      VerityCalls → ApexVerityData → Option (List ℕ) → Result (Unit {0}) × Option (List ℕ)
  unfolding build_tree read_blocks
  generate_hash_tree calls v file = write_tree calls file (build_tree calls v)

  unfoldable pub calculate_root_digest : VerityCalls → ApexVerityData → List ℕ → Result String
  calculate_root_digest calls v file = do
    require_ok calls.can_open_tree "Failed to open"
    root_verity ← or_error "Failed to read" (front v.hash_block_size file)
    builder ← builder_for v
    root_digest ←
        or_error "Failed to calculate digest" (lib.calculate_root_digest builder root_verity)
    ok (resize_text (text_size v.root_digest) (lib.bytes_array_to_string root_digest))

  -- `should_regenerate_hashtree`
  unfoldable pub should_regenerate : VerityCalls → ApexVerityData → Option (List ℕ) → Result Bool
  unfolding calculate_root_digest
  should_regenerate calls v none = ok true
  should_regenerate calls v (some bytes) = do
    digest ← calculate_root_digest calls v bytes
    ok (not (digest == v.root_digest))

  abbrev pub reuse_or_generate :
      VerityCalls
      → ApexVerityData
      → Option (List ℕ)
      → Result Bool
      → Result PrepareHashTreeResult × Option (List ℕ)
  reuse_or_generate calls v file (ok true) = regenerated (generate_hash_tree calls v file)
  reuse_or_generate calls v file (ok false) = (ok reuse, file)
  reuse_or_generate calls v file (err e) = (err e, file)
  reuse_or_generate calls v file (fatal e) = (fatal e, file)

  unfoldable pub prepare_hash_tree :
      VerityCalls
      → Bool
      → ApexVerityData
      → Option (List ℕ)
      → Result PrepareHashTreeResult × Option (List ℕ)
  unfolding should_regenerate generate_hash_tree
  prepare_hash_tree calls is_compressed v file = reuse_or_generate calls v file (do
    require_ok (not is_compressed) "Cannot prepare HashTree of compressed APEX"
    calls.create_dir
    require_ok calls.can_stat "Failed to access"
    should_regenerate calls v file)
