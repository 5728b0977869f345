-- ===== src/Decompress/Valid.antt =====
-- That `ProcessCompressedApex` of apexd/apexd.cpp returns only files that match the compressed one.
use platform_system_apex.Base.{
  String, Bool, true, false, none, some, ◌≡◌, refl, ap, ◌⊎◌, inl, inr, ◌==◌, eq_iff, arith,
  if◌then◌else◌, Bool-cases,
}
use platform_system_apex.Base.Int.{eqb_ℤ, eq_of_parts}
use platform_system_apex.Base.Result.{Result, ok, err, fatal, Result-cases}
use platform_system_apex.Base.Steps.{next, lift}
use platform_system_apex.ApexFile.{ApexFile, version_of}
use platform_system_apex.Mount.{VerityData}
use platform_system_apex.Machine.{find_file, opened_as}
use platform_system_apex.Install.Minor.{find_file-erased}
use platform_system_apex.Decompress.{
  FileMap, Decompressor, check_digest, validate_decompressed_apex, if_valid, open_and_validate,
  is_file, remove_file_if_exists, decompressed_path, ota_path, Decompressed, or_go_on,
  reuse_decompressed, renamed, rename_if_valid, reuse_ota, decompress, or_remove, decompress_to,
  or_decompress, process_compressed_apex, present,
}

-- The two files have the same key and the same version, and the decompressed one has the root digest
-- that the compressed one names.
pub record Validated (d : Decompressor) (capex apex : ApexFile) : Type 0 where
  pub key : capex.apex_pubkey ≡ apex.apex_pubkey
  pub version : version_of capex ≡ version_of apex
  pub verity : VerityData
  pub verified : d.verify_apex_verity apex apex.apex_pubkey ≡ ok verity
  pub digest : capex.manifest.original_apex_digest ≡ verity.root_digest

check_digest-ok :
    (capex : ApexFile) (r : Result VerityData)
    → check_digest capex r ≡ ok tt
    → (v : VerityData) × (r ≡ ok v) × (capex.manifest.original_apex_digest ≡ v.root_digest)
check_digest-ok capex (ok v) h =
    (v, refl, ground (arith, h, eq_iff capex.manifest.original_apex_digest v.root_digest))
check_digest-ok capex (err e) h = absurd (ground (arith, h))
check_digest-ok capex (fatal e) h = absurd (ground (arith, h))

validate-Validated :
    (d : Decompressor) (capex apex : ApexFile)
    → validate_decompressed_apex d capex apex ≡ ok tt
    → Validated d capex apex
unfolding validate_decompressed_apex
validate-Validated d capex apex h = elim (Bool-cases (capex.apex_pubkey == apex.apex_pubkey)) [
  | inr f ↦ absurd (ground (arith, f, h))
  | inl t ↦ elim (Bool-cases (eqb_ℤ (version_of capex) (version_of apex))) [
    | inr f ↦ absurd (ground (arith, t, f, h))
    | inl v ↦
        let (verity, verified, digest) =
          check_digest-ok capex (d.verify_apex_verity apex apex.apex_pubkey)
            (ground (arith, t, v, h)) in
        record {
          key = (eq_iff capex.apex_pubkey apex.apex_pubkey).0 t;
          version = eq_of_parts (version_of capex) (version_of apex) (ground (arith, v));
          verity = verity;
          verified = verified;
          digest = digest;
        }
  ]
]

if_valid-ok :
    (d : Decompressor) (capex apex : ApexFile) (r : Result ApexFile)
    → if_valid d capex r ≡ ok apex
    → (r ≡ ok apex) × Validated d capex apex
if_valid-ok d capex apex (err e) h = absurd (ground (arith, h))
if_valid-ok d capex apex (fatal e) h = absurd (ground (arith, h))
if_valid-ok d capex apex (ok a) h = elim (Result-cases (validate_decompressed_apex d capex a)) [
  | inl (u, e) ↦
      let q : a ≡ apex = ground (arith, h, e) in
      (ap ok q, rw (← q) (validate-Validated d capex a e))
  | inr (inl (t, e)) ↦ absurd (ground (arith, h, e))
  | inr (inr (t, e)) ↦ absurd (ground (arith, h, e))
]

-- The answer is what `path` holds, and it matches.
pub record Answers (d : Decompressor) (capex : ApexFile) (chroot : Bool) (apex : ApexFile)
    (files : FileMap) : Type 0 where
  pub path : String
  pub place : (path ≡ decompressed_path d capex) ⊎ ((chroot ≡ true) × (path ≡ ota_path d capex))
  pub held : opened_as path (find_file path files) ≡ ok apex
  pub matches : Validated d capex apex

abbrev AttemptOutcome : Decompressor → ApexFile → Bool → Decompressed → Type 0
AttemptOutcome d capex chroot (ok (some apex), files) = Answers d capex chroot apex files
AttemptOutcome d capex chroot (ok none, files) = Unit
AttemptOutcome d capex chroot (err e, files) = ⊥
AttemptOutcome d capex chroot (fatal e, files) = Unit

-- Where the function ends: with an answer, or without a file at the destination.
abbrev pub ProcessOutcome :
    Decompressor → ApexFile → Bool → String → Result ApexFile × FileMap → Type 0
ProcessOutcome d capex chroot dest (ok apex, files) = Answers d capex chroot apex files
ProcessOutcome d capex chroot dest (err e, files) = (is_file (find_file dest files) ≡ false)
ProcessOutcome d capex chroot dest (fatal e, files) = Unit

module _ (d : Decompressor) (capex : ApexFile) (chroot : Bool) where
  validated :
      (path : String) (files : FileMap) (apex : ApexFile)
      → (path ≡ decompressed_path d capex) ⊎ ((chroot ≡ true) × (path ≡ ota_path d capex))
      → open_and_validate d capex path files ≡ ok apex
      → Answers d capex chroot apex files
  unfolding open_and_validate
  validated path files apex place h =
      let (held, valid) = if_valid-ok d capex apex (opened_as path (find_file path files)) h in
      record { path = path; place = place; held = held; matches = valid }

  or_go_on-Outcome :
      (path : String) (files removed : FileMap) (r : Result ApexFile)
      → (path ≡ decompressed_path d capex) ⊎ ((chroot ≡ true) × (path ≡ ota_path d capex))
      → open_and_validate d capex path files ≡ r
      → AttemptOutcome d capex chroot (or_go_on r files removed)
  or_go_on-Outcome path files removed (ok apex) place h = validated path files apex place h
  or_go_on-Outcome path files removed (err e) place h = tt
  or_go_on-Outcome path files removed (fatal e) place h = tt

  reuse_decompressed-Outcome :
      (files : FileMap) → AttemptOutcome d capex chroot (reuse_decompressed d capex chroot files)
  unfolding reuse_decompressed
  reuse_decompressed-Outcome files =
      elim (Bool-cases (present d (decompressed_path d capex) files)) [
        | inl t ↦ simp t (or_go_on-Outcome _ files _ _ (inl refl) refl)
        | inr f ↦ simp f tt
      ]

  renamed-Outcome : (files : FileMap) → AttemptOutcome d capex chroot (renamed d capex files)
  renamed-Outcome files =
      elim (Bool-cases (d.can_rename (ota_path d capex) (decompressed_path d capex))) [
        | inl t ↦ simp t (or_go_on-Outcome (decompressed_path d capex) _ _ _ (inl refl) refl)
        | inr f ↦ simp f tt
      ]

  rename_if_valid-Outcome :
      (r : Result ApexFile) (files : FileMap)
      → AttemptOutcome d capex chroot (rename_if_valid d capex r files)
  rename_if_valid-Outcome (ok apex) files = renamed-Outcome files
  rename_if_valid-Outcome (err e) files = tt
  rename_if_valid-Outcome (fatal e) files = tt

  ota_if :
      (b : Bool) (files : FileMap)
      → chroot ≡ b
      → AttemptOutcome d capex chroot (
          if b
          then or_go_on
              (open_and_validate d capex (ota_path d capex) files)
              files
              (remove_file_if_exists d (ota_path d capex) files)
          else rename_if_valid d capex (open_and_validate d capex (ota_path d capex) files) files)
  ota_if true files e =
      or_go_on-Outcome (ota_path d capex) files _
        (open_and_validate d capex (ota_path d capex) files) (inr (e, refl)) refl
  ota_if false files e = rename_if_valid-Outcome _ files

  reuse_ota-Outcome :
      (files : FileMap) → AttemptOutcome d capex chroot (reuse_ota d capex chroot files)
  unfolding reuse_ota
  reuse_ota-Outcome files = elim (Bool-cases (present d (ota_path d capex) files)) [
    | inr f ↦ simp f tt
    | inl t ↦ simp t (ota_if chroot files refl)
  ]

  module _ (dest : String) (may_unlink : d.can_unlink dest ≡ true)
      (place : (dest ≡ decompressed_path d capex)
        ⊎ ((chroot ≡ true) × (dest ≡ ota_path d capex))) where
    removed-Outcome :
        (e : String) (files : FileMap)
        → ProcessOutcome d capex chroot dest (err e, remove_file_if_exists d dest files)
    removed-Outcome e files = simp may_unlink (ap is_file (find_file-erased dest files))

    checked-Outcome :
        (r : Result ApexFile) (files : FileMap)
        → open_and_validate d capex dest files ≡ r
        → ProcessOutcome d capex chroot dest (or_remove d dest (r, files))
    checked-Outcome (ok apex) files h = validated dest files apex place h
    checked-Outcome (err e) files h = removed-Outcome e files
    checked-Outcome (fatal e) files h = tt

    restored-Outcome :
        (r : Result (Unit {0})) (files : FileMap)
        → ProcessOutcome d capex chroot dest (
            or_remove d dest
              (next (λ u files'. (open_and_validate d capex dest files', files')) (r, files)))
    restored-Outcome (ok u) files = checked-Outcome _ files refl
    restored-Outcome (err e) files = removed-Outcome e files
    restored-Outcome (fatal e) files = tt

    decompressed-Outcome :
        (r : Result (Unit {0}) × FileMap)
        → ProcessOutcome d capex chroot dest (
            or_remove d dest (
              next
                (λ u files. (open_and_validate d capex dest files, files))
                (next (λ u. lift (d.restorecon_path dest)) r)))
    decompressed-Outcome (ok u, files) = restored-Outcome (d.restorecon_path dest) files
    decompressed-Outcome (err e, files) = removed-Outcome e files
    decompressed-Outcome (fatal e, files) = tt

    decompress_to-Outcome :
        (files : FileMap) → ProcessOutcome d capex chroot dest (decompress_to d capex dest files)
    unfolding decompress_to
    decompress_to-Outcome files = decompressed-Outcome (decompress d capex dest files)

    or_decompress-Outcome :
        (go_on : FileMap → Result ApexFile × FileMap) (r : Decompressed)
        → ((files : FileMap) → ProcessOutcome d capex chroot dest (go_on files))
        → AttemptOutcome d capex chroot r
        → ProcessOutcome d capex chroot dest (or_decompress go_on r)
    or_decompress-Outcome go_on (ok (some apex), files) g a = a
    or_decompress-Outcome go_on (ok none, files) g a = g files
    or_decompress-Outcome go_on (err e, files) g a = absurd a
    or_decompress-Outcome go_on (fatal e, files) g a = tt

-- The file that is unpacked.
abbrev pub decompression_dest : Decompressor → ApexFile → Bool → String
decompression_dest d capex is_ota_chroot =
    if is_ota_chroot then ota_path d capex else decompressed_path d capex

dest_place :
    (d : Decompressor) (capex : ApexFile) (b : Bool)
    → (decompression_dest d capex b ≡ decompressed_path d capex)
      ⊎ ((b ≡ true) × (decompression_dest d capex b ≡ ota_path d capex))
dest_place d capex true = inr (refl, refl)
dest_place d capex false = inl refl

-- `ProcessCompressedApex`, where the destination may be unlinked, reused or unpacked: if it succeeds, its
-- answer is what opens at the path of the decompressed file, or, only in the chroot of an update, at the
-- path of the update's file, and it has the key and the version of the compressed file and the root
-- digest that this one names. If it fails, there is no file at the destination.
pub process_compressed_apex-Validated :
    (d : Decompressor) (capex : ApexFile) (is_ota_chroot : Bool) (files : FileMap)
    → d.can_unlink (decompression_dest d capex is_ota_chroot) ≡ true
    → ProcessOutcome d capex is_ota_chroot
        (decompression_dest d capex is_ota_chroot)
        (process_compressed_apex d capex is_ota_chroot files)
unfolding process_compressed_apex
process_compressed_apex-Validated d capex is_ota_chroot files may_unlink =
    let dest = decompression_dest d capex is_ota_chroot in
    let place = dest_place d capex is_ota_chroot in
    or_decompress-Outcome d capex is_ota_chroot dest may_unlink place _ _
      (λ files'.
        or_decompress-Outcome d capex is_ota_chroot dest may_unlink place _ _
          (decompress_to-Outcome d capex is_ota_chroot dest may_unlink place)
          (reuse_ota-Outcome d capex is_ota_chroot files'))
      (reuse_decompressed-Outcome d capex is_ota_chroot files)
