-- ===== src/Service/Space/Reserved.antt =====
-- Which files there are after the reservation of space.
use platform_system_apex.Base.{
  ℕ, zero, suc, String, true, false, ◌&&◌, Option, none, some, List, [], ◌∷◌, keep, any, ◌≡◌, refl,
  sym, ap, ◌∙◌, arith, ◌==◌, eq_iff, Bool-cases, inl, inr, if◌then◌else◌, branch_true, branch_false,
  none_or, eqb,
}
use platform_system_apex.Base.Int.{pos}
use platform_system_apex.Base.Result.{Result, ok, err}
use platform_system_apex.Snapshot.{look, drop}
use platform_system_apex.Service.Space.{
  SpaceCalls, SizeMap, paths_of, unlink_if, remove_ota, with_empty, created_file, reserve_file,
  full_tmp, reserve_size, reserve_space,
}

look-drop_any :
    (gone path : String) (files : SizeMap)
    → look path (drop gone files) ≡ (if gone == path then none else look path files)
look-drop_any gone path [] = ground arith
look-drop_any gone path ((p, c) ∷ files) =
    ground (arith, look-drop_any gone path files, eq_iff p gone, eq_iff p path, eq_iff gone path)

look_absent :
    (path : String) (files : SizeMap)
    → any (λ p. p == path) (paths_of files) ≡ false
    → look path files ≡ none
look_absent path [] h = refl
look_absent path ((p, c) ∷ files) h = ground (arith, look_absent path files)

look-created_file :
    (full path : String) (files : SizeMap)
    → (full == path) ≡ false
    → look path (created_file full files) ≡ look path files
look-created_file full path files differ = at_file (look full files)
  where
    at_file : (found : Option ℕ) → look path (with_empty full files found) ≡ look path files
    at_file none = rw differ refl
    at_file (some size) = refl

refused :
    {message : String} {files after : SizeMap}
    → Path (Result (Unit {0}) × SizeMap) (err message, files) (ok tt, after)
    → ⊥
refused h = ground (arith, h)

module _ (calls : SpaceCalls) (may : (p : String) → calls.can_unlink p ≡ true) where
  look-remove_ota :
      (paths : List String) (path : String) (files : SizeMap)
      → look path (remove_ota calls paths files)
        ≡ (if any (λ p. p == path) paths then none else look path files)
  unfolding remove_ota
  look-remove_ota [] path files = refl
  look-remove_ota (p ∷ paths) path files =
      look-remove_ota paths path (unlink_if calls p files)
      ∙ rw (may p, look-drop_any p path files)
          (none_or (p == path) (any (λ x. x == path) paths) (look path files))

  any-keep_ota :
      (path : String) (paths : List String)
      → any (λ p. p == path) (keep calls.is_ota_apex paths)
        ≡ (calls.is_ota_apex path && any (λ p. p == path) paths)
  any-keep_ota path [] = ground arith
  any-keep_ota path (p ∷ paths) =
      let same = λ (e : p ≡ path). ap calls.is_ota_apex e in
      ground (arith, any-keep_ota path paths, eq_iff p path, same)

  without_ota :
      (path : String) (files : SizeMap)
      → (if any (λ p. p == path) (keep calls.is_ota_apex (paths_of files))
          then none
          else look path files)
        ≡ (if calls.is_ota_apex path then none else look path files)
  without_ota path files = elim (Bool-cases (any (λ p. p == path) (paths_of files))) [
    | inl there ↦ rw (any-keep_ota path (paths_of files), there) (ground arith)
    | inr absent ↦
        rw (any-keep_ota path (paths_of files), absent, look_absent path files absent)
          (ground arith)
  ]

  reserve_size-exactly :
      (size : ℕ) (full path : String) (files after : SizeMap)
      → reserve_size calls size full files ≡ (ok tt, after)
      → look path after
        ≡ (if full == path then (if eqb size 0 then none else some size) else look path files)
  unfolding reserve_file
  reserve_size-exactly zero full path files after h =
      ap (λ p. look path p.1) (sym h) ∙ rw (may full) (look-drop_any full path files)
  reserve_size-exactly (suc n) full path files after h =
      let made = created_file full files in
      let done : after ≡ (full, suc n) ∷ drop full made = ground (arith, h) in
      elim (Bool-cases (full == path)) [
        | inl same ↦ rw (done, same) (ground arith)
        | inr other ↦
            ap (look path) done
            ∙ branch_false _ _ other
            ∙ look-drop_any full path made
            ∙ branch_false _ _ other
            ∙ look-created_file full path files other
            ∙ sym (branch_false _ _ other)
      ]

  -- Where files can be removed and the space is not itself a file of an earlier OTA: when
  -- `ReserveSpaceForCompressedApex` succeeds, the reserved file has exactly the size asked for, or is
  -- gone for a size of 0; the files of earlier OTAs are gone, and all other files are as before.
  pub reserve_space-exactly :
      (size : ℕ) (dest_dir path : String) (files after : SizeMap)
      → calls.is_ota_apex (full_tmp dest_dir) ≡ false
      → reserve_space calls (pos size) dest_dir files ≡ (ok tt, after)
      → look path after ≡ (
          if full_tmp dest_dir == path
          then (if eqb size 0 then none else some size)
          else if calls.is_ota_apex path
          then none
          else look path files)
  unfolding reserve_space
  reserve_space-exactly size dest_dir path files after not_ota h =
      elim (Bool-cases calls.can_scan) [
        | inl can ↦
            let ota = keep calls.is_ota_apex (paths_of files) in
            let kept = look-remove_ota ota path files ∙ without_ota path files in
            reserve_size-exactly size (full_tmp dest_dir) path (remove_ota calls ota files) after
              (sym (branch_true _ _ can) ∙ h)
            ∙ ap
                (λ rest.
                  if full_tmp dest_dir == path
                  then (if eqb size 0 then none else some size)
                  else rest)
                kept
        | inr cannot ↦ absurd (refused (sym (branch_false _ _ cannot) ∙ h))
      ]
