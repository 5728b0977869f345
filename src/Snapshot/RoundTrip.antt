-- ===== src/Snapshot/RoundTrip.antt =====
-- That restoring a snapshot in apexd/apexd.cpp brings back the data that it was taken of.
use Prim.Native.Char.{code}
use text.Mathlib.TextLemmas.{cons-append, append_cancel_left, append_assoc}
use platform_system_apex.Base.{
  ℕ, String, ◌^^◌, Bool, false, Option, none, some, List, [], ◌∷◌, ◌≡◌, ◌≢◌, refl, sym, ap, ◌∙◌,
  ◌==◌, eq_iff, eq_refl, arith, if◌then◌else◌, Bool-cases, inl, inr,
}
use platform_system_apex.Base.Int.{pos}
use platform_system_apex.ApexFile.{to_string}
use platform_system_apex.Base.Result.{Result, ok, err, fatal}
use platform_system_apex.Base.Steps.{Steps, ◌>>◌, next, lift}
use platform_system_apex.Snapshot.{
  FileCalls, look, drop, copied, replace_files, rollback_path, snapshot_path, data_path,
  snapshot_data_directory, try_delete, restore_data_directory,
}

-- The code of the fifth character.
abbrev fifth : String → ℕ
fifth (String.◌∷◌ a (String.◌∷◌ b (String.◌∷◌ c (String.◌∷◌ d (String.◌∷◌ e s))))) = code e
fifth _ = 0

fifth_rollback : (s : String) → fifth ("apexrollback" ^^ s) ≡ 114
fifth_rollback s =
    rw
      (
        cons-append "a" "pexrollback" s,
        cons-append "p" "exrollback" s,
        cons-append "e" "xrollback" s,
        cons-append "x" "rollback" s,
        cons-append "r" "ollback" s,
      )
      refl

fifth_data : (s : String) → fifth ("apexdata" ^^ s) ≡ 100
fifth_data s =
    rw
      (
        cons-append "a" "pexdata" s,
        cons-append "p" "exdata" s,
        cons-append "e" "xdata" s,
        cons-append "x" "data" s,
        cons-append "d" "ata" s,
      )
      refl

-- Snapshots and data have different paths.
pub paths_differ :
    (base name other : String) (id : ℕ) (pre : Bool)
    → snapshot_path base id name pre ≢ data_path base other
paths_differ base name other id pre h =
    let tail = "/" ^^ to_string (pos id) ^^ (if pre then "-prerestore" else "") in
    let rest = "/" ^^ name in
    let moved : base ^^ ("/" ^^ ("apexrollback" ^^ (tail ^^ rest)))
        ≡ snapshot_path base id name pre =
      ap (λ s. base ^^ ("/" ^^ s)) (sym (append_assoc "apexrollback" tail rest))
      ∙ ap (λ s. base ^^ s) (sym (append_assoc "/" ("apexrollback" ^^ tail) rest))
      ∙ sym (append_assoc base ("/" ^^ ("apexrollback" ^^ tail)) rest) in
    let names : "apexrollback" ^^ (tail ^^ rest) ≡ "apexdata" ^^ ("/" ^^ other) =
      append_cancel_left "/" _ _ (append_cancel_left base _ _ (moved ∙ h)) in
    let codes : ◌≡◌ {A = ℕ} 114 100 =
      sym (fifth_rollback (tail ^^ rest)) ∙ ap fifth names ∙ fifth_data ("/" ^^ other) in
    ground (arith, codes)

pub unequal : (p q : String) → p ≢ q → (p == q) ≡ false
unequal p q h = elim (Bool-cases (p == q)) [ inl t ↦ absurd (h ((eq_iff p q).0 t)) | inr f ↦ f ]

not_ok : (e : String) → ◌≢◌ {A = Result (Unit {0})} (ok tt) (err e)
not_ok e h = ground (arith, h)

module _ {T : Type 0} where
  pub look-drop :
      (p q : String) (dirs : List (String × T))
      → (p == q) ≡ false
      → look q (drop p dirs) ≡ look q dirs
  look-drop p q [] h = refl
  look-drop p q ((r, c) ∷ dirs) h =
      ground (arith, h, look-drop p q dirs, eq_iff r p, eq_iff r q, eq_iff p q)

  copied-ok :
      (calls : FileCalls) (from to : String) (o : Option T) (dirs dirs' : List (String × T))
      → copied calls from to o dirs ≡ (ok tt, dirs')
      → (c : T) × (o ≡ some c) × (look to dirs' ≡ some c)
  copied-ok calls from to none dirs dirs' h = absurd (not_ok _ (sym (ap (λ k. k.0) h)))
  copied-ok calls from to (some c) dirs dirs' h = elim (Bool-cases (calls.can_copy from to)) [
    | inr f ↦ absurd (not_ok _ (sym (ap (λ k. k.0) (simp f at h))))
    | inl t ↦
        let q : (to, c) ∷ dirs ≡ dirs' = ap (λ k. k.1) (simp t at h) in
        (c, refl, ap (look to) (sym q) ∙ rw (eq_refl to) refl)
  ]

  -- A replacement that succeeds has copied what was there.
  replace_files-copies :
      (calls : FileCalls) (from to : String) (dirs dirs' : List (String × T))
      → (to == from) ≡ false
      → replace_files calls from to dirs ≡ (ok tt, dirs')
      → (c : T) × (look from dirs ≡ some c) × (look to dirs' ≡ some c)
  unfolding replace_files
  replace_files-copies calls from to dirs dirs' differ h = elim (Bool-cases (calls.can_remove to)) [
    | inr f ↦ absurd (not_ok _ (sym (ap (λ k. k.0) (simp f at h))))
    | inl t ↦
        let (c, found, copy) =
          copied-ok calls from to (look from (drop to dirs)) (drop to dirs) dirs' (simp t at h) in
        (c, sym (look-drop to from dirs differ) ∙ found, copy)
  ]

  -- The parts of a restore that succeeds.
  restored :
      (calls : FileCalls) (to : String) (after : Steps (List (String × T)) (Unit {0}))
      (r : Result (Unit {0}) × List (String × T)) (dirs' : List (String × T))
      → next (λ u. after) r ≡ (ok tt, dirs')
      → (dirs : List (String × T)) × (r ≡ (ok tt, dirs)) × (after dirs ≡ (ok tt, dirs'))
  restored calls to after (ok tt, dirs) dirs' h = (dirs, refl, h)
  restored calls to after (err e, dirs) dirs' h = absurd (not_ok e (sym (ap (λ k. k.0) h)))
  restored calls to after (fatal e, dirs) dirs' h = absurd (ground (arith, ap (λ k. k.0) h))

  look-after :
      (calls : FileCalls) (path to : String) (r : Result (Unit {0}))
      (dirs dirs' : List (String × T))
      → (path == to) ≡ false
      → next (λ u. try_delete calls path) (r, dirs) ≡ (ok tt, dirs')
      → look to dirs' ≡ look to dirs
  look-after calls path to (err e) dirs dirs' differ h = absurd (not_ok e (sym (ap (λ k. k.0) h)))
  look-after calls path to (fatal e) dirs dirs' differ h = absurd (ground (arith, ap (λ k. k.0) h))
  look-after calls path to (ok u) dirs dirs' differ h = elim (Bool-cases (calls.can_remove path)) [
    | inl t ↦
        let q : drop path dirs ≡ dirs' = ap (λ k. k.1) (simp t at h) in
        ap (look to) (sym q) ∙ look-drop path to dirs differ
    | inr f ↦ let q : dirs ≡ dirs' = ap (λ k. k.1) (simp f at h) in ap (look to) (sym q)
  ]

  snapshot_replaced :
      (calls : FileCalls) (base name : String) (id : ℕ) (pre : Bool)
      (before taken : List (String × T))
      → snapshot_data_directory calls base id name pre before ≡ (ok tt, taken)
      → replace_files calls (data_path base name) (snapshot_path base id name pre) before
        ≡ (ok tt, taken)
  unfolding snapshot_data_directory
  snapshot_replaced calls base name id pre before taken h =
      elim (Bool-cases (calls.can_create_dir (rollback_path base id pre))) [
        | inl t ↦ simp t at h
        | inr f ↦ absurd (not_ok _ (sym (ap (λ k. k.0) (simp f at h))))
      ]

  -- If `SnapshotDataDirectory` succeeds, and later `RestoreDataDirectory` for the same directory, rollback and
  -- package, then the package's data are again what they were when the snapshot was taken, whatever has
  -- happened to them, as long as the snapshot has not changed in between.
  pub restore_data_directory-snapshot_data_directory :
      (calls : FileCalls) (base name : String) (id : ℕ) (pre : Bool)
      (before taken changed after : List (String × T))
      → snapshot_data_directory calls base id name pre before ≡ (ok tt, taken)
      → look (snapshot_path base id name pre) changed ≡ look (snapshot_path base id name pre) taken
      → restore_data_directory calls base id name pre changed ≡ (ok tt, after)
      → look (data_path base name) after ≡ look (data_path base name) before
  unfolding snapshot_data_directory restore_data_directory
  restore_data_directory-snapshot_data_directory calls base name id pre before taken changed after h
        same k =
      let from = snapshot_path base id name pre in
      let to = data_path base name in
      let differ : (from == to) ≡ false = unequal from to (paths_differ base name name id pre) in
      let differ' : (to == from) ≡ false =
        unequal to from (λ e. paths_differ base name name id pre (sym e)) in
      let (c, found, saved) =
        replace_files-copies calls to from before taken differ
          (snapshot_replaced calls base name id pre before taken h) in
      let (middle, copy, rest) =
        restored calls to (lift (calls.restorecon_path to) >> try_delete calls from)
          (replace_files calls from to changed) after k in
      let (c', found', back) = replace_files-copies calls from to changed middle differ' copy in
      look-after calls from to (calls.restorecon_path to) middle after differ rest
      ∙ back
      ∙ sym found'
      ∙ same
      ∙ saved
      ∙ sym found
