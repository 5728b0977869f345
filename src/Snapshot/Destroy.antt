-- ===== src/Snapshot/Destroy.antt =====
-- Which snapshots are left after a deletion.
use platform_system_apex.Base.{
  ℕ, String, Bool, true, false, not, ◌&&◌, ◌||◌, eqb, Option, none, some, any, List, [], ◌∷◌, ◌≡◌,
  refl, sym, ap, ◌∙◌, ◌^^◌, inl, inr, arith, eq_iff, Bool-cases, if◌then◌else◌, none_or,
}
use platform_system_apex.Base.Int.{ℤ, to_uint32}
use platform_system_apex.Base.Result.{Result, ok, err}
use platform_system_apex.Snapshot.{FileCalls, look}
use platform_system_apex.Snapshot.Users.{
  UserCalls, under, delete_tree, to_be_destroyed, is_doomed, destroy_not_retained,
  destroy_ce_snapshots_not_specified, ce_dir,
}

-- None of the ids, taken as an unsigned number of 32 bits, is the number.
abbrev pub unlisted : List ℤ → ℕ → Bool
unlisted [] number = true
unlisted (id ∷ ids) number = not (eqb (to_uint32 id) number) && unlisted ids number

abbrev pub unlisted_number : List ℤ → Option ℕ → Bool
unlisted_number ids none = false
unlisted_number ids (some number) = unlisted ids number

-- A path is in one of the directories whose name is a number that is not to be retained.
abbrev pub is_destroyed : UserCalls → List ℤ → List String → String → Bool
is_destroyed users retain_rollback_ids [] path = false
is_destroyed users retain_rollback_ids (d ∷ snapshot_dirs) path =
    (unlisted_number retain_rollback_ids (users.parse_uint (users.filename d)) && under d path)
    || is_destroyed users retain_rollback_ids snapshot_dirs path

none_listed :
    (ids : List ℤ) (number : ℕ)
    → not (any (λ i. eqb (to_uint32 i) number) ids) ≡ unlisted ids number
none_listed [] number = refl
none_listed (id ∷ ids) number = ground (arith, none_listed ids number)

doomed : (ids : List ℤ) (name : Option ℕ) → to_be_destroyed ids name ≡ unlisted_number ids name
doomed ids none = refl
doomed ids (some number) = none_listed ids number

is_doomed_lem :
    (users : UserCalls) (ids : List ℤ) (d : String)
    → is_doomed users ids d ≡ unlisted_number ids (users.parse_uint (users.filename d))
is_doomed_lem users ids d = doomed ids (users.parse_uint (users.filename d))

module _ {T : Type 0} where
  failed_step :
      {message : String} {dirs after : List (String × T)}
      → Path (Result (Unit {0}) × List (String × T)) (err message, dirs) (ok tt, after)
      → ⊥
  failed_step h = ground (arith, h)

  look-delete_tree :
      (dir path : String) (dirs : List (String × T))
      → look path (delete_tree dir dirs) ≡ (if under dir path then none else look path dirs)
  unfolding delete_tree
  look-delete_tree dir path [] = ground arith
  look-delete_tree dir path ((p, c) ∷ dirs) =
      ground
        (arith, look-delete_tree dir path dirs, eq_iff p path, λ (e : p ≡ path). ap (under dir) e)

  module _ (calls : FileCalls) (users : UserCalls) (retain_rollback_ids : List ℤ) where
    step_removed :
        (d : String) (snapshot_dirs : List String) (dirs : List (String × T))
        → is_doomed users retain_rollback_ids d ≡ true
        → calls.can_remove d ≡ true
        → destroy_not_retained calls users retain_rollback_ids (d ∷ snapshot_dirs) dirs
          ≡ destroy_not_retained calls users retain_rollback_ids snapshot_dirs (delete_tree d dirs)
    unfolding destroy_not_retained
    step_removed d snapshot_dirs dirs doomed can = simp (doomed, can) refl

    step_failed :
        (d : String) (snapshot_dirs : List String) (dirs : List (String × T))
        → is_doomed users retain_rollback_ids d ≡ true
        → calls.can_remove d ≡ false
        → destroy_not_retained calls users retain_rollback_ids (d ∷ snapshot_dirs) dirs
          ≡ (err "Failed to delete path", dirs)
    unfolding destroy_not_retained
    step_failed d snapshot_dirs dirs doomed cannot = simp (doomed, cannot) refl

    step_kept :
        (d : String) (snapshot_dirs : List String) (dirs : List (String × T))
        → is_doomed users retain_rollback_ids d ≡ false
        → destroy_not_retained calls users retain_rollback_ids (d ∷ snapshot_dirs) dirs
          ≡ destroy_not_retained calls users retain_rollback_ids snapshot_dirs dirs
    unfolding destroy_not_retained
    step_kept d snapshot_dirs dirs kept = simp kept refl

    destroy_not_retained-exactly :
        (snapshot_dirs : List String) (dirs after : List (String × T)) (path : String)
        → destroy_not_retained calls users retain_rollback_ids snapshot_dirs dirs ≡ (ok tt, after)
        → look path after ≡ (
            if is_destroyed users retain_rollback_ids snapshot_dirs path
            then none
            else look path dirs)
    unfolding destroy_not_retained
    destroy_not_retained-exactly [] dirs after path h = ap (λ p. look path p.1) (sym h)
    destroy_not_retained-exactly (d ∷ snapshot_dirs) dirs after path h =
        elim (Bool-cases (is_doomed users retain_rollback_ids d)) [
          | inl doomed ↦ elim (Bool-cases (calls.can_remove d)) [
            | inl can ↦
                let go = sym (is_doomed_lem users retain_rollback_ids d) ∙ doomed in
                let rest =
                  destroy_not_retained-exactly snapshot_dirs (delete_tree d dirs) after path
                    (sym (step_removed d snapshot_dirs dirs doomed can) ∙ h) in
                rest
                ∙ rw (look-delete_tree d path dirs, go)
                    (none_or (under d path)
                      (is_destroyed users retain_rollback_ids snapshot_dirs path) (look path dirs))
            | inr cannot ↦
                absurd (failed_step (sym (step_failed d snapshot_dirs dirs doomed cannot) ∙ h))
          ]
          | inr kept ↦
              let stays = sym (is_doomed_lem users retain_rollback_ids d) ∙ kept in
              let rest =
                destroy_not_retained-exactly snapshot_dirs dirs after path
                  (sym (step_kept d snapshot_dirs dirs kept) ∙ h) in
              rest ∙ rw stays refl
        ]

    -- Where `DestroyCeSnapshotsNotSpecified` succeeds, what is left is exactly what was there before,
    -- less all that is in a directory of snapshots whose name is a number that is none of the ids to retain
    -- (taken as unsigned numbers of 32 bits).
    pub destroy_ce_snapshots_not_specified-exactly :
        (user_id : ℤ) (snapshot_dirs : List String) (dirs after : List (String × T)) (path : String)
        → users.get_subdirs (ce_dir user_id ^^ "/" ^^ "apexrollback") ≡ ok snapshot_dirs
        → destroy_ce_snapshots_not_specified calls users user_id retain_rollback_ids dirs
          ≡ (ok tt, after)
        → look path after ≡ (
            if is_destroyed users retain_rollback_ids snapshot_dirs path
            then none
            else look path dirs)
    unfolding destroy_ce_snapshots_not_specified
    destroy_ce_snapshots_not_specified-exactly user_id snapshot_dirs dirs after path listed h =
        destroy_not_retained-exactly snapshot_dirs dirs after path (rw listed at h)
