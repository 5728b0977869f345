-- ===== src/Snapshot/Missing.antt =====
-- What `RestorePreRestoreSnapshotsIfPresent` of apexd/apexd.cpp does where there is no such snapshot.
use platform_system_apex.Base.{
  ℕ, String, true, false, none, List, [], ◌∷◌, ◌≡◌, refl, sym, ap, ◌∙◌, ◌==◌, arith,
}
use platform_system_apex.Base.Result.{err}
use platform_system_apex.Base.Steps.{next, lift, ◌>>◌}
use platform_system_apex.Session.{SessionState}
use platform_system_apex.Snapshot.{
  FileCalls, look, drop, replace_files, try_delete, rollback_path, snapshot_path, data_path,
  restore_data_directory, restore_pre_restore_each, restore_pre_restore_snapshots_if_present,
}
use platform_system_apex.Snapshot.RoundTrip.{look-drop, paths_differ, unequal}

module _ {T : Type 0} where
  look-dropped : (path : String) (dirs : List (String × T)) → look path (drop path dirs) ≡ none
  look-dropped path [] = refl
  look-dropped path ((p, c) ∷ dirs) = ground (arith, look-dropped path dirs)

  -- The target of a replacement goes before the source is looked for.
  replace_files-missing :
      (calls : FileCalls) (from to : String) (dirs : List (String × T))
      → (to == from) ≡ false
      → calls.can_remove to ≡ true
      → look from dirs ≡ none
      → replace_files calls from to dirs ≡ (err "Failed to copy", drop to dirs)
  unfolding replace_files
  replace_files-missing calls from to dirs differ may missing =
      simp (may, look-drop to from dirs differ, missing) refl

  restored_once :
      (calls : FileCalls) (base name : String) (id : ℕ) (dirs : List (String × T))
      → look (snapshot_path base id name true) dirs ≡ none
      → calls.can_remove (data_path base name) ≡ true
      → look (data_path base name) (restore_pre_restore_each calls base id (name ∷ []) dirs) ≡ none
  unfolding restore_pre_restore_each restore_data_directory
  restored_once calls base name id dirs missing may =
      let from = snapshot_path base id name true in
      let to = data_path base name in
      let differ : (to == from) ≡ false =
        unequal to from (λ e. paths_differ base name name id true (sym e)) in
      ap (λ r. look to (next (λ u. lift (calls.restorecon_path to) >> try_delete calls from) r).1)
        (replace_files-missing calls from to dirs differ may missing)
      ∙ look-dropped to dirs

  -- For a session with one package and no snapshot from before its restore, where `stat` answers and the
  -- data may be removed, `RestorePreRestoreSnapshotsIfPresent` leaves the package without its data.
  pub restore_pre_restore_snapshots_if_present-missing :
      (calls : FileCalls) (base name : String) (session : SessionState) (dirs : List (String × T))
      → session.apex_names ≡ name ∷ []
      → look (snapshot_path base session.rollback_id name true) dirs ≡ none
      → calls.can_stat (rollback_path base session.rollback_id true) ≡ true
      → calls.can_remove (data_path base name) ≡ true
      → look
          (data_path base name)
          (restore_pre_restore_snapshots_if_present calls base session dirs)
        ≡ none
  unfolding restore_pre_restore_snapshots_if_present
  restore_pre_restore_snapshots_if_present-missing calls base name session dirs one missing answers
        may =
      simp (answers, one) (restored_once calls base name session.rollback_id dirs missing may)
