-- ===== src/Unmount/Stays.antt =====
-- That `UnmountTempMount` of one package adds no temp mount of another.
use platform_system_apex.Base.{
  ℕ, zero, suc, String, true, false, some, [], ◌∷◌, ◌==◌, ◌≡◌, refl, sym, ◌∙◌, ap, arith, keep,
  Bool-cases, Option-cases, inl, inr, eq_iff,
}
use platform_system_apex.Database.{
  Database, PackageMap, find, or_empty, erase_first, has_temp, mounts_of, remove_mounted_apex,
}
use platform_system_apex.Database.Latest.{find-update}
use platform_system_apex.Unmount.{
  get_temp_mounted_apex_data, unmount_loop, unmount_temp_mount, also_unmounted,
}
use platform_system_apex.Unmount.Temp.{removed, absent}

no_temps :
    (path : String) (m : PackageMap)
    → keep (has_temp true) m ≡ []
    → keep (has_temp true) (erase_first path true m) ≡ []
unfolding erase_first
no_temps path [] h = refl
no_temps path ((e, k) ∷ m) h = ground (arith, h, no_temps path m)

remove_mounted_apex-stays :
    (db : Database) (name other path : String)
    → mounts_of db other true ≡ []
    → mounts_of (remove_mounted_apex db name path true) other true ≡ []
unfolding mounts_of
remove_mounted_apex-stays db name other path h = elim (Option-cases (find name db.mounted_apexes)) [
  | inl e ↦
      ap (λ x. keep (has_temp true) (or_empty (find other x.mounted_apexes)))
        (absent db name path e)
      ∙ h
  | inr (m, e) ↦
      ap (λ x. keep (has_temp true) (or_empty (find other x.mounted_apexes)))
        (removed db name path m e)
      ∙ ap (λ x. keep (has_temp true) (or_empty x))
          (find-update other name (erase_first path true m) m db.mounted_apexes e)
      ∙ elim (Bool-cases (name == other)) [
        | inl t ↦
            let same : find other db.mounted_apexes ≡ some m =
              ap (λ n. find n db.mounted_apexes) (sym ((eq_iff name other).0 t)) ∙ e in
            let here : keep (has_temp true) m ≡ [] =
              sym (ap (λ x. keep (has_temp true) (or_empty x)) same) ∙ h in
            rw t (no_temps path m here)
        | inr f ↦ rw f h
      ]
]

unmount_loop-stays :
    (fuel : ℕ) (name other : String) (db : Database)
    → mounts_of db other true ≡ []
    → mounts_of (unmount_loop fuel name db).1 other true ≡ []
unfolding unmount_loop
unmount_loop-stays zero name other db h = h
unmount_loop-stays (suc fuel) name other db h =
    elim (Option-cases (get_temp_mounted_apex_data db name)) [
      | inl e ↦ rw (e, unmount_loop) h
      | inr (d, e) ↦
          let db' = remove_mounted_apex db name d.full_path true in
          let run : unmount_loop (suc fuel) name db
              ≡ also_unmounted d (unmount_loop fuel name db') =
            rw (e, unmount_loop) refl in
          ap (λ k. mounts_of k.1 other true) run
          ∙ unmount_loop-stays fuel name other db'
              (remove_mounted_apex-stays db name other d.full_path h)
    ]

pub unmount_temp_mount-stays :
    (name other : String) (db : Database)
    → mounts_of db other true ≡ []
    → mounts_of (unmount_temp_mount name db).1 other true ≡ []
unfolding unmount_temp_mount
unmount_temp_mount-stays name other db h = unmount_loop-stays _ name other db h

module _ (name other : String) (differ : (name == other) ≡ false) where
  remove_mounted_apex-others :
      (db : Database) (path : String)
      → mounts_of (remove_mounted_apex db name path true) other true ≡ mounts_of db other true
  unfolding mounts_of
  remove_mounted_apex-others db path = elim (Option-cases (find name db.mounted_apexes)) [
    | inl e ↦
        ap (λ x. keep (has_temp true) (or_empty (find other x.mounted_apexes)))
          (absent db name path e)
    | inr (m, e) ↦
        ap (λ x. keep (has_temp true) (or_empty (find other x.mounted_apexes)))
          (removed db name path m e)
        ∙ ap (λ x. keep (has_temp true) (or_empty x))
            (find-update other name (erase_first path true m) m db.mounted_apexes e)
        ∙ rw differ refl
  ]

  unmount_loop-others :
      (fuel : ℕ) (db : Database)
      → mounts_of (unmount_loop fuel name db).1 other true ≡ mounts_of db other true
  unfolding unmount_loop
  unmount_loop-others zero db = refl
  unmount_loop-others (suc fuel) db = elim (Option-cases (get_temp_mounted_apex_data db name)) [
    | inl e ↦ rw (e, unmount_loop) refl
    | inr (d, e) ↦
        let db' = remove_mounted_apex db name d.full_path true in
        let run : unmount_loop (suc fuel) name db ≡ also_unmounted d (unmount_loop fuel name db') =
          rw (e, unmount_loop) refl in
        ap (λ k. mounts_of k.1 other true) run
        ∙ unmount_loop-others fuel db'
        ∙ remove_mounted_apex-others db d.full_path
  ]

  -- `UnmountTempMount` of one package leaves the temp mounts of every other.
  pub unmount_temp_mount-others :
      (db : Database)
      → mounts_of (unmount_temp_mount name db).1 other true ≡ mounts_of db other true
  unfolding unmount_temp_mount
  unmount_temp_mount-others db = unmount_loop-others _ db
