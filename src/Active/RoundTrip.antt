-- ===== src/Active/RoundTrip.antt =====
-- `RestoreActivePackages` after `BackupActivePackages`, in apexd/apexd.cpp.
use platform_system_apex.Base.{
  String, true, Option, none, some, List, [], ◌∷◌, ◌++◌, ◌≡◌, refl, sym, ◌∙◌, ap, arith, All, keep,
  inl, inr, Option-cases,
}
use platform_system_apex.Base.Result.{Result, ok, err, fatal, Result-cases}
use platform_system_apex.ApexFile.{ApexFile}
use platform_system_apex.Active.{
  Entry, Dirs, Calls, apex_files, delete_dir_content, delete_backup, backup_name, link_into,
  link_all, guard_backup, fill_backup, files_in, or_empty, backup_listed, backup_existing,
  backup_active_packages, restore_over, restore_found, restore_active_packages, backup_dir,
}

-- A file that apexd has put there: it opens, and it has the name of its package.
abbrev pub IsCanonical : Calls → Entry → Type 0
IsCanonical calls e =
    (apex : ApexFile) × (e.content ≡ inr apex)
    × (e.name ≡ backup_name apex)
    × (calls.ends_with e.name ".apex" ≡ true)

listed-All :
    (calls : Calls) (dir : List Entry)
    → All (IsCanonical calls) dir
    → keep (λ e. calls.ends_with e.name ".apex") dir ≡ dir
listed-All calls [] h = refl
listed-All calls (e ∷ es) h = ground (arith, h.0.3, listed-All calls es h.1)

link_into-canonical :
    (calls : Calls) (from : String) (e : Entry) (dir dir' : List Entry)
    → IsCanonical calls e
    → link_into calls from e dir ≡ ok dir'
    → dir' ≡ dir ++ e ∷ []
link_into-canonical calls from e dir dir' (apex, opens, named, suffix) h =
    let linked : dir' ≡ dir ++ record { name = backup_name apex; content = e.content } ∷ [] =
      ground (arith, h, opens) in
    linked ∙ ap (λ n. dir ++ record { name = n; content = e.content } ∷ []) (sym named)

append_nil : {A : Type 0} (xs : List A) → xs ++ [] ≡ xs
append_nil [] = refl
append_nil (x ∷ xs) = ap (λ l. x ∷ l) (append_nil xs)

append_assoc : {A : Type 0} (xs ys zs : List A) → (xs ++ ys) ++ zs ≡ xs ++ (ys ++ zs)
append_assoc [] ys zs = refl
append_assoc (x ∷ xs) ys zs = ap (λ l. x ∷ l) (append_assoc xs ys zs)

link_all-canonical :
    (calls : Calls) (from : String) (es dir : List Entry)
    → All (IsCanonical calls) es
    → (link_all calls from es dir).0 ≡ ok tt
    → (link_all calls from es dir).1 ≡ dir ++ es
unfolding link_all
link_all-canonical calls from [] dir all h = sym (append_nil dir)
link_all-canonical calls from (e ∷ es) dir all h =
    elim (Result-cases (link_into calls from e dir)) [
      | inl (dir', q) ↦
          let d = link_into-canonical calls from e dir dir' all.0 q in
          let more : (link_all calls from es dir').1 ≡ dir' ++ es =
            link_all-canonical calls from es dir' all.1 (ground (arith, h, q)) in
          rw (q, link_all) (more ∙ ap (λ l. l ++ es) d ∙ append_assoc dir (e ∷ []) es)
      | inr (inl (m, q)) ↦ ground (arith, h, q)
      | inr (inr (m, q)) ↦ ground (arith, h, q)
    ]

guarded :
    (calls : Calls) (r : Result (Unit {0}) × List Entry)
    → (guard_backup calls r).0 ≡ ok tt
    → (r.0 ≡ ok tt) × ((guard_backup calls r).1 ≡ r.1)
guarded calls (ok u, dir) h = (refl, refl)
guarded calls (err m, dir) h = ground (arith, h)
guarded calls (fatal m, dir) h = ground (arith, h)

emptied :
    (calls : Calls) (d : Dirs)
    → (delete_backup calls d).0 ≡ ok tt
    → files_in (delete_backup calls d).1.backup ≡ []
unfolding delete_backup delete_dir_content
emptied calls d h = elim (Option-cases d.backup) [
  | inl absent ↦ ground (arith, h, absent)
  | inr (dir, there) ↦ ground (arith, h, there)
]

filled :
    (calls : Calls) (dir : List Entry) (r : Result (Unit {0}) × Dirs)
    → All (IsCanonical calls) dir
    → ((r.0 ≡ ok tt) → files_in r.1.backup ≡ [])
    → (fill_backup calls dir r).0 ≡ ok tt
    → (fill_backup calls dir r).1.backup ≡ some dir
filled calls dir (ok u, d) all empty h =
    let e = empty refl in
    let (linked, same) =
      guarded calls (link_all calls calls.active_apex_data_dir dir (files_in d.backup)) h in
    ap some (
      same
      ∙ link_all-canonical calls calls.active_apex_data_dir dir (files_in d.backup) all linked
      ∙ ap (λ l. l ++ dir) e)
filled calls dir (err m, d) all empty h = ground (arith, h)
filled calls dir (fatal m, d) all empty h = ground (arith, h)

backed_up :
    (calls : Calls) (d : Dirs) (dir : List Entry)
    → All (IsCanonical calls) dir
    → d.active ≡ some dir
    → (backup_active_packages calls d).0 ≡ ok tt
    → (backup_active_packages calls d).1.backup ≡ some dir
unfolding backup_active_packages apex_files
backed_up calls d dir all here h =
    let d' : Dirs = record d { backup = or_empty d.backup } in
    let f = filled calls dir (delete_backup calls d') all (emptied calls d') in
    let l = listed-All calls dir all in
    let made : calls.can_create_dir backup_dir ≡ true = ground (arith, h) in
    let seen : calls.can_stat calls.active_apex_data_dir ≡ true = ground (arith, h) in
    let readable : calls.can_list calls.active_apex_data_dir ≡ true = ground (arith, h, here) in
    let opened : backup_active_packages calls d ≡ backup_existing calls d' d.active =
      simp (made, seen) in
    let found : apex_files calls calls.active_apex_data_dir dir ≡ ok dir = simp (readable, l) in
    let run : backup_active_packages calls d ≡ fill_backup calls dir (delete_backup calls d') =
      opened ∙ ap (backup_existing calls d') here ∙ ap (backup_listed calls d') found in
    ap (λ k. k.1.backup) run ∙ f (sym (ap (λ k. k.0) run) ∙ h)

restore_over-ok :
    (calls : Calls) (d : Dirs) (saved : List Entry) (r : Result (Unit {0}) × List Entry)
    → (restore_over calls d saved r).0 ≡ ok tt
    → (restore_over calls d saved r).1.active ≡ some saved
restore_over-ok calls d saved (ok u, dir) h = ground (arith, h)
restore_over-ok calls d saved (err m, dir) h = ground (arith, h)
restore_over-ok calls d saved (fatal m, dir) h = ground (arith, h)

restore_found-ok :
    (calls : Calls) (d : Dirs) (saved : List Entry) (b a : Option (List Entry))
    → b ≡ some saved
    → (restore_found calls d b a).0 ≡ ok tt
    → (restore_found calls d b a).1.active ≡ some saved
restore_found-ok calls d saved none a e h = ground (arith, h)
restore_found-ok calls d saved (some s) none e h = ground (arith, h)
restore_found-ok calls d saved (some s) (some dir) e h =
    restore_over-ok calls d s (delete_dir_content calls dir) h ∙ e

restored :
    (calls : Calls) (d : Dirs) (saved : List Entry)
    → d.backup ≡ some saved
    → (restore_active_packages calls d).0 ≡ ok tt
    → (restore_active_packages calls d).1.active ≡ some saved
unfolding restore_active_packages delete_dir_content
restored calls d saved here h =
    let one = restore_found-ok calls d saved d.backup d.active here in
    let two = restore_found-ok calls d saved d.backup none here in ground arith

-- After a backup that succeeds, of an active directory whose files all open, end in ".apex" and have the
-- name that the backup gives them, and after whatever then happens to the active directory, a restore that
-- succeeds brings back exactly the files that were there.
pub restore-backup :
    (calls : Calls) (d : Dirs) (dir : List Entry) (later : Option (List Entry))
    → All (IsCanonical calls) dir
    → d.active ≡ some dir
    → (backup_active_packages calls d).0 ≡ ok tt
    → (restore_active_packages calls
        (record (backup_active_packages calls d).1 { active = later })).0
      ≡ ok tt
    → (restore_active_packages calls
        (record (backup_active_packages calls d).1 { active = later })).1.active
      ≡ some dir
restore-backup calls d dir later all here saved again =
    restored calls (record (backup_active_packages calls d).1 { active = later }) dir
      (backed_up calls d dir all here saved) again
