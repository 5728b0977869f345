-- ===== src/Stage/Removal.antt =====
-- What `RemovePreviouslyActiveApexFiles` of apexd/apexd.cpp removes.
use platform_system_apex.Base.{
  String, Bool, true, false, not, ◌&&◌, ◌||◌, Option, none, some, List, [], ◌∷◌, ◌==◌, ◌≡◌, refl,
  sym, ◌∙◌, ap, arith, if◌then◌else◌, keep, any, ◌⊎◌, inl, inr, Bool-cases, eq_iff,
}
use platform_system_apex.Base.Result.{ok, Result-cases}
use platform_system_apex.ApexFile.{ApexFile, name_of}
use platform_system_apex.Active.{Entry, Calls, without, file_path, at_path, apex_files, has_entry}
use platform_system_apex.Stage.{
  remove_if_previous, remove_each, remove_listed, remove_previously_active_apex_files,
}

-- The file of a name.
unfoldable pub entry_of : String → List Entry → Option Entry
entry_of name [] = none
entry_of name (e ∷ es) = let more = entry_of name es in if e.name == name then some e else more

-- Every name stands once.
abbrev pub Distinct : List Entry → Type 0
Distinct [] = Unit
Distinct (e ∷ es) = (has_entry e.name es ≡ false) × Distinct es

abbrev pub opens_previous : Calls → List String → List String → String → String ⊎ ApexFile → Bool
opens_previous calls affected files_to_keep path (inl m) = false
opens_previous calls affected files_to_keep path (inr apex) =
    any (λ p. p == name_of apex) affected && not (any (λ f. f == path) files_to_keep)

-- A file to be removed.
abbrev pub is_stale : Calls → List String → List String → Entry → Bool
is_stale calls affected files_to_keep e =
    let path = file_path calls.active_apex_data_dir e.name in
    opens_previous calls affected files_to_keep path (at_path path e.content)

not_both : (a m n : String) → (a == m) ≡ false → (a == n) ≡ true → (m == n) ≡ false
not_both a m n f t = elim (Bool-cases (m == n)) [
  | inl s ↦
      let q : a ≡ m = (eq_iff a n).0 t ∙ sym ((eq_iff m n).0 s) in
      let r : (a == m) ≡ true = (eq_iff a m).1 q in ground (arith, f, r)
  | inr g ↦ g
]

either :
    (A B : Bool) (x : Option Entry)
    → (if B then none else (if A then none else x)) ≡ (if A || B then none else x)
either true true x = refl
either true false x = refl
either false B x = refl

pub entry_of-without :
    (m n : String) (dir : List Entry)
    → entry_of n (without m dir) ≡ (if m == n then none else entry_of n dir)
unfolding entry_of
entry_of-without m n [] = ground arith
entry_of-without m n (e ∷ es) = elim (Bool-cases (e.name == m)) [
  | inl t ↦
      let q : e.name ≡ m = (eq_iff e.name m).0 t in
      let r : (e.name == n) ≡ (m == n) = ap (λ k. k == n) q in
      ground (arith, entry_of-without m n es, t, r)
  | inr f ↦ let differ = not_both e.name m n f in ground (arith, entry_of-without m n es, f, differ)
]

removed_if :
    (b : Bool) (m n : String) (dir : List Entry)
    → entry_of n (if b then without m dir else dir)
      ≡ (if b && (m == n) then none else entry_of n dir)
removed_if true m n dir = entry_of-without m n dir
removed_if false m n dir = refl

remove_if_previous-ok :
    (calls : Calls) (affected files_to_keep : List String) (e : Entry) (dir dir' : List Entry)
    → remove_if_previous calls affected files_to_keep e dir ≡ ok dir'
    → dir' ≡ (if is_stale calls affected files_to_keep e then without e.name dir else dir)
remove_if_previous-ok calls affected files_to_keep e dir dir' h = ground (arith, h)

-- One stale file after the other.
pub remove_each-ok :
    (calls : Calls) (affected files_to_keep : List String) (es dir : List Entry) (n : String)
    → (remove_each calls affected files_to_keep es dir).0 ≡ ok tt
    → entry_of n (remove_each calls affected files_to_keep es dir).1 ≡ (
        if any (λ e. is_stale calls affected files_to_keep e && (e.name == n)) es
        then none
        else entry_of n dir)
unfolding remove_each
remove_each-ok calls affected files_to_keep [] dir n h = refl
remove_each-ok calls affected files_to_keep (e ∷ es) dir n h =
    elim (Result-cases (remove_if_previous calls affected files_to_keep e dir)) [
      | inl (dir', q) ↦
          let d = remove_if_previous-ok calls affected files_to_keep e dir dir' q in
          let more = remove_each-ok calls affected files_to_keep es dir' n (ground (arith, h, q)) in
          let one : entry_of n dir' ≡ (
              if is_stale calls affected files_to_keep e && (e.name == n)
              then none
              else entry_of n dir) =
            ap (entry_of n) d ∙ removed_if (is_stale calls affected files_to_keep e) e.name n dir in
          let run : remove_each calls affected files_to_keep (e ∷ es) dir
              ≡ remove_each calls affected files_to_keep es dir' =
            rw (q, remove_each) refl in
          let b = any (λ e'. is_stale calls affected files_to_keep e' && (e'.name == n)) es in
          ap (λ k. entry_of n k.1) run
          ∙ more
          ∙ ap (λ o. if b then none else o) one
          ∙ either (is_stale calls affected files_to_keep e && (e.name == n)) b (entry_of n dir)
      | inr (inl (m, q)) ↦ ground (arith, h, q)
      | inr (inr (m, q)) ↦ ground (arith, h, q)
    ]

abbrev pub unless : (Entry → Bool) → Option Entry → Option Entry
unless p none = none
unless p (some e) = if p e then none else some e

module _ (p q : Entry → Bool) (n : String) where
  any_absent :
      (dir : List Entry)
      → has_entry n dir ≡ false
      → any (λ e. p e && (e.name == n)) (keep q dir) ≡ false
  any_absent [] h = refl
  any_absent (e ∷ es) h = ground (arith, h, any_absent es)

  -- In a directory of distinct names, what a name stands for decides.
  any_named :
      (dir : List Entry)
      → Distinct dir
      → (if any (λ e. p e && (e.name == n)) (keep q dir) then none else entry_of n dir)
        ≡ unless (λ e. q e && p e) (entry_of n dir)
  unfolding entry_of
  any_named [] w = refl
  any_named (e ∷ es) w = elim (Bool-cases (e.name == n)) [
    | inl t ↦
        let same : e.name ≡ n = (eq_iff e.name n).0 t in
        let gone : any (λ x. p x && (x.name == n)) (keep q es) ≡ false =
          any_absent es (ap (λ k. has_entry k es) (sym same) ∙ w.0) in
        ground (arith, t, gone)
    | inr f ↦ ground (arith, f, any_named es w.1)
  ]

-- Where `RemovePreviouslyActiveApexFiles` succeeds on a directory of distinct names, a file is gone
-- exactly if its name ends in ".apex", the APEX in it is of an affected package, and its path is not one of
-- those to keep; every other file is as it was.
pub remove_previously_active_apex_files_exactly :
    (calls : Calls) (affected files_to_keep : List String) (dir : List Entry) (n : String)
    → Distinct dir
    → (remove_previously_active_apex_files calls affected files_to_keep dir).0 ≡ ok tt
    → entry_of n (remove_previously_active_apex_files calls affected files_to_keep dir).1
      ≡ unless
          (λ e. calls.ends_with e.name ".apex" && is_stale calls affected files_to_keep e)
          (entry_of n dir)
unfolding remove_previously_active_apex_files apex_files
remove_previously_active_apex_files_exactly calls affected files_to_keep dir n w h =
    let is_apex : Entry → Bool = λ e. calls.ends_with e.name ".apex" in
    let listed : apex_files calls calls.active_apex_data_dir dir ≡ ok (keep is_apex dir) =
      ground (arith, h) in
    let run : remove_previously_active_apex_files calls affected files_to_keep dir
        ≡ remove_each calls affected files_to_keep (keep is_apex dir) dir =
      ap (λ l. remove_listed calls affected files_to_keep l dir) listed in
    ap (λ k. entry_of n k.1) run
    ∙ remove_each-ok calls affected files_to_keep (keep is_apex dir) dir n
        (sym (ap (λ k. k.0) run) ∙ h)
    ∙ any_named (is_stale calls affected files_to_keep) is_apex n dir w
