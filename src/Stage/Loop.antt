-- ===== src/Stage/Loop.antt =====
-- The loop of `StagePackages` of apexd/apexd.cpp: what it has linked when no step fails.
use platform_system_apex.Base.{
  String, Bool, true, false, ◌||◌, Option, none, some, List, [], ◌∷◌, ◌++◌, ◌^^◌, ◌==◌, ◌≡◌, refl,
  sym, ◌∙◌, ap, arith, any, if◌then◌else◌, inl, inr, Bool-cases, eq_iff,
}
use platform_system_apex.Base.Result.{Result, ok, err, fatal, Result-cases}
use platform_system_apex.ApexFile.{ApexFile, get_package_id}
use platform_system_apex.Active.{Entry, Calls, without, has_entry}
use platform_system_apex.Stage.Removal.{entry_of, entry_of-without}
use platform_system_apex.Stage.{
  Progress, contains, promote_hashtree, make_room, link_package, then_step, stage_one, stage_each,
  stage_dest_name,
}

abbrev or_entry : Option Entry → Option Entry → Option Entry
or_entry none o = o
or_entry (some e) o = some e

entry_of-append :
    (n : String) (dir : List Entry) (e : Entry)
    → entry_of n (dir ++ e ∷ []) ≡ or_entry (entry_of n dir) (if e.name == n then some e else none)
unfolding entry_of
entry_of-append n [] e = refl
entry_of-append n (x ∷ dir) e = ground (arith, entry_of-append n dir e)

entry_of_absent : (n : String) (dir : List Entry) → has_entry n dir ≡ false → entry_of n dir ≡ none
unfolding entry_of
entry_of_absent n [] h = refl
entry_of_absent n (e ∷ dir) h = ground (arith, h, entry_of_absent n dir)

no_room_needed :
    (k n : String) (dir : List Entry)
    → has_entry k dir ≡ false
    → entry_of n dir ≡ (if k == n then none else entry_of n dir)
no_room_needed k n dir h = elim (Bool-cases (k == n)) [
  | inl t ↦
      let gone = entry_of_absent n dir (ap (λ m. has_entry m dir) (sym ((eq_iff k n).0 t)) ∙ h) in
      rw t gone
  | inr f ↦ rw f refl
]

-- The file that is linked under a name that is free.
linked_last :
    (b : Bool) (e : Entry) (o : Option Entry)
    → or_entry (if b then none else o) (if b then some e else none) ≡ (if b then some e else o)
linked_last true e o = refl
linked_last false e none = refl
linked_last false e (some x) = refl

then_step-ok :
    (step : Progress → Result Progress) (r : Result (Unit {0}) × Progress)
    → (then_step step r).0 ≡ ok tt
    → (r.0 ≡ ok tt) × (step r.1 ≡ ok (then_step step r).1)
then_step-ok step (ok u, p) h = elim (Result-cases (step p)) [
  | inl (q, e) ↦ (refl, ground (arith, e))
  | inr (inl (m, e)) ↦ ground (arith, h, e)
  | inr (inr (m, e)) ↦ ground (arith, h, e)
]
then_step-ok step (err m, p) h = ground (arith, h)
then_step-ok step (fatal m, p) h = ground (arith, h)

promoted :
    (calls : Calls) (apex : ApexFile) (p q : Progress)
    → promote_hashtree calls apex p ≡ ok q
    → (q.dir ≡ p.dir) × (q.staged_files ≡ p.staged_files)
promoted calls apex p q h = ground (arith, h)

made_room :
    (calls : Calls) (apex : ApexFile) (p q : Progress) (n : String)
    → make_room calls apex p ≡ ok q
    → (entry_of n q.dir ≡ (if stage_dest_name apex == n then none else entry_of n p.dir))
      × (q.staged_files ≡ p.staged_files)
made_room calls apex p q n h =
    let k = stage_dest_name apex in
    elim (Bool-cases (has_entry k p.dir)) [
      | inl t ↦
          let less : q.dir ≡ without k p.dir = ground (arith, h, t) in
          (ap (entry_of n) less ∙ entry_of-without k n p.dir, ground (arith, h, t))
      | inr f ↦
          let same : q.dir ≡ p.dir = ground (arith, h, f) in
          (ap (entry_of n) same ∙ no_room_needed k n p.dir f, ground (arith, h, f))
    ]

linked :
    (calls : Calls) (apex : ApexFile) (p q : Progress)
    → link_package calls apex p ≡ ok q
    → (q.dir ≡ p.dir ++ record { name = stage_dest_name apex; content = inr apex } ∷ [])
      × (q.staged_files ≡ stage_dest_name apex ∷ p.staged_files)
linked calls apex p q h = ground (arith, h)

-- The file of a package in the active directory.
abbrev pub linked_entry : ApexFile → Entry
linked_entry apex = record { name = get_package_id apex.manifest ^^ ".apex"; content = inr apex }

stage_one-entry :
    (calls : Calls) (apex : ApexFile) (r : Result (Unit {0}) × Progress) (n : String)
    → (stage_one calls apex r).0 ≡ ok tt
    → (entry_of n (stage_one calls apex r).1.dir
        ≡ (if stage_dest_name apex == n then some (linked_entry apex) else entry_of n r.1.dir))
      × ((stage_one calls apex r).1.staged_files ≡ stage_dest_name apex ∷ r.1.staged_files)
unfolding stage_one
stage_one-entry calls apex r n h =
    let a = then_step (promote_hashtree calls apex) r in
    let b = then_step (make_room calls apex) a in
    let (b_ok, link) = then_step-ok (link_package calls apex) b h in
    let (a_ok, room) = then_step-ok (make_room calls apex) a b_ok in
    let (r_ok, tree) = then_step-ok (promote_hashtree calls apex) r a_ok in
    let (tree_dir, tree_files) = promoted calls apex r.1 a.1 tree in
    let (room_dir, room_files) = made_room calls apex a.1 b.1 n room in
    let (link_dir, link_files) =
      linked calls apex b.1 (then_step (link_package calls apex) b).1 link in
    let new = linked_entry apex in
    let last : Option Entry = if stage_dest_name apex == n then some new else none in
    let free =
      room_dir ∙ ap (λ d. if stage_dest_name apex == n then none else entry_of n d) tree_dir in
    (
      ap (entry_of n) link_dir
          ∙ entry_of-append n b.1.dir new
          ∙ ap (λ o. or_entry o last) free
          ∙ linked_last (stage_dest_name apex == n) new (entry_of n r.1.dir),
      link_files ∙ ap (λ l. stage_dest_name apex ∷ l) (room_files ∙ tree_files),
    )

stage_each-was_ok :
    (calls : Calls) (apexes : List ApexFile) (r : Result (Unit {0}) × Progress)
    → (stage_each calls apexes r).0 ≡ ok tt
    → r.0 ≡ ok tt
unfolding stage_each stage_one
stage_each-was_ok calls [] r h = h
stage_each-was_ok calls (apex ∷ apexes) r h =
    let a = then_step (promote_hashtree calls apex) r in
    let b = then_step (make_room calls apex) a in
    let c_ok = stage_each-was_ok calls apexes (then_step (link_package calls apex) b) h in
    let b_ok = (then_step-ok (link_package calls apex) b c_ok).0 in
    let a_ok = (then_step-ok (make_room calls apex) a b_ok).0 in
    (then_step-ok (promote_hashtree calls apex) r a_ok).0

swap : (a b c : Bool) → (a || (b || c)) ≡ ((b || a) || c)
swap true true c = refl
swap true false c = refl
swap false true c = refl
swap false false c = refl

-- The last package of the list whose file has that name; where there is none, what was there before.
abbrev pub last_linked : String → List ApexFile → Option Entry → Option Entry
last_linked n [] before = before
last_linked n (apex ∷ apexes) before =
    last_linked n apexes
      (if get_package_id apex.manifest ^^ ".apex" == n then some (linked_entry apex) else before)

-- After the whole loop, every package has its file, and its name is noted as staged.
pub stage_each_ok :
    (calls : Calls) (apexes : List ApexFile) (r : Result (Unit {0}) × Progress) (n : String)
    → (stage_each calls apexes r).0 ≡ ok tt
    → (entry_of n (stage_each calls apexes r).1.dir ≡ last_linked n apexes (entry_of n r.1.dir))
      × (contains n (stage_each calls apexes r).1.staged_files
          ≡ any (λ a. stage_dest_name a == n) apexes || contains n r.1.staged_files)
unfolding stage_each
stage_each_ok calls [] r n h = (refl, refl)
stage_each_ok calls (apex ∷ apexes) r n h =
    let one = stage_one calls apex r in
    let one_ok = stage_each-was_ok calls apexes one h in
    let (entry, files) = stage_one-entry calls apex r n one_ok in
    let (entries, found) = stage_each_ok calls apexes one n h in
    let more : contains n one.1.staged_files
        ≡ (stage_dest_name apex == n) || contains n r.1.staged_files =
      ap (contains n) files in
    (
      entries ∙ ap (last_linked n apexes) entry,
      found
          ∙ ap (λ c. any (λ a. stage_dest_name a == n) apexes || c) more
          ∙ swap (any (λ a. stage_dest_name a == n) apexes) (stage_dest_name apex == n)
              (contains n r.1.staged_files),
    )
