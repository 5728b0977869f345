-- ===== src/Loop/Allocate.antt =====
-- Which loop devices there are after `PreAllocateLoopDevices`.
use native.Mathlib.Decide.{dec_lt}
use mathlib.Core.Path.{subst}
use mathlib.Core.Option.{some-injective}
use platform_system_apex.Base.{
  ℕ, String, zero, suc, ◌+◌, ◌≤◌, ◌<◌, Bool, true, false, ◌||◌, Option, none, some, List, [], ◌∷◌,
  ◌≡◌, ◌⊎◌, ◌↔◌, inl, inr, sym, ap, arith, eqb, eqb_iff, ltb, any, Bool-cases, Member,
  if◌then◌else◌,
}
use platform_system_apex.Base.Result.{ok}
use platform_system_apex.Base.Steps.{Steps, require, ◌>>◌}
use platform_system_apex.Loop.{
  LoopCalls, highest_id, first_id, add_devices, pre_allocate_loop_devices,
}

any-Member : (id : ℕ) (ds : List ℕ) → any (λ d. eqb d id) ds ≡ true → Member id ds
any-Member id [] h = cc
any-Member id (d ∷ ds) h = elim (Bool-cases (eqb d id)) [
  | inl same ↦ inl (sym ((eqb_iff d id).0 same))
  | inr other ↦ inr (any-Member id ds (ground (arith, h, other)))
]

-- The devices that were there, and those with the numbers `id` up to `id + num`
abbrev pub Added : ℕ → ℕ → List ℕ → List ℕ → Type 0
Added num id before after =
    (d : ℕ) → Member d after ↔ (Member d before ⊎ ((id ≤ d) × (d < id + num)))

passed :
    (a b : Bool) (s t : String) (m : Steps (List ℕ) (Unit {0})) (devices : List ℕ) {after : List ℕ}
    → (require a s >> (require b t >> m)) devices ≡ (ok tt, after)
    → m devices ≡ (ok tt, after)
passed true true s t m devices h = h
passed true false s t m devices h = absurd (ground (arith, h))
passed false b s t m devices h = absurd (ground (arith, h))

AtTop : List (Option ℕ) → ℕ → Bool → Type 0
AtTop names start found =
    (start ≤ (highest_id names start found).0)
    × ((id : ℕ) → Member (some id) names → id ≤ (highest_id names start found).0)
    × ((0 < start → found ≡ true)
        → 0 < (highest_id names start found).0
        → (highest_id names start found).1 ≡ true)

highest_id-AtTop : (names : List (Option ℕ)) (start : ℕ) (found : Bool) → AtTop names start found
unfolding highest_id AtTop
highest_id-AtTop [] start found = (omega arith, λ id m. absurd m, λ f pos. f pos)
highest_id-AtTop (none ∷ names) start found =
    let (up, all, some_found) = highest_id-AtTop names start found in
    (up, λ id m. elim m [ inl e ↦ absurd (cc e) | inr there ↦ all id there ], some_found)
highest_id-AtTop (some x ∷ names) start found =
    let start' = if ltb start x then x else start in
    let found' = ltb start x || found in
    let (up, all, some_found) = highest_id-AtTop names start' found' in
    let le : start ≤ start' = ground arith in
    let le' : x ≤ start' = ground arith in
    (
      omega arith,
      λ id m. elim m [
        | inl e ↦ let same : id ≡ x = some-injective id x e in omega arith
        | inr there ↦ all id there
      ],
      λ f. some_found (λ pos. ground (arith, f, pos)),
    )

first_id-above :
    (names : List (Option ℕ)) (id : ℕ) → Member (some id) names → 0 < id → id < first_id names
unfolding first_id AtTop
first_id-above names id m pos =
    let (up, all, some_found) = highest_id-AtTop names 0 false in
    let le = all id m in
    let found = some_found (λ none_yet. absurd (omega arith)) (omega arith) in
    rw found (omega arith)

wider :
    (num id d : ℕ) (before after : List ℕ)
    → (Member d after ↔ (Member d (id ∷ before) ⊎ ((id + 1 ≤ d) × (d < id + 1 + num))))
    → Member d after ↔ (Member d before ⊎ ((id ≤ d) × (d < id + suc num)))
wider num id d before after ih = (
  λ m. elim (ih.0 m) [
    | inl k ↦ elim k [ inl e ↦ inr (omega arith) | inr there ↦ inl there ]
    | inr range ↦ inr (omega arith)
  ],
  λ m. elim m [
    | inl there ↦ ih.1 (inl (inr there))
    | inr range ↦ elim (dec_lt id d) [
      | yes above ↦ ih.1 (inr (omega arith))
      | no here ↦ ih.1 (inl (inl (omega arith)))
    ]
  ],
)

wider_taken :
    (num id d : ℕ) (before after : List ℕ)
    → Member id before
    → (Member d after ↔ (Member d before ⊎ ((id + 1 ≤ d) × (d < id + 1 + num))))
    → Member d after ↔ (Member d before ⊎ ((id ≤ d) × (d < id + suc num)))
wider_taken num id d before after taken ih = (
  λ m. elim (ih.0 m) [ inl there ↦ inl there | inr range ↦ inr (omega arith) ],
  λ m. elim m [
    | inl there ↦ ih.1 (inl there)
    | inr range ↦ elim (dec_lt id d) [
      | yes above ↦ ih.1 (inr (omega arith))
      | no here ↦ let e : id ≡ d = omega arith in ih.1 (inl (subst (λ x. Member x before) e taken))
    ]
  ],
)

module _ (calls : LoopCalls) where
  add_devices-Added :
      (num id : ℕ) (devices after : List ℕ)
      → add_devices calls num id devices ≡ (ok tt, after)
      → Added num id devices after
  unfolding add_devices
  add_devices-Added zero id devices after h d =
      let e : devices ≡ after = ap (λ p. p.1) h in
      subst (λ ds. Member d ds ↔ (Member d devices ⊎ ((id ≤ d) × (d < id + 0)))) e
        (λ m. inl m, λ m. elim m [ inl there ↦ there | inr range ↦ absurd (omega arith) ])
  add_devices-Added (suc num) id devices after h d =
      elim (Bool-cases (any (λ x. eqb x id) devices)) [
        | inl taken ↦
            wider_taken num id d devices after (any-Member id devices taken)
              (add_devices-Added num (id + 1) devices after (rw taken at h) d)
        | inr free ↦ elim (Bool-cases (calls.control_add id)) [
          | inl added ↦
              wider num id d devices after
                (add_devices-Added num (id + 1) (id ∷ devices) after (rw (free, added) at h) d)
          | inr refused ↦ absurd (ground (arith, h, free, refused))
        ]
      ]

  -- Where `PreAllocateLoopDevices` succeeds, the devices are those that were there and `num` numbers
  -- in a row; no other device is added. The first of them is above all numbers but 0 that are in use.
  pub pre_allocate_loop_devices-Added :
      (names : List (Option ℕ)) (num : ℕ) (devices after : List ℕ)
      → pre_allocate_loop_devices calls names num devices ≡ (ok tt, after)
      → Added num (first_id names) devices after
        × ((id : ℕ) → Member (some id) names → 0 < id → id < first_id names)
  unfolding pre_allocate_loop_devices
  pre_allocate_loop_devices-Added names num devices after h = (
    add_devices-Added num (first_id names) devices after
        (passed calls.wait_for_loop_control calls.can_open_loop_control _ _ _ devices h),
    first_id-above names,
  )
