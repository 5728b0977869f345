-- ===== src/Loop/Wait.antt =====
-- When `WaitForDevice` ends, and with what.
use native.Mathlib.Decide.{dec_lt}
use mathlib.Core.Path.{subst}
use platform_system_apex.Base.{
  ℕ, zero, suc, ◌+◌, ◌≤◌, ◌<◌, String, Bool, true, false, ◌||◌, some, ◌≡◌, ◌⊎◌, inl, inr, refl, ap,
  ◌∙◌, arith, eqb, eqb_iff, Bool-cases, if◌then◌else◌,
}
use platform_system_apex.Base.Result.{Result, ok, err, fatal}
use platform_system_apex.Loop.{LoopCalls, block_device, plain_device, wait_rounds, wait_for_device}

module _ (calls : LoopCalls) (num : ℕ) where
  abbrev Shut : ℕ → Type 0
  Shut t = (calls.opens t (block_device num) ≡ false) × (calls.opens t (plain_device num) ≡ false)

  -- What the wait may end with from round `t` on: a device of that number that has opened; or an
  -- error, after rounds in which neither of its names opened, and with the cold boot done.
  abbrev pub WaitOutcome : ℕ → Bool → Result String → Type 0
  WaitOutcome t cold (ok name) =
      (r : ℕ) × (t ≤ r)
      × (calls.opens r name ≡ true)
      × ((name ≡ block_device num) ⊎ (name ≡ plain_device num))
  WaitOutcome t cold (err e) =
      (last : ℕ) × (t ≤ last)
      × ((r : ℕ) → t ≤ r → r < last → Shut r)
      × ((cold ≡ true) ⊎ ((r : ℕ) × (r < last) × (calls.cold_boot_done r ≡ true)))
  WaitOutcome t cold (fatal e) = ⊥

  later :
      (t : ℕ) (cold : Bool) (r : Result String)
      → Shut t
      → WaitOutcome (t + 1) (cold || calls.cold_boot_done t) r
      → WaitOutcome t cold r
  later t cold (ok name) shut (r, le, opened, named) = (r, omega arith, opened, named)
  later t cold (err e) shut (last, le, all, done) = (
    last,
    omega arith,
    λ r from below. elim (dec_lt t r) [
      | yes above ↦ all r (omega arith) below
      | no here ↦ let e : t ≡ r = omega arith in subst Shut e shut
    ],
    elim done [
      | inl seen ↦ elim (Bool-cases cold) [
        | inl before ↦ inl before
        | inr not_before ↦ inr (t, omega arith, ground (arith, seen, not_before))
      ]
      | inr found ↦ inr found
    ],
  )
  later t cold (fatal e) shut h = h

  abbrev Ends : ℕ → ℕ → ℕ → Bool → Type 0
  Ends fuel i t cold =
      (r : Result String) × (wait_rounds fuel calls num i t cold ≡ some r) × WaitOutcome t cold r

  -- One round: the wait is at its end, a device opens, or the next round decides.
  round :
      (fuel i t : ℕ) (cold : Bool)
      → (eqb i 3 ≡ true → cold ≡ true)
      → (eqb i 3 ≡ false
          → Ends fuel
              (if cold || calls.cold_boot_done t then i + 1 else 1)
              (t + 1)
              (cold || calls.cold_boot_done t))
      → Ends (suc fuel) i t cold
  unfolding wait_rounds
  round fuel i t cold counted next = elim (Bool-cases (eqb i 3)) [
    | inl over ↦ (
      err "Faled to open loopback device",
      rw over refl,
      (t, omega arith, λ r le lt. absurd (omega arith), inl (counted over)),
    )
    | inr more ↦ elim (Bool-cases (calls.opens t (block_device num))) [
      | inl opened ↦
          (ok (block_device num), rw (more, opened) refl, (t, omega arith, opened, inl refl))
      | inr shut ↦ elim (Bool-cases (calls.opens t (plain_device num))) [
        | inl opened ↦ (
          ok (plain_device num),
          rw (more, shut, opened) refl,
          (t, omega arith, opened, inr refl),
        )
        | inr shut' ↦
            let (r, run, outcome) = next more in
            (r, rw (more, shut, shut') run, later t cold r (shut, shut') outcome)
      ]
    ]
  ]

  -- With the cold boot done, there are no more than three rounds.
  after_cold_boot : (fuel i t : ℕ) → i ≤ 3 → 3 < fuel + i → Ends fuel i t true
  after_cold_boot zero i t le enough = absurd (omega arith)
  after_cold_boot (suc fuel) i t le enough =
      round fuel i t true (λ e. refl)
        (λ more.
          after_cold_boot fuel (i + 1) (t + 1) (let ne = eqb_iff i 3 in ground (arith, more, ne))
            (omega arith))

  before_cold_boot :
      (fuel i t done : ℕ)
      → i ≤ 1
      → t ≤ done
      → calls.cold_boot_done done ≡ true
      → done + 4 < fuel + t
      → Ends fuel i t false
  before_cold_boot zero i t done small le cold enough = absurd (omega arith)
  before_cold_boot (suc fuel) i t done small le cold enough =
      round fuel i t false (λ e. ground (arith, e))
        (λ more. elim (Bool-cases (calls.cold_boot_done t)) [
          | inl now ↦ rw now (after_cold_boot fuel (i + 1) (t + 1) (omega arith) (omega arith))
          | inr not_now ↦ elim (dec_lt t done) [
            | yes lt ↦ rw not_now (
                before_cold_boot fuel 1 (t + 1) done (omega arith) (omega arith) cold (omega arith))
            | no ge ↦
                let same : t ≡ done = omega arith in
                let both : calls.cold_boot_done t ≡ true = ap calls.cold_boot_done same ∙ cold in
                absurd (ground (arith, both, not_now))
          ]
        ])

  from_start :
      (c : Bool) (done fuel : ℕ)
      → calls.cold_boot_done done ≡ true
      → done + 4 < fuel
      → Ends fuel 0 0 c
  from_start true done fuel cold enough = after_cold_boot fuel 0 0 (omega arith) (omega arith)
  from_start false done fuel cold enough =
      before_cold_boot fuel 0 0 done (omega arith) (omega arith) cold (omega arith)

  -- Once the cold boot is done, in whichever round of the wait, `WaitForDevice` ends. It opens
  -- the device in some round; or it gives up after rounds in which the device did not open, and
  -- not before the cold boot is done.
  pub wait_for_device_ends :
      (done fuel : ℕ)
      → calls.cold_boot_done done ≡ true
      → done + 4 < fuel
      → (r : Result String) × (wait_for_device fuel calls num ≡ some r)
        × WaitOutcome 0 calls.cold_boot_done_before r
  unfolding wait_for_device
  wait_for_device_ends done fuel cold enough =
      from_start calls.cold_boot_done_before done fuel cold enough
