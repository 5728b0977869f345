-- ===== src/Loop/Configure.antt =====
-- What a loop device is configured to, and that it is given back where that fails.
use mathlib.Core.Path.{subst}
use platform_system_apex.Base.{
  ℕ, String, Bool, true, false, Option, none, some, ◌≡◌, inl, inr, refl, Bool-cases, ap, sym,
  branch_true, branch_false, ◌+◌, ◌<◌,
}
use platform_system_apex.Base.Int.{ℤ, to_uint64}
use platform_system_apex.Base.Result.{Result, ok, err, fatal}
use platform_system_apex.Base.Steps.{next, lift}
use platform_system_apex.Loop.Wait.{wait_for_device_ends}
use platform_system_apex.Loop.{
  LoopCalls, LoopInfo, open_target, configure_loop_device, configure_by, configure_read_ahead,
  configure_opened, configure_found, create_numbered, close_bad, wait_for_device,
  create_loop_device,
}

-- The device shows the part of the file that was asked for, and goes free with its last user.
abbrev pub Shows : String → ℤ → ℕ → Option LoopInfo → Type 0
Shows target offset size none = ⊥
Shows target offset size (some info) =
    (info.backing_file ≡ target)
    × (info.lo_offset ≡ to_uint64 offset)
    × (info.lo_sizelimit ≡ size)
    × (info.autoclear ≡ true)

abbrev pub Created : String → ℤ → ℕ → Result String × Option LoopInfo → Type 0
Created target offset size (ok name, device) = Shows target offset size device
Created target offset size (err e, device) = device ≡ none
Created target offset size (fatal e, device) = Unit

abbrev Configured : String → ℤ → ℕ → Result (Unit {0}) × Option LoopInfo → Type 0
Configured target offset size (ok u, device) = Shows target offset size device
Configured target offset size (err e, device) = Unit
Configured target offset size (fatal e, device) = Unit

module _ (calls : LoopCalls) (target : String) (offset : ℤ) (size : ℕ) where
  configure_by-Configured :
      (atomic : Bool) (device : Option LoopInfo)
      → Configured target offset size (configure_by atomic calls target offset size device)
  configure_by-Configured true device = elim (Bool-cases calls.loop_configure) [
    | inl e ↦ rw e (refl, refl, refl, refl)
    | inr e ↦ rw e tt
  ]
  configure_by-Configured false device = elim (Bool-cases calls.set_fd) [
    | inl f ↦ elim (Bool-cases calls.set_status) [
      | inl s ↦ elim (Bool-cases calls.flush) [
        | inl l ↦ rw (f, s, l) (refl, refl, refl, refl)
        | inr l ↦ rw (f, s, l) tt
      ]
      | inr s ↦ rw (f, s) tt
    ]
    | inr f ↦ rw f tt
  ]

  after_open :
      (r : Result (Unit {0})) (device : Option LoopInfo)
      → Configured target offset size
          (next (λ u. configure_by calls.use_loop_configure calls target offset size) (r, device))
  after_open (ok u) device = configure_by-Configured calls.use_loop_configure device
  after_open (err e) device = tt
  after_open (fatal e) device = tt

  then_lift :
      (p : Result (Unit {0}) × Option LoopInfo) (r : Result (Unit {0}))
      → Configured target offset size p
      → Configured target offset size (next (λ u. lift r) p)
  then_lift (ok u, device) (ok v) c = c
  then_lift (ok u, device) (err e) c = tt
  then_lift (ok u, device) (fatal e) c = tt
  then_lift (err e, device) r c = tt
  then_lift (fatal e, device) r c = tt

  close_bad-Created :
      (name : String) (p : Result (Unit {0}) × Option LoopInfo)
      → calls.clear_fd ≡ true
      → Configured target offset size p
      → Created target offset size (close_bad calls name p)
  close_bad-Created name (ok u, device) clear c = c
  close_bad-Created name (err e, device) clear c = rw clear refl
  close_bad-Created name (fatal e, device) clear c = tt

  opened-Created :
      (r : Result String)
      → calls.clear_fd ≡ true
      → Created target offset size (configure_opened calls target offset size r none)
  unfolding configure_loop_device
  opened-Created (ok name) clear =
      close_bad-Created name _ clear
        (then_lift _ (configure_read_ahead calls name) (after_open (open_target calls target) none))
  opened-Created (err e) clear = refl
  opened-Created (fatal e) clear = tt

  abbrev EndsCreated : Option (Result String × Option LoopInfo) → Type 0
  EndsCreated found =
      (r : Result String × Option LoopInfo) × (found ≡ some r) × Created target offset size r

  numbered-Created :
      (fuel : ℕ) (free : Option ℕ)
      → calls.clear_fd ≡ true
      → ((num : ℕ) → (r : Result String) × (wait_for_device fuel calls num ≡ some r))
      → EndsCreated (create_numbered fuel calls target offset size free none)
  numbered-Created fuel none clear wait = ((err "Failed LOOP_CTL_GET_FREE", none), refl, refl)
  numbered-Created fuel (some num) clear wait =
      let (r, run) = wait num in
      (
        configure_opened calls target offset size r none,
        ap (λ f. configure_found calls target offset size f none) run,
        opened-Created r clear,
      )

  -- On a free device of which the kernel lets go, with the cold boot done in some round of the wait,
  -- `CreateLoopDevice` ends. If it succeeds, the device shows the file from the offset on, as a
  -- `uint64`, with the size, and goes free with its last user, whichever ioctls have configured it.
  -- If it fails, the device is free.
  pub create_loop_device-Created :
      (done fuel : ℕ)
      → calls.clear_fd ≡ true
      → calls.cold_boot_done done ≡ true
      → done + 4 < fuel
      → (r : Result String × Option LoopInfo) × (create_loop_device fuel calls target offset size
            none
          ≡ some r)
        × Created target offset size r
  unfolding create_loop_device
  create_loop_device-Created done fuel clear cold enough =
      let created = numbered-Created fuel calls.get_free clear (λ num.
        let (r, run, outcome) = wait_for_device_ends calls num done fuel cold enough in (r, run)) in
      elim (Bool-cases calls.can_open_loop_control) [
        | inl can ↦ subst EndsCreated (sym (branch_true _ _ can)) created
        | inr cannot ↦ ((err "Failed to open loop-control", none), branch_false _ _ cannot, refl)
      ]
