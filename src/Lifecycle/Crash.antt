-- ===== src/Lifecycle/Crash.antt =====
-- What happens when a process crashes before the boot is completed.
use platform_system_apex.Base.{
  ℕ, zero, suc, ◌+◌, ◌<◌, ◌≤◌, String, Bool, true, false, some, ◌==◌, ◌≡◌, refl, sym, ap, ◌∙◌,
  arith, if◌then◌else◌, is_empty, branch_true, branch_false,
}
use platform_system_apex.Base.Result.{Result, ok}
use platform_system_apex.Session.{State, file_of, get_active_sessions, is_active}
use platform_system_apex.Session.Store.{WellFormed, updated}
use platform_system_apex.Host.{Host}
use platform_system_apex.Host.Writes.{WritesOk}
use platform_system_apex.Revert.{revert_active_sessions}
use platform_system_apex.Revert.Final.{CanRestore, revert_active_sessions_reverts}
use platform_system_apex.Lifecycle.{
  Watch, Running, rebooted, after_revert, reverted_to, abort_if, reboot,
  revert_active_sessions_and_reboot, wait_for_boot_status,
}

-- Nothing happens before round `n`.
abbrev pub Quiet : Watch → ℕ → Type 0
Quiet watch n =
    (k : ℕ) → k < n → (watch.boot_completed k ≡ false) × (watch.updatable_crashing k ≡ false)

module _ (watch : Watch) (revert_fn : String → String → Running → Result (Unit {0}) × Running) where
  -- The wait from round `t` on sees the crash in round `k`, and ends as the revert does.
  crash_in :
      (fuel n t k : ℕ) (r : Running)
      → n < fuel
      → k ≡ t + n
      → ((j : ℕ)
          → t ≤ j
          → j < k
          → (watch.boot_completed j ≡ false) × (watch.updatable_crashing j ≡ false))
      → watch.boot_completed k ≡ false
      → watch.updatable_crashing k ≡ true
      → wait_for_boot_status fuel watch revert_fn t r
        ≡ some (after_revert (revert_fn (watch.process_name k) "" r))
  unfolding wait_for_boot_status
  crash_in zero n t k r enough at quiet going crash = absurd (omega arith)
  crash_in (suc fuel) zero t k r enough at quiet going crash =
      let here : k ≡ t = omega arith in
      branch_false _ _ (ap watch.boot_completed (sym here) ∙ going)
      ∙ branch_true _ _ (ap watch.updatable_crashing (sym here) ∙ crash)
      ∙ ap (λ j. some (after_revert (revert_fn (watch.process_name j) "" r))) (sym here)
  crash_in (suc fuel) (suc n) t k r enough at quiet going crash =
      let (not_yet, calm) = quiet t (omega arith) (omega arith) in
      branch_false _ _ not_yet
      ∙ branch_false _ _ calm
      ∙ crash_in fuel n (t + 1) k r (omega arith) (omega arith)
          (λ j le lt. quiet j (omega arith) lt) going crash

abort_if-keeps :
    (b : Bool) (r : Running)
    → ((abort_if b r).world ≡ r.world) × ((abort_if b r).reboots ≡ r.reboots)
abort_if-keeps true r = (refl, refl)
abort_if-keeps false r = (refl, refl)

-- When a process crashes in the first round in which anything happens, before the boot is completed, some
-- session is active, and the state files can be written and the active packages restored (or the device has checkpoints): `WaitForBootStatus` ends in that
-- round with a reboot. The state file of each active session says REVERTED then, with a note that
-- names the crashing process if it has a name, and all other sessions are as they were.
pub wait_for_boot_status-reverts :
    (host : Host) (watch : Watch) (n fuel i : ℕ) (r : Running)
    → n < fuel
    → Quiet watch n
    → watch.boot_completed n ≡ false
    → watch.updatable_crashing n ≡ true
    → WritesOk host
    → WellFormed r.world.sessions
    → is_empty (get_active_sessions r.world.sessions) ≡ false
    → CanRestore host
    → (r' : Running) × (wait_for_boot_status fuel watch (revert_active_sessions_and_reboot host) 0 r
        ≡ some (rebooted, r'))
      × (r.reboots < r'.reboots)
      × (file_of i r'.world.sessions
          ≡ updated is_active
              (λ s. record s {
                state = State.reverted;
                crashing_native_process =
                    if watch.process_name n == ""
                    then s.crashing_native_process
                    else watch.process_name n;
              })
              (file_of i r.world.sessions))
unfolding revert_active_sessions_and_reboot
wait_for_boot_status-reverts host watch n fuel i r enough quiet going crash writes well active can =
    let name = watch.process_name n in
    let reverted = revert_active_sessions host name "" r.world in
    let (succeeds, files) =
      revert_active_sessions_reverts host name "" r.world writes well active i can in
    let back : Running = record r { world = reverted.1 } in
    let aborted = abort_if host.in_fs_checkpoint_mode back in
    let (same_world, same_reboots) = abort_if-keeps host.in_fs_checkpoint_mode back in
    let run : reverted ≡ (ok tt, reverted.1) =
      ap (λ (q : Result (Unit {0})). (q, reverted.1)) succeeds in
    (
      reboot (reboot aborted),
      crash_in watch (revert_active_sessions_and_reboot host) fuel n 0 n r enough (omega arith)
            (λ j le lt. quiet j lt) going crash
          ∙ ap (λ q. some (after_revert (reverted_to host r q))) run,
      omega (arith, same_reboots),
      ap (λ w. file_of i w.sessions) same_world ∙ files,
    )
