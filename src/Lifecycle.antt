-- ===== src/Lifecycle.antt =====
-- apexd/apexd_lifecycle.cpp: the wait of the daemon for the end of the boot, and
-- `RevertActiveSessionsAndReboot` of apexd/apexd.cpp, which it calls when a process crashes.
pub mod Crash
use platform_system_apex.Base.{
  ℕ, zero, suc, ◌+◌, String, Bool, true, false, not, ◌&&◌, ◌==◌, Option, none, some, if◌then◌else◌,
}
use platform_system_apex.Base.Result.{Result, ok, err, fatal}
use platform_system_apex.Host.{Host, World}
use platform_system_apex.Revert.{revert_active_sessions}

-- What the wait sees of the system, round by round: `boot_completed_`, which another thread sets, and
-- whether `WaitForProperty` finds a process crashing within its 30 seconds, and which one.
pub record Watch : Type 0 where
  pub boot_completed : ℕ → Bool
  pub updatable_crashing : ℕ → Bool
  pub process_name : ℕ → String

-- The world, whether `AbortChanges` of vold was called (its failure is only logged), and how often `Reboot`
-- was, which here returns
pub record Running : Type 0 where
  pub world : World
  pub abort_requested : Bool
  pub reboots : ℕ

abbrev pub reboot : Running → Running
reboot r = record r { reboots = r.reboots + 1 }

abbrev pub abort_if : Bool → Running → Running
abort_if true r = record r { abort_requested = true }
abort_if false r = r

abbrev pub reverted_to : Host → Running → Result (Unit {0}) × World → Result (Unit {0}) × Running
reverted_to host r (ok u, w) =
    (ok tt, reboot (abort_if host.in_fs_checkpoint_mode (record r { world = w })))
reverted_to host r (err e, w) = (err e, record r { world = w })
reverted_to host r (fatal e, w) = (fatal e, record r { world = w })

unfoldable pub revert_active_sessions_and_reboot :
    Host → String → String → Running → Result (Unit {0}) × Running
revert_active_sessions_and_reboot host crashing message r =
    reverted_to host r (revert_active_sessions host crashing message r.world)

abbrev pub k_apex_status_ready : String
k_apex_status_ready = "ready"

abbrev pub k_apex_status_activated : String
k_apex_status_activated = "activated"

-- `IsBooting`, of the value of the property
unfoldable pub is_booting : String → Bool
is_booting status = not (status == k_apex_status_ready) && not (status == k_apex_status_activated)

-- How the wait has ended: the boot is completed, the revert has failed, or it has succeeded; or a failed
-- check has ended the process.
pub data Ending : Type 0 where
  completed : Ending
  revert_failed : Ending
  rebooted : Ending
  died : Ending

abbrev pub after_revert : Result (Unit {0}) × Running → Ending × Running
after_revert (ok u, r) = (rebooted, reboot r)
after_revert (err e, r) = (revert_failed, r)
after_revert (fatal e, r) = (died, r)

-- `WaitForBootStatus` from round `t` on, with the function that reverts; `none` where the fuel is spent.
unfoldable pub wait_for_boot_status :
    ℕ
    → Watch
    → (String → String → Running → Result (Unit {0}) × Running)
    → ℕ
    → Running
    → Option (Ending × Running)
wait_for_boot_status zero watch revert_fn t r = none
wait_for_boot_status (suc fuel) watch revert_fn t r =
    let rest = wait_for_boot_status fuel watch revert_fn (t + 1) r in
    if watch.boot_completed t
    then some (completed, r)
    else if watch.updatable_crashing t
    then some (after_revert (revert_fn (watch.process_name t) "" r))
    else rest
