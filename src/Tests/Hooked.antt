-- ===== src/Tests/Hooked.antt =====
-- A hook of one of two packages, and a crash before the boot is completed.
use platform_system_apex.Base.{
  ◌<◌, String, true, false, some, [], ◌∷◌, ◌≡◌, refl, arith, inl, inr, eqb, Member,
}
use platform_system_apex.Base.Result.{ok}
use platform_system_apex.ApexFile.{ApexFile, ApexManifest, get_package_temp_mount_point}
use platform_system_apex.Database.{MountedApexData, mounts_of, add_mounted_apex}
use platform_system_apex.Session.{State, file_of, get_active_sessions}
use platform_system_apex.Hooks.{
  HookCalls, mount_each, run_with_hooks, pre_postinstall_packages, stage_fn_install,
}
use platform_system_apex.Unmount.{get_temp_mounted_apex_data}
use platform_system_apex.Hooks.Clean.{pre_postinstall_packages-unmounts}
use platform_system_apex.Hooks.Arguments.{stage_fn_install-runs}
use platform_system_apex.Lifecycle.{
  Watch, Running, rebooted, wait_for_boot_status, revert_active_sessions_and_reboot,
}
use platform_system_apex.Lifecycle.Crash.{wait_for_boot_status-reverts}
use platform_system_apex.Tests.Staged.{well}
use platform_system_apex.Tests.{host, session, world, wifi_data, wifi_system}

abbrev hooked : ApexFile
hooked = record wifi_data { manifest = record wifi_data.manifest { pre_install_hook = "bin/hook" } }

abbrev mounted : MountedApexData
mounted = record {
  loop_name = "/dev/block/loop4";
  full_path = "/data/apex/active/wifi@2.apex";
  mount_point = "/apex/wifi@2.tmp";
  device_name = "";
  hashtree_loop_name = "";
  deleted = false;
  is_temp_mount = true;
}

abbrev calls : HookCalls
calls = record { temp_mount = λ apex. ok mounted; fork_and_run = λ args. ok tt }

abbrev pre : ApexManifest → String
pre = λ m. m.pre_install_hook

pre_postinstall_packages-unmounts_example :
    (mounts_of
        (pre_postinstall_packages pre "--pre-install" calls
          (wifi_system ∷ hooked ∷ [])
          (record { mounted_apexes = [] })).1.1
        "wifi"
        true
      ≡ [])
    × Member mounted
        (pre_postinstall_packages pre "--pre-install" calls
          (wifi_system ∷ hooked ∷ [])
          (record { mounted_apexes = [] })).1.0
unfolding pre_postinstall_packages run_with_hooks mount_each mounts_of add_mounted_apex
    get_temp_mounted_apex_data get_package_temp_mount_point
pre_postinstall_packages-unmounts_example =
    pre_postinstall_packages-unmounts pre "--pre-install" calls (wifi_system ∷ hooked ∷ [])
      (record { mounted_apexes = [] }) hooked mounted (inr (inl refl)) (inl refl) refl

stage_fn_install-runs_example :
    stage_fn_install pre "--pre-install" calls
      (wifi_system ∷ hooked ∷ [])
      ("/apex/a" ∷ "/apex/b" ∷ [])
    ≡ ok tt
stage_fn_install-runs_example =
    stage_fn_install-runs pre "--pre-install" calls (wifi_system ∷ []) [] hooked ("/apex/a" ∷ []) []
      "/apex/b" refl refl refl

-- A process crashes in the third round.
abbrev watch : Watch
watch = record {
  boot_completed = λ t. false;
  updatable_crashing = λ t. eqb t 2;
  process_name = λ t. "init";
}

abbrev running : Running
running = record { world = world State.activated; abort_requested = false; reboots = 0 }

wait_for_boot_status-reverts_example :
    (r' : Running) × (wait_for_boot_status 5 watch
        (revert_active_sessions_and_reboot host)
        0
        running
      ≡ some (rebooted, r'))
    × (0 < r'.reboots)
    × (file_of 7 r'.world.sessions
        ≡ some (record (session 7 State.reverted) { crashing_native_process = "init" }))
unfolding get_active_sessions file_of
wait_for_boot_status-reverts_example =
    wait_for_boot_status-reverts host watch 2 5 7 running (omega arith)
      (λ k lt. (refl, ground arith)) refl refl (λ s. refl) (well State.activated) refl (inr refl)
