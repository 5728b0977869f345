-- ===== src/Tests/Loops.antt =====
-- A loop device that appears late, and devices that are allocated in advance.
use platform_system_apex.Base.{
  true, false, String, Option, none, some, ◌≡◌, ◌==◌, refl, arith, ltb, if◌then◌else◌,
}
use platform_system_apex.Base.Int.{pos}
use platform_system_apex.Base.Result.{Result}
use platform_system_apex.Loop.{LoopCalls, LoopInfo, wait_for_device, create_loop_device}
use platform_system_apex.Loop.Wait.{WaitOutcome, wait_for_device_ends}
use platform_system_apex.Loop.Configure.{Created, create_loop_device-Created}

-- `ueventd` is done after five rounds, and makes /dev/loop4 then.
abbrev calls : LoopCalls
calls = record {
  wait_for_loop_control = true;
  can_open_loop_control = true;
  get_free = some 4;
  control_add = λ id. true;
  cold_boot_done = λ t. ltb 4 t;
  cold_boot_done_before = false;
  opens = λ t name. if ltb 4 t then name == "/dev/loop4" else false;
  opens_direct = λ target. true;
  buffered_fs = λ target. false;
  opens_buffered = λ target. false;
  use_loop_configure = false;
  loop_configure = false;
  set_fd = true;
  set_status = true;
  flush = true;
  set_block_size = true;
  clear_fd = true;
  starts_with = λ s prefix. true;
  opens_read_ahead = λ path. true;
  writes_read_ahead = λ path. true;
}

wait_for_device_ends_example :
    (r : Result String) × (wait_for_device 10 calls 4 ≡ some r) × WaitOutcome calls 4 0 false r
wait_for_device_ends_example = wait_for_device_ends calls 4 5 10 refl (omega arith)

create_loop_device-Created_example :
    (r : Result String × Option LoopInfo) × (create_loop_device 10 calls "/system/apex/wifi.apex"
        (pos 4096)
        8192
        none
      ≡ some r)
    × Created "/system/apex/wifi.apex" (pos 4096) 8192 r
create_loop_device-Created_example =
    create_loop_device-Created calls "/system/apex/wifi.apex" (pos 4096) 8192 5 10 refl refl
      (omega arith)
