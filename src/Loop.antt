-- ===== src/Loop.antt =====
-- apexd/apexd_loop.cpp: loop devices, from their allocation to their configuration. The calls of the
-- kernel are answered by a record of `LoopCalls`.
pub mod Wait
pub mod Configure
pub mod Allocate
use platform_system_apex.Base.{
  ℕ, zero, suc, ◌+◌, String, ◌^^◌, Bool, true, false, ◌&&◌, ◌||◌, not, Option, none, some, List, [],
  ◌∷◌, ◌++◌, any, eqb, ltb, if◌then◌else◌,
}
use platform_system_apex.Base.Int.{ℤ, pos, to_uint64}
use platform_system_apex.Base.Result.{Result, ok, err, fatal}
use platform_system_apex.Base.Steps.{Steps, next, ◌>>=◌, ◌>>◌, lift, require}
use platform_system_apex.ApexFile.{to_string}

pub record LoopCalls : Type 0 where
  pub wait_for_loop_control : Bool
  pub can_open_loop_control : Bool
  pub get_free : Option ℕ  -- LOOP_CTL_GET_FREE
  pub control_add : ℕ → Bool  -- LOOP_CTL_ADD of a number that is not taken
  pub cold_boot_done : ℕ → Bool  -- the property in a round of the wait
  pub cold_boot_done_before : Bool
  pub opens : ℕ → String → Bool  -- the device in a round of the wait
  pub opens_direct : String → Bool
  pub buffered_fs : String → Bool  -- EROFS, squashfs or overlayfs, as `statfs` says
  pub opens_buffered : String → Bool
  -- what the first call has found out of LOOP_CONFIGURE, by a call with no file
  pub use_loop_configure : Bool
  pub loop_configure : Bool
  pub set_fd : Bool
  pub set_status : Bool
  pub flush : Bool
  pub set_block_size : Bool
  pub clear_fd : Bool
  pub starts_with : String → String → Bool
  pub opens_read_ahead : String → Bool
  pub writes_read_ahead : String → Bool

-- `WaitForDevice`
abbrev pub k_loop_device_retry_attempts : ℕ
k_loop_device_retry_attempts = 3

abbrev pub block_device : ℕ → String
block_device num = "/dev/block/loop" ^^ to_string (pos num)

abbrev pub plain_device : ℕ → String
plain_device num = "/dev/loop" ^^ to_string (pos num)

-- The round `t` of the loop, with its counter `i`, on fuel; `none` where the loop has not ended. The
-- counter is set to 0, and then goes up, as long as the cold boot is not done.
unfoldable pub wait_rounds : ℕ → LoopCalls → ℕ → ℕ → ℕ → Bool → Option (Result String)
wait_rounds zero calls num i t cold_boot_done = none
wait_rounds (suc fuel) calls num i t cold_boot_done =
    let cold = cold_boot_done || calls.cold_boot_done t in
    let rest = wait_rounds fuel calls num (if cold then i + 1 else 1) (t + 1) cold in
    if eqb i k_loop_device_retry_attempts
    then some (err "Faled to open loopback device")
    else if calls.opens t (block_device num)
    then some (ok (block_device num))
    else if calls.opens t (plain_device num)
    then some (ok (plain_device num))
    else rest

unfoldable pub wait_for_device : ℕ → LoopCalls → ℕ → Option (Result String)
unfolding wait_rounds
wait_for_device fuel calls num = wait_rounds fuel calls num 0 0 calls.cold_boot_done_before

-- What the kernel keeps of a loop device that has a file, but for the name "apex:" and the block size,
-- which nothing here reads.
pub record LoopInfo : Type 0 where
  pub backing_file : String
  pub lo_offset : ℕ  -- uint64
  pub lo_sizelimit : ℕ
  pub autoclear : Bool
  pub direct_io : Bool

-- The file that is opened: by direct I/O, else buffered where the file system allows no other.
unfoldable pub open_target : LoopCalls → String → Result (Unit {0})
open_target calls target =
    if calls.opens_direct target
    then ok tt
    else if calls.buffered_fs target
    then if calls.opens_buffered target then ok tt else err "Failed to open"
    else err "Failed to open"

-- An ioctl that changes the device where it succeeds.
abbrev pub ioctl :
    Bool → String → (Option LoopInfo → Option LoopInfo) → Steps (Option LoopInfo) (Unit {0})
ioctl true message effect device = (ok tt, effect device)
ioctl false message effect device = (err message, device)

-- `LOOP_SET_FD` of a device
abbrev pub with_file : String → Option LoopInfo → Option LoopInfo
with_file target device = some (record {
  backing_file = target;
  lo_offset = 0;
  lo_sizelimit = 0;
  autoclear = false;
  direct_io = false;
})

-- `LOOP_SET_STATUS64`
abbrev pub with_status : ℤ → ℕ → Option LoopInfo → Option LoopInfo
with_status offset size none = none
with_status offset size (some info) =
    some (record info { lo_offset = to_uint64 offset; lo_sizelimit = size; autoclear = true })

-- `LOOP_CONFIGURE`
abbrev pub with_config : String → ℤ → ℕ → Option LoopInfo → Option LoopInfo
with_config target offset size device = some (record {
  backing_file = target;
  lo_offset = to_uint64 offset;
  lo_sizelimit = size;
  autoclear = true;
  direct_io = true;
})

-- `LOOP_SET_BLOCK_SIZE`, after which the kernel turns direct I/O on; a failure is only logged.
abbrev pub with_direct_io : Bool → Option LoopInfo → Option LoopInfo
with_direct_io set none = none
with_direct_io set (some info) = some (record info { direct_io = set })

abbrev pub configure_by : Bool → LoopCalls → String → ℤ → ℕ → Steps (Option LoopInfo) (Unit {0})
configure_by true calls target offset size =
    ioctl calls.loop_configure "Failed to LOOP_CONFIGURE" (with_config target offset size)
configure_by false calls target offset size = do
  ioctl calls.set_fd "Failed to LOOP_SET_FD" (with_file target)
  ioctl calls.set_status "Failed to LOOP_SET_STATUS64" (with_status offset size)
  ioctl calls.flush "Failed to flush buffers on the loop device" (λ d. d)
  ioctl true "" (with_direct_io (calls.set_block_size && calls.opens_direct target))

unfoldable pub configure_loop_device :
    LoopCalls → String → ℤ → ℕ → Steps (Option LoopInfo) (Unit {0})
unfolding open_target
configure_loop_device calls target image_offset image_size =
    lift (open_target calls target)
    >> configure_by calls.use_loop_configure calls target image_offset image_size

unfoldable pub configure_read_ahead : LoopCalls → String → Result (Unit {0})
configure_read_ahead calls device_path =
    if not (calls.starts_with device_path "/dev/")
    then fatal "Check failed"
    else if calls.opens_read_ahead device_path
    then if calls.writes_read_ahead device_path then ok tt else err "Failed to write"
    else err "Failed to open"

-- What the end of a `LoopbackDeviceUniqueFd` does on an error: `MaybeCloseBad`.
abbrev pub close_bad :
    LoopCalls → String → Result (Unit {0}) × Option LoopInfo → Result String × Option LoopInfo
close_bad calls name (ok u, device) = (ok name, device)
close_bad calls name (err e, device) = (err e, if calls.clear_fd then none else device)
close_bad calls name (fatal e, device) = (fatal e, device)

abbrev pub configure_opened :
    LoopCalls → String → ℤ → ℕ → Result String → Steps (Option LoopInfo) String
configure_opened calls target offset size (ok name) device = close_bad calls name (
    (configure_loop_device calls target offset size >> lift (configure_read_ahead calls name))
      device)
configure_opened calls target offset size (err e) device = (err e, device)
configure_opened calls target offset size (fatal e) device = (fatal e, device)

abbrev pub configure_found :
    LoopCalls
    → String
    → ℤ
    → ℕ
    → Option (Result String)
    → Option LoopInfo
    → Option (Result String × Option LoopInfo)
configure_found calls target offset size none device = none
configure_found calls target offset size (some r) device =
    some (configure_opened calls target offset size r device)

abbrev pub create_numbered :
    ℕ
    → LoopCalls
    → String
    → ℤ
    → ℕ
    → Option ℕ
    → Option LoopInfo
    → Option (Result String × Option LoopInfo)
create_numbered fuel calls target offset size none device =
    some (err "Failed LOOP_CTL_GET_FREE", device)
create_numbered fuel calls target offset size (some num) device =
    configure_found calls target offset size (wait_for_device fuel calls num) device

-- `CreateLoopDevice`, on the state of the device that is found free; `none` where its wait has not ended.
unfoldable pub create_loop_device :
    ℕ → LoopCalls → String → ℤ → ℕ → Option LoopInfo → Option (Result String × Option LoopInfo)
unfolding wait_for_device configure_loop_device configure_read_ahead
create_loop_device fuel calls target image_offset image_size device =
    if calls.can_open_loop_control
    then create_numbered fuel calls target image_offset image_size calls.get_free device
    else some (err "Failed to open loop-control", device)

-- `PreAllocateLoopDevices`: the numbers in the names of devices, each where one parses.
unfoldable pub highest_id : List (Option ℕ) → ℕ → Bool → ℕ × Bool
highest_id [] start_id found = (start_id, found)
highest_id (none ∷ names) start_id found = highest_id names start_id found
highest_id (some id ∷ names) start_id found =
    highest_id names (if ltb start_id id then id else start_id) (ltb start_id id || found)

unfoldable pub first_id : List (Option ℕ) → ℕ
unfolding highest_id
first_id names =
    let (start_id, found) = highest_id names 0 false in if found then start_id + 1 else start_id

-- Devices `id`, `id + 1` and so on, `num` in all. A number that is taken is no error (`EEXIST`).
unfoldable pub add_devices : LoopCalls → ℕ → ℕ → Steps (List ℕ) (Unit {0})
add_devices calls zero id devices = (ok tt, devices)
add_devices calls (suc num) id devices =
    if any (λ d. eqb d id) devices
    then add_devices calls num (id + 1) devices
    else if calls.control_add id
    then add_devices calls num (id + 1) (id ∷ devices)
    else (err "Failed LOOP_CTL_ADD", devices)

unfoldable pub pre_allocate_loop_devices :
    LoopCalls → List (Option ℕ) → ℕ → Steps (List ℕ) (Unit {0})
unfolding first_id add_devices
pre_allocate_loop_devices calls names num = do
  require calls.wait_for_loop_control "wait for /dev/loop-control failed"
  require calls.can_open_loop_control "Failed to open loop-control"
  add_devices calls num (first_id names)
