-- ===== src/Populate/Devices.antt =====
-- The loop devices behind a device-mapper device: `PopulateLoopInfo` of apexd/apex_database.cpp.
use platform_system_apex.Base.{
  String, true, false, [], ◌∷◌, ◌≡◌, refl, ◌∙◌, ap, inl, inr, arith, if◌then◌else◌, ◌⊎◌,
}
use platform_system_apex.Base.Result.{Result, ok, err, ◌>>=◌}
use platform_system_apex.Database.{MountedApexData}
use platform_system_apex.Populate.{
  Mounts, Dirs, backing_files, if_loop, get_type, get_property, is_data_loop_device, swap_to_data,
  use_slaves, populate_from_slaves, with_loop, with_hashtree, populate_loop_info, get_slaves,
}

-- What one slave contributes: its backing file, if it is a loop device.
abbrev pub file_of_slave : Mounts → String → Result String
file_of_slave m dev = if_loop (get_type m dev) (get_property m dev "loop/backing_file")

-- The result for a data device and a hashtree device.
abbrev pub data_and_hashtree :
    Mounts → Dirs → String × String → String × String → MountedApexData → Result MountedApexData
data_and_hashtree m dirs a b d =
    if m.starts_with b.1 dirs.apex_hash_tree_dir
    then ok (with_loop a (with_hashtree b d))
    else err "Hashtree loop device has unexpected backing file"

use_slaves-in_order :
    (m : Mounts) (dirs : Dirs) (a b : String × String) (d : MountedApexData)
    → is_data_loop_device m dirs a.1 ≡ true
    → use_slaves m dirs (swap_to_data m dirs (a ∷ b ∷ [])) d ≡ data_and_hashtree m dirs a b d
unfolding use_slaves
use_slaves-in_order m dirs a b d h = ground (arith, h)

use_slaves-swapped :
    (m : Mounts) (dirs : Dirs) (a b : String × String) (d : MountedApexData)
    → is_data_loop_device m dirs a.1 ≡ true
    → is_data_loop_device m dirs b.1 ≡ false
    → use_slaves m dirs (swap_to_data m dirs (b ∷ a ∷ [])) d ≡ data_and_hashtree m dirs a b d
unfolding use_slaves
use_slaves-swapped m dirs a b d h k = ground (arith, h, k)

backing_files_two :
    (m : Mounts) (x y fx fy : String)
    → file_of_slave m x ≡ ok fx
    → file_of_slave m y ≡ ok fy
    → backing_files m (x ∷ y ∷ []) ≡ ok ((x, fx) ∷ (y, fy) ∷ [])
unfolding backing_files
backing_files_two m x y fx fy h k = simp (h, k) refl

-- A dm device with two loop devices whose backing files can be read, one of which is a data file and
-- one not: in whichever order /sys lists the two, `PopulateLoopInfo` takes the first for the loop
-- device and the other for the hashtree device, and refuses exactly where the other's file is not
-- under the directory of hash trees.
pub populate_loop_info_either_order :
    (m : Mounts) (dirs : Dirs) (top x y fx fy : String) (d : MountedApexData)
    → (get_slaves m top ≡ x ∷ y ∷ []) ⊎ (get_slaves m top ≡ y ∷ x ∷ [])
    → file_of_slave m x ≡ ok fx
    → file_of_slave m y ≡ ok fy
    → is_data_loop_device m dirs fx ≡ true
    → is_data_loop_device m dirs fy ≡ false
    → populate_loop_info m dirs top d ≡ data_and_hashtree m dirs (x, fx) (y, fy) d
unfolding populate_loop_info populate_from_slaves
populate_loop_info_either_order m dirs top x y fx fy d (inl e) hx hy t f =
    ap (λ slaves. populate_from_slaves m dirs slaves d) e
    ∙ ap (λ r. r >>= λ files. use_slaves m dirs (swap_to_data m dirs files) d)
        (backing_files_two m x y fx fy hx hy)
    ∙ use_slaves-in_order m dirs (x, fx) (y, fy) d t
populate_loop_info_either_order m dirs top x y fx fy d (inr e) hx hy t f =
    ap (λ slaves. populate_from_slaves m dirs slaves d) e
    ∙ ap (λ r. r >>= λ files. use_slaves m dirs (swap_to_data m dirs files) d)
        (backing_files_two m y x fy fx hy hx)
    ∙ use_slaves-swapped m dirs (x, fx) (y, fy) d t f
