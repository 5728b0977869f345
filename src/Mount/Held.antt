-- ===== src/Mount/Held.antt =====
-- What `MountPackageImpl` of apexd/apexd.cpp holds at each point before it mounts.
use platform_system_apex.Base.{
  String, Bool, true, false, Option, none, some, List, ◌∷◌, ◌≡◌, refl, ap, ◌∙◌, inl, inr,
  if◌then◌else◌, Bool-cases, eqb,
}
use platform_system_apex.Base.Result.{Result, ok, err, fatal}
use platform_system_apex.ApexFile.{ApexFile, name_of}
use platform_system_apex.Database.{MountedApexData}
use platform_system_apex.Repository.{ApexFileRepository, get_public_key}
use platform_system_apex.Base.Steps.{next, lift}
use platform_system_apex.Mount.{Device, Resources, Mounting, VerityData, M, has_name}
use platform_system_apex.Mount.Package.{
  try_loop, hold_device, create_verity_device, prepare_hash_device, put_on_verity, mount_on_verity,
  prepare_device, start, first_data, has_image,
}

abbrev pub opt : Option String → List String → List String
opt none names = names
opt (some name) names = name ∷ names

-- The function holds a loop device, a hash loop and a dm device, or not, on top of `k`.
abbrev pub state_of : Option String → Option String → Option String → Resources → Mounting
state_of lo h v k = record {
  loopback_device = lo;
  verity_dev = v;
  loop_for_hash = h;
  res = record k { loops = opt h (opt lo k.loops); devices = opt v k.devices };
}

-- Where a step ends: with a value that fits what is held, or with an error.
abbrev pub Outcome :
    {A : Type 0}
    → (A → Option String → Option String → Option String → Type 0)
    → Resources
    → Result A × Mounting
    → Type 0
Outcome P k (ok a, s) =
    (lo : Option String) × (h : Option String) × (v : Option String) × (s ≡ state_of lo h v k)
    × P a lo h v
Outcome P k (err e, s) =
    (lo : Option String) × (h : Option String) × (v : Option String) × (s ≡ state_of lo h v k)
Outcome P k (fatal e, s) = Unit

module _ {A : Type 0} {B : Type 0} (Q : B → Option String → Option String → Option String → Type 0)
    (k : Resources) (f : A → M B) where
  next-lift :
      (r : Result A) (lo h v : Option String)
      → ((a : A) → r ≡ ok a → Outcome Q k (f a (state_of lo h v k)))
      → Outcome Q k (next f (r, state_of lo h v k))
  next-lift (ok a) lo h v g = g a refl
  next-lift (err e) lo h v g = (lo, h, v, refl)
  next-lift (fatal e) lo h v g = tt

  next-Outcome :
      (P : A → Option String → Option String → Option String → Type 0) (r : Result A × Mounting)
      → Outcome P k r
      → ((a : A) (lo h v : Option String) → P a lo h v → Outcome Q k (f a (state_of lo h v k)))
      → Outcome Q k (next f r)
  next-Outcome P (ok a, s) (lo, h, v, e, p) g = rw e (g a lo h v p)
  next-Outcome P (err e, s) o g = o
  next-Outcome P (fatal e, s) o g = tt

-- The names in the data are those of what is held.
abbrev pub name_or_empty : Option String → String
name_or_empty none = ""
name_or_empty (some name) = name

pub record Describes (apex : ApexFile) (mount_point : String) (temp : Bool) (d : MountedApexData)
    (lo h v : Option String) : Type 0 where
  pub loop : lo ≡ some d.loop_name
  pub hash : name_or_empty h ≡ d.hashtree_loop_name
  pub device : name_or_empty v ≡ d.device_name
  pub path : d.full_path ≡ apex.apex_path
  pub point : d.mount_point ≡ mount_point
  pub is_temp : d.is_temp_mount ≡ temp
  pub not_deleted : d.deleted ≡ false

module _ (dev : Device) (apex : ApexFile) (mount_point : String) (temp : Bool) (k : Resources) where
  abbrev Fits : MountedApexData → Option String → Option String → Option String → Type 0
  Fits = Describes apex mount_point temp

  abbrev FitsNoDevice : MountedApexData → Option String → Option String → Option String → Type 0
  FitsNoDevice d lo h v = (v ≡ none) × Describes apex mount_point temp d lo h v

  with_hash-Describes :
      (hash : String) (d : MountedApexData) (l : String)
      → Fits d (some l) none none
      → Fits (record d { hashtree_loop_name = hash }) (some l) (some hash) none
  with_hash-Describes hash d l p = record {
    loop = p.loop;
    hash = refl;
    device = p.device;
    path = p.path;
    point = p.point;
    is_temp = p.is_temp;
    not_deleted = p.not_deleted;
  }

  prepare_hash_device-Outcome :
      (verity : VerityData) (file : String) (d : MountedApexData) (l : String)
      → Fits d (some l) none none
      → Outcome FitsNoDevice k
          (prepare_hash_device dev apex verity file d (state_of (some l) none none k))
  unfolding prepare_hash_device
  prepare_hash_device-Outcome verity file d l p = elim (Bool-cases (eqb verity.tree_size 0)) [
    | inl t ↦
        rw (t, prepare_hash_device)
          (next-lift FitsNoDevice k _ (dev.prepare_hash_tree apex verity file) (some l) none none
            (λ u e.
              next-lift FitsNoDevice k _ (dev.create_loop_device 1 file) (some l) none none
                (λ hash g.
                  (some l, some hash, none, refl, (refl, with_hash-Describes hash d l p)))))
    | inr f ↦ rw (f, prepare_hash_device) (some l, none, none, refl, (refl, p))
  ]

  abbrev pub FitsPath :
      String × MountedApexData → Option String → Option String → Option String → Type 0
  FitsPath (path, d) lo h v = Describes apex mount_point temp d lo h v

  abbrev IsDevice :
      String
      → Option String
      → Option String
      → String
      → Option String
      → Option String
      → Option String
      → Type 0
  IsDevice name lo h path lo' h' v' = (lo' ≡ lo) × (h' ≡ h) × (v' ≡ some name)

  hold_device-Outcome :
      (name : String) (lo h : Option String) (o : Option String)
      → Outcome (IsDevice name lo h) k (hold_device name (state_of lo h none k) o)
  hold_device-Outcome name lo h none = (lo, h, none, refl)
  hold_device-Outcome name lo h (some path) = (lo, h, some name, refl, (refl, refl, refl))

  create_verity_device-Outcome :
      (name : String) (lo h : Option String)
      → has_name name k.devices ≡ false
      → Outcome (IsDevice name lo h) k (create_verity_device dev name (state_of lo h none k))
  unfolding create_verity_device
  create_verity_device-Outcome name lo h fresh =
      rw (fresh, create_verity_device) (hold_device-Outcome name lo h _)

  held-Describes :
      (name path : String) (d : MountedApexData) (lo h v : Option String)
      → Describes apex mount_point temp d lo h v
      → (lo' h' v' : Option String) → IsDevice name lo h path lo' h' v'
      → Describes apex mount_point temp (record d { device_name = name }) lo' h' v'
  held-Describes name path d lo h v q lo' h' v' (a, b, c) = record {
    loop = a ∙ q.loop;
    hash = ap name_or_empty b ∙ q.hash;
    device = ap name_or_empty c;
    path = q.path;
    point = q.point;
    is_temp = q.is_temp;
    not_deleted = q.not_deleted;
  }

  put_on_verity-Outcome :
      (verity : VerityData) (name file : String) (verify : Bool) (d : MountedApexData) (l : String)
      → has_name name k.devices ≡ false
      → Fits d (some l) none none
      → Outcome FitsPath k
          (put_on_verity dev apex verity name file verify d (state_of (some l) none none k))
  unfolding put_on_verity
  put_on_verity-Outcome verity name file verify d l fresh p =
      next-Outcome FitsPath k _ FitsNoDevice _ (prepare_hash_device-Outcome verity file d l p)
        (λ d' lo h v q. rw q.0 (
          next-Outcome FitsPath k _ (IsDevice name lo h) _
            (create_verity_device-Outcome name lo h fresh)
            (λ path lo' h' v' held.
              next-lift FitsPath k _ (dev.configure_read_ahead path) lo' h' v' (λ u e.
                next-lift FitsPath k _
                  (if verify then dev.read_verity_device path verity.image_size else ok tt) lo' h'
                  v'
                  (λ u' e'.
                    (lo', h', v', refl, held-Describes name path d' lo h v q.1 lo' h' v' held))))))

  first_data-Describes :
      (loop : String) → Fits (first_data loop apex.apex_path mount_point temp) (some loop) none none
  first_data-Describes loop = record {
    loop = refl;
    hash = refl;
    device = refl;
    path = refl;
    point = refl;
    is_temp = refl;
    not_deleted = refl;
  }

  if_on_verity :
      (b : Bool) (verity : VerityData) (name file : String) (verify : Bool) (loop : String)
      → has_name name k.devices ≡ false
      → Outcome FitsPath k (
          (if b
              then put_on_verity dev apex verity name file verify
                  (first_data loop apex.apex_path mount_point temp)
              else lift (ok (loop, first_data loop apex.apex_path mount_point temp)))
            (state_of (some loop) none none k))
  if_on_verity true verity name file verify loop fresh =
      put_on_verity-Outcome verity name file verify _ loop fresh (first_data-Describes loop)
  if_on_verity false verity name file verify loop fresh =
      (some loop, none, none, refl, first_data-Describes loop)

  pub prepare_device-Outcome :
      (repo : ApexFileRepository) (name file : String) (verify : Bool)
      → has_name name k.devices ≡ false
      → Outcome FitsPath k
          (prepare_device dev repo apex mount_point name file verify temp (start k))
  unfolding prepare_device
  prepare_device-Outcome repo name file verify fresh =
      elim (Bool-cases (dev.is_empty_directory mount_point)) [
        | inr f ↦ rw (f, prepare_device) (none, none, none, refl)
        | inl t ↦ elim (Bool-cases (has_image apex.image_offset apex.image_size)) [
          | inr f ↦ rw (t, f, prepare_device) (none, none, none, refl)
          | inl t' ↦
              rw (t, t', prepare_device)
                (next-lift FitsPath k _ (try_loop dev apex.apex_path 3 1) none none none (λ loop e.
                  next-lift FitsPath k _ (get_public_key repo (name_of apex)) (some loop) none none
                    (λ key e'.
                      next-lift FitsPath k _ (dev.verify_apex_verity apex key) (some loop) none none
                        (λ verity e''.
                          if_on_verity (mount_on_verity repo apex) verity name file verify loop
                            fresh))))
        ]
      ]
