-- ===== src/Shim/Update.antt =====
-- Which files may replace the shim APEX.
use platform_system_apex.Base.{
  String, true, some, List, [], ◌∷◌, ◌++◌, ◌==◌, ◌≡◌, refl, sym, ◌∙◌, ◌⊎◌, inl, inr, ◌↔◌, arith,
  eq_iff, eq_refl, any, Member, Bool-cases, if◌then◌else◌,
}
use platform_system_apex.Base.Result.{ok, err}
use platform_system_apex.Shim.{ShimCalls, get_allowed_hashes, validate_update}

pub any-Member : (h : String) (hs : List String) → any (λ a. a == h) hs ≡ true → Member h hs
any-Member h [] e = cc
any-Member h (a ∷ hs) e = elim (Bool-cases (a == h)) [
  | inl same ↦ inl (sym ((eq_iff a h).0 same))
  | inr other ↦ inr (any-Member h hs (ground (arith, e, other)))
]

Member-any : (h : String) (hs : List String) → Member h hs → any (λ a. a == h) hs ≡ true
Member-any h [] m = absurd m
Member-any h (a ∷ hs) (inl e) = rw (← e, eq_refl h) refl
Member-any h (a ∷ hs) (inr m) = ground (arith, Member-any h hs m)

Member-append_one :
    (h a : String) (hs : List String) → Member h (hs ++ a ∷ []) ↔ (Member h hs ⊎ (h ≡ a))
Member-append_one h a [] = (
  λ m. elim m [ inl e ↦ inr e | inr none_left ↦ absurd none_left ],
  λ m. elim m [ inl none_left ↦ absurd none_left | inr e ↦ inl e ],
)
Member-append_one h a (x ∷ hs) =
    let ih = Member-append_one h a hs in
    (
      λ m. elim m [
        | inl e ↦ inl (inl e)
        | inr later ↦ elim (ih.0 later) [ inl k ↦ inl (inr k) | inr e ↦ inr e ]
      ],
      λ m. elim m [
        | inl k ↦ elim k [ inl e ↦ inl e | inr later ↦ inr (ih.1 (inl later)) ]
        | inr e ↦ inr (ih.1 (inr e))
      ],
    )

-- Where the files can be read and hashed, `ValidateUpdate` accepts the new file exactly if its hash is a
-- line of the list in the installed shim APEX, or the hash of the shim APEX of the system.
pub validate_update-exactly :
    (calls : ShimCalls) (system_shim hash_file new_apex_path listed system actual : String)
    → calls.read_file_to_string hash_file ≡ some listed
    → calls.sha512_of system_shim ≡ ok system
    → calls.sha512_of new_apex_path ≡ ok actual
    → (validate_update calls system_shim hash_file new_apex_path ≡ ok tt)
      ↔ (Member actual (calls.split listed "\n") ⊎ (actual ≡ system))
unfolding validate_update get_allowed_hashes
validate_update-exactly calls system_shim hash_file new_apex_path listed system actual r s a =
    let allowed = calls.split listed "\n" ++ system ∷ [] in
    let places = Member-append_one actual system (calls.split listed "\n") in
    let run : validate_update calls system_shim hash_file new_apex_path
        ≡ (if any (λ h. h == actual) allowed then ok tt else err "has unexpected SHA512 hash") =
      simp (r, s, a) refl in
    (
      λ e. places.0 (any-Member actual allowed (ground (arith, sym run ∙ e))),
      λ m. run ∙ rw (Member-any actual allowed (places.1 m)) refl,
    )
