-- ===== src/Base/Result.antt =====
-- `android::base::Result<T>`, with one more outcome: a failed `CHECK`, or `LOG(FATAL)`, ends the
-- process. Messages are kept as texts.
use Prim.Native.String.{String}
use native.Mathlib.Omega.{arith}
use mathlib.Core.Path.{◌≡◌, refl}
use mathlib.Core.Bool.{Bool, true, false}
use mathlib.Core.Logic.{◌⊎◌, inl, inr}

pub data Result {ℓ} (A : Type ℓ) : Type ℓ where
  fatal : String → Result A
  err : String → Result A
  ok : A → Result A

module _ {ℓ κ} {A : Type ℓ} {B : Type κ} where
  infixl 5 ◌>>=◌
  abbrev pub ◌>>=◌ : Result A → (A → Result B) → Result B
  fatal message >>= next = fatal message
  err message >>= next = err message
  ok value >>= next = next value

  -- A bind that succeeds is two steps that succeed.
  pub >>=-eq-ok :
      (first : Result A) (next : A → Result B) {out : B}
      → (first >>= next) ≡ ok out
      → (value : A) × (first ≡ ok value) × (next value ≡ ok out)
  >>=-eq-ok (fatal message) next h = cc
  >>=-eq-ok (err message) next h = cc
  >>=-eq-ok (ok value) next h = (value, refl, h)

infixl 5 ◌>>◌
abbrev pub ◌>>◌ {ℓ} : {B : Type ℓ} → Result (Unit {0}) → Result B → Result B
done >> after = done >>= λ u. after

pub ok_injective {ℓ} : {A : Type ℓ} {x y : A} → Path (Result A) (ok x) (ok y) → x ≡ y
ok_injective h = ground (arith, h)

-- A `CHECK`: the process goes on only where the condition holds.
abbrev pub check : Bool → String → Result (Unit {0})
check false message = fatal message
check true message = ok tt

pub Result-cases {ℓ} :
    {A : Type ℓ} (r : Result A)
    → ((a : A) × (r ≡ ok a)) ⊎ ((e : String) × (r ≡ err e)) ⊎ ((e : String) × (r ≡ fatal e))
Result-cases (ok a) = inl (a, refl)
Result-cases (err e) = inr (inl (e, refl))
Result-cases (fatal e) = inr (inr (e, refl))
