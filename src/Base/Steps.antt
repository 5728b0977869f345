-- ===== src/Base/Steps.antt =====
-- Functions that change a state `S` and can return early: a step takes the state, and gives a result and
-- the state that it leaves.
use Prim.Native.String.{String}
use mathlib.Core.Bool.{Bool, true, false}
use platform_system_apex.Base.Result.{Result, ok, err, fatal}

abbrev pub Steps {ℓ} : Type 0 → Type ℓ → Type ℓ
Steps S A = S → Result A × S

module _ {ℓ κ} {S : Type 0} {A : Type ℓ} {B : Type κ} where
  abbrev pub next : (A → Steps S B) → Result A × S → Result B × S
  next f (ok a, s) = f a s
  next f (err e, s) = (err e, s)
  next f (fatal e, s) = (fatal e, s)

  infixl 5 ◌>>=◌
  abbrev pub ◌>>=◌ : Steps S A → (A → Steps S B) → Steps S B
  (m >>= f) s = next f (m s)

infixl 5 ◌>>◌
abbrev pub ◌>>◌ {ℓ} : {S : Type 0} {B : Type ℓ} → Steps S (Unit {0}) → Steps S B → Steps S B
(m >> n) s = next (λ u. n) (m s)

abbrev pub lift {ℓ} : {S : Type 0} {A : Type ℓ} → Result A → Steps S A
lift r s = (r, s)

abbrev pub require : {S : Type 0} → Bool → String → Steps S (Unit {0})
require true e s = (ok tt, s)
require false e s = (err e, s)
