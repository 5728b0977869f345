-- ===== src/ApexFile/PackageId.antt =====
-- Package ids (apexd/apex_manifest.cpp) tell packages and versions apart.
use Prim.Native.Char.{code}
use text.Mathlib.TextLemmas.{nil-append, cons-append, append_cancel_left}
use platform_system_apex.Base.{
  ℕ, zero, suc, ◌+◌, ◌-◌, ◌*◌, ◌/◌, ◌%◌, ◌<◌, ◌≤◌, String, ◌^^◌, ◌≡◌, refl, sym, ap, ◌∙◌, ◌≢◌,
  arith, inl, inr, Bool-cases, ltb, eqb, if◌then◌else◌,
}
use platform_system_apex.Base.Int.{ℤ, pos, negsuc}
use platform_system_apex.ApexFile.{
  ApexManifest, digit, digits, to_string, get_package_id, get_package_mount_point,
}

-- The number that a text of digits stands for, after the digits of `acc`.
unfoldable pub value : ℕ → String → ℕ
value acc String.[] = acc
value acc (String.◌∷◌ c s) = value (acc * 10 + (code c - 48)) s

code-digit : (n : ℕ) → n < 10 → code (digit n) ≡ 48 + n
unfolding digit
code-digit zero h = refl
code-digit (suc zero) h = refl
code-digit (suc (suc zero)) h = refl
code-digit (suc (suc (suc zero))) h = refl
code-digit (suc (suc (suc (suc zero)))) h = refl
code-digit (suc (suc (suc (suc (suc zero))))) h = refl
code-digit (suc (suc (suc (suc (suc (suc zero)))))) h = refl
code-digit (suc (suc (suc (suc (suc (suc (suc zero))))))) h = refl
code-digit (suc (suc (suc (suc (suc (suc (suc (suc zero)))))))) h = refl
code-digit (suc (suc (suc (suc (suc (suc (suc (suc (suc n))))))))) h = ground arith

value-digits : (f n : ℕ) (out : String) → n < f → value 0 (digits f n out) ≡ value n out
unfolding value digits
value-digits zero n out h = absurd (omega arith)
value-digits (suc f) n out h = elim (Bool-cases (ltb n 10)) [
  | inl t ↦ rw (t, digits) (ap (λ (k : ℕ). value k out) (ground (arith, code-digit n)))
  | inr g ↦
      rw (g, digits)
        (value-digits f (n / 10) (String.◌∷◌ (digit (n % 10)) out) (ground arith)
          ∙ ap (λ (k : ℕ). value k out) (ground (arith, code-digit (n % 10))))
]

first_code : String → ℕ
first_code String.[] = 0
first_code (String.◌∷◌ c s) = code c

first_code-digits : (f n : ℕ) (out : String) → n < f → 48 ≤ first_code (digits f n out)
unfolding digits first_code
first_code-digits zero n out h = absurd (omega arith)
first_code-digits (suc f) n out h = elim (Bool-cases (ltb n 10)) [
  | inl t ↦ rw (t, digits) (ground (arith, code-digit n))
  | inr g ↦
      rw (g, digits) (first_code-digits f (n / 10) (String.◌∷◌ (digit (n % 10)) out) (ground arith))
]

-- The decimal spelling determines the number, its sign included.
pub to_string-injective : (a b : ℤ) → to_string a ≡ to_string b → a ≡ b
unfolding to_string value first_code
to_string-injective (pos n) (pos m) h =
    let e : n ≡ m =
      sym (value-digits (suc n) n "" (omega arith))
      ∙ ap (value 0) h
      ∙ value-digits (suc m) m "" (omega arith) in
    ap pos e
to_string-injective (pos n) (negsuc m) h =
    absurd (omega (arith, ap first_code h, first_code-digits (suc n) n "" (omega arith)))
to_string-injective (negsuc n) (pos m) h =
    absurd (omega (arith, ap first_code h, first_code-digits (suc m) m "" (omega arith)))
to_string-injective (negsuc n) (negsuc m) h =
    let e : suc n ≡ suc m =
      sym (value-digits (suc (suc n)) (suc n) "" (omega arith))
      ∙ ap (value 0) h
      ∙ value-digits (suc (suc m)) (suc m) "" (omega arith) in
    ap negsuc (omega arith)

-- The number that a decimal spelling stands for.
unfoldable pub number_of : String → ℤ
unfolding value
number_of String.[] = pos 0
number_of (String.◌∷◌ c s) =
    if eqb (code c) 45 then negsuc (value 0 s - 1) else pos (value 0 (String.◌∷◌ c s))

number_of-unsigned : (s : String) → 48 ≤ first_code s → number_of s ≡ pos (value 0 s)
unfolding number_of first_code
number_of-unsigned String.[] h = absurd (omega (arith, h))
number_of-unsigned (String.◌∷◌ c s) h = ground (arith, h)

pub number_of-to_string : (v : ℤ) → number_of (to_string v) ≡ v
unfolding to_string value number_of
number_of-to_string (pos n) =
    number_of-unsigned _ (first_code-digits (suc n) n "" (omega arith))
    ∙ ap pos (value-digits (suc n) n "" (omega arith))
number_of-to_string (negsuc n) =
    ap (λ (k : ℕ). negsuc (k - 1)) (value-digits (suc (suc n)) (suc n) "" (omega arith))
    ∙ ap negsuc (omega arith)

-- A text without the character of code `k`.
abbrev pub Lacks : ℕ → String → Type 0
Lacks k String.[] = Unit
Lacks k (String.◌∷◌ c s) = (code c ≢ k) × Lacks k s

-- The text in front of the first '@', and the text behind it.
pub before_at : String → String
before_at String.[] = String.[]
before_at (String.◌∷◌ c s) = if eqb (code c) 64 then String.[] else String.◌∷◌ c (before_at s)

pub after_at : String → String
after_at String.[] = String.[]
after_at (String.◌∷◌ c s) = if eqb (code c) 64 then s else after_at s

pub before_at-append : (s t : String) → Lacks 64 s → before_at (s ^^ "@" ^^ t) ≡ s
unfolding before_at
before_at-append String.[] t h = rw (nil-append, cons-append)
before_at-append (String.◌∷◌ c s) t h =
    rw (cons-append c s, before_at) (ground (arith, before_at-append s t h.1))

pub after_at-append : (s t : String) → Lacks 64 s → after_at (s ^^ "@" ^^ t) ≡ t
unfolding after_at
after_at-append String.[] t h = rw (nil-append, cons-append) (nil-append t)
after_at-append (String.◌∷◌ c s) t h =
    rw (cons-append c s, after_at) (ground (arith, after_at-append s t h.1))

-- Of manifests whose names have no '@', equal package ids mean equal names and equal versions.
pub get_package_id-injective :
    (m n : ApexManifest)
    → Lacks 64 m.name
    → Lacks 64 n.name
    → get_package_id m ≡ get_package_id n
    → (m.name ≡ n.name) × (m.version ≡ n.version)
unfolding get_package_id
get_package_id-injective m n h k e = (
  sym (before_at-append m.name _ h) ∙ ap before_at e ∙ before_at-append n.name _ k,
  to_string-injective m.version n.version
      (sym (after_at-append m.name _ h) ∙ ap after_at e ∙ after_at-append n.name _ k),
)

-- So packages that differ in name or version are mounted on different directories.
pub get_package_mount_point-injective :
    (m n : ApexManifest)
    → Lacks 64 m.name
    → Lacks 64 n.name
    → get_package_mount_point m ≡ get_package_mount_point n
    → (m.name ≡ n.name) × (m.version ≡ n.version)
unfolding get_package_mount_point
get_package_mount_point-injective m n h k e =
    get_package_id-injective m n h k (append_cancel_left "/" _ _ (append_cancel_left "/apex" _ _ e))

-- A character that no digit is.
abbrev NoDigit : ℕ → Type 0
NoDigit k = (n : ℕ) → n < 10 → 48 + n ≢ k

Lacks-append : (k : ℕ) (s t : String) → Lacks k s → Lacks k t → Lacks k (s ^^ t)
Lacks-append k String.[] t h g = rw (nil-append t) g
Lacks-append k (String.◌∷◌ c s) t h g = rw (cons-append c s t) (h.0, Lacks-append k s t h.1 g)

code_of_digit : (k n : ℕ) → NoDigit k → n < 10 → code (digit n) ≢ k
code_of_digit k n other h e = other n h (sym (code-digit n h) ∙ e)

Lacks-digits :
    (k f n : ℕ) (out : String) → n < f → NoDigit k → Lacks k out → Lacks k (digits f n out)
unfolding digits
Lacks-digits k zero n out h other g = absurd (omega arith)
Lacks-digits k (suc f) n out h other g = elim (Bool-cases (ltb n 10)) [
  | inl t ↦ rw (t, digits) (code_of_digit k n other (ground (arith, t)), g)
  | inr e ↦
      rw (e, digits)
        (Lacks-digits k f (n / 10) (String.◌∷◌ (digit (n % 10)) out) (ground arith) other
          (code_of_digit k (n % 10) other (omega arith), g))
]

pub Lacks-to_string : (k : ℕ) (v : ℤ) → NoDigit k → 45 ≢ k → Lacks k (to_string v)
unfolding to_string
Lacks-to_string k (pos n) other h = Lacks-digits k (suc n) n "" (omega arith) other tt
Lacks-to_string k (negsuc n) other h =
    (h, Lacks-digits k (suc (suc n)) (suc n) "" (omega arith) other tt)

pub Lacks-get_package_id : (m : ApexManifest) → Lacks 47 m.name → Lacks 47 (get_package_id m)
unfolding get_package_id
Lacks-get_package_id m h = Lacks-append 47 m.name _ h (
    Lacks-append 47 "@" _ (λ e. ground (arith, e), tt)
      (Lacks-to_string 47 m.version (λ n l e. omega (arith, l, e)) (λ e. ground (arith, e))))
