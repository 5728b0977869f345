-- ===== src/Verity/Hex.antt =====
-- Bytes in hexadecimal, written and read back.
use native.Mathlib.Decide.{dec_lt}
use mathlib.Core.Path.{subst}
use platform_system_apex.Base.{
  ℕ, zero, suc, ◌/◌, ◌%◌, ◌<◌, ◌≤◌, List, [], ◌∷◌, ◌≡◌, refl, ap, arith, length, All,
}
use platform_system_apex.Verity.{
  hex_digit, hex_value, bytes_to_hex, hex_to_bin, resize, resize_text, text_size,
}

-- A property of each number below `k`, as a tuple
abbrev Downwards : (ℕ → Type 0) → ℕ → Type 0
Downwards P zero = Unit
Downwards P (suc k) = P k × Downwards P k

number_of-Downwards : (P : ℕ → Type 0) (k : ℕ) → Downwards P k → (n : ℕ) → n < k → P n
number_of-Downwards P zero tuple n lt = absurd (omega arith)
number_of-Downwards P (suc k) (top, lower) n lt = elim (dec_lt n k) [
  | yes below ↦ number_of-Downwards P k lower n below
  | no above ↦ let e : k ≡ n = omega arith in subst P e top
]

abbrev ReadsBack : ℕ → Type 0
ReadsBack n = hex_value (hex_digit n) ≡ n

sixteen_digits : Downwards ReadsBack 16
unfolding hex_value
sixteen_digits = (
  refl,
  (
    refl,
    (
      refl,
      (
        refl,
        (
          refl,
          (
            refl,
            (refl, (refl, (refl, (refl, (refl, (refl, (refl, (refl, (refl, (refl, tt)))))))))),
          ),
        ),
      ),
    ),
  ),
)

hex_value-hex_digit : (n : ℕ) → n < 16 → hex_value (hex_digit n) ≡ n
hex_value-hex_digit n h = number_of-Downwards ReadsBack 16 sixteen_digits n h

abbrev pub IsByte : ℕ → Type 0
IsByte b = b < 256

-- What `BytesToHex` prints, `HexToBin` reads back as the same bytes.
pub hex_to_bin-bytes_to_hex :
    (bytes : List ℕ) → All IsByte bytes → hex_to_bin (bytes_to_hex bytes) ≡ bytes
unfolding hex_to_bin bytes_to_hex
hex_to_bin-bytes_to_hex [] h = refl
hex_to_bin-bytes_to_hex (b ∷ bytes) (h, hs) =
    rw
      (
        hex_value-hex_digit (b / 16) (omega arith),
        hex_value-hex_digit (b % 16) (omega arith),
        hex_to_bin-bytes_to_hex bytes hs,
      )
      (ap (λ n. n ∷ bytes) (omega arith))

-- Cutting a text in hexadecimal to the size of another one is cutting its bytes.
pub resize_text-bytes_to_hex :
    (golden bytes : List ℕ)
    → length golden ≤ length bytes
    → resize_text (text_size (bytes_to_hex golden)) (bytes_to_hex bytes)
      ≡ bytes_to_hex (resize (length golden) bytes)
unfolding bytes_to_hex
resize_text-bytes_to_hex [] bytes h = refl
resize_text-bytes_to_hex (g ∷ golden) [] h = absurd (omega arith)
resize_text-bytes_to_hex (g ∷ golden) (b ∷ bytes) h =
    rw (resize_text-bytes_to_hex golden bytes (omega arith)) refl
