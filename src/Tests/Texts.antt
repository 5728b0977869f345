-- ===== src/Tests/Texts.antt =====
-- Functions on texts as android-base and `std::filesystem` document them, on the texts of the tests.
use Prim.Native.Char.{Char, code}
use text.Mathlib.TextLemmas.{nil-append, cons-append}
use platform_system_apex.Base.{
  ℕ, String, ◌^^◌, Bool, true, false, Option, none, some, List, [], ◌∷◌, ◌≡◌, refl, ap, ◌∙◌, ◌==◌,
  arith, if◌then◌else◌, eqb, ◌||◌,
}
use platform_system_apex.Base.Int.{ℤ}
use platform_system_apex.ApexFile.{to_string}
use platform_system_apex.ApexFile.PackageId.{Lacks, number_of, number_of-to_string}
use platform_system_apex.Populate.Point.{fits_int}

abbrev cons_first : Char → List String → List String
cons_first c [] = []
cons_first c (s ∷ rest) = (String.◌∷◌ c s) ∷ rest

abbrev split_code : ℕ → String → List String
split_code k String.[] = "" ∷ []
split_code k (String.◌∷◌ c s) =
    let rest = split_code k s in if eqb (code c) k then "" ∷ rest else cons_first c rest

abbrev pub head_code : String → ℕ
head_code String.[] = 0
head_code (String.◌∷◌ c s) = code c

abbrev pub split : String → String → List String
split s separator = split_code (head_code separator) s

split_code-Lacks : (k : ℕ) (s : String) → Lacks k s → split_code k s ≡ s ∷ []
split_code-Lacks k String.[] h = refl
split_code-Lacks k (String.◌∷◌ c s) h = ground (arith, h, split_code-Lacks k s h.1)

split_code-append :
    (c : Char) (s t : String)
    → Lacks (code c) s
    → split_code (code c) (s ^^ (String.◌∷◌ c t)) ≡ s ∷ split_code (code c) t
split_code-append c String.[] t h = rw (nil-append (String.◌∷◌ c t)) (ground arith)
split_code-append c (String.◌∷◌ d s) t h =
    rw (cons-append d s (String.◌∷◌ c t)) (ground (arith, h, split_code-append c s t h.1))

at_append : (t : String) → "@" ^^ t ≡ String.◌∷◌ "@" t
at_append t = cons-append "@" "" t ∙ ap (λ s. String.◌∷◌ "@" s) (nil-append t)

pub split_once : (s t : String) → Lacks 64 s → Lacks 64 t → split (s ^^ "@" ^^ t) "@" ≡ s ∷ t ∷ []
split_once s t h k =
    ap (λ u. split (s ^^ u) "@") (at_append t)
    ∙ split_code-append "@" s t h
    ∙ ap (λ l. s ∷ l) (split_code-Lacks 64 t k)

abbrev last : List String → String
last [] = ""
last (s ∷ []) = s
last (s ∷ t ∷ rest) = last (t ∷ rest)

abbrev pub filename : String → String
filename path = last (split_code 47 path)

apex_append : (u : String) → "/apex" ^^ u ≡ String.◌∷◌ "/" ("apex" ^^ u)
apex_append u = cons-append "/" "apex" u

slash_append : (t : String) → "/" ^^ t ≡ String.◌∷◌ "/" t
slash_append t = cons-append "/" "" t ∙ ap (λ s. String.◌∷◌ "/" s) (nil-append t)

abbrev lacks : ℕ → String → Bool
lacks k String.[] = true
lacks k (String.◌∷◌ c s) = let rest = lacks k s in if eqb (code c) k then false else rest

pub lacks-Lacks : (k : ℕ) (s : String) → lacks k s ≡ true → Lacks k s
lacks-Lacks k String.[] h = tt
lacks-Lacks k (String.◌∷◌ c s) h = (ground (arith, h), lacks-Lacks k s (ground (arith, h)))

pub filename_last : (s : String) → Lacks 47 s → filename ("/apex" ^^ "/" ^^ s) ≡ s
filename_last s h =
    ap (λ u. filename ("/apex" ^^ u)) (slash_append s)
    ∙ ap filename (apex_append (String.◌∷◌ "/" s))
    ∙ ap (λ l. last ("" ∷ l)) (split_code-append "/" "apex" s (lacks-Lacks 47 "apex" refl))
    ∙ ap (λ l. last ("" ∷ "apex" ∷ l)) (split_code-Lacks 47 s h)

abbrev pub parse_int : String → Option ℤ
parse_int s = if fits_int (number_of s) then some (number_of s) else none

pub parse_int_of : (v : ℤ) → parse_int (to_string v) ≡ (if fits_int v then some v else none)
parse_int_of v = ap (λ n. if fits_int n then some n else none) (number_of-to_string v)

abbrev pub ends_with : String → String → Bool
ends_with String.[] suffix = String.[] == suffix
ends_with (String.◌∷◌ c s) suffix = (String.◌∷◌ c s) == suffix || ends_with s suffix

abbrev cons_some : Char → Option String → Option String
cons_some c none = none
cons_some c (some s) = some (String.◌∷◌ c s)

abbrev pub consume_suffix : String → String → Option String
consume_suffix String.[] suffix = if String.[] == suffix then some "" else none
consume_suffix (String.◌∷◌ c s) suffix =
    let rest = cons_some c (consume_suffix s suffix) in
    if (String.◌∷◌ c s) == suffix then some "" else rest

-- The text in front of the last '/', of a path with one of two parts.
abbrev parent_of : List String → String
parent_of (root ∷ folder ∷ file ∷ []) = root ^^ "/" ^^ folder
parent_of _ = ""

abbrev pub parent_path : String → String
parent_path path = parent_of (split_code 47 path)
