-- ===== src/Common/Texts.antt =====
-- Python's text methods in use: lower, upper, strip, truth of a text, `in` a collection of texts.
-- Logins, states and permissions are ASCII, and so are the letters and blanks below.
use Prim.Native.Nat.{ℕ, zero, suc, ◌-◌, ◌/◌, ◌%◌}
use Prim.Native.Char.{Char, code}
use Prim.Native.String.{String, char_at, [], ◌∷◌, ◌++◌}
use Prim.Native.String.compare as compare_texts
use mathlib.Core.Path.{◌≡◌, refl}
use mathlib.Core.Logic.{inl, inr}
use mathlib.Core.Bool.{Bool, true, false, not, ◌&&◌, ◌||◌}
use mathlib.Core.List.{List}
use text.Mathlib.TextLemmas.{nil-append, cons-append}
use text.Mathlib.Text.{◌==◌}
use safety_critical_rust_cod.Common.Tests.{Bool-cases, ltb, leb, eqb, if◌then◌else◌}
use safety_critical_rust_cod.Common.Lists.{any}

unfoldable pub lower_char : Char → Char
lower_char c =
    if leb b'A' (code c) && leb (code c) b'Z'
    then char_at "abcdefghijklmnopqrstuvwxyz" (code c - b'A')
    else c

upper_char : Char → Char
upper_char c =
    if leb b'a' (code c) && leb (code c) b'z'
    then char_at "ABCDEFGHIJKLMNOPQRSTUVWXYZ" (code c - b'a')
    else c

unfoldable pub lower : String → String
unfolding lower_char
lower [] = []
lower (c ∷ s) = lower_char c ∷ lower s

unfoldable pub upper : String → String
unfolding upper_char
upper [] = []
upper (c ∷ s) = upper_char c ∷ upper s

-- The blanks that `str.strip` removes: the space and U+0009 to U+000D, U+001C to U+001F.
is_space : ℕ → Bool
is_space n = eqb n 32 || (leb 9 n && leb n 13) || (leb 28 n && leb n 31)

-- The truth of a text.
abbrev pub truthy : String → Bool
truthy s = not (s == "")

left_strip : String → String
unfolding is_space
left_strip [] = []
left_strip (c ∷ s) = let rest = left_strip s in if is_space (code c) then rest else c ∷ s

right_strip : String → String
unfolding is_space
right_strip [] = []
right_strip (c ∷ s) =
    let rest = right_strip s in if is_space (code c) && rest == "" then [] else c ∷ rest

unfoldable pub strip : String → String
unfolding left_strip right_strip
strip s = right_strip (left_strip s)

-- Python's `s in texts`.
abbrev pub is_in : String → List String → Bool
is_in s texts = any (λ t. t == s) texts

strip_and_fold : lower (strip "  @Ferris-42 ") ≡ "@ferris-42"
unfolding lower strip
strip_and_fold = refl

upper_state : upper "Approved" ≡ "APPROVED"
unfolding upper
upper_state = refl

-- Python's `str` of a natural number; `fuel` counts digits, and a number has fewer than itself or one.
digits : ℕ → ℕ → String
digits zero n = char_at "0123456789" n ∷ []
digits (suc fuel) n = elim (ltb n 10) [
  | true ↦ char_at "0123456789" n ∷ []
  | false ↦ digits fuel (n / 10) ++ (char_at "0123456789" (n % 10) ∷ [])
]

unfoldable pub decimal : ℕ → String
unfolding digits
decimal n = digits n n

decimal_450 : decimal 450 ≡ "450"
unfolding decimal
decimal_450 = refl

truthy-cons : (c : Char) (s : String) → truthy (c ∷ s) ≡ true
truthy-cons c s = rw compare_texts.cons-nil refl

truthy-append_char : (s : String) (c : Char) → truthy (s ++ (c ∷ [])) ≡ true
truthy-append_char [] c = rw (nil-append (c ∷ [])) (truthy-cons c [])
truthy-append_char (d ∷ s) c = rw (cons-append d s (c ∷ [])) (truthy-cons d (s ++ (c ∷ [])))

truthy-digits : (fuel n : ℕ) → truthy (digits fuel n) ≡ true
unfolding digits
truthy-digits zero n = truthy-cons (char_at "0123456789" n) []
truthy-digits (suc fuel) n = elim (Bool-cases (ltb n 10)) [
  | inl h ↦ rw (h, digits) (truthy-cons (char_at "0123456789" n) [])
  | inr h ↦
      rw (h, digits) (truthy-append_char (digits fuel (n / 10)) (char_at "0123456789" (n % 10)))
]

pub truthy-decimal : (n : ℕ) → truthy (decimal n) ≡ true
unfolding decimal
truthy-decimal n = truthy-digits n n
