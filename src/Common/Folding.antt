-- ===== src/Common/Folding.antt =====
-- Laws of `str.lower` on ASCII texts.
use Prim.Native.Nat.{ℕ, zero, suc, ◌-◌, ◌<◌}
use Prim.Native.Char.{Char, code}
use Prim.Native.String.{String, char_at, [], ◌∷◌}
use Prim.Native.String.compare as compare_texts
use mathlib.Core.Path.{◌≡◌, refl, ap₂}
use mathlib.Core.Bool.{Bool, true, ◌&&◌}
use mathlib.Core.Logic.{inl, inr}
use native.Mathlib.Omega.{arith}
use text.Mathlib.Text.{◌==◌}
use safety_critical_rust_cod.Common.Tests.{leb, Bool-cases}
use safety_critical_rust_cod.Common.Texts.{lower, lower_char, truthy, strip}

letters : String
letters = "abcdefghijklmnopqrstuvwxyz"

is_folded : ℕ → Bool
unfolding letters
is_folded i = leb b'a' (code (char_at letters i))

all_folded : ℕ → Bool
unfolding is_folded
all_folded zero = true
all_folded (suc n) = is_folded n && all_folded n

all_folded-at : (n i : ℕ) → all_folded n ≡ true → i < n → is_folded i ≡ true
unfolding all_folded
all_folded-at zero i h lt = absurd (omega arith)
all_folded-at (suc n) i h lt = ground (arith, all_folded-at n i)

letters_folded : all_folded 26 ≡ true
unfolding all_folded
letters_folded = refl

folded :
    (i : ℕ)
    → i < 26
    → lower_char (char_at "abcdefghijklmnopqrstuvwxyz" i) ≡ char_at "abcdefghijklmnopqrstuvwxyz" i
unfolding lower_char is_folded letters
folded i lt =
    let h : leb b'a' (code (char_at "abcdefghijklmnopqrstuvwxyz" i)) ≡ true =
      all_folded-at 26 i letters_folded lt in
    ground arith

lower_char_twice : (c : Char) → lower_char (lower_char c) ≡ lower_char c
unfolding lower_char
lower_char_twice c = elim (Bool-cases (leb b'A' (code c) && leb (code c) b'Z')) [
  | inr h ↦ rw (h, lower_char) (rw (h, lower_char) refl)
  | inl h ↦ rw (h, lower_char) (folded (code c - b'A') (ground arith))
]

pub lower_twice : (s : String) → lower (lower s) ≡ lower s
unfolding lower
lower_twice [] = refl
lower_twice (c ∷ s) = ap₂ ◌∷◌ (lower_char_twice c) (lower_twice s)

-- A text that is equal to one with letters, but for their case, has letters.
pub lower-truthy : (a b : String) → truthy a ≡ true → (lower a == lower b) ≡ true → truthy b ≡ true
unfolding lower
lower-truthy a (c ∷ b) h e = rw compare_texts.cons-nil refl
lower-truthy [] [] h e = absurd cc
lower-truthy (c ∷ a) [] h e = let empty = rw compare_texts.cons-nil at e in absurd cc

-- A text that is not blank is not empty.
pub strip-truthy : (s : String) → truthy (strip s) ≡ true → truthy s ≡ true
unfolding strip
strip-truthy [] h = absurd cc
strip-truthy (c ∷ s) h = rw compare_texts.cons-nil refl
