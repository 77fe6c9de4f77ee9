-- ===== src/Common/Order.antt =====
-- Three-way comparisons: the laws of a total order, for numbers, for texts and for one comparison
-- after another.
use Prim.Native.Nat.{Ordering, compare as compare_numbers}
use Prim.Native.String.compare as compare_texts
use Prim.Native.String.{String, [], ◌∷◌, compare as texts, then as and_then}
use mathlib.Core.Path.{◌≡◌, refl}
use native.Mathlib.Omega.{arith}

abbrev pub flip : Ordering → Ordering
flip Ordering.lt = Ordering.gt
flip Ordering.eq = Ordering.eq
flip Ordering.gt = Ordering.lt

abbrev pub NotGt : Ordering → Type 0
NotGt Ordering.gt = ⊥
NotGt _ = Unit

-- The laws: turning the arguments turns the answer, and a chain of answers that are not `gt` adds up.
pub record IsOrder {ℓ} {A : Type ℓ} (cmp : A → A → Ordering) : Type ℓ where
  pub flipped : (a b : A) → cmp b a ≡ flip (cmp a b)
  pub chained :
      (a b c : A) → NotGt (cmp a b) → NotGt (cmp b c) → cmp a c ≡ and_then (cmp a b) (cmp b c)

pub numbers-IsOrder : IsOrder compare_numbers
numbers-IsOrder = record { flipped = λ a b. ground arith; chained = λ a b c h k. ground arith }

-- The first comparison, and the second where that is equal.
module _ {ℓ} {A : Type ℓ} (f g : A → A → Ordering) (p : IsOrder f) (q : IsOrder g) where
  pub lexicographic-IsOrder : IsOrder (λ a b. and_then (f a b) (g a b))
  lexicographic-IsOrder = record {
    flipped = λ a b. ground (arith, p.flipped a b, q.flipped a b);
    chained = λ a b c h k. ground (arith, p.chained a b c, q.chained a b c);
  }

texts_flipped : (s t : String) → texts t s ≡ flip (texts s t)
texts_flipped [] [] = rw compare_texts.nil-nil
texts_flipped [] (d ∷ t) = rw (compare_texts.nil-cons, compare_texts.cons-nil)
texts_flipped (c ∷ s) [] = rw (compare_texts.nil-cons, compare_texts.cons-nil)
texts_flipped (c ∷ s) (d ∷ t) = simp compare_texts.cons-cons (ground (arith, texts_flipped s t))

texts_chained :
    (s t u : String)
    → NotGt (texts s t)
    → NotGt (texts t u)
    → texts s u ≡ and_then (texts s t) (texts t u)
texts_chained [] [] u h k = refl
texts_chained [] (d ∷ t) [] h k = absurd (rw compare_texts.cons-nil at k)
texts_chained [] (d ∷ t) (e ∷ u) h k = rw (compare_texts.nil-cons, compare_texts.nil-cons)
texts_chained (c ∷ s) [] u h k = absurd (rw compare_texts.cons-nil at h)
texts_chained (c ∷ s) (d ∷ t) [] h k = absurd (rw compare_texts.cons-nil at k)
texts_chained (c ∷ s) (d ∷ t) (e ∷ u) h k =
    let h' = simp compare_texts.cons-cons at h in
    let k' = simp compare_texts.cons-cons at k in
    simp compare_texts.cons-cons (ground (arith, texts_chained s t u))

pub texts-IsOrder : IsOrder texts
texts-IsOrder = record { flipped = texts_flipped; chained = texts_chained }

-- A comparison of keys.
pub by_key-IsOrder {ℓ κ} :
    {A : Type ℓ} {B : Type κ} (cmp : B → B → Ordering) (key : A → B)
    → IsOrder cmp
    → IsOrder (λ a b. cmp (key a) (key b))
by_key-IsOrder cmp key order = record {
  flipped = λ a b. order.flipped (key a) (key b);
  chained = λ a b c. order.chained (key a) (key b) (key c);
}
