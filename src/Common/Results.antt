-- ===== src/Common/Results.antt =====
-- The result of code that may raise an error with a text.
use Prim.Native.String.{String}
use mathlib.Core.Bool.{Bool, true, false}
use mathlib.Core.List.{List, [], ◌∷◌}
use mathlib.Core.Path.{◌≡◌, refl}
use mathlib.Core.Logic.{◌⊎◌, inl, inr}

pub data Checked (A : Type 0) : Type 0 where
  returned : A → Checked A
  raised : String → Checked A

-- `abbrev`, so that it computes on a result wherever it stands.
infixl 5 ◌>>=◌
abbrev pub ◌>>=◌ : {A B : Type 0} → Checked A → (A → Checked B) → Checked B
returned a >>= f = f a
raised e >>= f = raised e

-- A loop over a list that ends with the first error.
unfoldable pub collect : {A B : Type 0} → (A → Checked B) → List A → Checked (List B)
collect f [] = returned []
collect f (x ∷ xs) = f x >>= λ y. collect f xs >>= λ ys. returned (y ∷ ys)

-- What follows a result that was returned.
pub >>=-eq-returned :
    {A B : Type 0} (m : Checked A) (f : A → Checked B) {b : B}
    → (m >>= f) ≡ returned b
    → (a : A) × (m ≡ returned a) × (f a ≡ returned b)
>>=-eq-returned (returned a) f h = (a, refl, h)
>>=-eq-returned (raised e) f h = absurd cc

pub returned_inj : {A : Type 0} {a b : A} → returned a ≡ returned b → a ≡ b
returned_inj h = cc h

-- A predicate of what is returned.
abbrev pub Returns {ℓ} : {A : Type 0} → (A → Type ℓ) → Checked A → Type ℓ
Returns P (returned a) = P a
Returns P (raised e) = Unit

pub Checked-cases :
    {A : Type 0} (m : Checked A) → ((e : String) × (m ≡ raised e)) ⊎ ((a : A) × (m ≡ returned a))
Checked-cases (returned a) = inr (a, refl)
Checked-cases (raised e) = inl (e, refl)

abbrev pub is_returned : {A : Type 0} → Checked A → Bool
is_returned (returned a) = true
is_returned (raised e) = false
