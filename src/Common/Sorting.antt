-- ===== src/Common/Sorting.antt =====
-- Python's stable sort and `max` by a comparison of keys.
use Prim.Native.Nat.{Ordering}
use mathlib.Core.Path.{◌≡◌, refl, sym, ap, subst, ◌∙◌}
use mathlib.Core.Bool.{Bool, true, false, ◌||◌, ◌&&◌, not}
use mathlib.Core.Logic.{◌⊎◌, inl, inr}
use mathlib.Core.List.Memᴰ.{head, tail}
use mathlib.Core.List.{Memᴰ, List, [], ◌∷◌}
use mathlib.Core.Option.{Option, none, some}
use native.Mathlib.Omega.{arith}
use safety_critical_rust_cod.Common.Lists.{any, all, all_mono}
use safety_critical_rust_cod.Common.Order.{IsOrder}
use safety_critical_rust_cod.Common.Tests.{
  some_inj, Bool-cases, and_both, and_left, and_right, not_eq, or_left, or_right, if◌then◌else◌,
}

Memᴰ-push {ℓ} :
    {A : Type ℓ} {a : A} (x : A) {xs ys : List A}
    → (Memᴰ a xs → Memᴰ a ys)
    → Memᴰ a (x ∷ xs)
    → Memᴰ a (x ∷ ys)
Memᴰ-push x f (head e) = head e
Memᴰ-push x f (tail m) = tail (f m)

Memᴰ-swap {ℓ} :
    {A : Type ℓ} {a : A} (x y : A) {xs : List A} → Memᴰ a (y ∷ x ∷ xs) → Memᴰ a (x ∷ y ∷ xs)
Memᴰ-swap x y (head e) = tail (head e)
Memᴰ-swap x y (tail (head e)) = head e
Memᴰ-swap x y (tail (tail m)) = tail (tail m)

cmp-cases : (o : Ordering) → (o ≡ Ordering.gt) ⊎ ((o ≡ Ordering.lt) ⊎ (o ≡ Ordering.eq))
cmp-cases Ordering.gt = inl refl
cmp-cases Ordering.lt = inr (inl refl)
cmp-cases Ordering.eq = inr (inr refl)

module _ {ℓ} {A : Type ℓ} (cmp : A → A → Ordering) where
  -- Before the first element that is greater.
  unfoldable pub insert_by : A → List A → List A
  insert_by x [] = x ∷ []
  insert_by x (y ∷ ys) = elim (cmp x y) [
    | Ordering.lt ↦ x ∷ y ∷ ys
    | Ordering.eq ↦ x ∷ y ∷ ys
    | Ordering.gt ↦ y ∷ insert_by x ys
  ]

  unfoldable pub sort_by : List A → List A
  unfolding insert_by
  sort_by [] = []
  sort_by (x ∷ xs) = insert_by x (sort_by xs)

  -- The first of the greatest elements.
  unfoldable pub max_from : A → List A → A
  max_from best [] = best
  max_from best (x ∷ xs) = elim (cmp best x) [
    | Ordering.lt ↦ max_from x xs
    | Ordering.eq ↦ max_from best xs
    | Ordering.gt ↦ max_from best xs
  ]

  unfoldable pub max_by : List A → Option A
  unfolding max_from
  max_by [] = none
  max_by (x ∷ xs) = some (max_from x xs)

  max_from-any :
      (p : A → Bool) (best : A) (xs : List A)
      → p (max_from best xs) ≡ true
      → (p best || any p xs) ≡ true
  unfolding max_from
  max_from-any p best [] h = rw h
  max_from-any p best (x ∷ xs) h = ground (arith, max_from-any p best xs, max_from-any p x xs)

  -- The greatest element is an element.
  pub max_by-any :
      (p : A → Bool) (xs : List A) {m : A} → max_by xs ≡ some m → p m ≡ true → any p xs ≡ true
  unfolding max_by
  max_by-any p [] e h = absurd cc
  max_by-any p (x ∷ xs) e h = max_from-any p x xs (subst (λ o. p o ≡ true) (sym (some_inj e)) h)

  max_from-all :
      (p : A → Bool) (best : A) (xs : List A)
      → p best ≡ true
      → all p xs ≡ true
      → p (max_from best xs) ≡ true
  unfolding max_from
  max_from-all p best [] b h = b
  max_from-all p best (x ∷ xs) b h = ground (arith, max_from-all p best xs, max_from-all p x xs)

  pub max_by-all :
      (p : A → Bool) (xs : List A) {m : A} → max_by xs ≡ some m → all p xs ≡ true → p m ≡ true
  unfolding max_by
  max_by-all p [] e h = absurd cc
  max_by-all p (x ∷ xs) e h =
      subst (λ o. p o ≡ true) (some_inj e) (max_from-all p x xs (ground arith) (ground arith))

  -- `a` is not after `b`.
  abbrev pub not_after : A → A → Bool
  not_after a b = elim (cmp a b) [ Ordering.gt ↦ false | _ ↦ true ]

  abbrev pub is_sorted : List A → Bool
  is_sorted [] = true
  is_sorted (x ∷ xs) = all (not_after x) xs && is_sorted xs

  all-insert_by : (p : A → Bool) (x : A) (xs : List A) → all p (insert_by x xs) ≡ (p x && all p xs)
  unfolding insert_by
  all-insert_by p x [] = refl
  all-insert_by p x (y ∷ ys) = ground (arith, all-insert_by p x ys)

  -- Sorting keeps the elements.
  pub all-sort_by : (p : A → Bool) (xs : List A) → all p (sort_by xs) ≡ all p xs
  unfolding sort_by
  all-sort_by p [] = refl
  all-sort_by p (x ∷ xs) = all-insert_by p x (sort_by xs) ∙ ap (λ b. p x && b) (all-sort_by p xs)

  any-insert_by : (p : A → Bool) (x : A) (xs : List A) → any p (insert_by x xs) ≡ (p x || any p xs)
  unfolding insert_by
  any-insert_by p x [] = refl
  any-insert_by p x (y ∷ ys) = ground (arith, any-insert_by p x ys)

  pub any-sort_by : (p : A → Bool) (xs : List A) → any p (sort_by xs) ≡ any p xs
  unfolding sort_by
  any-sort_by p [] = refl
  any-sort_by p (x ∷ xs) = any-insert_by p x (sort_by xs) ∙ ap (λ b. p x || b) (any-sort_by p xs)

  Memᴰ-insert_by : {a : A} (x : A) (xs : List A) → Memᴰ a (insert_by x xs) → Memᴰ a (x ∷ xs)
  unfolding insert_by
  Memᴰ-insert_by x [] m = m
  Memᴰ-insert_by x (y ∷ ys) m = elim (cmp-cases (cmp x y)) [
    | inl e ↦ Memᴰ-swap x y (Memᴰ-push y (Memᴰ-insert_by x ys) (rw (e, insert_by) at m))
    | inr (inl e) ↦ rw (e, insert_by) at m
    | inr (inr e) ↦ rw (e, insert_by) at m
  ]

  -- Sorting adds no element.
  pub Memᴰ-sort_by : {a : A} (xs : List A) → Memᴰ a (sort_by xs) → Memᴰ a xs
  unfolding sort_by
  Memᴰ-sort_by [] m = m
  Memᴰ-sort_by (x ∷ xs) m = Memᴰ-push x (Memᴰ-sort_by xs) (Memᴰ-insert_by x (sort_by xs) m)

  module _ (order : IsOrder cmp) where
    not_after_trans :
        (x y : A) (zs : List A)
        → not_after x y ≡ true
        → all (not_after y) zs ≡ true
        → all (not_after x) zs ≡ true
    not_after_trans x y [] h k = refl
    not_after_trans x y (z ∷ zs) h k = ground (arith, order.chained x y z, not_after_trans x y zs)

    insert_by-sorted :
        (x : A) (xs : List A) → is_sorted xs ≡ true → is_sorted (insert_by x xs) ≡ true
    unfolding insert_by
    insert_by-sorted x [] h = refl
    insert_by-sorted x (y ∷ ys) h = ground (
      arith,
      order.flipped x y,
      not_after_trans x y ys,
      all-insert_by (not_after y) x ys,
      insert_by-sorted x ys,
    )

    pub sort_by-sorted : (xs : List A) → is_sorted (sort_by xs) ≡ true
    unfolding sort_by
    sort_by-sorted [] = refl
    sort_by-sorted (x ∷ xs) = insert_by-sorted x (sort_by xs) (sort_by-sorted xs)

-- The first element that passes a test.
abbrev pub find_first {ℓ} : {A : Type ℓ} → (A → Bool) → List A → Option A
find_first p [] = none
find_first p (x ∷ xs) = if p x then some x else find_first p xs

pub find_first-Memᴰ {ℓ} :
    {A : Type ℓ} (p : A → Bool) (xs : List A) {a : A} → find_first p xs ≡ some a → Memᴰ a xs
find_first-Memᴰ p [] e = absurd cc
find_first-Memᴰ p (x ∷ xs) e = elim (Bool-cases (p x)) [
  | inl q ↦ head (sym (some_inj (rw q at e)))
  | inr q ↦ tail (find_first-Memᴰ p xs (rw q at e))
]

not_after_self {ℓ} :
    {A : Type ℓ} (cmp : A → A → Ordering) (x : A) → IsOrder cmp → not_after cmp x x ≡ true
not_after_self cmp x order = ground (arith, order.flipped x x)

-- In a sorted list, the first element that passes the test is after none that does.
pub find_first-earliest {ℓ} :
    {A : Type ℓ} (cmp : A → A → Ordering) (p : A → Bool) (xs : List A) {a : A}
    → IsOrder cmp
    → is_sorted cmp xs ≡ true
    → find_first p xs ≡ some a
    → (p a ≡ true) × (all (λ b. not (p b) || not_after cmp a b) xs ≡ true)
find_first-earliest cmp p [] order h e = absurd cc
find_first-earliest cmp p (x ∷ xs) {a} order h e = elim (Bool-cases (p x)) [
  | inl q ↦
      let same : x ≡ a = some_inj (rw q at e) in
      subst (λ b. (p b ≡ true) × (all (λ y. not (p y) || not_after cmp b y) (x ∷ xs) ≡ true)) same
        (
          q,
          and_both (or_right (not (p x)) _ (not_after_self cmp x order)) (
              all_mono (not_after cmp x) _ xs (λ y k. or_right (not (p y)) _ k)
                (and_left (all (not_after cmp x) xs) _ h)),
        )
  | inr q ↦
      let (k, rest) =
        find_first-earliest cmp p xs order (and_right (all (not_after cmp x) xs) _ h) (rw q at e) in
      (k, and_both (or_left (not (p x)) _ (not_eq q)) rest)
]

pub find_first-none {ℓ} :
    {A : Type ℓ} (p : A → Bool) (xs : List A)
    → find_first p xs ≡ none
    → all (λ b. not (p b)) xs ≡ true
find_first-none p [] e = refl
find_first-none p (x ∷ xs) e = elim (Bool-cases (p x)) [
  | inl q ↦ let found : some x ≡ none = rw q at e in absurd cc
  | inr q ↦ and_both (not_eq q) (find_first-none p xs (rw q at e))
]
