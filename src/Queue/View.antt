-- ===== src/Queue/View.antt =====
-- The queue as its clients see it: the members in the order in which they are next, from
-- `current_index` round to the place before it.
use native.Mathlib.Nat.{mod-eq_of_lt, mod_self}
use native.Mathlib.Numerals.{add-one}
use safety_critical_rust_cod.Common.{
  ℕ, zero, suc, ◌%◌, ◌≤◌, ◌<◌, ◌≡◌, refl, sym, ap, ◌∙◌, subst₂, ◌⊎◌, inl, inr, List, [], ◌∷◌, ◌++◌,
  append-nil, append_assoc, arith, length, take, drop, length-append, take-append, drop-append,
  take-append-drop, length-take, length-drop,
}
use safety_critical_rust_cod.Queue.{Member, State, wrap_index}

abbrev pub rotate {ℓ} : {A : Type ℓ} → ℕ → List A → List A
rotate i xs = drop i xs ++ take i xs

abbrev pub view : State → List Member
view s = rotate s.current_index s.queue

-- The index is a place of the queue, or 0 if the queue is empty.
abbrev pub IsIndexed : State → Type 0
IsIndexed s = (s.current_index < length s.queue) ⊎ ((s.current_index ≡ 0) × (s.queue ≡ []))

pub wrap_index-bound :
    (i : ℕ) (q : List Member) → (wrap_index i q < length q) ⊎ ((wrap_index i q ≡ 0) × (q ≡ []))
unfolding wrap_index
wrap_index-bound i [] = inr (refl, refl)
wrap_index-bound i (m ∷ q) = inl (omega arith)

pub wrap_index-lt : (i : ℕ) (q : List Member) → i < length q → wrap_index i q ≡ i
unfolding wrap_index
wrap_index-lt i [] h = elim h [ ]
wrap_index-lt i (m ∷ q) h = mod-eq_of_lt h

pub wrap_index-length : (q : List Member) → wrap_index (length q) q ≡ 0
unfolding wrap_index
wrap_index-length [] = refl
wrap_index-length (m ∷ q) = mod_self (length (m ∷ q))

module _ {ℓ} {A : Type ℓ} where
  pub rotate-append : (xs ys : List A) → rotate (length xs) (xs ++ ys) ≡ ys ++ xs
  rotate-append xs ys = simp (take-append xs ys, drop-append xs ys)

  -- A property of an index and a list holds if it holds where the index splits an append.
  pub split_induction {κ} :
      (P : ℕ → List A → Type κ)
      → ((a b : List A) → P (length a) (a ++ b))
      → (i : ℕ) (xs : List A) → i ≤ length xs
      → P i xs
  split_induction P step i xs h =
      subst₂ P {x = length (take i xs)} {y = i} (omega (arith, length-take i xs))
        (take-append-drop i xs) (step (take i xs) (drop i xs))

-- The place after `length a` in `a ++ m ∷ b`, round the end of the list.
pub rotate-suc :
    (a b : List Member) (m : Member)
    → let q = a ++ m ∷ b in rotate (suc (length a) % length q) q ≡ (b ++ a) ++ m ∷ []
rotate-suc a [] m =
    rw (length-append a (m ∷ []), add-one, mod_self (suc (length a))) (append-nil (a ++ m ∷ []))
rotate-suc a (n ∷ b) m =
    rw
      (mod-eq_of_lt {n = suc (length a)} {m = length (a ++ m ∷ n ∷ b)}
        (omega (arith, length-append a (m ∷ n ∷ b))))
      (rw (← append_assoc a (m ∷ []) (n ∷ b)) (
        ap (λ (k : ℕ). rotate k ((a ++ m ∷ []) ++ n ∷ b)) {x = suc (length a)}
          {y = length (a ++ m ∷ [])} (omega (arith, length-append a (m ∷ [])))
        ∙ rotate-append (a ++ m ∷ []) (n ∷ b)
        ∙ sym (append_assoc (n ∷ b) a (m ∷ []))))

pub length-rotate : (i : ℕ) (q : List Member) → length (rotate i q) ≡ length q
length-rotate i q =
    omega (arith, length-append (drop i q) (take i q), length-take i q, length-drop i q)

pub rotate-nil {ℓ} : {A : Type ℓ} (i : ℕ) → rotate {A = A} i [] ≡ []
rotate-nil zero = refl
rotate-nil (suc i) = refl
