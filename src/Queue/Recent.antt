-- ===== src/Queue/Recent.antt =====
-- The log of record_assignment, scripts/reviewer_bot_lib/queue.py.
use safety_critical_rust_cod.Common.{
  ℕ, zero, suc, ◌≤◌, ◌≡◌, refl, ap, ◌∙◌, List, [], ◌∷◌, ◌++◌, reverse, append_assoc, arith, length,
  take, sym, length-take,
}
use mathlib.Core.List.{reverse-append}
use safety_critical_rust_cod.Queue.{Assignment, State, record_assignment}

-- The calls of record_assignment with these arguments, one after another.
unfoldable pub record_all : ℕ → State → List Assignment → State
record_all limit s [] = s
record_all limit s (a ∷ assignments) =
    record_all limit (record_assignment s a.github a.issue_number a.type a.assigned_at limit)
      assignments

take-take : (n m : ℕ) (ys : List Assignment) → n ≤ m → take n (take m ys) ≡ take n ys
take-take zero m ys h = refl
take-take (suc n) zero ys h = elim h [ ]
take-take (suc n) (suc m) [] h = refl
take-take (suc n) (suc m) (y ∷ ys) h = ap (λ l. y ∷ l) (take-take n m ys (omega arith))

take-append-take :
    (n m : ℕ) (xs ys : List Assignment) → n ≤ m → take n (xs ++ take m ys) ≡ take n (xs ++ ys)
take-append-take n m [] ys h = take-take n m ys h
take-append-take zero m (x ∷ xs) ys h = refl
take-append-take (suc n) m (x ∷ xs) ys h =
    ap (λ l. x ∷ l) (take-append-take n m xs ys (omega arith))

take_of_length : (n : ℕ) (xs : List Assignment) → length xs ≤ n → take n xs ≡ xs
take_of_length zero [] h = refl
take_of_length zero (x ∷ xs) h = elim h [ ]
take_of_length (suc n) [] h = refl
take_of_length (suc n) (x ∷ xs) h = ap (λ l. x ∷ l) (take_of_length n xs (omega arith))

-- From a log of at most `limit` assignments, after any calls the log holds the newest assignments,
-- newest first, and at most `limit` of them.
pub record_all-take :
    (limit : ℕ) (s : State) (assignments : List Assignment)
    → length s.recent_assignments ≤ limit
    → (record_all limit s assignments).recent_assignments
      ≡ take limit (reverse assignments ++ s.recent_assignments)
unfolding record_all record_assignment
record_all-take limit s [] h = sym (take_of_length limit s.recent_assignments h)
record_all-take limit s (a ∷ assignments) h =
    let log = s.recent_assignments in
    record_all-take limit (record_assignment s a.github a.issue_number a.type a.assigned_at limit)
      assignments (omega (arith, length-take limit (a ∷ log)))
    ∙ take-append-take limit limit (reverse assignments) (a ∷ log) (omega arith)
    ∙ ap (take limit) (
        sym (append_assoc (reverse assignments) (a ∷ []) log)
        ∙ ap (λ l. l ++ log) (sym (reverse-append (a ∷ []) assignments)))
