-- ===== src/Queue/Selection.antt =====
-- get_next_reviewer of scripts/reviewer_bot_lib/queue.py against the round-robin order.
use native.Mathlib.Nat.{add-mod-mod, mod-lt, mod-eq_of_lt, add-zero}
use mathlib.Core.List.{head?, tail}
use safety_critical_rust_cod.Common.{
  ℕ, zero, suc, ◌+◌, ◌%◌, ◌<◌, ◌≡◌, refl, sym, ap, ◌∙◌, inl, inr, List, [], ◌∷◌, ◌++◌, Option, none,
  some, String, Bool-cases, if◌then◌else◌, append-nil, append_assoc, arith, length, length-append,
  get_elem?, get_elem?-append, is_in,
}
use safety_critical_rust_cod.Queue.{Member, State, scan_queue, get_next_reviewer}
use safety_critical_rust_cod.Queue.View.{
  rotate, view, IsIndexed, rotate-append, rotate-suc, length-rotate, rotate-nil, split_induction,
}

-- The specification: take the members in order; the first that is not skipped goes to the end,
-- and those that were passed over keep their places in front of the order.
unfoldable pub spin : List String → (passed ahead : List Member) → List Member × Option String
spin skip passed [] = (passed, none)
spin skip passed (m ∷ ahead) =
    let rest = spin skip (passed ++ m ∷ []) ahead in
    if is_in m.github skip then rest else (ahead ++ passed ++ m ∷ [], some m.github)

rotate-head-split :
    (a b r : List Member) (m : Member)
    → b ++ a ≡ m ∷ r
    → 0 < length b
    → let q = a ++ b in
      (get_elem? q (length a) ≡ some m) × (rotate (suc (length a) % length q) q ≡ r ++ m ∷ [])
rotate-head-split a [] r m e h = elim h [ ]
rotate-head-split a (n ∷ b) r m e h =
    (cc (get_elem?-append a b n, ap head? e), cc (rotate-suc a b n, ap tail e))

-- One round: the member at the index is the first of the view from there.
rotate-head :
    (q r : List Member) (m : Member) (i : ℕ)
    → i < length q
    → rotate i q ≡ m ∷ r
    → (get_elem? q i ≡ some m) × (rotate (suc i % length q) q ≡ r ++ m ∷ [])
rotate-head q r m i lt e =
    split_induction
      (λ i q.
        rotate i q ≡ m ∷ r
        → i < length q
        → (get_elem? q i ≡ some m) × (rotate (suc i % length q) q ≡ r ++ m ∷ []))
      (λ a b e h.
        rotate-head-split a b r m (sym (rotate-append a b) ∙ e) (omega (arith, length-append a b)))
      i q (omega arith) e lt

mod-suc : (a b n : ℕ) → suc ((a + b) % n) % n ≡ (a + suc b) % n
mod-suc a b n =
    ap (λ (k : ℕ). k % n) {x = suc ((a + b) % n)} {y = 1 + (a + b) % n} (omega arith)
    ∙ add-mod-mod 1 (a + b) n
    ∙ ap (λ (k : ℕ). k % n) {x = 1 + (a + b)} {y = a + suc b} (omega arith)

scan_queue-spin :
    (s : State) (skip : List String) (ahead passed : List Member) (offset : ℕ)
    → rotate ((s.current_index + offset) % length s.queue) s.queue ≡ ahead ++ passed
    → view s ≡ passed ++ ahead
    → let (s', chosen) = scan_queue s skip (length ahead) offset in
      (view s', chosen) ≡ spin skip passed ahead
unfolding scan_queue spin
scan_queue-spin s skip [] passed offset e v = rw v (rw append-nil refl)
scan_queue-spin s skip (m ∷ ahead) passed offset e v =
    let index : ℕ = (s.current_index + offset) % length s.queue in
    let found =
      rotate-head s.queue (ahead ++ passed) m index
        (mod-lt (s.current_index + offset) (
          omega (
            arith,
            length-rotate s.current_index s.queue,
            ap length v,
            length-append passed (m ∷ ahead),
          )))
        e in
    elim (Bool-cases (is_in m.github skip)) [
      | inl skipped ↦
          rw (found.0, scan_queue)
            (rw skipped (
              scan_queue-spin s skip ahead (passed ++ m ∷ []) (suc offset)
                (ap (λ (i : ℕ). rotate i s.queue)
                    (sym (mod-suc s.current_index offset (length s.queue)))
                  ∙ found.1
                  ∙ append_assoc ahead passed (m ∷ []))
                (v ∙ sym (append_assoc passed (m ∷ []) ahead))))
      | inr free ↦ rw (found.0, scan_queue) (rw free (ap (λ l. (l, some m.github)) found.1))
    ]

-- A round keeps the queue, and leaves the index in range.
scan_queue-keeps :
    (s : State) (skip : List String) (rounds offset : ℕ)
    → IsIndexed s
    → IsIndexed (scan_queue s skip rounds offset).0
      × ((scan_queue s skip rounds offset).0.queue ≡ s.queue)
unfolding scan_queue
scan_queue-keeps s skip zero offset h = (h, refl)
scan_queue-keeps s skip (suc rounds) offset h =
    ground (arith, scan_queue-keeps s skip rounds (suc offset))

-- Choosing a reviewer keeps the members and their places in the queue, and an index that is a place
-- of the queue (or 0 in the empty queue) stays one.
pub get_next_reviewer-keeps :
    (s : State) (skip : List String)
    → IsIndexed s
    → IsIndexed (get_next_reviewer s skip).0 × ((get_next_reviewer s skip).0.queue ≡ s.queue)
unfolding get_next_reviewer
get_next_reviewer-keeps s skip h = scan_queue-keeps s skip (length s.queue) 0 h

rotate-index :
    (s : State) → IsIndexed s → rotate ((s.current_index + 0) % length s.queue) s.queue ≡ view s
rotate-index s (inl lt) =
    ap (λ (i : ℕ). rotate i s.queue)
      (mod-eq_of_lt {n = s.current_index + 0} (omega arith) ∙ add-zero s.current_index)
rotate-index s (inr (at, empty)) = rw empty (rotate-nil (_) ∙ sym (rotate-nil s.current_index))

-- From an index that is a place of the queue, the chosen reviewer and the new order are those of the
-- round-robin specification `spin`.
pub get_next_reviewer-spin :
    (s : State) (skip : List String)
    → IsIndexed s
    → let (s', chosen) = get_next_reviewer s skip in (view s', chosen) ≡ spin skip [] (view s)
unfolding get_next_reviewer
get_next_reviewer-spin s skip h =
    rw (← length-rotate s.current_index s.queue)
      (scan_queue-spin s skip (view s) [] 0 (rotate-index s h ∙ sym (append-nil (view s))) refl)
