-- ===== src/Queue/Reposition.antt =====
-- reposition_member_as_next and process_pass_until_expirations of scripts/reviewer_bot_lib/queue.py:
-- what they do to the order of the queue.
use native.Mathlib.Decide.{dec_lt}
use native.Mathlib.Nat.{add-zero, zero-add}
use safety_critical_rust_cod.Common.{
  ℕ, suc, ◌+◌, ◌-◌, ◌≤◌, ◌<◌, ◌≡◌, refl, sym, ap, subst, subst₂, ◌∙◌, inl, inr, String, List, [],
  ◌∷◌, ◌++◌, none, some, true, false, append-nil, append_assoc, arith, length, take, drop, ltb,
  lower, ◌==◌, Bool-cases, Option-cases, some_inj, any, if◌then◌else◌, length-append, length-take,
  length-drop, take-append-drop, take-append, drop-append,
}
use safety_critical_rust_cod.Queue.{
  Member, State, find_member, move_to_index, reposition_member_as_next, wrap_index, pop, insert,
}
use safety_critical_rust_cod.Queue.View.{
  rotate, view, IsIndexed, rotate-append, wrap_index-lt, wrap_index-bound, wrap_index-length,
}

-- What a search finds: the list up to the entry, the entry and the rest.
pub record Found (username : String) (queue : List Member) (user_index : ℕ) (m : Member)
    : Type 0 where
  pub before : List Member
  pub after : List Member
  pub split : queue ≡ before ++ m ∷ after
  pub at : user_index ≡ length before
  pub named : (lower m.github == lower username) ≡ true

find_member-Found :
    (username : String) (queue : List Member) (k i : ℕ) (m : Member)
    → find_member username queue k ≡ some (i, m)
    → (j : ℕ) × (i ≡ k + j) × Found username queue j m
unfolding find_member
find_member-Found username [] k i m e = cc
find_member-Found username (n ∷ queue) k i m e =
    elim (Bool-cases (lower n.github == lower username)) [
      | inl hit ↦
          let found : ◌≡◌ {A = ℕ × Member} (k, n) (i, m) = some_inj (rw hit at e) in
          (
            0,
            sym (ap (λ r. r.0) found) ∙ sym (add-zero k),
            record {
              before = [];
              after = queue;
              split = ap (λ (r : ℕ × Member). r.1 ∷ queue) found;
              at = refl;
              named =
                  subst (λ (r : ℕ × Member). (lower r.1.github == lower username) ≡ true) found hit;
            },
          )
      | inr miss ↦
          let (j, at, f) = find_member-Found username queue (suc k) i m (rw miss at e) in
          (
            suc j,
            omega arith,
            record {
              before = n ∷ f.before;
              after = f.after;
              split = ap (λ l. n ∷ l) f.split;
              at = ap suc f.at;
              named = f.named;
            },
          )
    ]

pub pop-append : (a b : List Member) (m : Member) → pop (length a) (a ++ m ∷ b) ≡ a ++ b
pop-append [] b m = refl
pop-append (x ∷ a) b m = rw (pop-append a b m)

insert-append : (a b : List Member) (m : Member) → insert (length a) m (a ++ b) ≡ a ++ m ∷ b
insert-append a b m = simp (take-append a b, drop-append a b)

length-insert : (i : ℕ) (q : List Member) (m : Member) → i ≤ length q → i < length (insert i m q)
length-insert i q m h =
    omega (arith, length-append (take i q) (m ∷ drop i q), length-take i q, length-drop i q)

-- Inserted at the wrapped index, the entry comes first in the order.
insert-wrap :
    (x y : List Member) (m : Member)
    → let next = wrap_index (length x) (x ++ y) in
      rotate next (insert next m (x ++ y)) ≡ m ∷ (y ++ x)
insert-wrap x [] m = rw append-nil (rw wrap_index-length (rw append-nil refl))
insert-wrap x (n ∷ y) m =
    rw (wrap_index-lt (length x) (x ++ n ∷ y) (omega (arith, length-append x (n ∷ y))))
      (rw (insert-append x (n ∷ y) m) (rotate-append x (m ∷ n ∷ y)))

abbrev pub shifted : ℕ → ℕ → ℕ
shifted user_index index = if ltb user_index index then index - 1 else index

pub view-move_to_index :
    (s : State) (i : ℕ) (m : Member) (x y : List Member)
    → pop i s.queue ≡ x ++ y
    → shifted i s.current_index ≡ length x
    → view (move_to_index s i m) ≡ m ∷ (y ++ x)
unfolding move_to_index
view-move_to_index s i m x y p e =
    subst₂ (λ k l. rotate (wrap_index k l) (insert (wrap_index k l) m l) ≡ m ∷ (y ++ x)) (sym e)
      (sym p) (insert-wrap x y m)

pub move_to_index-IsIndexed : (s : State) (i : ℕ) (m : Member) → IsIndexed (move_to_index s i m)
unfolding move_to_index
move_to_index-IsIndexed s i m = inl (
    length-insert (wrap_index (shifted i s.current_index) (pop i s.queue)) (pop i s.queue) m
      (ground (arith, wrap_index-bound (shifted i s.current_index) (pop i s.queue))))

-- What moving an entry to the front does to an order.
pub record Promoted (m : Member) (old new : List Member) : Type 0 where
  pub before : List Member
  pub after : List Member
  pub old_split : old ≡ before ++ m ∷ after
  pub new_split : new ≡ m ∷ (before ++ after)

-- The entry stands before the index.
move_before :
    (s : State) (a b c : List Member) (m : Member)
    → s.queue ≡ (a ++ m ∷ b) ++ c
    → s.current_index ≡ length (a ++ m ∷ b)
    → Promoted m (view s) (view (move_to_index s (length a) m))
move_before s a b c m q i = record {
  before = c ++ a;
  after = b;
  old_split =
      subst₂ (λ k l. rotate k l ≡ (c ++ a) ++ m ∷ b) (sym i) (sym q)
        (rotate-append (a ++ m ∷ b) c ∙ sym (append_assoc c a (m ∷ b)));
  new_split =
      view-move_to_index s (length a) m (a ++ b) c
        (ap (pop (length a)) (q ∙ append_assoc a (m ∷ b) c)
          ∙ pop-append a (b ++ c) m
          ∙ sym (append_assoc a b c))
        (ground (arith, length-append a (m ∷ b), length-append a b))
      ∙ ap (λ l. m ∷ l) (sym (append_assoc c a b));
}

-- The entry stands at the index or after it.
move_after :
    (s : State) (a b c : List Member) (m : Member)
    → s.queue ≡ a ++ (b ++ m ∷ c)
    → s.current_index ≡ length a
    → Promoted m (view s) (view (move_to_index s (length (a ++ b)) m))
move_after s a b c m q i = record {
  before = b;
  after = c ++ a;
  old_split =
      subst₂ (λ k l. rotate k l ≡ b ++ m ∷ (c ++ a)) (sym i) (sym q)
        (rotate-append a (b ++ m ∷ c) ∙ append_assoc b (m ∷ c) a);
  new_split =
      view-move_to_index s (length (a ++ b)) m a (b ++ c)
        (ap (pop (length (a ++ b))) (q ∙ sym (append_assoc a b (m ∷ c)))
          ∙ pop-append (a ++ b) c m
          ∙ append_assoc a b c)
        (ground (arith, length-append a b))
      ∙ ap (λ l. m ∷ l) (append_assoc b c a);
}

move_to_index-Promoted :
    (s : State) (before after : List Member) (m : Member)
    → s.queue ≡ before ++ m ∷ after
    → s.current_index ≤ length s.queue
    → Promoted m (view s) (view (move_to_index s (length before) m))
move_to_index-Promoted s before after m q h = elim (dec_lt (length before) s.current_index) [
  | yes lt ↦
      let c = s.current_index - suc (length before) in
      let cut : after ≡ take c after ++ drop c after = sym (take-append-drop c after) in
      move_before s before (take c after) (drop c after) m
        (q
          ∙ ap (λ l. before ++ m ∷ l) cut
          ∙ sym (append_assoc before (m ∷ take c after) (drop c after)))
        (omega (
          arith,
          length-append before (m ∷ take c after),
          length-take c after,
          ap length q,
          length-append before (m ∷ after),
        ))
  | no ge ↦
      let i = s.current_index in
      rw (← take-append-drop i before) (
        move_after s (take i before) (drop i before) after m
          (q
            ∙ ap (λ l. l ++ m ∷ after) (sym (take-append-drop i before))
            ∙ append_assoc (take i before) (drop i before) (m ∷ after))
          (omega (arith, length-take i before)))
]

pub find_member-none :
    (username : String) (queue : List Member) (k : ℕ)
    → any (λ (m : Member). lower m.github == lower username) queue ≡ false
    → find_member username queue k ≡ none
unfolding find_member
find_member-none username [] k h = refl
find_member-none username (n ∷ queue) k h = ground (arith, find_member-none username queue (suc k))

pub IsIndexed-le : (s : State) → IsIndexed s → s.current_index ≤ length s.queue
IsIndexed-le s (inl lt) = omega arith
IsIndexed-le s (inr (at, empty)) = omega arith

-- From an index that is a place of the queue, a reposition that reports success moves an entry of that
-- login, up to case, to the front of the order, the other entries keep theirs, and the index is a
-- place of the queue.
pub reposition-some :
    (s : State) (username : String)
    → IsIndexed s
    → (reposition_member_as_next s username).1 ≡ true
    → (m : Member) × ((lower m.github == lower username) ≡ true)
      × Promoted m (view s) (view (reposition_member_as_next s username).0)
      × IsIndexed (reposition_member_as_next s username).0
unfolding reposition_member_as_next
reposition-some s username i h = elim (Option-cases (find_member username s.queue 0)) [
  | inl missing ↦ cc (rw (missing, reposition_member_as_next) at h)
  | inr ((index, m), e) ↦
      let (j, at, f) = find_member-Found username s.queue 0 index m e in
      rw (e, reposition_member_as_next)
        (
          m,
          f.named,
          subst (λ k. Promoted m (view s) (view (move_to_index s k m)))
              (sym (at ∙ zero-add j ∙ f.at))
              (move_to_index-Promoted s f.before f.after m f.split (IsIndexed-le s i)),
          move_to_index-IsIndexed s index m,
        )
]

-- If no entry has that login up to case, the state stays as it is.
pub reposition-none :
    (s : State) (username : String)
    → any (λ (m : Member). lower m.github == lower username) s.queue ≡ false
    → reposition_member_as_next s username ≡ (s, false)
unfolding reposition_member_as_next
reposition-none s username h = rw (find_member-none username s.queue 0 h, reposition_member_as_next)
