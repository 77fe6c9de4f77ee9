-- ===== src/Queue/Fairness.antt =====
-- Repeated assignment from the queue: who is passed over, and that everybody gets a turn.
use safety_critical_rust_cod.Common.{
  ℕ, zero, suc, ◌≡◌, refl, sym, ap, ◌∙◌, String, List, [], ◌∷◌, ◌++◌, Option, none, some, true,
  false, map, append-nil, append_assoc, length, is_in, all, Bool-cases, inl, inr,
}
use safety_critical_rust_cod.Queue.{Member, State, get_next_reviewer}
use safety_critical_rust_cod.Queue.View.{view, IsIndexed}
use safety_critical_rust_cod.Queue.Selection.{spin, get_next_reviewer-spin, get_next_reviewer-keeps}

abbrev pub Skipped : List String → List Member → Type 0
Skipped skip ms = all (λ (m : Member). is_in m.github skip) ms ≡ true

spin-some :
    (skip : List String) (passed pre post : List Member) (m : Member)
    → Skipped skip pre
    → is_in m.github skip ≡ false
    → spin skip passed (pre ++ m ∷ post) ≡ (post ++ (passed ++ pre) ++ m ∷ [], some m.github)
unfolding spin
spin-some skip passed [] post m h f = rw f (rw append-nil refl)
spin-some skip passed (p ∷ pre) post m h f = elim (Bool-cases (is_in p.github skip)) [
  | inl skipped ↦ rw skipped (
      spin-some skip (passed ++ p ∷ []) pre post m (rw skipped at h) f
      ∙ ap (λ (l : List Member). (post ++ l ++ m ∷ [], some m.github))
          (append_assoc passed (p ∷ []) pre))
  | inr free ↦ cc (rw free at h)
]

spin-none :
    (skip : List String) (passed ahead : List Member)
    → Skipped skip ahead
    → spin skip passed ahead ≡ (passed ++ ahead, none)
unfolding spin
spin-none skip passed [] h = rw append-nil refl
spin-none skip passed (m ∷ ahead) h = elim (Bool-cases (is_in m.github skip)) [
  | inl skipped ↦ rw skipped (
      spin-none skip (passed ++ m ∷ []) ahead (rw skipped at h)
      ∙ ap (λ (l : List Member). (l, none)) (append_assoc passed (m ∷ []) ahead))
  | inr free ↦ cc (rw free at h)
]

-- From an index that is a place of the queue: if the order is `pre`, then `m`, then `post`, and `pre`
-- is skipped and `m` is not, then `m` is chosen, and the new order is `post`, `pre`, `m`.
pub get_next_reviewer-some :
    (s : State) (skip : List String) (pre post : List Member) (m : Member)
    → IsIndexed s
    → view s ≡ pre ++ m ∷ post
    → Skipped skip pre
    → is_in m.github skip ≡ false
    → ((get_next_reviewer s skip).1 ≡ some m.github)
      × (view (get_next_reviewer s skip).0 ≡ post ++ pre ++ m ∷ [])
get_next_reviewer-some s skip pre post m i v h f =
    let e =
      get_next_reviewer-spin s skip i ∙ ap (spin skip []) v ∙ spin-some skip [] pre post m h f in
    (ap (λ r. r.1) e, ap (λ r. r.0) e)

-- From an index that is a place of the queue: if everybody is skipped, nobody is chosen, and the order
-- is as it was.
get_next_reviewer-none :
    (s : State) (skip : List String)
    → IsIndexed s
    → Skipped skip (view s)
    → ((get_next_reviewer s skip).1 ≡ none) × (view (get_next_reviewer s skip).0 ≡ view s)
get_next_reviewer-none s skip i h =
    let e = get_next_reviewer-spin s skip i ∙ spin-none skip [] (view s) h in
    (ap (λ r. r.1) e, ap (λ r. r.0) e)

-- One assignment after another, with nobody skipped.
unfoldable pub take_turns : ℕ → State → State × List (Option String)
take_turns zero s = (s, [])
take_turns (suc n) s =
    let (s', chosen) = get_next_reviewer s [] in
    let (s'', later) = take_turns n s' in (s'', chosen ∷ later)

take_turns-view :
    (a b : List Member) (s : State)
    → IsIndexed s
    → view s ≡ a ++ b
    → ((take_turns (length a) s).1 ≡ map (λ m. some m.github) a)
      × (view (take_turns (length a) s).0 ≡ b ++ a)
unfolding take_turns
take_turns-view [] b s i v = (refl, v ∙ sym (append-nil b))
take_turns-view (m ∷ a) b s i v =
    let turn = get_next_reviewer-some s [] [] (a ++ b) m i v refl refl in
    let later =
      take_turns-view a (b ++ m ∷ []) (get_next_reviewer s []).0 (get_next_reviewer-keeps s [] i).0
        ((rw append-nil at (turn.1)) ∙ append_assoc a b (m ∷ [])) in
    (cc (turn.0, later.0), later.1 ∙ append_assoc b (m ∷ []) a)

-- From an index that is a place of the queue, as many turns as the queue has members, with nobody
-- skipped, give each member one turn, in the order from the index on; then the order is as it was.
pub take_turns_round :
    (s : State)
    → IsIndexed s
    → let (s', chosen) = take_turns (length (view s)) s in
      (chosen ≡ map (λ m. some m.github) (view s)) × (view s' ≡ view s)
take_turns_round s i = take_turns-view (view s) [] s i (sym (append-nil (view s)))
