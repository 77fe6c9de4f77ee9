-- ===== src/Queue/Expiry.antt =====
-- process_pass_until_expirations of scripts/reviewer_bot_lib/queue.py: which entries return, and
-- where they stand.
use mathlib.Core.List.{reverse-append}
use text.Mathlib.TextPositions.{eq_refl}
use native.Mathlib.Nat.{zero-add}
use safety_critical_rust_cod.Common.{
  ℕ, suc, ◌+◌, ◌≡◌, refl, sym, ap, ◌∙◌, inl, inr, String, List, [], ◌∷◌, ◌++◌, Option, some, Bool,
  ◌||◌, true, false, not, reverse, subst, append-nil, append_assoc, arith, length, take, drop,
  lower, any, filter, map, ◌==◌, Bool-cases, if◌then◌else◌, length-take, take-append-drop,
}
use safety_critical_rust_cod.Queue.{
  Member, AwayEntry, State, find_member, restore, restored_member, is_expired, expire_entries,
  process_pass_until_expirations,
}
use safety_critical_rust_cod.Queue.View.{rotate, view, IsIndexed}
use safety_critical_rust_cod.Queue.Reposition.{
  view-move_to_index, move_to_index-IsIndexed, IsIndexed-le, pop-append,
}

-- Some member has this login, up to case.
abbrev pub has_login : String → List Member → Bool
has_login github members = any (λ (m : Member). lower m.github == lower github) members

any-append-left :
    (p : Member → Bool) (xs ys : List Member) → any p (xs ++ ys) ≡ (any p xs || any p ys)
any-append-left p [] ys = refl
any-append-left p (x ∷ xs) ys = ground (arith, any-append-left p xs ys)

or_comm : (a b : Bool) → (a || b) ≡ (b || a)
or_comm a b = ground arith

-- Turning a list round keeps its members.
has_login-rotate :
    (github : String) (i : ℕ) (q : List Member) → has_login github (rotate i q) ≡ has_login github q
has_login-rotate github i q = sym (
    let p = λ (m : Member). lower m.github == lower github in
    ap (any p) (sym (take-append-drop i q))
    ∙ any-append-left p (take i q) (drop i q)
    ∙ or_comm (any p (take i q)) (any p (drop i q))
    ∙ sym (any-append-left p (drop i q) (take i q)))

find_member-snoc :
    (queue : List Member) (m : Member) (k : ℕ)
    → has_login m.github queue ≡ false
    → find_member m.github (queue ++ m ∷ []) k ≡ some (k + length queue, m)
unfolding find_member
find_member-snoc [] m k h =
    rw eq_refl (ap (λ (j : ℕ). some (j, m)) {x = k} {y = k + 0} (omega arith))
find_member-snoc (n ∷ queue) m k h = elim (Bool-cases (lower n.github == lower m.github)) [
  | inl hit ↦ cc (rw hit at h)
  | inr miss ↦ rw miss (
      find_member-snoc queue m (suc k) (rw miss at h)
      ∙ ap (λ (j : ℕ). some (j, m)) {x = suc k + length queue} {y = k + suc (length queue)}
          (omega arith))
]

-- A restored entry comes first, and the other members keep their order.
restore-view :
    (s : State) (entry : AwayEntry)
    → IsIndexed s
    → has_login entry.github (view s) ≡ false
    → (view (restore s entry) ≡ restored_member entry ∷ view s) × IsIndexed (restore s entry)
unfolding restore
restore-view s entry i h =
    let m = restored_member entry in
    let s' : State = record s { queue = s.queue ++ m ∷ [] } in
    let index = s.current_index in
    let found : find_member m.github (s.queue ++ m ∷ []) 0 ≡ some (length s.queue, m) =
      find_member-snoc s.queue m 0 (sym (has_login-rotate m.github index s.queue) ∙ h)
      ∙ ap (λ (j : ℕ). some (j, m)) (zero-add (length s.queue)) in
    rw (found, restore)
      (
        view-move_to_index s' (length s.queue) m (take index s.queue) (drop index s.queue)
            (pop-append s.queue [] m ∙ append-nil s.queue ∙ sym (take-append-drop index s.queue))
            (ground (arith, length-take index s.queue, IsIndexed-le s i)),
        move_to_index-IsIndexed s' (length s.queue) m,
      )

module _ (strptime : String → Option ℕ) (now : ℕ) where
  abbrev pub expired : AwayEntry → Bool
  expired entry = is_expired strptime now entry.return_date

  abbrev pub away : AwayEntry → Bool
  away entry = not (expired entry)

  -- The entries that return and those that stay are those that the date says, in their order.
  expire_entries-split :
      (s : State) (entries : List AwayEntry)
      → ((expire_entries strptime now s entries).1 ≡ filter away entries)
        × ((expire_entries strptime now s entries).2 ≡ map (λ e. e.github) (filter expired entries))
  unfolding expire_entries
  expire_entries-split s [] = (refl, refl)
  expire_entries-split s (entry ∷ entries) =
      ground (arith, expire_entries-split (restore s entry) entries, expire_entries-split s entries)

  -- The entries that return have logins that neither the order nor an earlier one of them has.
  unfoldable pub FreshLogins : List Member → List AwayEntry → Type 0
  FreshLogins order [] = Unit
  FreshLogins order (entry ∷ entries) =
      (expired entry ≡ true → has_login entry.github order ≡ false)
      × FreshLogins (if expired entry then restored_member entry ∷ order else order) entries

  unfoldable pub restored : List AwayEntry → List Member
  restored entries = reverse (map restored_member (filter expired entries))

  -- Those that return come first, the last one foremost, and the other members keep their order.
  expire_entries-view :
      (s : State) (entries : List AwayEntry)
      → IsIndexed s
      → FreshLogins (view s) entries
      → (view (expire_entries strptime now s entries).0 ≡ restored entries ++ view s)
        × IsIndexed (expire_entries strptime now s entries).0
  unfolding expire_entries FreshLogins restored
  expire_entries-view s [] i f = (refl, i)
  expire_entries-view s (entry ∷ entries) i (f, rest) = elim (Bool-cases (expired entry)) [
    | inl back ↦
        let first = restore-view s entry i (f back) in
        let m = restored_member entry in
        let others = map restored_member (filter expired entries) in
        let later =
          expire_entries-view (restore s entry) entries first.1
            (subst (λ order. FreshLogins order entries) (sym first.0) (rw back at rest)) in
        rw (back, expire_entries)
          (
            later.0
                ∙ ap (λ order. reverse others ++ order) first.0
                ∙ sym (append_assoc (reverse others) (m ∷ []) (view s))
                ∙ ap (λ l. l ++ view s) (sym (reverse-append (m ∷ []) others)),
            later.1,
          )
    | inr stays ↦ rw (stays, expire_entries) (expire_entries-view s entries i (rw stays at rest))
  ]

  -- From an index that is a place of the queue, if the entries that return have logins that neither the
  -- queue nor an earlier one of them has: those that return come first in the order, the last one
  -- foremost, and the other members keep theirs; the entries that stay and the names that are reported
  -- are those that the date says, in their order; the index is a place of the queue.
  pub process-split :
      (s : State)
      → IsIndexed s
      → FreshLogins (view s) s.pass_until
      → let (s', names) = process_pass_until_expirations strptime now s in
        (view s' ≡ restored s.pass_until ++ view s)
        × (s'.pass_until ≡ filter away s.pass_until)
        × (names ≡ map (λ e. e.github) (filter expired s.pass_until))
        × IsIndexed s'
  unfolding process_pass_until_expirations
  process-split s i f =
      let split = expire_entries-split s s.pass_until in
      let order = expire_entries-view s s.pass_until i f in (order.0, split.0, split.1, order.1)
