-- ===== src/Queue/Sync.antt =====
-- sync_members_with_queue of scripts/reviewer_bot_lib/queue.py: which members the queue then holds.
use text.Mathlib.TextPositions.{eq_refl}
use safety_critical_rust_cod.Common.{
  ◌≡◌, map-append, append-nil, refl, ap, ap₂, ◌∙◌, String, List, [], ◌∷◌, ◌++◌, Bool, true, not,
  ◌&&◌, ◌||◌, arith, filter, map, is_in, ◌==◌, eq_iff, Bool-cases, inl, inr, filter-append,
}
use safety_critical_rust_cod.Queue.{
  Member, AwayEntry, State, fetched, failed, names, refresh_name, is_new, sync_members_with_queue,
}
use safety_critical_rust_cod.Queue.View.{IsIndexed, wrap_index-bound}

abbrev pub away_names : State → List String
away_names s = map (λ (e : AwayEntry). e.github) s.pass_until

abbrev pub listed : List Member → String → Bool
listed producers n = is_in n (names producers)

abbrev pub is_added : State → String → Bool
is_added s n = not (is_in n (names s.queue)) && not (is_in n (away_names s))

-- The logins of the queue after a fetch of `producers`, in order: those that it had and that are
-- producers, and then the producers that were neither in it nor away.
abbrev pub synced_names : State → List Member → List String
synced_names s producers =
    filter (listed producers) (names s.queue) ++ filter (is_added s) (names producers)

github-refresh :
    (producers : List Member) (m : Member) → (refresh_name producers m).github ≡ m.github
unfolding refresh_name
github-refresh producers m = ground arith

names-refresh : (producers q : List Member) → names (map (refresh_name producers) q) ≡ names q
names-refresh producers [] = refl
names-refresh producers (m ∷ q) = ap₂ ◌∷◌ (github-refresh producers m) (names-refresh producers q)

names-filter :
    (p : String → Bool) (q : List Member)
    → names (filter (λ (m : Member). p m.github) q) ≡ filter p (names q)
names-filter p [] = refl
names-filter p (m ∷ q) = ground (arith, names-filter p q)

-- Membership in what a filter leaves.
is_in-filter :
    (p : String → Bool) (n : String) (xs : List String)
    → is_in n (filter p xs) ≡ (is_in n xs && p n)
is_in-filter p n [] = refl
is_in-filter p n (x ∷ xs) = elim (Bool-cases (x == n)) [
  | inl same ↦ rw ((eq_iff x n).0 same) (ground (arith, eq_refl n, is_in-filter p n xs))
  | inr other ↦ ground (arith, is_in-filter p n xs)
]

is_in-append : (n : String) (xs ys : List String) → is_in n (xs ++ ys) ≡ (is_in n xs || is_in n ys)
is_in-append n [] ys = refl
is_in-append n (x ∷ xs) ys = ground (arith, is_in-append n xs ys)

-- A test that holds at every text of the list.
abbrev Holds : (String → Bool) → List String → Type 0
Holds p xs = (n : String) → is_in n xs ≡ true → p n ≡ true

filter-all : (p : String → Bool) (xs : List String) → Holds p xs → filter p xs ≡ xs
filter-all p [] h = refl
filter-all p (x ∷ xs) h =
    ground (arith, h x, eq_refl x, filter-all p xs (λ n m. h n (ground arith)))

filter-none : (p : String → Bool) (xs : List String) → Holds (λ n. not (p n)) xs → filter p xs ≡ []
filter-none p [] h = refl
filter-none p (x ∷ xs) h =
    ground (arith, h x, eq_refl x, filter-none p xs (λ n m. h n (ground arith)))

-- A fetch that fails changes nothing.
pub sync-failed : (s : State) → sync_members_with_queue s failed ≡ (s, [])
unfolding sync_members_with_queue
sync-failed s = refl

-- After a fetch of producers, the queue holds the members that it had and that are producers, in their
-- order, and then the producers that were neither in it nor away, in theirs.
pub sync-names :
    (s : State) (producers : List Member)
    → names (sync_members_with_queue s (fetched producers)).0.queue ≡ synced_names s producers
unfolding sync_members_with_queue is_new
sync-names s producers =
    names-refresh producers _
    ∙ names-filter (listed producers) (s.queue ++ filter (is_new s) producers)
    ∙ ap (filter (listed producers)) (
        map-append (λ (m : Member). m.github) s.queue (filter (is_new s) producers)
        ∙ ap (λ l. names s.queue ++ l) (names-filter (is_added s) producers))
    ∙ filter-append (listed producers) (names s.queue) (filter (is_added s) (names producers))
    ∙ ap (λ l. filter (listed producers) (names s.queue) ++ l)
        (filter-all (listed producers) (filter (is_added s) (names producers))
          (λ n m. ground (arith, is_in-filter (is_added s) n (names producers))))

pub sync-IsIndexed :
    (s : State) (producers : List Member)
    → IsIndexed (sync_members_with_queue s (fetched producers)).0
unfolding sync_members_with_queue
sync-IsIndexed s producers = wrap_index-bound s.current_index _

-- Who is in the queue after a fetch.
pub is_in-synced :
    (s : State) (producers : List Member) (n : String)
    → is_in n (names (sync_members_with_queue s (fetched producers)).0.queue)
      ≡ (listed producers n && (is_in n (names s.queue) || not (is_in n (away_names s))))
is_in-synced s producers n = rw (sync-names s producers) (
    ground (
      arith,
      is_in-append n (filter (listed producers) (names s.queue))
          (filter (is_added s) (names producers)),
      is_in-filter (listed producers) n (names s.queue),
      is_in-filter (is_added s) n (names producers),
    ))

away-sync :
    (s : State) (producers : List Member)
    → away_names (sync_members_with_queue s (fetched producers)).0 ≡ away_names s
unfolding sync_members_with_queue
away-sync s producers = refl

-- After a fetch, the same fetch again adds and removes nobody.
sync_twice-names :
    (s : State) (producers : List Member)
    → let s' = (sync_members_with_queue s (fetched producers)).0 in
      names (sync_members_with_queue s' (fetched producers)).0.queue ≡ names s'.queue
sync_twice-names s producers =
    let s' = (sync_members_with_queue s (fetched producers)).0 in
    sync-names s' producers
    ∙ ap₂ ◌++◌
        (filter-all (listed producers) (names s'.queue)
          (λ n m. ground (arith, is_in-synced s producers n)))
        (filter-none (is_added s') (names producers)
          (λ n m. ground (arith, is_in-synced s producers n, away-sync s producers)))
    ∙ append-nil (names s'.queue)
