-- ===== src/Queue.antt =====
-- The reviewer queue, scripts/reviewer_bot_lib/queue.py. A function that mutates `state` returns the
-- new state. The entries of the state that no function of this file reads are not in the record.
pub mod View
pub mod Selection
pub mod Fairness
pub mod Reposition
pub mod Expiry
pub mod Sync
pub mod Recent
use safety_critical_rust_cod.Common.{
  ℕ, zero, suc, ◌+◌, ◌-◌, ◌%◌, String, append_text, Bool, true, false, not, ◌&&◌, Option, none,
  some, List, [], ◌∷◌, ◌++◌, map, ◌==◌, ltb, leb, if◌then◌else◌, length, get_elem?, take, drop,
  filter, lower, is_in, truthy,
}

pub record Member : Type 0 where
  pub github : String
  pub name : String

-- What `entry.get("return_date")` can be: absent or falsy, a text, a `datetime` (its date), another value.
pub data ReturnDate : Type 0 where
  absent : ReturnDate
  text : String → ReturnDate
  moment : ℕ → ReturnDate
  other : ReturnDate

pub record AwayEntry : Type 0 where
  pub github : String
  pub name : Option String
  pub return_date : ReturnDate

pub record Assignment : Type 0 where
  pub github : String
  pub issue_number : ℕ
  pub type : String
  pub assigned_at : String

pub record State : Type 0 where
  pub queue : List Member
  pub current_index : ℕ
  pub pass_until : List AwayEntry
  pub recent_assignments : List Assignment

-- The answer of `fetch_members`, scripts/reviewer_bot_lib/members.py.
pub data MemberFetchResult : Type 0 where
  fetched : List Member → MemberFetchResult
  failed : MemberFetchResult

abbrev pub names : List Member → List String
names members = map (λ m. m.github) members

abbrev pub max_recent_assignments : ℕ
max_recent_assignments = 20

-- `current_index % len(queue)`, and 0 for the empty queue.
unfoldable pub wrap_index : ℕ → List Member → ℕ
wrap_index index [] = 0
wrap_index index (m ∷ queue) = index % length (m ∷ queue)

-- sync_members_with_queue

-- The keys of a dict that is built from these names: the first occurrence of each.
unfoldable pub distinct_names : List String → List String → List String
distinct_names seen [] = []
distinct_names seen (n ∷ ns) = elim (is_in n seen) [
  | true ↦ distinct_names seen ns
  | false ↦ n ∷ distinct_names (n ∷ seen) ns
]

-- `{p["github"]: p["name"] for p in producers}`, looked up: the last entry of a name counts.
unfoldable pub producer_name : String → List Member → Option String
producer_name github [] = none
producer_name github (p ∷ producers) =
    let later = producer_name github producers in
    elim later [ some n ↦ some n | none ↦ if p.github == github then some p.name else none ]

unfoldable pub refresh_name : List Member → Member → Member
unfolding producer_name
refresh_name producers member = elim (producer_name member.github producers) [
  | some n ↦ record member { name = n }
  | none ↦ member
]

unfoldable pub is_new : State → Member → Bool
is_new state producer =
    not (is_in producer.github (names state.queue))
    && not (is_in producer.github (map (λ (e : AwayEntry). e.github) state.pass_until))

abbrev pub is_producer : List Member → String → Bool
is_producer producers github = is_in github (names producers)

unfoldable pub sync_members_with_queue : State → MemberFetchResult → State × List String
unfolding wrap_index distinct_names refresh_name is_new
sync_members_with_queue state failed = (state, [])
sync_members_with_queue state (fetched producers) =
    let added = filter (is_new state) producers in
    let kept = filter (λ (m : Member). is_producer producers m.github) (state.queue ++ added) in
    let removed =
      filter (λ github. not (is_producer producers github))
        (distinct_names [] (names state.queue)) in
    let queue = map (refresh_name producers) kept in
    (
      record state { queue = queue; current_index = wrap_index state.current_index queue },
      map (λ (m : Member). append_text "Added " (append_text m.github " to queue")) added
          ++ map
              (λ github.
                append_text "Removed " (append_text github " from queue (no longer a Producer)"))
              removed,
    )

-- reposition_member_as_next

-- The first entry whose login agrees up to case: its position and the entry.
unfoldable pub find_member : String → List Member → ℕ → Option (ℕ × Member)
find_member username [] index = none
find_member username (m ∷ queue) index =
    let rest = find_member username queue (suc index) in
    if lower m.github == lower username then some (index, m) else rest

-- `list.pop(i)` and `list.insert(i, x)`.
abbrev pub pop {ℓ} : {A : Type ℓ} → ℕ → List A → List A
pop i xs = take i xs ++ drop (suc i) xs

abbrev pub insert {ℓ} : {A : Type ℓ} → ℕ → A → List A → List A
insert i x xs = take i xs ++ x ∷ drop i xs

unfoldable pub move_to_index : State → ℕ → Member → State
unfolding wrap_index
move_to_index state user_index user_entry =
    let queue = pop user_index state.queue in
    let index =
      if ltb user_index state.current_index then state.current_index - 1 else state.current_index in
    let next = wrap_index index queue in
    record state { queue = insert next user_entry queue; current_index = next }

unfoldable pub reposition_member_as_next : State → String → State × Bool
unfolding move_to_index find_member
reposition_member_as_next state username = elim (find_member username state.queue 0) [
  | none ↦ (state, false)
  | some (user_index, user_entry) ↦ (move_to_index state user_index user_entry, true)
]

-- process_pass_until_expirations

unfoldable pub restored_member : AwayEntry → Member
restored_member entry = record {
  github = entry.github;
  name = elim entry.name [ none ↦ entry.github | some n ↦ n ];
}

unfoldable pub restore : State → AwayEntry → State
unfolding restored_member reposition_member_as_next
restore state entry =
    (reposition_member_as_next (record state { queue = state.queue ++ restored_member entry ∷ [] })
      entry.github).0

-- `strptime` is `datetime.strptime(text, "%Y-%m-%d").date()`, as the number of its day; `none` is a
-- ValueError. `now` is today's day.
module _ (strptime : String → Option ℕ) (now : ℕ) where
  -- The branch that an entry takes: true if it is restored.
  unfoldable pub is_expired : ReturnDate → Bool
  is_expired absent = false
  is_expired (text date) = elim (truthy date) [
    | false ↦ false
    | true ↦ elim (strptime date) [ none ↦ false | some day ↦ leb day now ]
  ]
  is_expired (moment day) = leb day now
  is_expired other = false

  -- The loop over the entries; it returns the state, `still_away` and `restored`.
  unfoldable pub expire_entries : State → List AwayEntry → State × List AwayEntry × List String
  unfolding is_expired restore
  expire_entries state [] = (state, [], [])
  expire_entries state (entry ∷ entries) = elim (is_expired entry.return_date) [
    | true ↦
        let (state', away, restored) = expire_entries (restore state entry) entries in
        (state', away, entry.github ∷ restored)
    | false ↦
        let (state', away, restored) = expire_entries state entries in
        (state', entry ∷ away, restored)
  ]

  unfoldable pub process_pass_until_expirations : State → State × List String
  unfolding expire_entries
  process_pass_until_expirations state =
      let (state', away, restored) = expire_entries state state.pass_until in
      (record state' { pass_until = away }, restored)

-- get_next_reviewer. On the empty queue the loop makes no round.

-- The `for` loop, with `rounds` offsets left. An index is always in range, so `none` of the list
-- access is never reached.
unfoldable pub scan_queue : State → List String → ℕ → ℕ → State × Option String
scan_queue state skip zero offset = (state, none)
scan_queue state skip (suc rounds) offset =
    let rest = scan_queue state skip rounds (suc offset) in
    let index = (state.current_index + offset) % length state.queue in
    elim (get_elem? state.queue index) [
      | none ↦ rest
      | some candidate ↦ if is_in candidate.github skip then rest else (
        record state { current_index = suc index % length state.queue },
        some candidate.github,
      )
    ]

unfoldable pub get_next_reviewer : State → List String → State × Option String
unfolding scan_queue
get_next_reviewer state skip = scan_queue state skip (length state.queue) 0

-- record_assignment

unfoldable pub record_assignment : State → String → ℕ → String → String → ℕ → State
record_assignment state github issue_number issue_type now max_recent =
    let assignment : Assignment = record {
      github = github;
      issue_number = issue_number;
      type = issue_type;
      assigned_at = now;
    } in
    record state { recent_assignments = take max_recent (assignment ∷ state.recent_assignments) }
