-- ===== src/Examples/Queues.antt =====
-- The queue of three members: scripts/reviewer_bot_lib/queue.py.
use safety_critical_rust_cod.Common.{
  ℕ, ◌≡◌, refl, true, String, Option, none, some, inl, [], ◌∷◌, ◌++◌, map, arith, lower, ◌==◌,
  if◌then◌else◌, filter,
}
use safety_critical_rust_cod.Queue
use safety_critical_rust_cod.Queue.{
  Member, State, AwayEntry, Assignment, text, absent, fetched, names, get_next_reviewer, scan_queue,
  reposition_member_as_next, find_member, move_to_index, wrap_index, process_pass_until_expirations,
  sync_members_with_queue, is_expired, expire_entries, restore, refresh_name, producer_name, is_new,
  record_assignment,
}
use safety_critical_rust_cod.Queue.View.{view, IsIndexed}
use safety_critical_rust_cod.Queue.Selection.{spin, get_next_reviewer-spin}
use safety_critical_rust_cod.Queue.Fairness.{take_turns, take_turns_round, get_next_reviewer-some}
use safety_critical_rust_cod.Queue.Reposition.{Promoted, reposition-some}
use safety_critical_rust_cod.Queue.Expiry.{FreshLogins, restored, away, expired, process-split}
use safety_critical_rust_cod.Queue.Sync.{sync-names}
use safety_critical_rust_cod.Queue.Recent.{record_all, record_all-take}

abbrev ann : Member
ann = record { github = "ann"; name = "Ann" }

abbrev ben : Member
ben = record { github = "ben"; name = "Ben" }

abbrev cem : Member
cem = record { github = "cem"; name = "Cem" }

abbrev dan_away : AwayEntry
dan_away = record { github = "dan"; name = some "Dan"; return_date = text "2026-01-02" }

abbrev eve_away : AwayEntry
eve_away = record { github = "eve"; name = none; return_date = text "2026-03-01" }

-- Ben is next.
abbrev team : State
team = record {
  queue = ann ∷ ben ∷ cem ∷ [];
  current_index = 1;
  pass_until = dan_away ∷ eve_away ∷ [];
  recent_assignments = [];
}

abbrev team-IsIndexed : IsIndexed team
team-IsIndexed = inl (ground arith)

-- The two dates of the entries, as days of the year.
abbrev strptime : String → Option ℕ
strptime day = if day == "2026-01-02" then some 2 else if day == "2026-03-01" then some 60 else none

abbrev assignment : Assignment
assignment = record { github = "ben"; issue_number = 7; type = "pr"; assigned_at = "2026-01-05" }

next_is_ben : (get_next_reviewer team ("ben" ∷ [])).1 ≡ some "cem"
unfolding get_next_reviewer
next_is_ben = refl

-- Cem is next, Ann leaves, and then Ben is next again.
next_after_removal :
    (get_next_reviewer
      (sync_members_with_queue (record team { current_index = 2 }) (fetched (ben ∷ cem ∷ []))).0
      []).1
    ≡ some "ben"
unfolding get_next_reviewer sync_members_with_queue
next_after_removal = refl

take_turns_round_example :
    ((take_turns 3 team).1 ≡ some "ben" ∷ some "cem" ∷ some "ann" ∷ [])
    × (view (take_turns 3 team).0 ≡ view team)
take_turns_round_example = take_turns_round team team-IsIndexed

get_next_reviewer-spin_example :
    (view (get_next_reviewer team ("ben" ∷ [])).0, (get_next_reviewer team ("ben" ∷ [])).1)
    ≡ spin ("ben" ∷ []) [] (ben ∷ cem ∷ ann ∷ [])
get_next_reviewer-spin_example = get_next_reviewer-spin team ("ben" ∷ []) team-IsIndexed

get_next_reviewer-some_example :
    ((get_next_reviewer team ("ben" ∷ [])).1 ≡ some "cem")
    × (view (get_next_reviewer team ("ben" ∷ [])).0 ≡ ann ∷ ben ∷ cem ∷ [])
get_next_reviewer-some_example =
    get_next_reviewer-some team ("ben" ∷ []) (ben ∷ []) (ann ∷ []) cem team-IsIndexed refl refl refl

cem_found : (reposition_member_as_next team "CEM").1 ≡ true
unfolding reposition_member_as_next lower
cem_found = refl

reposition-some_example :
    (m : Member) × ((lower m.github == lower "CEM") ≡ true)
    × Promoted m (view team) (view (reposition_member_as_next team "CEM").0)
    × IsIndexed (reposition_member_as_next team "CEM").0
reposition-some_example = reposition-some team "CEM" team-IsIndexed cem_found

dan_is_new : FreshLogins strptime 10 (view team) team.pass_until
unfolding FreshLogins is_expired lower Queue.restored_member
dan_is_new = (λ _. refl, (λ _. refl, tt))

process-split_example :
    let (s', returned) = process_pass_until_expirations strptime 10 team in
    (view s' ≡ restored strptime 10 team.pass_until ++ view team)
    × (s'.pass_until ≡ filter (away strptime 10) team.pass_until)
    × (returned ≡ map (λ e. e.github) (filter (expired strptime 10) team.pass_until))
    × IsIndexed s'
process-split_example = process-split strptime 10 team team-IsIndexed dan_is_new

sync-names_example :
    names (sync_members_with_queue team (fetched (cem ∷ ben ∷ []))).0.queue ≡ "ben" ∷ "cem" ∷ []
sync-names_example = sync-names team (cem ∷ ben ∷ [])

record_all-take_example :
    (record_all 1 team (assignment ∷ assignment ∷ [])).recent_assignments ≡ assignment ∷ []
record_all-take_example = record_all-take 1 team (assignment ∷ assignment ∷ []) (ground arith)
