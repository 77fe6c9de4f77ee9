-- ===== src/Review/Entries.antt =====
-- The operations of scripts/reviewer_bot_core/review_state_machine.py on the entries of the state:
-- assignment, release, activity and completion. `active_reviews` maps the number of an issue to its
-- entry (the source writes the key with `str`).
use safety_critical_rust_cod.Common.{
  ℕ, String, Bool, true, false, ◌||◌, Option, none, some, List, [], ◌∷◌, ◌==◌, eqb, if◌then◌else◌,
  is_some, truthy, lower,
}
use safety_critical_rust_cod.Value.{empty, entry, bool, str, null, Value}
use safety_critical_rust_cod.Timestamps.{DateTime}
use safety_critical_rust_cod.Review.{
  ReviewEntryState, default_entry, empty_channel, clear_transition_timers, record_reviewer_activity,
}

abbrev pub Reviews : Type 0
Reviews = List (ℕ × ReviewEntryState)

unfoldable pub find_entry : ℕ → Reviews → Option ReviewEntryState
find_entry n [] = none
find_entry n ((k, r) ∷ reviews) = if eqb k n then some r else find_entry n reviews

unfoldable pub store_entry : ℕ → ReviewEntryState → Reviews → Reviews
store_entry n r [] = (n, r) ∷ []
store_entry n r ((k, old) ∷ reviews) =
    if eqb k n then (n, r) ∷ reviews else (k, old) ∷ store_entry n r reviews

-- The entry, and the state with it; an absent one is made if `create`.
unfoldable pub ensure_review_entry : Reviews → ℕ → Bool → Reviews × Option ReviewEntryState
ensure_review_entry reviews n create = elim (find_entry n reviews) [
  | some r ↦ (reviews, some r)
  | none ↦
      if create then (store_entry n default_entry reviews, some default_entry) else (reviews, none)
]

unfoldable pub reset_cycle_state : ReviewEntryState → ReviewEntryState
reset_cycle_state r = record r {
  reviewer_comment = empty_channel;
  reviewer_review = empty_channel;
  contributor_comment = empty_channel;
  contributor_revision = empty_channel;
  review_dismissal = empty_channel;
  current_cycle_completion = empty;
  current_cycle_write_approval = empty;
  current_cycle_reviewer_handoff = none;
  overdue_anchor = null;
}

unfoldable pub clear_current_cycle_reviewer_handoff : ReviewEntryState → ReviewEntryState × Bool
clear_current_cycle_reviewer_handoff r =
    (record r { current_cycle_reviewer_handoff = none }, is_some r.current_cycle_reviewer_handoff)

-- The new entry of clear_current_reviewer, and whether it changed.
unfoldable pub release_entry : ReviewEntryState → ReviewEntryState × Bool
unfolding clear_current_cycle_reviewer_handoff clear_transition_timers
release_entry r =
    let released = record r { current_reviewer = none; assignment_method = none } in
    let (handed, handoff_cleared) = clear_current_cycle_reviewer_handoff released in
    (
      clear_transition_timers handed,
      handoff_cleared || (is_some r.current_reviewer || is_some r.assignment_method),
    )

unfoldable pub clear_current_reviewer : Reviews → ℕ → Reviews × Bool
unfolding ensure_review_entry release_entry
clear_current_reviewer reviews n =
    let (reviews', found) = ensure_review_entry reviews n false in
    elim found [
      | none ↦ (reviews', false)
      | some r ↦ let (r', changed) = release_entry r in (store_entry n r' reviews', changed)
    ]

-- `reviewer or None`
abbrev pub or_none : Option String → Option String
or_none none = none
or_none (some s) = if truthy s then some s else none

abbrev pub optional_text : Option String → Value
optional_text none = null
optional_text (some s) = str s

abbrev pub is_reviewer : Option String → String → Bool
is_reviewer none reviewer = false
is_reviewer (some current) reviewer = lower current == lower reviewer

module _ (fromisoformat : String → Option DateTime) where
  -- The entry that set_current_reviewer writes.
  unfoldable pub assign_entry : ReviewEntryState → String → String → String → ReviewEntryState
  unfolding record_reviewer_activity reset_cycle_state
  assign_entry r reviewer now assignment_method =
      let started = record r {
        current_reviewer = some reviewer;
        cycle_started_at = some now;
        active_cycle_started_at = some now;
        assigned_at = some now;
      } in
      reset_cycle_state (record (record_reviewer_activity fromisoformat started now).0 {
        assignment_method = some assignment_method;
        review_completed_at = none;
        review_completed_by = none;
        review_completion_source = none;
        mandatory_approver_required = false;
        mandatory_approver_label_applied_at = none;
        mandatory_approver_pinged_at = none;
        mandatory_approver_satisfied_by = none;
        mandatory_approver_satisfied_at = none;
        active_head_sha = none;
      })

  unfoldable pub set_current_reviewer : Reviews → ℕ → String → String → String → Reviews
  unfolding ensure_review_entry assign_entry
  set_current_reviewer reviews n reviewer now assignment_method =
      let (reviews', found) = ensure_review_entry reviews n true in
      elim found [
        | none ↦ reviews'
        | some r ↦ store_entry n (assign_entry r reviewer now assignment_method) reviews'
      ]

  unfoldable pub update_reviewer_activity : Reviews → ℕ → String → String → Reviews × Bool
  unfolding ensure_review_entry record_reviewer_activity
  update_reviewer_activity reviews n reviewer now =
      let (reviews', found) = ensure_review_entry reviews n false in
      elim found [
        | none ↦ (reviews', false)
        | some r ↦
            if is_reviewer r.current_reviewer reviewer
            then (store_entry n (record_reviewer_activity fromisoformat r now).0 reviews', true)
            else (reviews', false)
      ]

  -- The entry that mark_review_complete writes.
  unfoldable pub complete_entry :
      ReviewEntryState → Option String → String → String → ReviewEntryState
  unfolding record_reviewer_activity
  complete_entry r reviewer source completed_at =
      let completed = record r {
        review_completed_at = some completed_at;
        review_completed_by = or_none reviewer;
        review_completion_source = some source;
      } in
      record (record_reviewer_activity fromisoformat completed completed_at).0 {
        current_cycle_completion = entry "completed" (bool true) (
            entry "completed_at" (str completed_at)
              (entry "source" (str source) (entry "reviewer" (optional_text reviewer) empty)));
      }

  unfoldable pub mark_review_complete :
      Reviews → ℕ → Option String → String → String → Reviews × Bool
  unfolding ensure_review_entry complete_entry
  mark_review_complete reviews n reviewer source completed_at =
      let (reviews', found) = ensure_review_entry reviews n true in
      elim found [
        | none ↦ (reviews', false)
        | some r ↦ (store_entry n (complete_entry r reviewer source completed_at) reviews', true)
      ]
