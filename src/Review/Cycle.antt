-- ===== src/Review/Cycle.antt =====
-- Assignment, release and completion of scripts/reviewer_bot_core/review_state_machine.py: what a new
-- cycle keeps of the old one, and which entries an operation touches.
use safety_critical_rust_cod.Common.{
  ℕ, ◌≡◌, ◌↔◌, Option-cases, inl, inr, refl, String, true, false, Option, some, [], ◌∷◌, arith, eqb,
  or_else, if◌then◌else◌,
}
use safety_critical_rust_cod.Timestamps.{DateTime}
use safety_critical_rust_cod.Review.{ReviewEntryState, default_entry, record_reviewer_activity}
use safety_critical_rust_cod.Review.Entries.{
  Reviews, find_entry, store_entry, release_entry, clear_current_reviewer, assign_entry,
  set_current_reviewer, is_reviewer, update_reviewer_activity,
}

find_entry-store :
    (m n : ℕ) (r : ReviewEntryState) (reviews : Reviews)
    → find_entry m (store_entry n r reviews) ≡ (if eqb n m then some r else find_entry m reviews)
unfolding find_entry store_entry
find_entry-store m n r [] = refl
find_entry-store m n r ((k, old) ∷ reviews) = ground (arith, find_entry-store m n r reviews)

module _ (fromisoformat : String → Option DateTime) where
  -- A new cycle keeps `skipped` and the record of the last activity, and nothing else of the entry.
  pub assign_entry_lem :
      (r : ReviewEntryState) (reviewer now method : String)
      → let active = (record_reviewer_activity fromisoformat r now).0 in
        assign_entry fromisoformat r reviewer now method ≡ record default_entry {
          skipped = r.skipped;
          current_reviewer = some reviewer;
          cycle_started_at = some now;
          active_cycle_started_at = some now;
          assigned_at = some now;
          assignment_method = some method;
          last_reviewer_activity = active.last_reviewer_activity;
          transition_warning_sent = active.transition_warning_sent;
          transition_notice_sent_at = active.transition_notice_sent_at;
        }
  unfolding assign_entry
  assign_entry_lem r reviewer now method = ground arith

  -- Assigning a reviewer writes the new cycle's entry, from the entry that was there or the default one,
  -- for that issue, and changes the entry of no other issue.
  set_current_reviewer-find :
      (reviews : Reviews) (n m : ℕ) (reviewer now method : String)
      → find_entry m (set_current_reviewer fromisoformat reviews n reviewer now method) ≡ (
          if eqb n m
          then some (
              assign_entry fromisoformat
                (or_else (find_entry n reviews) default_entry)
                reviewer
                now
                method)
          else find_entry m reviews)
  unfolding set_current_reviewer
  set_current_reviewer-find reviews n m reviewer now method =
      elim (Option-cases (find_entry n reviews)) [
        | inl e ↦
            let made = assign_entry fromisoformat default_entry reviewer now method in
            ground (
              arith,
              find_entry-store m n default_entry reviews,
              find_entry-store m n made (store_entry n default_entry reviews),
            )
        | inr (r, e) ↦
            ground (
              arith,
              find_entry-store m n (assign_entry fromisoformat r reviewer now method) reviews,
            )
      ]

  -- The activity is reported as recorded exactly if the issue has an entry whose current reviewer is
  -- that login, up to case.
  update_reviewer_activity_iff :
      (reviews : Reviews) (n : ℕ) (reviewer now : String)
      → ((update_reviewer_activity fromisoformat reviews n reviewer now).1 ≡ true) ↔ (
          (r : ReviewEntryState) × (find_entry n reviews ≡ some r)
          × (is_reviewer r.current_reviewer reviewer ≡ true))
  unfolding update_reviewer_activity
  update_reviewer_activity_iff reviews n reviewer now = (ground arith, ground arith)

-- A second release of the same issue reports no change.
clear_current_reviewer_twice :
    (reviews : Reviews) (n : ℕ)
    → (clear_current_reviewer (clear_current_reviewer reviews n).0 n).1 ≡ false
unfolding clear_current_reviewer
clear_current_reviewer_twice reviews n = elim (Option-cases (find_entry n reviews)) [
  | inl e ↦ ground arith
  | inr (r, e) ↦ ground (arith, find_entry-store n n (release_entry r).0 reviews)
]
