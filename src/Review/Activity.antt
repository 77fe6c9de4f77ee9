-- ===== src/Review/Activity.antt =====
-- record_reviewer_activity and _clear_handoff_after_newer_contributor_event of
-- scripts/reviewer_bot_core/review_state_machine.py.
use safety_critical_rust_cod.Common.{
  ℕ, max, ◌<◌, ◌≡◌, refl, ◌⊎◌, ◌↔◌, String, Bool, true, false, Option, none, some, List, [], ◌∷◌,
  arith, or_else,
}
use safety_critical_rust_cod.Timestamps.{DateTime, parse_github_timestamp, datetime_min}
use safety_critical_rust_cod.Review.{
  ReviewEntryState, CurrentCycleReviewerHandoff, record_reviewer_activity,
  clear_handoff_after_newer_contributor_event,
}

module _ (fromisoformat : String → Option DateTime) where
  -- The instant of a timestamp; one that is absent or cannot be read counts as the least.
  abbrev pub instant : Option String → ℕ
  instant value = or_else (parse_github_timestamp fromisoformat value) datetime_min

  abbrev activity : ReviewEntryState → String → ReviewEntryState × Bool
  activity = record_reviewer_activity fromisoformat

  activity-max :
      (r : ReviewEntryState) (timestamp : String)
      → instant (activity r timestamp).0.last_reviewer_activity
        ≡ max (instant r.last_reviewer_activity) (instant (some timestamp))
  unfolding record_reviewer_activity
  activity-max r timestamp = ground arith

  -- Recording an activity changes nothing, or it reports a change, records the time and resets both
  -- transition timers.
  activity_cases :
      (r : ReviewEntryState) (timestamp : String)
      → ((activity r timestamp ≡ (r, false)))
        ⊎ ((activity r timestamp).1 ≡ true)
          × ((activity r timestamp).0.last_reviewer_activity ≡ some timestamp)
          × ((activity r timestamp).0.transition_warning_sent ≡ none)
          × ((activity r timestamp).0.transition_notice_sent_at ≡ none)
  unfolding record_reviewer_activity
  activity_cases r timestamp = ground arith

  -- Activities, one after another.
  unfoldable pub activities : ReviewEntryState → List String → ReviewEntryState
  activities r [] = r
  activities r (t ∷ timestamps) = activities (activity r t).0 timestamps

  abbrev latest : ℕ → List String → ℕ
  latest t [] = t
  latest t (s ∷ timestamps) = latest (max t (instant (some s))) timestamps

  -- After any activities, in any order, the recorded one is the latest instant of them and of the one
  -- before; a timestamp that cannot be read counts as the least instant.
  pub activities-latest :
      (r : ReviewEntryState) (timestamps : List String)
      → instant (activities r timestamps).last_reviewer_activity
        ≡ latest (instant r.last_reviewer_activity) timestamps
  unfolding activities
  activities-latest r [] = refl
  activities-latest r (t ∷ timestamps) =
      rw (← activity-max r t) (activities-latest (activity r t).0 timestamps)

  -- A handoff that is there is cleared by a contributor's event exactly if both timestamps can be read
  -- and the event is the later one.
  handoff_cleared :
      (r : ReviewEntryState) (handoff : CurrentCycleReviewerHandoff) (timestamp : String)
      → r.current_cycle_reviewer_handoff ≡ some handoff
      → ((clear_handoff_after_newer_contributor_event fromisoformat r timestamp).1 ≡ true) ↔ (
          (c : ℕ) × (h : ℕ) × (parse_github_timestamp fromisoformat (some timestamp) ≡ some c)
          × (parse_github_timestamp fromisoformat (some handoff.timestamp) ≡ some h)
          × (h < c))
  unfolding clear_handoff_after_newer_contributor_event
  handoff_cleared r handoff timestamp e = (ground arith, ground arith)
