-- ===== src/Response/Turns.antt =====
-- Whose turn it is after the contributor acted last: derive_reviewer_response_state of
-- scripts/reviewer_bot_core/reviewer_response_policy.py.
use safety_critical_rust_cod.Common.{
  ℕ, ◌<◌, ◌≤◌, ◌≡◌, refl, String, Bool, true, false, not, ◌&&◌, Option, none, some, List, [],
  if◌then◌else◌, arith, Bool-cases, inl, inr, is_some,
}
use safety_critical_rust_cod.Value.{get, is_true}
use safety_critical_rust_cod.Timestamps.{DateTime}
use safety_critical_rust_cod.Review.Types.{ReviewEntryState}
use safety_critical_rust_cod.LiveReviews.{nonblank, given, same_lowered}
use safety_critical_rust_cod.Approvals.Status.{ApprovalResult}
use safety_critical_rust_cod.Response.{
  ResponseRecord, record_time, is_newer, is_later, compare_cross_channel_conversation,
  compare_response_records, current_cycle_reviewer_handoff_record,
  contributor_revision_handoff_record, record_for_current_reviewer,
}
use safety_critical_rust_cod.Response.Answers.{open_handoff, later_of}
use safety_critical_rust_cod.Response.Issues.{
  issue_outcome, issue_state, judge_issue, derive_issue_response,
}
use safety_critical_rust_cod.Response.Pulls.{
  pull_outcome, respond_pull, judge_pull, derive_pull_response,
}
use safety_critical_rust_cod.Response.Derived.{derive_reviewer_response_state}

issue_outcome_newer :
    (by_handoff has_activity : Bool)
    → (issue_state (issue_outcome by_handoff true false has_activity true)).0
      ≡ "awaiting_reviewer_response"
unfolding issue_state issue_outcome
issue_outcome_newer true a = refl
issue_outcome_newer false true = refl
issue_outcome_newer false false = refl

module _ (fromisoformat : String → Option DateTime) where
  abbrev time : Option ResponseRecord → ℕ
  time = record_time fromisoformat

  -- What is later in time is newer.
  is_newer-later :
      (a b : Option ResponseRecord) → time b < time a → is_newer fromisoformat a b ≡ true
  unfolding compare_cross_channel_conversation
  is_newer-later a b h = ground arith

  -- The later of two records is at least as late as each of them.
  later_of-current : (a b : Option ResponseRecord) → time b ≤ time (later_of fromisoformat a b)
  unfolding compare_response_records
  later_of-current none none = omega arith
  later_of-current none (some b) = omega arith
  later_of-current (some a) none = omega arith
  later_of-current (some a) (some b) = ground arith

  later_of-bound :
      (n : ℕ) (a b : Option ResponseRecord)
      → time a < n
      → time b < n
      → time (later_of fromisoformat a b) < n
  later_of-bound n a b h k = elim (Bool-cases (is_later fromisoformat a b)) [
    | inl e ↦ rw (e, if◌then◌else◌) h
    | inr e ↦ rw (e, if◌then◌else◌) k
  ]

  open_handoff-bound :
      (n : ℕ) (a b : Option ResponseRecord) → time b < n → time (open_handoff fromisoformat a b) < n
  open_handoff-bound n a b h = elim (Bool-cases (is_newer fromisoformat a b)) [
    | inl e ↦ rw (e, if◌then◌else◌) (omega arith)
    | inr e ↦ rw (e, if◌then◌else◌) h
  ]

  module _ (entry : ReviewEntryState) (reviewer : String) where
    -- A contributor's record that is newer than the reviewer's latest one gives the turn to the reviewer.
    judge_pull_newer :
        (head : String) (review handoff contributor contributor_handoff : Option ResponseRecord)
        (had : Bool) (result : Option ApprovalResult) (authors : List String)
        (stored : Option ResponseRecord)
        → is_newer fromisoformat contributor_handoff
            (later_of fromisoformat handoff (later_of fromisoformat review none))
          ≡ true
        → (judge_pull fromisoformat entry reviewer head review handoff contributor
            contributor_handoff had result authors stored).state
          ≡ "awaiting_reviewer_response"
    unfolding judge_pull pull_outcome respond_pull
    judge_pull_newer head review handoff contributor contributor_handoff had result authors stored
          h =
        elim (Bool-cases (not (is_some review) && not (is_some handoff) && not had)) [
          | inl e ↦ rw (e, if◌then◌else◌) refl
          | inr e ↦ rw (e, h, if◌then◌else◌) refl
        ]

    judge_issue_newer :
        (comment review contributor handoff : Option ResponseRecord)
        → is_true (get "completed" entry.current_cycle_completion) ≡ false
        → given entry.review_completed_at ≡ false
        → is_newer fromisoformat contributor handoff ≡ true
        → is_newer fromisoformat contributor
            (later_of fromisoformat handoff (later_of fromisoformat review comment))
          ≡ true
        → (judge_issue fromisoformat entry reviewer comment review contributor handoff).state
          ≡ "awaiting_reviewer_response"
    unfolding judge_issue
    judge_issue_newer comment review contributor handoff hc hg hh h =
        rw (hc, hg, hh, h) (issue_outcome_newer _ _)

    derive_pull_newer :
        (head : String) (review contributor stored : Option ResponseRecord) (had : Bool)
        (result : Option ApprovalResult) (authors : List String)
        → time review < time contributor
        → time (current_cycle_reviewer_handoff_record fromisoformat entry reviewer (some head) true)
          < time contributor
        → (derive_pull_response fromisoformat entry reviewer head review contributor had result
            authors stored).state
          ≡ "awaiting_reviewer_response"
    unfolding derive_pull_response
    derive_pull_newer head review contributor stored had result authors hr hh =
        let revision = contributor_revision_handoff_record entry (some head) review in
        let handoff =
          current_cycle_reviewer_handoff_record fromisoformat entry reviewer (some head) true in
        let last : ℕ = time (later_of fromisoformat revision contributor) in
        let bound : time contributor ≤ last = later_of-current revision contributor in
        judge_pull_newer head review _ contributor _ had result authors stored (
          is_newer-later _ _ (
            later_of-bound last _ _ (open_handoff-bound last _ handoff (omega (arith, hh, bound))) (
              later_of-bound last review none (omega (arith, hr, bound))
                (omega (arith, hr, bound)))))

    for_reviewer-bound :
        (n : ℕ) (r : Option ResponseRecord)
        → time r < n
        → time (record_for_current_reviewer r reviewer) < n
    unfolding record_for_current_reviewer
    for_reviewer-bound n none h = h
    for_reviewer-bound n (some r) h =
        elim (Bool-cases
          (is_some (nonblank r.actor) && not (same_lowered r.actor (some reviewer)))) [
            | inl e ↦ rw (e, if◌then◌else◌) (omega arith)
            | inr e ↦ rw (e, if◌then◌else◌) h
          ]

    derive_issue_newer :
        (comment review contributor : Option ResponseRecord)
        → is_true (get "completed" entry.current_cycle_completion) ≡ false
        → given entry.review_completed_at ≡ false
        → time comment < time contributor
        → time review < time contributor
        → time (current_cycle_reviewer_handoff_record fromisoformat entry reviewer none false)
          < time contributor
        → (derive_issue_response fromisoformat entry reviewer comment review contributor).state
          ≡ "awaiting_reviewer_response"
    unfolding derive_issue_response
    derive_issue_newer comment review contributor hc hg h1 h2 h3 =
        let n : ℕ = time contributor in
        let handoff =
          open_handoff-bound n contributor
            (current_cycle_reviewer_handoff_record fromisoformat entry reviewer none false) h3 in
        judge_issue_newer _ _ contributor _ hc hg (is_newer-later contributor _ handoff) (
          is_newer-later contributor _ (
            later_of-bound n _ _ handoff (
              later_of-bound n _ _ (for_reviewer-bound n review h2)
                (for_reviewer-bound n comment h1))))

    -- A pull request with a current reviewer and a head that is not blank: if the contributor's last
    -- comment is later than the reviewer's review and than the reviewer's handoff of this cycle, then the
    -- reviewer is awaited, whatever the approvals and the reviewer's comments are.
    pub pull_turn :
        (head : String) (comment review contributor stored : Option ResponseRecord) (had : Bool)
        (result : Option ApprovalResult) (authors : List String)
        → nonblank entry.current_reviewer ≡ some reviewer
        → nonblank (some head) ≡ some head
        → time review < time contributor
        → time (current_cycle_reviewer_handoff_record fromisoformat entry reviewer (some head) true)
          < time contributor
        → (derive_reviewer_response_state fromisoformat entry true
            (some head)
            comment
            review
            contributor
            had
            result
            authors
            stored).state
          ≡ "awaiting_reviewer_response"
    unfolding derive_reviewer_response_state
    pull_turn head comment review contributor stored had result authors e f hr hh =
        rw (e, f, derive_reviewer_response_state)
          (derive_pull_newer head review contributor stored had result authors hr hh)

    -- An issue with a current reviewer that is not completed: if the contributor's last comment is later
    -- than the reviewer's comment, review and handoff of this cycle, then the reviewer is awaited.
    pub issue_turn :
        (comment review contributor : Option ResponseRecord)
        → nonblank entry.current_reviewer ≡ some reviewer
        → is_true (get "completed" entry.current_cycle_completion) ≡ false
        → given entry.review_completed_at ≡ false
        → time comment < time contributor
        → time review < time contributor
        → time (current_cycle_reviewer_handoff_record fromisoformat entry reviewer none false)
          < time contributor
        → (derive_reviewer_response_state fromisoformat entry false none comment review contributor
            (is_some review)
            none
            []
            none).state
          ≡ "awaiting_reviewer_response"
    unfolding derive_reviewer_response_state
    issue_turn comment review contributor e hc hg h1 h2 h3 =
        rw (e, derive_reviewer_response_state)
          (derive_issue_newer comment review contributor hc hg h1 h2 h3)
