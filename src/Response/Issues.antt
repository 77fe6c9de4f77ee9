-- ===== src/Response/Issues.antt =====
-- The response state of an issue: the first branch of derive_reviewer_response_state of
-- scripts/reviewer_bot_core/reviewer_response_policy.py.
use safety_critical_rust_cod.Common.{
  String, Bool, false, not, ◌&&◌, ◌||◌, Option, none, some, if◌then◌else◌, is_some,
}
use safety_critical_rust_cod.Value.{get, is_true}
use safety_critical_rust_cod.Timestamps.{DateTime}
use safety_critical_rust_cod.Review.Types.{ReviewEntryState}
use safety_critical_rust_cod.LiveReviews.{given}
use safety_critical_rust_cod.Response.{
  ResponseRecord, initial_reviewer_anchor, current_scope_fields, record_for_current_reviewer,
  is_newer, is_later, current_cycle_reviewer_handoff_record,
}
use safety_critical_rust_cod.Response.Answers.{Response, timestamp_of, open_handoff, later_of}

-- What the branch of an issue says, in the order of its tests.
pub data IssueOutcome : Type 0 where
  handoff_answered handoff_open completed no_activity comment_newer reviewer_last : IssueOutcome

-- Is the handoff the latest record of the reviewer, and is the contributor's newer than it; is the
-- review completed; is there a record of the reviewer, and is the contributor's newer than the latest.
unfoldable pub issue_outcome : Bool → Bool → Bool → Bool → Bool → IssueOutcome
issue_outcome by_handoff newer_than_handoff is_completed has_activity newer =
    if by_handoff
    then if newer_than_handoff then handoff_answered else handoff_open
    else if is_completed
    then completed
    else if not has_activity
    then no_activity
    else if newer
    then comment_newer
    else reviewer_last

-- The state and the reason of a response.
unfoldable pub issue_state : IssueOutcome → String × Option String
issue_state handoff_answered = ("awaiting_reviewer_response", some "contributor_comment_newer")
issue_state handoff_open = ("awaiting_contributor_response", some "completion_missing")
issue_state completed = ("done", none)
issue_state no_activity = ("awaiting_reviewer_response", some "no_reviewer_activity")
issue_state comment_newer = ("awaiting_reviewer_response", some "contributor_comment_newer")
issue_state reviewer_last = ("awaiting_contributor_response", some "completion_missing")

-- The anchor, from those of the entry, the contributor and the reviewer's latest record.
unfoldable pub issue_anchor :
    IssueOutcome → Option String → Option String → Option String → Option String
issue_anchor no_activity initial contributor latest = initial
issue_anchor handoff_answered initial contributor latest = contributor
issue_anchor comment_newer initial contributor latest = contributor
issue_anchor outcome initial contributor latest = latest

module _ (fromisoformat : String → Option DateTime) where
  -- The branch of an issue, for a reviewer: the two records of the reviewer and the handoff are those
  -- that count.
  unfoldable pub judge_issue :
      ReviewEntryState
      → String
      → Option ResponseRecord
      → Option ResponseRecord
      → Option ResponseRecord
      → Option ResponseRecord
      → Response
  unfolding get is_true
  judge_issue entry reviewer comment review contributor handoff =
      let recorded = later_of fromisoformat review comment in
      let latest = later_of fromisoformat handoff recorded in
      let outcome =
        issue_outcome (is_some handoff && is_later fromisoformat handoff recorded)
          (is_newer fromisoformat contributor handoff)
          (is_true (get "completed" entry.current_cycle_completion)
            || given entry.review_completed_at)
          (is_some latest) (is_newer fromisoformat contributor latest) in
      let state_and_reason = issue_state outcome in
      record {
        state = state_and_reason.0;
        reason = state_and_reason.1;
        scope_fields = current_scope_fields entry (some reviewer) none contributor;
        anchor_timestamp =
            issue_anchor outcome (initial_reviewer_anchor entry) (timestamp_of contributor)
              (timestamp_of latest);
        current_head_sha = none;
        reviewer_comment = comment;
        reviewer_review = review;
        current_cycle_reviewer_handoff = handoff;
        contributor_comment = contributor;
        contributor_handoff = contributor;
        write_approval_authority = none;
      }

  unfoldable pub derive_issue_response :
      ReviewEntryState
      → String
      → Option ResponseRecord
      → Option ResponseRecord
      → Option ResponseRecord
      → Response
  derive_issue_response entry reviewer reviewer_comment reviewer_review contributor =
      judge_issue entry reviewer (record_for_current_reviewer reviewer_comment reviewer)
        (record_for_current_reviewer reviewer_review reviewer) contributor
        (open_handoff fromisoformat contributor
          (current_cycle_reviewer_handoff_record fromisoformat entry reviewer none false))
