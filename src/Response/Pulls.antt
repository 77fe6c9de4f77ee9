-- ===== src/Response/Pulls.antt =====
-- The response state of a pull request: the second branch of derive_reviewer_response_state of
-- scripts/reviewer_bot_core/reviewer_response_policy.py.
use text.Mathlib.Text.{starts_with}
use safety_critical_rust_cod.Common.{
  String, Bool, true, not, ◌&&◌, or_else, Option, none, some, List, any, ◌==◌, if◌then◌else◌, lower,
  is_some, truthy, strip,
}
use safety_critical_rust_cod.Timestamps.{DateTime}
use safety_critical_rust_cod.Review.Types.{ReviewEntryState}
use safety_critical_rust_cod.Approvals.{WriteApprovalAuthorityDecision}
use safety_critical_rust_cod.Approvals.Status.{
  Completion, WriteApproval, ApprovalResult, unread, failed, computed,
}
use safety_critical_rust_cod.Response.{
  ResponseRecord, initial_reviewer_anchor, ScopeFields, current_scope_fields, same_text,
  contributor_revision_handoff_record, is_newer, is_later, current_cycle_reviewer_handoff_record,
}
use safety_critical_rust_cod.Response.Answers.{
  Response, bare_response, timestamp_of, open_handoff, later_of,
}

-- `_write_approval_authority_payload(write_approval)`
abbrev authority_of : Option ApprovalResult → Option WriteApprovalAuthorityDecision
authority_of none = none
authority_of (some (unread reason kind)) = none
authority_of (some (failed reason completion approval)) = approval.authority_decision
authority_of (some (computed completion approval)) = approval.authority_decision

-- A response of the branch of a pull request.
abbrev pub pull_response :
    ReviewEntryState
    → String
    → String
    → Option ResponseRecord
    → Option ResponseRecord
    → Option ResponseRecord
    → Option ResponseRecord
    → String
    → String
    → Option String
    → Option WriteApprovalAuthorityDecision
    → Response
pull_response entry reviewer head review handoff contributor contributor_handoff state reason anchor
      authority =
    record {
      state = state;
      reason = some reason;
      scope_fields = current_scope_fields entry (some reviewer) (some head) contributor_handoff;
      anchor_timestamp = anchor;
      current_head_sha = some head;
      reviewer_comment = none;
      reviewer_review = review;
      current_cycle_reviewer_handoff = handoff;
      contributor_comment = contributor;
      contributor_handoff = contributor_handoff;
      write_approval_authority = authority;
    }

-- What the approvals of a review on the current head say.
pub data ApprovalOutcome : Type 0 where
  incomplete not_approved authority_failed approval_missing approved : ApprovalOutcome

unfoldable pub approval_outcome : Completion → WriteApproval → ApprovalOutcome
approval_outcome completion approval =
    if not completion.completed
    then incomplete
    else if approval.response_state == "awaiting_contributor_response"
    then not_approved
    else if approval.response_state == "projection_failed"
    then authority_failed
    else if not approval.has_write_approval
    then approval_missing
    else approved

abbrev authority_reason : Option WriteApprovalAuthorityDecision → String
authority_reason none = "write_approval_authority_unavailable"
authority_reason (some a) = or_else a.diagnostic_reason "write_approval_authority_unavailable"

unfoldable pub respond_approval :
    (String → String → Option String → Option WriteApprovalAuthorityDecision → Response)
    → ScopeFields
    → Option String
    → Option WriteApprovalAuthorityDecision
    → ApprovalOutcome
    → Response
respond_approval respond scope latest authority incomplete =
    respond "awaiting_contributor_response" "completion_missing" latest none
respond_approval respond scope latest authority not_approved =
    respond "awaiting_contributor_response" "assigned_reviewer_review_submitted" latest authority
respond_approval respond scope latest authority authority_failed =
    bare_response "projection_failed" (authority_reason authority) scope authority
respond_approval respond scope latest authority approval_missing =
    respond "awaiting_write_approval" "write_approval_missing" latest authority
respond_approval respond scope latest authority approved =
    respond "done" "write_approval_present" latest authority

-- The end of the branch of a pull request: a review on the current head, judged by its approvals.
unfoldable pub judge_approvals :
    (String → String → Option String → Option WriteApprovalAuthorityDecision → Response)
    → ScopeFields
    → Option String
    → Option ApprovalResult
    → Response
judge_approvals respond scope latest (some (computed completion approval)) =
    respond_approval respond scope latest approval.authority_decision
      (approval_outcome completion approval)
judge_approvals respond scope latest result =
    bare_response "projection_failed" "live_review_state_unknown" scope (authority_of result)

abbrev pub head_of : Option ResponseRecord → Option String
head_of none = none
head_of (some r) = r.reviewed_head_sha

-- The approval of the current head that GitHub shows contradicts the stored review.
abbrev pub is_contradiction : String → String → List String → Option ResponseRecord → Bool
is_contradiction reviewer head approval_authors stored =
    any (λ author. truthy (strip author) && lower author == lower reviewer) approval_authors
    && not (same_text (head_of stored) (some head))

-- What the branch of a pull request says, in the order of its tests.
pub data PullOutcome : Type 0 where
  nothing_yet contributor_newer handoff_last contradiction handoff_stale review_stale on_head :
      PullOutcome

-- Is there neither a review nor a handoff; is the contributor's handoff newer than the reviewer's latest
-- record; is the reviewer's handoff that record; does GitHub contradict the store; is the review on the
-- current head; is there a handoff.
unfoldable pub pull_outcome : Bool → Bool → Bool → Bool → Bool → Bool → PullOutcome
pull_outcome nothing newer by_handoff contradicts is_on_head has_handoff =
    if nothing
    then nothing_yet
    else if newer
    then contributor_newer
    else if by_handoff
    then handoff_last
    else if contradicts
    then contradiction
    else if not is_on_head
    then if has_handoff then handoff_stale else review_stale
    else on_head

abbrev newer_reason : Option ResponseRecord → String
newer_reason none = "contributor_comment_newer"
newer_reason (some r) =
    if starts_with r.semantic_key "pull_request_"
    then "contributor_revision_newer"
    else "contributor_comment_newer"

abbrev or_anchor : Option ResponseRecord → Option String → Option String
or_anchor none anchor = anchor
or_anchor (some r) anchor = some r.timestamp

module _ (fromisoformat : String → Option DateTime) where
  -- The response to each outcome; `latest` is the latest record of the reviewer.
  unfoldable pub respond_pull :
      ReviewEntryState
      → String
      → String
      → Option ResponseRecord
      → Option ResponseRecord
      → Option ResponseRecord
      → Option ResponseRecord
      → Option ApprovalResult
      → Option ResponseRecord
      → PullOutcome
      → Response
  respond_pull entry reviewer head review handoff contributor contributor_handoff result latest
        nothing_yet =
      pull_response entry reviewer head review handoff contributor none "awaiting_reviewer_response"
        "no_reviewer_activity" (initial_reviewer_anchor entry) none
  respond_pull entry reviewer head review handoff contributor contributor_handoff result latest
        contributor_newer =
      pull_response entry reviewer head review handoff contributor contributor_handoff
        "awaiting_reviewer_response" (newer_reason contributor_handoff)
        (timestamp_of contributor_handoff) none
  respond_pull entry reviewer head review handoff contributor contributor_handoff result latest
        contradiction =
      pull_response entry reviewer head review handoff contributor contributor_handoff
        "projection_failed" "public_current_head_approval_contradiction"
        (or_anchor contributor_handoff (initial_reviewer_anchor entry)) none
  respond_pull entry reviewer head review handoff contributor contributor_handoff result latest
        review_stale =
      pull_response entry reviewer head review handoff contributor contributor_handoff
        "awaiting_reviewer_response" "review_head_stale"
        (or_anchor contributor_handoff (initial_reviewer_anchor entry)) none
  respond_pull entry reviewer head review handoff contributor contributor_handoff result latest
        on_head =
      judge_approvals
        (pull_response entry reviewer head review handoff contributor contributor_handoff)
        (current_scope_fields entry (some reviewer) (some head) contributor_handoff)
        (timestamp_of latest) result
  respond_pull entry reviewer head review handoff contributor contributor_handoff result latest
        handoff_last =
      pull_response entry reviewer head review handoff contributor contributor_handoff
        "awaiting_contributor_response" "reviewer_feedback_handoff" (timestamp_of handoff) none
  respond_pull entry reviewer head review handoff contributor contributor_handoff result latest
        handoff_stale =
      pull_response entry reviewer head review handoff contributor contributor_handoff
        "awaiting_contributor_response" "reviewer_feedback_handoff" (timestamp_of handoff) none

  -- The branch of a pull request after the handoffs are known.
  unfoldable pub judge_pull :
      ReviewEntryState
      → String
      → String
      → Option ResponseRecord
      → Option ResponseRecord
      → Option ResponseRecord
      → Option ResponseRecord
      → Bool
      → Option ApprovalResult
      → List String
      → Option ResponseRecord
      → Response
  unfolding lower strip
  judge_pull entry reviewer head review handoff contributor contributor_handoff had_reviewer_review
        approval_result approval_authors stored =
      let latest_review = later_of fromisoformat review none in
      let latest = later_of fromisoformat handoff latest_review in
      respond_pull entry reviewer head review handoff contributor contributor_handoff
        approval_result latest
        (pull_outcome (not (is_some review) && not (is_some handoff) && not had_reviewer_review)
          (is_newer fromisoformat contributor_handoff latest)
          (is_some handoff && is_later fromisoformat handoff latest_review)
          (is_contradiction reviewer head approval_authors stored)
          (same_text (head_of review) (some head)) (is_some handoff))

  unfoldable pub derive_pull_response :
      ReviewEntryState
      → String
      → String
      → Option ResponseRecord
      → Option ResponseRecord
      → Bool
      → Option ApprovalResult
      → List String
      → Option ResponseRecord
      → Response
  derive_pull_response entry reviewer head reviewer_review contributor had_reviewer_review
        approval_result approval_authors stored =
      let revision = contributor_revision_handoff_record entry (some head) reviewer_review in
      let contributor_handoff = later_of fromisoformat revision contributor in
      let handoff =
        current_cycle_reviewer_handoff_record fromisoformat entry reviewer (some head) true in
      judge_pull entry reviewer head reviewer_review
        (open_handoff fromisoformat contributor_handoff handoff) contributor contributor_handoff
        had_reviewer_review approval_result approval_authors stored
