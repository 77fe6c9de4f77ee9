-- ===== src/Approvals/Status.antt =====
-- The approval state of a pull request: compute_pr_approval_state_result of
-- scripts/reviewer_bot_core/approval_policy.py, after the two reads of LiveReviews/Reads.
use Prim.Native.Nat.{Ordering}
use Prim.Native.String.{compare as compare_texts, then as first_of_two}
use safety_critical_rust_cod.Common.{
  ℕ, String, Bool, true, false, not, ◌&&◌, Option, none, some, List, [], ◌∷◌, ◌==◌, any,
  if◌then◌else◌, or_else, lower, filter, Checked, returned, ◌>>=◌,
}
use safety_critical_rust_cod.Common.Sorting.{max_by}
use safety_critical_rust_cod.Value.{Value, as_text}
use safety_critical_rust_cod.Timestamps.{DateTime}
use safety_critical_rust_cod.Review.Types.{ReviewEntryState}
use safety_critical_rust_cod.LiveReviews.{
  is_assigned_scope, given, Scope, current_head_alternate_reviewer, ReviewFreshnessClassification,
  get_current_cycle_boundary, nonblank,
}
use safety_critical_rust_cod.LiveReviews.Reads.{
  ReadResult, ok, failure, PullRequest, LiveReviewList,
}
use safety_critical_rust_cod.LiveReviews.Context.{
  CurrentReviewContext, build_current_review_context, kind_or_reason,
}
use safety_critical_rust_cod.LiveReviews.Survivors.{str_of, is_on_current_head}
use safety_critical_rust_cod.Approvals.{
  CompletionAuthorityDecision, WriteApprovalAuthorityDecision, PermissionMap, is_approved,
  put_status, permission_status, derive_completion_authority_decision,
  derive_write_approval_authority_decision,
}

pub record Completion : Type 0 where
  pub completed : Bool
  pub current_head_sha : String
  pub qualifying_review_ids : List Value
  pub authority_decision : CompletionAuthorityDecision

pub record WriteApproval : Type 0 where
  pub has_write_approval : Bool
  pub write_approvers : List String
  pub current_head_sha : String
  pub response_state : String
  pub authority_decision : Option WriteApprovalAuthorityDecision

-- A failure before the reviews are judged, a failure with what was found, or the state.
pub data ApprovalResult : Type 0 where
  unread : String → Option String → ApprovalResult
  failed : String → Completion → WriteApproval → ApprovalResult
  computed : Completion → WriteApproval → ApprovalResult

abbrev is_alternate : Scope → Bool
is_alternate current_head_alternate_reviewer = true
is_alternate _ = false

abbrev pub on_current_head : List ReviewFreshnessClassification → List ReviewFreshnessClassification
on_current_head = filter (λ c. is_on_current_head c.classified_scope)

unfoldable pub permission_evidence :
    (String → String → String) → PermissionMap → List ReviewFreshnessClassification → PermissionMap
unfolding put_status permission_status lower
permission_evidence user_permission_status done [] = done
permission_evidence user_permission_status done (c ∷ current) =
    let author = or_else c.author "" in
    permission_evidence user_permission_status
      (if is_approved c.state && given c.author
        then put_status (lower author) (permission_status user_permission_status author "push") done
        else done)
      current

-- The result once the review is complete.
unfoldable pub result_of :
    String → CompletionAuthorityDecision → WriteApprovalAuthorityDecision → ApprovalResult
result_of current_head c w =
    let completion : Completion = record {
      completed = c.can_set_review_completed_at;
      current_head_sha = current_head;
      qualifying_review_ids = if c.can_set_review_completed_at then c.source_review_id ∷ [] else [];
      authority_decision = c;
    } in
    let is_done = w.response_state == "done" in
    if w.response_state == "projection_failed"
    then failed (or_else w.diagnostic_reason w.write_approval_state) completion (record {
      has_write_approval = false;
      write_approvers = [];
      current_head_sha = current_head;
      response_state = w.response_state;
      authority_decision = some w;
    })
    else computed completion (record {
      has_write_approval = is_done;
      write_approvers =
          if is_done && given w.approving_reviewer
          then or_else w.approving_reviewer "" ∷ []
          else [];
      current_head_sha = current_head;
      response_state = w.response_state;
      authority_decision = some w;
    })

module _ (fromisoformat : String → Option DateTime) (isoformat : ℕ → String)
    (python_str : Value → String) (parse_iso8601_timestamp : Option String → Option ℕ)
    (user_permission_status : String → String → String) where
  -- The key `(item.submitted_at or "", str(item.review_id))`.
  abbrev compare_reviews : ReviewFreshnessClassification → ReviewFreshnessClassification → Ordering
  compare_reviews a b =
      first_of_two (compare_texts (or_else a.submitted_at "") (or_else b.submitted_at "")) (
        compare_texts (str_of fromisoformat python_str a.review_id)
          (str_of fromisoformat python_str b.review_id))

  -- The last review of the assigned reviewer, of those on the current head.
  unfoldable pub assigned_classification :
      List ReviewFreshnessClassification → Option ReviewFreshnessClassification
  unfolding max_by
  assigned_classification current =
      max_by compare_reviews (filter (λ c. is_assigned_scope c.classified_scope) current)

  -- The judgement of the reviews on the current head, by the last one of the assigned reviewer.
  unfoldable pub judge_assigned :
      ℕ
      → Option String
      → String
      → List ReviewFreshnessClassification
      → Option ReviewFreshnessClassification
      → ApprovalResult
  judge_assigned issue_number current_reviewer current_head current assigned =
      let c =
        derive_completion_authority_decision (some issue_number) current_reviewer
          (some current_head) assigned (any (λ r. is_alternate r.classified_scope) current) in
      if not c.can_set_review_completed_at
      then computed
          (record {
            completed = false;
            current_head_sha = current_head;
            qualifying_review_ids = [];
            authority_decision = c;
          })
          (record {
            has_write_approval = false;
            write_approvers = [];
            current_head_sha = current_head;
            response_state = "awaiting_reviewer_response";
            authority_decision = none;
          })
      else result_of current_head c (
          derive_write_approval_authority_decision (some issue_number) (some current_head)
            current_reviewer assigned current
            (some (permission_evidence user_permission_status [] current)))

  unfoldable pub approval_state :
      ℕ → Option String → String → List ReviewFreshnessClassification → ApprovalResult
  unfolding judge_assigned
  approval_state issue_number current_reviewer current_head classifications =
      let current = on_current_head classifications in
      judge_assigned issue_number current_reviewer current_head current
        (assigned_classification current)

  unfoldable pub judge_context : ℕ → Option String → String → CurrentReviewContext → ApprovalResult
  unfolding approval_state
  judge_context issue_number current_reviewer current_head context =
      if context.live_reviews_available
      then approval_state issue_number current_reviewer current_head context.classifications
      else unread (kind_or_reason context.live_reviews_failure_kind "reviews_unavailable") none

  -- What follows the two reads, for a cycle that has a boundary.
  unfoldable pub after_reads :
      ℕ
      → ReviewEntryState
      → ReadResult PullRequest
      → ReadResult LiveReviewList
      → Checked ApprovalResult
  unfolding nonblank build_current_review_context judge_context
  after_reads issue_number entry (failure reason kind) reviews_result =
      returned (unread reason kind)
  after_reads issue_number entry (ok pull_request) reviews_result =
      elim (nonblank (as_text pull_request.head_sha)) [
        | none ↦ returned (unread "pull_request_head_unavailable" (some "invalid_payload"))
        | some current_head ↦ elim reviews_result [
          | failure reason kind ↦ returned (unread reason kind)
          | ok reviews ↦
              build_current_review_context fromisoformat isoformat issue_number entry
                (ok pull_request) (ok reviews)
              >>= λ context.
                  returned (judge_context issue_number entry.current_reviewer current_head context)
        ]
      ]

  unfoldable pub compute_pr_approval_state_result :
      ℕ
      → ReviewEntryState
      → ReadResult PullRequest
      → ReadResult LiveReviewList
      → Checked ApprovalResult
  unfolding get_current_cycle_boundary after_reads
  compute_pr_approval_state_result issue_number entry pull_request_result reviews_result =
      elim (get_current_cycle_boundary parse_iso8601_timestamp entry) [
        | none ↦ returned (unread "pull_request_unavailable" none)
        | some boundary ↦ after_reads issue_number entry pull_request_result reviews_result
      ]
