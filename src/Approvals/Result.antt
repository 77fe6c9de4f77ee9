-- ===== src/Approvals/Result.antt =====
-- What compute_pr_approval_state_result promises: scripts/reviewer_bot_core/approval_policy.py.
use safety_critical_rust_cod.Common.{
  ℕ, ◌≡◌, refl, subst, String, true, false, Option, List, Option-cases, inl, inr, Checked, returned,
  Returns, Checked-cases,
}
use safety_critical_rust_cod.Value.{Value, as_text}
use safety_critical_rust_cod.Timestamps.{DateTime}
use safety_critical_rust_cod.Review.Types.{ReviewEntryState}
use safety_critical_rust_cod.LiveReviews.{
  ReviewFreshnessClassification, get_current_cycle_boundary, nonblank,
}
use safety_critical_rust_cod.LiveReviews.Reads.{ReadResult, ok, PullRequest, LiveReviewList}
use safety_critical_rust_cod.LiveReviews.Context.{
  classify_all, boundary_text, build_current_review_context,
}
use safety_critical_rust_cod.LiveReviews.Scopes.{classify_all-authored}
use safety_critical_rust_cod.Approvals.Status.{
  ApprovalResult, unread, computed, failed, Completion, WriteApproval, approval_state,
  judge_context, on_current_head, assigned_classification, after_reads,
  compute_pr_approval_state_result,
}
use safety_critical_rust_cod.Approvals.Granted.{Sound, IsGranted, judge-Sound}

module _ (fromisoformat : String → Option DateTime) (isoformat : ℕ → String)
    (python_str : Value → String) (parse_iso8601_timestamp : Option String → Option ℕ)
    (ask : String → String → String) where
  abbrev compute :
      ℕ
      → ReviewEntryState
      → ReadResult PullRequest
      → ReadResult LiveReviewList
      → Checked ApprovalResult
  compute =
      compute_pr_approval_state_result fromisoformat isoformat python_str parse_iso8601_timestamp
        ask

  -- What the reviews of the cycle are classified as, for a head.
  abbrev pub classified :
      ReviewEntryState → PullRequest → LiveReviewList → Checked (List ReviewFreshnessClassification)
  classified entry pull_request reviews =
      classify_all fromisoformat isoformat (as_text pull_request.head_sha)
        (boundary_text fromisoformat isoformat entry) entry.current_reviewer reviews

  -- A result that is not about the reviews, or one about reviews that were classified.
  abbrev Judged : ReviewEntryState → PullRequest → LiveReviewList → ApprovalResult → Type 0
  Judged entry pull_request reviews (unread reason kind) = Unit
  Judged entry pull_request reviews (computed completion approval) =
      (cs : List ReviewFreshnessClassification) × (classified entry pull_request reviews
        ≡ returned cs)
      × (approval.has_write_approval ≡ true → IsGranted ask cs completion approval)
  Judged entry pull_request reviews (failed reason completion approval) =
      (reason ≡ "permission_unavailable")
      × (completion.completed ≡ true)
      × (approval.has_write_approval ≡ false)

  module _ (n : ℕ) (entry : ReviewEntryState) (pull_request : PullRequest)
      (reviews : LiveReviewList) where
    Sound-Judged :
        (cs : List ReviewFreshnessClassification) (r : ApprovalResult)
        → classified entry pull_request reviews ≡ returned cs
        → Sound ask cs r
        → Judged entry pull_request reviews r
    Sound-Judged cs (unread reason kind) e sound = tt
    Sound-Judged cs (computed completion approval) e sound = (cs, e, sound)
    Sound-Judged cs (failed reason completion approval) e sound = sound

    approval_state-Judged :
        (head : String) (cs : List ReviewFreshnessClassification)
        → classified entry pull_request reviews ≡ returned cs
        → Judged entry pull_request reviews (
            approval_state fromisoformat isoformat python_str parse_iso8601_timestamp ask n
              entry.current_reviewer head cs)
    unfolding approval_state
    approval_state-Judged head cs e = Sound-Judged cs _ e (
        judge-Sound fromisoformat isoformat python_str parse_iso8601_timestamp ask n
          entry.current_reviewer head cs
          (assigned_classification fromisoformat isoformat python_str parse_iso8601_timestamp ask
            (on_current_head cs))
          (classify_all-authored fromisoformat isoformat _ _ _ reviews e) refl)

    compute-Judged :
        Returns (Judged entry pull_request reviews) (compute n entry (ok pull_request) (ok reviews))
    unfolding compute_pr_approval_state_result build_current_review_context judge_context
        after_reads
    compute-Judged =
        elim (Option-cases (get_current_cycle_boundary parse_iso8601_timestamp entry)) [
          | inl e ↦ rw (e, compute_pr_approval_state_result) tt
          | inr (boundary, e) ↦ elim (Option-cases (nonblank (as_text pull_request.head_sha))) [
            | inl f ↦ rw (e, compute_pr_approval_state_result) (rw (f, after_reads) tt)
            | inr (head, f) ↦ elim (Checked-cases (classified entry pull_request reviews)) [
              | inl (message, g) ↦
                  rw (e, compute_pr_approval_state_result)
                    (rw (f, after_reads) (rw (g, Returns) tt))
              | inr (cs, g) ↦
                  rw (e, compute_pr_approval_state_result)
                    (rw (f, after_reads) (rw (g, Returns) (approval_state-Judged head cs g)))
            ]
          ]
        ]

    -- If both reads succeed and the approval state is computed with a write approval, then the review
    -- is complete, the assigned reviewer approves with a review of the current head that has a time,
    -- there is one write approver, and a user with that login, but for its case, approves the current
    -- head and may push.
    pub write_approval-IsGranted :
        (completion : Completion) (approval : WriteApproval)
        → compute n entry (ok pull_request) (ok reviews) ≡ returned (computed completion approval)
        → approval.has_write_approval ≡ true
        → (cs : List ReviewFreshnessClassification) × (classified entry pull_request reviews
            ≡ returned cs)
          × IsGranted ask cs completion approval
    write_approval-IsGranted completion approval h has =
        let (cs, e, sound) = subst (Returns (Judged entry pull_request reviews)) h compute-Judged in
        (cs, e, sound has)

    -- If both reads succeed and the result is a failure that tells of a completion, then its reason is
    -- that a permission could not be read, the review is complete, and no write approval is reported.
    failed_reason :
        (reason : String) (completion : Completion) (approval : WriteApproval)
        → compute n entry (ok pull_request) (ok reviews)
          ≡ returned (failed reason completion approval)
        → (reason ≡ "permission_unavailable")
          × (completion.completed ≡ true)
          × (approval.has_write_approval ≡ false)
    failed_reason reason completion approval h =
        subst (Returns (Judged entry pull_request reviews)) h compute-Judged
