-- ===== src/Response/Granted.antt =====
-- A pull request whose response state is `done` has a write approval: compute_reviewer_response_state of
-- scripts/reviewer_bot_core/reviewer_response_policy.py over compute_pr_approval_state_result of
-- scripts/reviewer_bot_core/approval_policy.py.
use safety_critical_rust_cod.Common.{
  ℕ, ◌≡◌, String, Bool, true, Option, none, some, List, Option-cases, inl, inr, is_some, strip,
  truthy, if◌then◌else◌, Checked, returned, Checked-cases, Bool-cases, ap, ◌∙◌, returned_inj,
}
use safety_critical_rust_cod.Value.{Value, as_text}
use safety_critical_rust_cod.Timestamps.{DateTime}
use safety_critical_rust_cod.Review.Types.{ReviewEntryState}
use safety_critical_rust_cod.LiveReviews.{nonblank, ReviewFreshnessClassification}
use safety_critical_rust_cod.LiveReviews.Reads.{
  ReadResult, ok, failure, PullRequest, LiveReviewList,
}
use safety_critical_rust_cod.LiveReviews.Authors.{current_head_approval_authors}
use safety_critical_rust_cod.Approvals.{WriteApprovalAuthorityDecision}
use safety_critical_rust_cod.Approvals.Status.{
  Completion, WriteApproval, ApprovalResult, unread, failed, computed,
  compute_pr_approval_state_result,
}
use safety_critical_rust_cod.Approvals.Granted.{IsGranted}
use safety_critical_rust_cod.Approvals.Result.{classified, write_approval-IsGranted}
use safety_critical_rust_cod.Response.{
  ResponseRecord, accepted_of, same_text, ScopeFields, no_scope,
}
use safety_critical_rust_cod.Response.Answers.{Response, bare_response}
use safety_critical_rust_cod.Response.Pulls.{head_of, derive_pull_response}
use safety_critical_rust_cod.Response.Derived.{derive_reviewer_response_state}
use safety_critical_rust_cod.Response.Computed.{
  current_review, response_of_pull, response_of_reads, compute_reviewer_response_state,
}
use safety_critical_rust_cod.Response.Done.{IsApproved, judge_pull_done}

nonblank-some : (o : Option String) (s : String) → nonblank o ≡ some s → o ≡ some s
unfolding nonblank
nonblank-some none s h = absurd cc
nonblank-some (some t) s h = elim (Bool-cases (truthy (strip t))) [
  | inl e ↦ rw (e, if◌then◌else◌) at h
  | inr e ↦ absurd cc
]

module _ (fromisoformat : String → Option DateTime) where
  derive_done :
      (entry : ReviewEntryState) (head : String) (review contributor stored : Option ResponseRecord)
      (had : Bool) (result : ApprovalResult) (authors : List String)
      → (derive_reviewer_response_state fromisoformat entry true
          (some head)
          none
          review
          contributor
          had
          (some result)
          authors
          stored).state
        ≡ "done"
      → IsApproved (some result) × (same_text (head_of review) (some head) ≡ true)
  unfolding derive_reviewer_response_state derive_pull_response
  derive_done entry head review contributor stored had result authors h =
      elim (Option-cases (nonblank entry.current_reviewer)) [
        | inl e ↦ (let k = rw (e, derive_reviewer_response_state) at h in absurd (cc k))
        | inr (reviewer, e) ↦ elim (Option-cases (nonblank (some head))) [
          | inl f ↦ (let k = rw (e, f, derive_reviewer_response_state) at h in absurd (cc k))
          | inr (text, f) ↦
              let k = rw (e, f, derive_reviewer_response_state) at h in
              let same : some head ≡ some text = nonblank-some (some head) text f in
              rw same (
                let (is_approved, on_head, newer, by_handoff) =
                  judge_pull_done fromisoformat entry reviewer text review _ _ _ (some result) had
                    authors stored k in
                (is_approved, on_head))
        ]
      ]

-- A failed projection is not `done`.
not_failed :
    (reason : String) (scope : ScopeFields) (authority : Option WriteApprovalAuthorityDecision)
    (r : Response)
    → returned (bare_response "projection_failed" reason scope authority) ≡ returned r
    → r.state ≡ "done"
    → ⊥
not_failed reason scope authority r h done =
    let same : bare_response "projection_failed" reason scope authority ≡ r = returned_inj h in
    cc (ap (λ x. x.state) same, done)

module _ (fromisoformat : String → Option DateTime) (isoformat : ℕ → String)
    (python_str : Value → String) (parse_iso8601_timestamp : Option String → Option ℕ)
    (ask : String → String → String) (n : ℕ) (entry : ReviewEntryState) where
  abbrev review_of : PullRequest → LiveReviewList → Checked (Option ResponseRecord)
  review_of = current_review fromisoformat python_str parse_iso8601_timestamp entry

  abbrev approval_of : PullRequest → LiveReviewList → Checked ApprovalResult
  approval_of pull_request reviews =
      compute_pr_approval_state_result fromisoformat isoformat python_str parse_iso8601_timestamp
        ask n entry (ok pull_request) (ok reviews)

  -- The reviewer's last review is on the head, and the approvals grant a write approval.
  pub record DoneBy (pull_request : PullRequest) (reviews : LiveReviewList) : Type 0 where
    pub review : Option ResponseRecord
    pub reviewed : review_of pull_request reviews ≡ returned review
    pub on_head : same_text (head_of review) (as_text pull_request.head_sha) ≡ true
    pub completion : Completion
    pub approval : WriteApproval
    pub classifications : List ReviewFreshnessClassification
    pub are_classified :
        classified fromisoformat isoformat python_str parse_iso8601_timestamp ask entry pull_request
          reviews
        ≡ returned classifications
    pub is_granted : IsGranted ask classifications completion approval

  done_by :
      (pull_request : PullRequest) (reviews : LiveReviewList) (review : Option ResponseRecord)
      (result : ApprovalResult)
      → review_of pull_request reviews ≡ returned review
      → same_text (head_of review) (as_text pull_request.head_sha) ≡ true
      → approval_of pull_request reviews ≡ returned result
      → IsApproved (some result)
      → DoneBy pull_request reviews
  done_by pull_request reviews review (unread reason kind) r s t f = absurd f
  done_by pull_request reviews review (failed reason completion approval) r s t f = absurd f
  done_by pull_request reviews review (computed completion approval) r s t (complete, has) =
      let (cs, e, granted) =
        write_approval-IsGranted fromisoformat isoformat python_str parse_iso8601_timestamp ask n
          entry pull_request reviews completion approval t has in
      record {
        review = review;
        reviewed = r;
        on_head = s;
        completion = completion;
        approval = approval;
        classifications = cs;
        are_classified = e;
        is_granted = granted;
      }

  pull_done :
      (pull_request : PullRequest) (reviews : LiveReviewList) (head : String) (r : Response)
      → as_text pull_request.head_sha ≡ some head
      → response_of_pull fromisoformat python_str parse_iso8601_timestamp isoformat ask n entry
          pull_request head reviews
        ≡ returned r
      → r.state ≡ "done"
      → DoneBy pull_request reviews
  unfolding response_of_pull
  pull_done pull_request reviews head r is_head h done =
      elim (Checked-cases (review_of pull_request reviews)) [
        | inl (e, f) ↦ (let k = rw (f, response_of_pull) at h in absurd (cc k))
        | inr (review, f) ↦ elim (Checked-cases (approval_of pull_request reviews)) [
          | inl (e, g) ↦ (let k = rw (f, g, response_of_pull) at h in absurd (cc k))
          | inr (result, g) ↦
              elim (Checked-cases (
                current_head_approval_authors fromisoformat python_str parse_iso8601_timestamp entry
                  (some head) (some reviews))) [
                    | inl (e, i) ↦ (let k = rw (f, g, i, response_of_pull) at h in absurd (cc k))
                    | inr (authors, i) ↦
                        let k = rw (f, g, i, response_of_pull) at h in
                        let same : derive_reviewer_response_state fromisoformat entry true
                              (some head) none review (accepted_of entry.contributor_comment)
                              (is_some (accepted_of entry.reviewer_review)) (some result) authors
                              (accepted_of entry.reviewer_review)
                            ≡ r =
                          returned_inj k in
                        let (is_approved, on_head) =
                          derive_done fromisoformat entry head review
                            (accepted_of entry.contributor_comment)
                            (accepted_of entry.reviewer_review)
                            (is_some (accepted_of entry.reviewer_review)) result authors
                            (ap (λ x. x.state) same ∙ done) in
                        done_by pull_request reviews review result f (rw is_head on_head) g
                          is_approved
                  ]
        ]
      ]

  -- What `done` says of the reads.
  abbrev pub Granted : ReadResult PullRequest → ReadResult LiveReviewList → Type 0
  Granted (ok pull_request) (ok reviews) = DoneBy pull_request reviews
  Granted pull_request_result reviews_result = ⊥

  -- If the response state of a pull request is `done`, then both reads succeeded, the review of the
  -- current reviewer that counts is on the head of the pull request, the assigned reviewer approves
  -- with a review of the head that has a time, and a user who may push approves the head.
  pub done-Granted :
      (pull_request_result : ReadResult PullRequest) (reviews_result : ReadResult LiveReviewList)
      (r : Response)
      → compute_reviewer_response_state fromisoformat python_str parse_iso8601_timestamp isoformat
          ask n entry
          (some true)
          pull_request_result
          reviews_result
        ≡ returned r
      → r.state ≡ "done"
      → Granted pull_request_result reviews_result
  unfolding compute_reviewer_response_state response_of_reads
  done-Granted (failure reason kind) reviews_result r h done =
      absurd (not_failed reason no_scope none r h done)
  done-Granted (ok pull_request) (failure reason kind) r h done =
      elim (Option-cases (nonblank (as_text pull_request.head_sha))) [
        | inl f ↦ absurd (not_failed _ _ _ _ (rw (f, response_of_reads) at h) done)
        | inr (head, f) ↦ absurd (not_failed _ _ _ _ (rw (f, response_of_reads) at h) done)
      ]
  done-Granted (ok pull_request) (ok reviews) r h done =
      elim (Option-cases (nonblank (as_text pull_request.head_sha))) [
        | inl f ↦ absurd (not_failed _ _ _ _ (rw (f, response_of_reads) at h) done)
        | inr (head, f) ↦
            pull_done pull_request reviews head r (nonblank-some _ head f)
              (rw (f, response_of_reads) at h) done
      ]
