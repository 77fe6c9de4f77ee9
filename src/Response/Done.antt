-- ===== src/Response/Done.antt =====
-- When the response state of a pull request is `done`: derive_reviewer_response_state of
-- scripts/reviewer_bot_core/reviewer_response_policy.py.
use safety_critical_rust_cod.Common.{
  ◌≡◌, refl, String, Bool, true, false, ◌&&◌, Option, none, some, List, arith, is_some,
}
use safety_critical_rust_cod.Timestamps.{DateTime}
use safety_critical_rust_cod.Review.Types.{ReviewEntryState}
use safety_critical_rust_cod.Approvals.{WriteApprovalAuthorityDecision}
use safety_critical_rust_cod.Approvals.Status.{
  Completion, WriteApproval, ApprovalResult, unread, failed, computed,
}
use safety_critical_rust_cod.Response.{ResponseRecord, ScopeFields, same_text, is_newer, is_later}
use safety_critical_rust_cod.Response.Answers.{Response, later_of}
use safety_critical_rust_cod.Response.Pulls.{
  PullOutcome, nothing_yet, contributor_newer, handoff_last, contradiction, handoff_stale,
  review_stale, on_head, pull_outcome, ApprovalOutcome, incomplete, not_approved, authority_failed,
  approval_missing, approved, approval_outcome, respond_approval, judge_approvals, respond_pull,
  judge_pull, head_of,
}

-- The approvals say that the review is complete and that there is a write approval.
abbrev pub IsApproved : Option ApprovalResult → Type 0
IsApproved (some (computed completion approval)) =
    (completion.completed ≡ true) × (approval.has_write_approval ≡ true)
IsApproved _ = ⊥

approval_outcome-approved :
    (completion : Completion) (approval : WriteApproval)
    → approval_outcome completion approval ≡ approved
    → (completion.completed ≡ true) × (approval.has_write_approval ≡ true)
unfolding approval_outcome
approval_outcome-approved completion approval h = ground arith

abbrev Answer : Type 0
Answer = String → String → Option String → Option WriteApprovalAuthorityDecision → Response

respond_approval_done :
    (respond : Answer) (scope : ScopeFields) (latest : Option String)
    (authority : Option WriteApprovalAuthorityDecision) (outcome : ApprovalOutcome)
    → ((state reason : String) (anchor : Option String) (a : Option WriteApprovalAuthorityDecision)
        → (respond state reason anchor a).state ≡ state)
    → (respond_approval respond scope latest authority outcome).state ≡ "done"
    → outcome ≡ approved
unfolding respond_approval
respond_approval_done respond scope latest authority approved keeps h = refl
respond_approval_done respond scope latest authority incomplete keeps h =
    absurd (cc (keeps "awaiting_contributor_response" "completion_missing" latest none, h))
respond_approval_done respond scope latest authority not_approved keeps h = absurd (
    cc (
      keeps "awaiting_contributor_response" "assigned_reviewer_review_submitted" latest authority,
      h,
    ))
respond_approval_done respond scope latest authority authority_failed keeps h = absurd cc
respond_approval_done respond scope latest authority approval_missing keeps h =
    absurd (cc (keeps "awaiting_write_approval" "write_approval_missing" latest authority, h))

judge_approvals_done :
    (respond : Answer) (scope : ScopeFields) (latest : Option String)
    (result : Option ApprovalResult)
    → ((state reason : String) (anchor : Option String)
          (authority : Option WriteApprovalAuthorityDecision)
        → (respond state reason anchor authority).state ≡ state)
    → (judge_approvals respond scope latest result).state ≡ "done"
    → IsApproved result
unfolding judge_approvals
judge_approvals_done respond scope latest (some (computed completion approval)) keeps h =
    approval_outcome-approved completion approval (
      respond_approval_done respond scope latest approval.authority_decision
        (approval_outcome completion approval) keeps h)
judge_approvals_done respond scope latest none keeps h = absurd cc
judge_approvals_done respond scope latest (some (unread reason kind)) keeps h = absurd cc
judge_approvals_done respond scope latest (some (failed reason completion approval)) keeps h =
    absurd cc

pull_outcome-on_head :
    (nothing newer by_handoff contradicts is_on_head has_handoff : Bool)
    → pull_outcome nothing newer by_handoff contradicts is_on_head has_handoff ≡ on_head
    → (nothing ≡ false)
      × (newer ≡ false)
      × (by_handoff ≡ false)
      × (contradicts ≡ false)
      × (is_on_head ≡ true)
unfolding pull_outcome
pull_outcome-on_head nothing newer by_handoff contradicts is_on_head has_handoff h = ground arith

module _ (fromisoformat : String → Option DateTime) (entry : ReviewEntryState)
    (reviewer head : String)
    (review handoff contributor contributor_handoff : Option ResponseRecord)
    (result : Option ApprovalResult) where
  respond_pull_done :
      (latest : Option ResponseRecord) (outcome : PullOutcome)
      → (respond_pull fromisoformat entry reviewer head review handoff contributor
          contributor_handoff result latest outcome).state
        ≡ "done"
      → (outcome ≡ on_head) × IsApproved result
  unfolding respond_pull
  respond_pull_done latest on_head h =
      (refl, judge_approvals_done _ _ _ result (λ state reason anchor authority. refl) h)
  respond_pull_done latest nothing_yet h = absurd cc
  respond_pull_done latest contributor_newer h = absurd cc
  respond_pull_done latest handoff_last h = absurd cc
  respond_pull_done latest contradiction h = absurd cc
  respond_pull_done latest handoff_stale h = absurd cc
  respond_pull_done latest review_stale h = absurd cc

  pub judge_pull_done :
      (had : Bool) (authors : List String) (stored : Option ResponseRecord)
      → (judge_pull fromisoformat entry reviewer head review handoff contributor contributor_handoff
          had result authors stored).state
        ≡ "done"
      → IsApproved result
        × (same_text (head_of review) (some head) ≡ true)
        × (is_newer fromisoformat contributor_handoff
              (later_of fromisoformat handoff (later_of fromisoformat review none))
            ≡ false)
        × (is_some handoff && is_later fromisoformat handoff (later_of fromisoformat review none)
            ≡ false)
  unfolding judge_pull
  judge_pull_done had authors stored h =
      let (outcome, is_approved) = respond_pull_done _ _ h in
      let (nothing, newer, by_handoff, contradicts, is_on_head) =
        pull_outcome-on_head _ _ _ _ _ _ outcome in
      (is_approved, is_on_head, newer, by_handoff)
