-- ===== src/Approvals/Authority.antt =====
-- When a pull request has a write approval: scripts/reviewer_bot_core/approval_policy.py.
use safety_critical_rust_cod.Common.{
  ℕ, ◌≡◌, inl, inr, refl, String, Bool, true, false, ◌&&◌, arith, Option, none, some, List, [], ◌∷◌,
  ◌==◌, if_either, if◌then◌else◌, or_else, lower, Bool-cases,
}
use safety_critical_rust_cod.LiveReviews.{is_assigned_scope, given, ReviewFreshnessClassification}
use safety_critical_rust_cod.Approvals.{
  CompletionAuthorityDecision, WriteApprovalAuthorityDecision, Permission, granted, denied,
  unavailable, PermissionMap, is_visible_approval, is_empty, status_of,
  derive_completion_authority_decision, find_write_approval, judge_approval,
}
use safety_critical_rust_cod.Approvals.Status.{ApprovalResult, computed, failed, unread, result_of}

module _ (issue_number : Option ℕ) (head_sha assigned_reviewer : Option String)
    (assigned : ReviewFreshnessClassification) (permissions : PermissionMap)
    (nonempty : is_empty permissions ≡ false) where
  -- What is called done has the permission; and what fails has no other reason than that the
  -- permission is not known.
  pub record Judged (w : WriteApprovalAuthorityDecision) : Type 0 where
    pub permitted :
        (w.response_state == "done") ≡ true
        → status_of (lower (or_else w.approving_reviewer "")) permissions ≡ granted
    pub refused :
        (w.response_state == "projection_failed") ≡ true
        → w.diagnostic_reason ≡ some "permission_unavailable"

  judge_approval-Judged :
      (p : Permission) (c : ReviewFreshnessClassification) (rest : WriteApprovalAuthorityDecision)
      → status_of (lower (or_else c.author "")) permissions ≡ p
      → Judged rest
      → Judged
          (judge_approval issue_number head_sha assigned_reviewer assigned permissions p c rest)
  unfolding judge_approval
  judge_approval-Judged granted c rest same judged = record {
    permitted = λ h. same;
    refused = λ h. absurd cc;
  }
  judge_approval-Judged denied c rest same judged = judged
  judge_approval-Judged unavailable c rest same judged =
      rw nonempty (record { permitted = λ h. absurd cc; refused = λ h. refl })

  pub find_write_approval-Judged :
      (visible : List ReviewFreshnessClassification)
      → Judged
          (find_write_approval issue_number head_sha assigned_reviewer assigned permissions visible)
  unfolding find_write_approval
  find_write_approval-Judged [] = record { permitted = λ h. absurd cc; refused = λ h. absurd cc }
  find_write_approval-Judged (c ∷ later) =
      if_either Judged (is_visible_approval c)
        (judge_approval-Judged _ c _ refl (find_write_approval-Judged later))
        (find_write_approval-Judged later)

-- The result of a completed review, by the decision on the write approval.
abbrev pub Reports :
    CompletionAuthorityDecision → WriteApprovalAuthorityDecision → ApprovalResult → Type 0
Reports c w (computed completion approval) =
    (completion.completed ≡ c.can_set_review_completed_at)
    × (approval.has_write_approval ≡ true
        → ((w.response_state == "done") ≡ true)
          × (approval.write_approvers
              ≡ (if given w.approving_reviewer then or_else w.approving_reviewer "" ∷ [] else [])))
Reports c w (failed reason completion approval) =
    ((w.response_state == "projection_failed") ≡ true)
    × (reason ≡ or_else w.diagnostic_reason w.write_approval_state)
    × (completion.completed ≡ c.can_set_review_completed_at)
    × (approval.has_write_approval ≡ false)
Reports c w (unread reason kind) = ⊥

pub result_of-Reports :
    (head : String) (c : CompletionAuthorityDecision) (w : WriteApprovalAuthorityDecision)
    → Reports c w (result_of head c w)
unfolding result_of
result_of-Reports head c w = elim (Bool-cases (w.response_state == "projection_failed")) [
  | inl e ↦ rw e (e, refl, refl, refl)
  | inr e ↦ rw e (refl, λ d. (d, rw d refl))
]

-- What the decision on the completion needs.
pub completion-assigned :
    (n : Option ℕ) (reviewer head : Option String) (a : ReviewFreshnessClassification) (d : Bool)
    → (derive_completion_authority_decision n reviewer head (some a) d).can_set_review_completed_at
      ≡ (is_assigned_scope a.classified_scope && given a.submitted_at)
unfolding derive_completion_authority_decision
completion-assigned n reviewer head a d = ground arith

pub completion-none :
    (n : Option ℕ) (reviewer head : Option String) (d : Bool)
    → (derive_completion_authority_decision n reviewer head none d).can_set_review_completed_at
      ≡ false
unfolding derive_completion_authority_decision
completion-none n reviewer head d = refl
