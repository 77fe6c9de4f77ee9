-- ===== src/Approvals/Granted.antt =====
-- When a reported write approval was granted: scripts/reviewer_bot_core/approval_policy.py.
use safety_critical_rust_cod.Common.{
  ℕ, ◌≡◌, inl, inr, sym, ap, ◌∙◌, String, Bool, true, false, not, ◌&&◌, ◌||◌, Option, none, some,
  List, [], ◌∷◌, ◌==◌, any, if_true, if_false, not_eq, and_right, and_left, and_both, and_regroup,
  all, any-filter, any_mono, all-filter, all_mono, if◌then◌else◌, or_else, truthy, lower,
  Bool-cases, or_right,
}
use safety_critical_rust_cod.Common.Sorting.{max_by-any, max_by-all}
use safety_critical_rust_cod.Value.{Value}
use safety_critical_rust_cod.Timestamps.{DateTime}
use safety_critical_rust_cod.LiveReviews.{is_assigned_scope, given, ReviewFreshnessClassification}
use safety_critical_rust_cod.LiveReviews.Survivors.{is_on_current_head}
use safety_critical_rust_cod.Approvals.{
  CompletionAuthorityDecision, WriteApprovalAuthorityDecision, PermissionMap, is_approved, is_empty,
  lowered_onto, derive_write_approval_authority_decision, derive_after_round,
}
use safety_critical_rust_cod.Approvals.Evidence.{
  may_push_as, granted-may_push, may_push-truthy, lowered-nonempty, evidence-nonempty,
}
use safety_critical_rust_cod.Approvals.Status.{
  Completion, WriteApproval, ApprovalResult, computed, failed, unread, on_current_head,
  assigned_classification, permission_evidence, result_of, judge_assigned,
}
use safety_critical_rust_cod.Approvals.Authority.{
  Reports, result_of-Reports, completion-assigned, completion-none, Judged,
  find_write_approval-Judged,
}

module _ (user_permission_status : String → String → String) where
  -- The last word on a write approval: the assigned reviewer approves, and so does a user who may push.
  pub record IsGranted (classifications : List ReviewFreshnessClassification)
      (completion : Completion) (approval : WriteApproval) : Type 0 where
    pub complete : completion.completed ≡ true
    pub assigned_approves :
        any
          (λ r. is_assigned_scope r.classified_scope && is_approved r.state && given r.submitted_at)
          classifications
        ≡ true
    pub approver : String
    pub approvers : approval.write_approvers ≡ approver ∷ []
    pub permitted :
        any
          (λ r.
            is_on_current_head r.classified_scope
            && may_push_as user_permission_status (lower approver) r)
          classifications
        ≡ true

  abbrev pub Sound : List ReviewFreshnessClassification → ApprovalResult → Type 0
  Sound classifications (computed completion approval) =
      approval.has_write_approval ≡ true → IsGranted classifications completion approval
  Sound classifications (failed reason completion approval) =
      (reason ≡ "permission_unavailable")
      × (completion.completed ≡ true)
      × (approval.has_write_approval ≡ false)
  Sound classifications (unread reason kind) = ⊥

  given-of :
      (o : Option String)
      → truthy (or_else o "") ≡ true
      → (if given o then or_else o "" ∷ [] else []) ≡ or_else o "" ∷ []
  given-of none h = absurd cc
  given-of (some s) h = rw h

  module _ (classifications : List ReviewFreshnessClassification) (c : CompletionAuthorityDecision)
      (w : WriteApprovalAuthorityDecision) (is_complete : c.can_set_review_completed_at ≡ true)
      (reviewer_approves : any
          (λ r. is_assigned_scope r.classified_scope && is_approved r.state && given r.submitted_at)
          classifications
        ≡ true)
      (permits : (w.response_state == "done") ≡ true
        → any
            (may_push_as user_permission_status (lower (or_else w.approving_reviewer "")))
            (on_current_head classifications)
          ≡ true)
      (refuses : (w.response_state == "projection_failed") ≡ true
        → w.diagnostic_reason ≡ some "permission_unavailable") where
    Reports-Sound : (r : ApprovalResult) → Reports c w r → Sound classifications r
    Reports-Sound (unread reason kind) reported = absurd reported
    Reports-Sound (failed reason completion approval) (state, because, completed, has) = (
      because ∙ ap (λ o. or_else o w.write_approval_state) (refuses state),
      completed ∙ is_complete,
      has,
    )
    Reports-Sound (computed completion approval) (completed, reports) = λ has.
        let (done, approvers) = reports has in
        let may = permits done in
        record {
          complete = completed ∙ is_complete;
          assigned_approves = reviewer_approves;
          approver = or_else w.approving_reviewer "";
          approvers =
              approvers
              ∙ given-of w.approving_reviewer (
                  may_push-truthy user_permission_status (or_else w.approving_reviewer "")
                    (on_current_head classifications) may);
          permitted =
              sym (
                any-filter
                  (may_push_as user_permission_status (lower (or_else w.approving_reviewer "")))
                  (λ r. is_on_current_head r.classified_scope) classifications)
              ∙ may;
        }

-- The author of a review that is the assigned reviewer's is known.
abbrev pub Authored : List ReviewFreshnessClassification → Type 0
Authored cs = all (λ r. not (is_assigned_scope r.classified_scope) || given r.author) cs ≡ true

module _ (fromisoformat : String → Option DateTime) (isoformat : ℕ → String)
    (python_str : Value → String) (parse_iso8601_timestamp : Option String → Option ℕ)
    (ask : String → String → String) (n : ℕ) (reviewer : Option String) (head : String)
    (cs : List ReviewFreshnessClassification) where
  abbrev pub assigned_of : Option ReviewFreshnessClassification
  assigned_of =
      assigned_classification fromisoformat isoformat python_str parse_iso8601_timestamp ask
        (on_current_head cs)

  assigned-any :
      (p : ReviewFreshnessClassification → Bool) (a : ReviewFreshnessClassification)
      → assigned_of ≡ some a
      → p a ≡ true
      → any (λ r. is_assigned_scope r.classified_scope && p r) (on_current_head cs) ≡ true
  unfolding assigned_classification
  assigned-any p a e h =
      sym (any-filter p (λ r. is_assigned_scope r.classified_scope) (on_current_head cs))
      ∙ max_by-any _ p _ e h

  assigned-author :
      (a : ReviewFreshnessClassification)
      → Authored cs
      → assigned_of ≡ some a
      → given a.author ≡ true
  unfolding assigned_classification
  assigned-author a authored e =
      max_by-all _ (λ r. given r.author) _ e
        (all-filter (λ r. given r.author) (λ r. is_assigned_scope r.classified_scope)
          (on_current_head cs)
          (all-filter _ (λ r. is_on_current_head r.classified_scope) cs
            (all_mono (λ r. not (is_assigned_scope r.classified_scope) || given r.author) _ cs
              (λ r h. or_right (not (is_on_current_head r.classified_scope)) _ h) authored)))

  abbrev pub judged_reviews : Option ReviewFreshnessClassification → ApprovalResult
  judged_reviews =
      judge_assigned fromisoformat isoformat python_str parse_iso8601_timestamp ask n reviewer head
        (on_current_head cs)

  -- The decision on the write approval, once the assigned reviewer's review is complete.
  abbrev write_decision : ReviewFreshnessClassification → WriteApprovalAuthorityDecision
  write_decision a =
      derive_write_approval_authority_decision (some n) (some head) reviewer (some a)
        (on_current_head cs) (some (permission_evidence ask [] (on_current_head cs)))

  abbrev permissions : PermissionMap
  permissions = lowered_onto [] (permission_evidence ask [] (on_current_head cs))

  -- Somebody whose approval is visible has the permission read.
  permissions-nonempty :
      (a : ReviewFreshnessClassification)
      → Authored cs
      → assigned_of ≡ some a
      → is_approved a.state ≡ true
      → is_empty permissions ≡ false
  permissions-nonempty a authored e approved = lowered-nonempty [] _ (
      inr (
        evidence-nonempty ask [] (on_current_head cs) (
          inr (
            any_mono _ (λ r. is_approved r.state && given r.author) (on_current_head cs)
              (λ r. and_right (is_assigned_scope r.classified_scope) _)
              (assigned-any (λ r. is_approved r.state && given r.author) a e
                (and_both approved (assigned-author a authored e)))))))

  module _ (a : ReviewFreshnessClassification) (c : CompletionAuthorityDecision)
      (found : assigned_of ≡ some a) (on_head : is_assigned_scope a.classified_scope ≡ true) where
    write_decision-Judged :
        is_approved a.state ≡ true
        → (nonempty : is_empty permissions ≡ false)
        → Judged (some n) (some head) reviewer a permissions nonempty (write_decision a)
    unfolding derive_write_approval_authority_decision derive_after_round
    write_decision-Judged approved nonempty =
        let P = Judged (some n) (some head) reviewer a permissions nonempty in
        if_true P _ on_head (
          if_false P _ (not_eq approved) (
            find_write_approval-Judged (some n) (some head) reviewer a permissions nonempty
              (on_current_head cs)))

    approved-Sound :
        Authored cs
        → is_approved a.state ≡ true
        → given a.submitted_at ≡ true
        → c.can_set_review_completed_at ≡ true
        → Sound ask cs (result_of head c (write_decision a))
    approved-Sound authored approved timed complete =
        let w = write_decision a in
        let judged =
          write_decision-Judged approved (permissions-nonempty a authored found approved) in
        let approves =
          assigned-any (λ r. is_approved r.state && given r.submitted_at) a found
            (and_both approved timed) in
        Reports-Sound ask cs c w complete
          (any_mono _ _ cs
            (λ r h.
              and_regroup (is_assigned_scope r.classified_scope) (is_approved r.state)
                (given r.submitted_at) (and_right (is_on_current_head r.classified_scope) _ h))
            (sym (
                any-filter
                  (λ r.
                    is_assigned_scope r.classified_scope
                    && (is_approved r.state && given r.submitted_at))
                  (λ r. is_on_current_head r.classified_scope) cs)
              ∙ approves))
          (λ d.
            granted-may_push ask (lower (or_else w.approving_reviewer "")) (on_current_head cs)
              (judged.permitted d))
          judged.refused (result_of head c w) (result_of-Reports head c w)

    -- Without an approval of the assigned reviewer, the contributor is to respond.
    not_approved-Sound :
        is_approved a.state ≡ false → Sound ask cs (result_of head c (write_decision a))
    unfolding derive_write_approval_authority_decision derive_after_round result_of
    not_approved-Sound other = rw on_head (rw other (λ h. absurd cc))

  complete-Sound :
      (a : ReviewFreshnessClassification) (c : CompletionAuthorityDecision)
      → Authored cs
      → assigned_of ≡ some a
      → (is_assigned_scope a.classified_scope && given a.submitted_at) ≡ true
      → c.can_set_review_completed_at ≡ true
      → Sound ask cs (result_of head c (write_decision a))
  complete-Sound a c authored e f t =
      let on_head = and_left (is_assigned_scope a.classified_scope) _ f in
      elim (Bool-cases (is_approved a.state)) [
        | inl approved ↦
            approved-Sound a c e on_head authored approved
              (and_right (is_assigned_scope a.classified_scope) _ f) t
        | inr other ↦ not_approved-Sound a c e on_head other
      ]

  pub judge-Sound :
      (assigned : Option ReviewFreshnessClassification)
      → Authored cs
      → assigned_of ≡ assigned
      → Sound ask cs (judged_reviews assigned)
  unfolding judge_assigned
  judge-Sound none authored e =
      if_true (Sound ask cs) _ (not_eq (completion-none (some n) reviewer (some head) _))
        (λ h. absurd cc)
  judge-Sound (some a) authored e =
      let done = completion-assigned (some n) reviewer (some head) a _ in
      elim (Bool-cases (is_assigned_scope a.classified_scope && given a.submitted_at)) [
        | inr f ↦ if_true (Sound ask cs) _ (not_eq (done ∙ f)) (λ h. absurd cc)
        | inl f ↦
            if_false (Sound ask cs) _ (not_eq (done ∙ f))
              (complete-Sound a _ authored e f (done ∙ f))
      ]
