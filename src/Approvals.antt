-- ===== src/Approvals.antt =====
-- Who has completed a review, and whether the pull request has a write approval:
-- scripts/reviewer_bot_core/approval_policy.py, the two decisions.
pub mod Status
pub mod Triage
pub mod Evidence
pub mod Authority
pub mod Granted
pub mod Result
pub mod Earliest
use safety_critical_rust_cod.Common.{
  ℕ, String, Bool, true, false, not, ◌&&◌, ◌||◌, Option, none, some, List, [], ◌∷◌, ◌==◌, is_some,
  if◌then◌else◌, or_else, truthy, lower,
}
use safety_critical_rust_cod.Value.{Value, null}
use safety_critical_rust_cod.LiveReviews.{
  is_assigned_scope, given, Scope, current_head_assigned_reviewer, current_head_alternate_reviewer,
  ReviewFreshnessClassification,
}
use safety_critical_rust_cod.LiveReviews.Survivors.{is_on_current_head}

-- A review id that is None is `null`.
pub record CompletionAuthorityDecision : Type 0 where
  pub issue_number : Option ℕ
  pub tracked_reviewer : Option String
  pub head_sha : Option String
  pub completion_state : String
  pub completion_timestamp : Option String
  pub timestamp_source : String
  pub source_review_id : Value
  pub source_review_state : Option String
  pub non_assigned_review_diagnostic : Bool
  pub can_set_review_completed_at : Bool
  pub diagnostic_reason : Option String

module _ (issue_number : Option ℕ) (tracked_reviewer head_sha : Option String) where
  -- The fields that depend on the branch: the state, the time and where it comes from, the review, the
  -- diagnostic, whether the completion may be recorded, and the reason.
  abbrev completion :
      String
      → Option String
      → String
      → Value
      → Option String
      → Bool
      → Bool
      → Option String
      → CompletionAuthorityDecision
  completion completion_state timestamp source review_id review_state diagnostic can_set reason =
      record {
        issue_number = issue_number;
        tracked_reviewer = tracked_reviewer;
        head_sha = head_sha;
        completion_state = completion_state;
        completion_timestamp = timestamp;
        timestamp_source = source;
        source_review_id = review_id;
        source_review_state = review_state;
        non_assigned_review_diagnostic = diagnostic;
        can_set_review_completed_at = can_set;
        diagnostic_reason = reason;
      }

  unfoldable pub derive_completion_authority_decision :
      Option ReviewFreshnessClassification → Bool → CompletionAuthorityDecision
  derive_completion_authority_decision none diagnostic =
      completion "not_completed" none "none" null none diagnostic false
        (some "no_review_classification")
  derive_completion_authority_decision (some c) diagnostic =
      if not (is_assigned_scope c.classified_scope)
      then completion "not_completed" none
          (if diagnostic then "non_assigned_review_diagnostic" else "none") c.review_id c.state
          diagnostic false c.diagnostic_reason
      else if not (given c.submitted_at)
      then completion "blocked" none "blocked_missing_timestamp" c.review_id c.state false false
          (some "missing_review_submitted_at")
      else completion "completed_by_tracked_reviewer" c.submitted_at
          "current_head_tracked_reviewer_review" c.review_id c.state false true none

-- `permission_status`: a status that is neither granted nor denied is unavailable.
pub data Permission : Type 0 where
  granted denied unavailable : Permission

abbrev pub permission_of : String → Permission
permission_of status =
    if status == "granted" then granted else if status == "denied" then denied else unavailable

unfoldable pub permission_status : (String → String → String) → String → String → Permission
permission_status user_permission_status username permission =
    permission_of (user_permission_status username permission)

-- A dict of statuses by login.
abbrev pub PermissionMap : Type 0
PermissionMap = List (String × Permission)

unfoldable pub put_status : String → Permission → PermissionMap → PermissionMap
put_status login status [] = (login, status) ∷ []
put_status login status ((key, s) ∷ m) =
    if key == login then (key, status) ∷ m else (key, s) ∷ put_status login status m

unfoldable pub status_of : String → PermissionMap → Permission
status_of login [] = unavailable
status_of login ((key, s) ∷ m) = if key == login then s else status_of login m

-- The loop of the comprehension that lowers the logins.
unfoldable pub lowered_onto : PermissionMap → PermissionMap → PermissionMap
unfolding lower put_status
lowered_onto done [] = done
lowered_onto done ((login, s) ∷ m) = lowered_onto (put_status (lower login) s done) m

abbrev pub is_empty {ℓ} : {A : Type ℓ} → List A → Bool
is_empty [] = true
is_empty _ = false

pub record WriteApprovalAuthorityDecision : Type 0 where
  pub issue_number : Option ℕ
  pub head_sha : Option String
  pub assigned_reviewer : Option String
  pub assigned_review_id : Value
  pub assigned_review_state : Option String
  pub assigned_round_complete : Bool
  pub write_approval_state : String
  pub write_approval_source : String
  pub approving_reviewer : Option String
  pub approving_review_id : Value
  pub permission_source : Option String
  pub dismissal_supersession_status : String
  pub response_state : String
  pub diagnostic_reason : Option String
  pub can_project_final_state : Bool

abbrev pub is_approved : Option String → Bool
is_approved none = false
is_approved (some state) = state == "APPROVED"

-- An approval on the current head.
abbrev pub is_visible_approval : ReviewFreshnessClassification → Bool
is_visible_approval c = is_approved c.state && is_on_current_head c.classified_scope

abbrev same_author : Option String → Option String → Bool
same_author none none = true
same_author (some a) (some b) = a == b
same_author _ _ = false

module _ (issue_number : Option ℕ) (head_sha assigned_reviewer : Option String)
    (assigned : ReviewFreshnessClassification) (permissions : PermissionMap) where
  -- The decisions of a round that the assigned reviewer has completed.
  abbrev round_complete :
      String
      → String
      → Option String
      → Value
      → Option String
      → String
      → String
      → Option String
      → Bool
      → WriteApprovalAuthorityDecision
  round_complete state source approver review_id permission_source supersession response reason
        final =
      record {
        issue_number = issue_number;
        head_sha = head_sha;
        assigned_reviewer = assigned_reviewer;
        assigned_review_id = assigned.review_id;
        assigned_review_state = assigned.state;
        assigned_round_complete = true;
        write_approval_state = state;
        write_approval_source = source;
        approving_reviewer = approver;
        approving_review_id = review_id;
        permission_source = permission_source;
        dismissal_supersession_status = supersession;
        response_state = response;
        diagnostic_reason = reason;
        can_project_final_state = final;
      }

  abbrev read_source : Option String
  read_source = if is_empty permissions then none else some "github_permission_read"

  -- A visible approval, by the permission of its author; `rest` is what the later reviews give.
  unfoldable pub judge_approval :
      Permission
      → ReviewFreshnessClassification
      → WriteApprovalAuthorityDecision
      → WriteApprovalAuthorityDecision
  judge_approval granted c rest =
      round_complete "visible_write_approval"
        (if same_author c.author assigned.author
          then "assigned_reviewer_current_head_approval"
          else "non_assigned_current_head_write_approval_after_assigned_round")
        c.author c.review_id read_source "pass_not_dismissed_or_superseded" "done" none true
  judge_approval denied c rest = rest
  judge_approval unavailable c rest =
      if not (is_empty permissions)
      then round_complete "blocked_unavailable_authority" "github_permission_read_unavailable"
          c.author c.review_id (some "github_permission_read") "blocked_untrusted"
          "projection_failed" (some "permission_unavailable") false
      else if same_author c.author assigned.author
      then round_complete "visible_write_approval" "assigned_reviewer_current_head_approval"
          c.author c.review_id none "pass_not_dismissed_or_superseded" "done" none true
      else rest

  -- The loop over the visible reviews.
  unfoldable pub find_write_approval :
      List ReviewFreshnessClassification → WriteApprovalAuthorityDecision
  unfolding status_of lower judge_approval
  find_write_approval [] =
      round_complete "visibly_missing_write_approval" "none_visible_after_trusted_reads" none null
        read_source "pass_not_dismissed_or_superseded" "awaiting_write_approval" none true
  find_write_approval (c ∷ later) =
      let rest = find_write_approval later in
      if is_visible_approval c
      then judge_approval (status_of (lower (or_else c.author "")) permissions) c rest
      else rest

  unfoldable pub derive_after_round :
      List ReviewFreshnessClassification → WriteApprovalAuthorityDecision
  unfolding find_write_approval
  derive_after_round visible =
      if not (is_approved assigned.state)
      then round_complete "not_required_for_non_approval_round_completion"
          "assigned_reviewer_current_head_non_approval_review" assigned.author assigned.review_id
          (some "not_required_for_non_approval_round_completion") "pass_not_dismissed_or_superseded"
          "awaiting_contributor_response" none true
      else find_write_approval visible

unfoldable pub derive_write_approval_authority_decision :
    Option ℕ
    → Option String
    → Option String
    → Option ReviewFreshnessClassification
    → List ReviewFreshnessClassification
    → Option PermissionMap
    → WriteApprovalAuthorityDecision
unfolding derive_after_round lowered_onto
derive_write_approval_authority_decision issue_number head_sha assigned_reviewer assigned visible
      evidence =
    let blocked : Value → Option String → WriteApprovalAuthorityDecision = λ review_id state.
      record {
        issue_number = issue_number;
        head_sha = head_sha;
        assigned_reviewer = assigned_reviewer;
        assigned_review_id = review_id;
        assigned_review_state = state;
        assigned_round_complete = false;
        write_approval_state = "blocked_unavailable_authority";
        write_approval_source = "blocked_untrusted_review_reads";
        approving_reviewer = none;
        approving_review_id = null;
        permission_source = none;
        dismissal_supersession_status = "blocked_untrusted";
        response_state = "projection_failed";
        diagnostic_reason = some "assigned_round_not_complete";
        can_project_final_state = false;
      } in
    elim assigned [
      | none ↦ blocked null none
      | some c ↦
          if is_assigned_scope c.classified_scope
          then derive_after_round issue_number head_sha assigned_reviewer c
              (lowered_onto [] (or_else evidence [])) visible
          else blocked c.review_id c.state
    ]
