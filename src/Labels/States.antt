-- ===== src/Labels/States.antt =====
-- The status labels cover the response states: derive_reviewer_response_state of
-- scripts/reviewer_bot_core/reviewer_response_policy.py, and desired_status_labels_from_decision of
-- scripts/reviewer_bot_lib/reviews_projection.py.
use safety_critical_rust_cod.Common.{
  ◌≡◌, refl, String, Bool, true, not, Option, none, some, List, [], ◌∷◌, ◌==◌, eq_iff, subst, is_in,
  Option-cases, Bool-cases, inl, inr, ◌⊎◌, returned, raised, strip,
}
use safety_critical_rust_cod.Timestamps.{DateTime}
use safety_critical_rust_cod.Review.Types.{ReviewEntryState}
use safety_critical_rust_cod.LiveReviews.{nonblank}
use safety_critical_rust_cod.Approvals.{WriteApprovalAuthorityDecision}
use safety_critical_rust_cod.Approvals.Status.{ApprovalResult, unread, failed, computed}
use safety_critical_rust_cod.Response.{ResponseRecord, ScopeFields}
use safety_critical_rust_cod.Response.Answers.{Response}
use safety_critical_rust_cod.Response.Issues.{
  IssueOutcome, handoff_answered, handoff_open, completed, no_activity, comment_newer,
  reviewer_last, issue_state, judge_issue, derive_issue_response,
}
use safety_critical_rust_cod.Response.Pulls.{
  PullOutcome, nothing_yet, contributor_newer, handoff_last, contradiction, handoff_stale,
  review_stale, on_head, ApprovalOutcome, incomplete, not_approved, authority_failed,
  approval_missing, approved, respond_approval, judge_approvals, respond_pull, judge_pull,
  derive_pull_response,
}
use safety_critical_rust_cod.Response.Derived.{derive_reviewer_response_state}
use safety_critical_rust_cod.Labels.{desired_status_labels}

-- The response states.
abbrev states : List String
states =
    "awaiting_reviewer_response" ∷ "awaiting_contributor_response" ∷ "awaiting_write_approval"
    ∷ "done" ∷ "projection_failed" ∷ "untracked" ∷ []

abbrev IsState : String → Type 0
IsState s = is_in s states ≡ true

abbrev All : (String → Type 0) → List String → Type 0
All P [] = Unit
All P (x ∷ xs) = P x × All P xs

-- What holds of all elements holds of each that is in the list.
at_element :
    (P : String → Type 0) (xs : List String) (s : String) → All P xs → is_in s xs ≡ true → P s
at_element P [] s a h = absurd cc
at_element P (x ∷ xs) s (p, a) h = elim (Bool-cases (x == s)) [
  | inl e ↦ subst P ((eq_iff x s).0 e) p
  | inr e ↦ at_element P xs s a (rw e at h)
]

-- The status labels of each response state, as config.py spells them; for a failed projection there
-- are none, and the error says so.
abbrev pub Shows : String → Type 0
Shows state =
    (state ≡ "awaiting_reviewer_response")
      × (desired_status_labels state ≡ returned ("status: awaiting reviewer response" ∷ []))
    ⊎ (state ≡ "awaiting_contributor_response")
      × (desired_status_labels state ≡ returned ("status: awaiting contributor response" ∷ []))
    ⊎ (state ≡ "awaiting_write_approval")
      × (desired_status_labels state ≡ returned ("status: awaiting write approval" ∷ []))
    ⊎ (state ≡ "done") × (desired_status_labels state ≡ returned [])
    ⊎ (state ≡ "untracked") × (desired_status_labels state ≡ returned [])
    ⊎ (state ≡ "projection_failed")
      × (desired_status_labels state ≡ raised "status_label_projection_blocked:projection_failed")

states-Shows : All Shows states
unfolding desired_status_labels strip
states-Shows = (
  inl (refl, refl),
  (
    inr (inl (refl, refl)),
    (
      inr (inr (inl (refl, refl))),
      (
        inr (inr (inr (inl (refl, refl)))),
        (inr (inr (inr (inr (inr (refl, refl))))), (inr (inr (inr (inr (inl (refl, refl))))), tt)),
      ),
    ),
  ),
)

issue_state-known : (o : IssueOutcome) → IsState (issue_state o).0
unfolding issue_state
issue_state-known handoff_answered = refl
issue_state-known handoff_open = refl
issue_state-known completed = refl
issue_state-known no_activity = refl
issue_state-known comment_newer = refl
issue_state-known reviewer_last = refl

abbrev Answer : Type 0
Answer = String → String → Option String → Option WriteApprovalAuthorityDecision → Response

abbrev Keeps : Answer → Type 0
Keeps respond =
    (state reason : String) (anchor : Option String)
    (authority : Option WriteApprovalAuthorityDecision)
    → (respond state reason anchor authority).state ≡ state

respond_approval-known :
    (respond : Answer) (scope : ScopeFields) (latest : Option String)
    (authority : Option WriteApprovalAuthorityDecision) (o : ApprovalOutcome)
    → Keeps respond
    → IsState (respond_approval respond scope latest authority o).state
unfolding respond_approval
respond_approval-known respond scope latest authority incomplete keeps =
    rw (keeps "awaiting_contributor_response" _ _ _) refl
respond_approval-known respond scope latest authority not_approved keeps =
    rw (keeps "awaiting_contributor_response" _ _ _) refl
respond_approval-known respond scope latest authority authority_failed keeps = refl
respond_approval-known respond scope latest authority approval_missing keeps =
    rw (keeps "awaiting_write_approval" _ _ _) refl
respond_approval-known respond scope latest authority approved keeps = rw (keeps "done" _ _ _) refl

judge_approvals-known :
    (respond : Answer) (scope : ScopeFields) (latest : Option String)
    (result : Option ApprovalResult)
    → Keeps respond
    → IsState (judge_approvals respond scope latest result).state
unfolding judge_approvals
judge_approvals-known respond scope latest (some (computed c a)) keeps =
    respond_approval-known respond scope latest _ _ keeps
judge_approvals-known respond scope latest (some (unread reason kind)) keeps = refl
judge_approvals-known respond scope latest (some (failed reason c a)) keeps = refl
judge_approvals-known respond scope latest none keeps = refl

module _ (fromisoformat : String → Option DateTime) (entry : ReviewEntryState) where
  respond_pull-known :
      (reviewer head : String)
      (review handoff contributor contributor_handoff latest : Option ResponseRecord)
      (result : Option ApprovalResult) (o : PullOutcome)
      → IsState
          (respond_pull fromisoformat entry reviewer head review handoff contributor
            contributor_handoff result latest o).state
  unfolding respond_pull
  respond_pull-known reviewer head review handoff contributor ch latest result on_head =
      judge_approvals-known _ _ _ result (λ state reason anchor authority. refl)
  respond_pull-known reviewer head review handoff contributor ch latest result nothing_yet = refl
  respond_pull-known reviewer head review handoff contributor ch latest result contributor_newer =
      refl
  respond_pull-known reviewer head review handoff contributor ch latest result handoff_last = refl
  respond_pull-known reviewer head review handoff contributor ch latest result contradiction = refl
  respond_pull-known reviewer head review handoff contributor ch latest result handoff_stale = refl
  respond_pull-known reviewer head review handoff contributor ch latest result review_stale = refl

  derive-known :
      (is_pull : Bool) (head : Option String)
      (comment review contributor stored : Option ResponseRecord) (had : Bool)
      (result : Option ApprovalResult) (authors : List String)
      → IsState
          (derive_reviewer_response_state fromisoformat entry is_pull head comment review
            contributor had result authors stored).state
  unfolding derive_reviewer_response_state derive_issue_response derive_pull_response judge_issue
      judge_pull
  derive-known is_pull head comment review contributor stored had result authors =
      elim (Option-cases (nonblank entry.current_reviewer)) [
        | inl e ↦ rw (e, derive_reviewer_response_state) refl
        | inr (reviewer, e) ↦ elim (Bool-cases (not is_pull)) [
          | inl f ↦ rw (e, f, derive_reviewer_response_state) (issue_state-known _)
          | inr f ↦ elim (Option-cases (nonblank head)) [
            | inl g ↦ rw (e, f, g, derive_reviewer_response_state) refl
            | inr (text, g) ↦
                rw (e, f, g, derive_reviewer_response_state) (respond_pull-known _ _ _ _ _ _ _ _ _)
          ]
        ]
      ]

  -- Whatever the response to an issue or a pull request is, its state is one of six. A state that awaits
  -- the reviewer, the contributor or a write approval has exactly the status label of that name; `done`
  -- and `untracked` have no status label; and for `projection_failed` the projection is an error.
  pub response-labelled :
      (is_pull : Bool) (head : Option String)
      (comment review contributor stored : Option ResponseRecord) (had : Bool)
      (result : Option ApprovalResult) (authors : List String)
      → Shows
          (derive_reviewer_response_state fromisoformat entry is_pull head comment review
            contributor had result authors stored).state
  response-labelled is_pull head comment review contributor stored had result authors =
      at_element Shows states _ states-Shows
        (derive-known is_pull head comment review contributor stored had result authors)
