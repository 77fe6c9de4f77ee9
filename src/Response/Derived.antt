-- ===== src/Response/Derived.antt =====
-- The response state of a review: derive_reviewer_response_state of
-- scripts/reviewer_bot_core/reviewer_response_policy.py.
use safety_critical_rust_cod.Common.{String, Bool, not, Option, none, some, List, if◌then◌else◌}
use safety_critical_rust_cod.Timestamps.{DateTime}
use safety_critical_rust_cod.Review.Types.{ReviewEntryState}
use safety_critical_rust_cod.LiveReviews.{nonblank}
use safety_critical_rust_cod.Approvals.Status.{ApprovalResult}
use safety_critical_rust_cod.Response.{ResponseRecord, no_scope}
use safety_critical_rust_cod.Response.Answers.{Response, bare_response}
use safety_critical_rust_cod.Response.Issues.{derive_issue_response}
use safety_critical_rust_cod.Response.Pulls.{derive_pull_response}

module _ (fromisoformat : String → Option DateTime) where
  -- The arguments but the entry are those that the callers pass.
  unfoldable pub derive_reviewer_response_state :
      ReviewEntryState
      → Bool
      → Option String
      → Option ResponseRecord
      → Option ResponseRecord
      → Option ResponseRecord
      → Bool
      → Option ApprovalResult
      → List String
      → Option ResponseRecord
      → Response
  unfolding nonblank
  derive_reviewer_response_state entry issue_is_pull_request current_head reviewer_comment
        reviewer_review contributor_comment had_reviewer_review approval_result approval_authors
        stored =
      elim (nonblank entry.current_reviewer) [
        | none ↦ bare_response "untracked" "no_current_reviewer" no_scope none
        | some reviewer ↦
            if not issue_is_pull_request
            then derive_issue_response fromisoformat entry reviewer reviewer_comment reviewer_review
                contributor_comment
            else elim (nonblank current_head) [
              | none ↦
                  bare_response "projection_failed" "pull_request_head_unavailable" no_scope none
              | some head ↦
                  derive_pull_response fromisoformat entry reviewer head reviewer_review
                    contributor_comment had_reviewer_review approval_result approval_authors stored
            ]
      ]
