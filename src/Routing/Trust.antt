-- ===== src/Routing/Trust.antt =====
-- When a comment on a pull request is trusted: scripts/reviewer_bot_core/comment_routing_policy.py.
use safety_critical_rust_cod.Common.{returned, ◌≡◌, ◌↔◌, ◌⊎◌, Bool, true, false, arith, ◌==◌}
use safety_critical_rust_cod.Routing.{
  Request, PrCommentAdmission, trusted_direct, safe_noop, bot_account,
  github_app_or_other_automation, repo_user_principal, classify_issue_comment_actor,
  comment_author_association_allows_trusted_direct, classify_pr_comment_router_outcome,
}

-- All that a trusted comment needs.
pub record IsTrusted (request : Request) (admission : PrCommentAdmission) (is_self : Bool)
    : Type 0 where
  pub by_user : classify_issue_comment_actor request ≡ repo_user_principal
  pub not_self : is_self ≡ false
  pub admitted : admission.route_outcome ≡ trusted_direct
  pub same_repository : (admission.pr_head_full_name == admission.github_repository) ≡ true
  pub not_dependabot : (admission.pr_author == "dependabot[bot]") ≡ false
  pub declared : (admission.declared_trust_class == "pr_trusted_direct") ≡ true
  pub associated :
      comment_author_association_allows_trusted_direct request.comment_author_association ≡ true

module _ (request : Request) (admission : PrCommentAdmission) (is_self : Bool) where
  -- A comment on a pull request is routed as trusted exactly if all of these hold: a user who is not the
  -- bot, an admission as trusted, a branch of the same repository, not by dependabot, a declared trust
  -- class, and an author association that allows it.
  pub IsTrusted-iff :
      request.is_pull_request ≡ true
      → (classify_pr_comment_router_outcome request admission is_self ≡ returned trusted_direct)
        ↔ IsTrusted request admission is_self
  unfolding classify_pr_comment_router_outcome
  IsTrusted-iff pr = (ground arith, ground arith)

  -- A comment on a pull request by a bot account, by an app or by the bot itself is routed as a no-op.
  automation_noop :
      request.is_pull_request ≡ true
      → (classify_issue_comment_actor request ≡ bot_account)
        ⊎ (classify_issue_comment_actor request ≡ github_app_or_other_automation)
        ⊎ (is_self ≡ true)
      → classify_pr_comment_router_outcome request admission is_self ≡ returned safe_noop
  unfolding classify_pr_comment_router_outcome
  automation_noop pr h = ground arith
