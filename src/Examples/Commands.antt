-- ===== src/Examples/Commands.antt =====
-- Commands in comments: scripts/reviewer_bot_core/comment_command_policy.py and
-- scripts/reviewer_bot_core/comment_routing_policy.py.
use safety_critical_rust_cod.Common.{
  returned, ◌≡◌, ◌↔◌, refl, true, false, String, Option, none, some, [], ◌∷◌, truthy, lower, strip,
}
use safety_critical_rust_cod.Routing
use safety_critical_rust_cod.Routing.{
  PrCommentAdmission, ActorClass, repo_user_principal, bot_account, github_app_or_other_automation,
  trusted_direct, safe_noop, classify_issue_comment_actor, classify_pr_comment_router_outcome,
}
use safety_critical_rust_cod.Routing.Trust.{IsTrusted, IsTrusted-iff}
use safety_critical_rust_cod.Commands
use safety_critical_rust_cod.Commands.{
  OrdinaryCommandId, away, claim, value, OrdinaryCommand, execute_ordinary_command,
  decide_comment_command,
}
use safety_critical_rust_cod.Commands.Decisions.{ordinary, decide_sound}
use safety_critical_rust_cod.Commands.Authorization.{
  pos, is_positive, authorize_assignment_command, login_of, permission_of,
}
use safety_critical_rust_cod.Commands.Rights.{is_unknown, IsEntitled, authorized_iff}

abbrev request : Commands.Request
request = record { issue_number = 7; comment_author = "ann" }

abbrev claim_decided : OrdinaryCommand
claim_decided = ordinary request claim ("now" ∷ [])

claimed :
    decide_comment_command "@bot" "help" request
      (some (record { command = some "claim"; args = "now" ∷ [] }))
      repo_user_principal
    ≡ execute_ordinary_command claim_decided
unfolding decide_comment_command
claimed = refl

decide_sound_example :
    (repo_user_principal ≡ repo_user_principal)
    × (◌≡◌ {A = Option String} (some "claim") (some "claim"))
    × (claim_decided ≡ claim_decided)
    × Unit {0}
decide_sound_example =
    decide_sound "@bot" "help" request (some "claim") ("now" ∷ []) repo_user_principal claim_decided
      claimed

authorized_iff_example :
    ((authorize_assignment_command "r?"
        (some "ann")
        (pos 7)
        (some "producers")
        none
        (some "read")).authorized
      ≡ true)
    ↔ (truthy (login_of (some "ann")) ≡ true)
      × (is_positive (pos 7) ≡ true)
      × (is_unknown (permission_of (some "read")) ≡ false)
      × IsEntitled "r?"
          (login_of (some "ann"))
          (permission_of (some "read"))
          (some "producers")
          none
authorized_iff_example =
    authorized_iff "r?" (some "ann") (pos 7) (some "producers") none (some "read")

vacancy :
    (authorize_assignment_command "r?"
      (some "ann")
      (pos 7)
      (some "producers")
      none
      (some "read")).reason
    ≡ "unassigned_queue_request"
unfolding authorize_assignment_command lower strip
vacancy = refl

-- A comment of a member of the organisation on a pull request from a branch of the repository.
abbrev member_comment : Routing.Request
member_comment = record {
  is_pull_request = true;
  comment_author = "ann";
  comment_user_type = "User";
  comment_sender_type = "User";
  comment_installation_id = none;
  comment_performed_via_github_app = false;
  comment_author_association = "MEMBER";
}

abbrev admission : PrCommentAdmission
admission = record {
  route_outcome = trusted_direct;
  declared_trust_class = "pr_trusted_direct";
  github_repository = "org/guidelines";
  pr_head_full_name = "org/guidelines";
  pr_author = "ben";
}

IsTrusted-iff_example :
    (classify_pr_comment_router_outcome member_comment admission false ≡ returned trusted_direct)
    ↔ IsTrusted member_comment admission false
IsTrusted-iff_example = IsTrusted-iff member_comment admission false refl
