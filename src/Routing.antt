-- ===== src/Routing.antt =====
-- Trust routing of comments and the classes of their text:
-- scripts/reviewer_bot_core/comment_routing_policy.py. A RuntimeError is `raised`.
pub mod Trust
use Prim.Native.String.{[] as no_text, ◌∷◌ as char_then}
use Prim.Native.Char.{Char, code}
use safety_critical_rust_cod.Common.{
  Checked, returned, raised, ℕ, ◌+◌, String, Bool, true, false, not, ◌&&◌, ◌||◌, Option, none, some,
  List, [], ◌∷◌, ◌==◌, eqb, if◌then◌else◌, is_in, is_some, truthy, strip, upper, lower,
}

pub data PrCommentRouterOutcome : Type 0 where
  trusted_direct deferred_reconcile safe_noop : PrCommentRouterOutcome

pub data ActorClass : Type 0 where
  bot_account github_app_or_other_automation repo_user_principal unknown_actor : ActorClass

pub data ProcessingTarget : Type 0 where
  issue_direct pr_trusted_direct : ProcessingTarget

-- `ProcessingTarget | PrCommentRouterOutcome`
pub data Target : Type 0 where
  target : ProcessingTarget → Target
  outcome : PrCommentRouterOutcome → Target

-- The fields of CommentEventRequest that routing reads.
pub record Request : Type 0 where
  pub is_pull_request : Bool
  pub comment_author : String
  pub comment_user_type : String
  pub comment_sender_type : String
  pub comment_installation_id : Option String
  pub comment_performed_via_github_app : Bool
  pub comment_author_association : String

pub record PrCommentAdmission : Type 0 where
  pub route_outcome : PrCommentRouterOutcome
  pub declared_trust_class : String
  pub github_repository : String
  pub pr_head_full_name : String
  pub pr_author : String

-- `text.endswith(suffix)`
unfoldable pub ends_with : String → String → Bool
ends_with suffix no_text = suffix == ""
ends_with suffix (char_then c s) = char_then c s == suffix || ends_with suffix s

abbrev present : Option String → Bool
present none = false
present (some s) = truthy s

unfoldable pub classify_issue_comment_actor : Request → ActorClass
classify_issue_comment_actor r =
    let author = strip r.comment_author in
    let installed = present r.comment_installation_id || r.comment_performed_via_github_app in
    if r.comment_user_type == "Bot" || ends_with "[bot]" author
    then bot_account
    else if installed
        || (truthy r.comment_sender_type && not (is_in r.comment_sender_type ("User" ∷ "Bot" ∷ [])))
    then github_app_or_other_automation
    else if r.comment_user_type == "User"
        && truthy author
        && not (ends_with "[bot]" author)
        && not installed
    then repo_user_principal
    else unknown_actor

unfoldable pub comment_author_association_allows_trusted_direct : String → Bool
comment_author_association_allows_trusted_direct value =
    is_in (upper (strip value)) ("OWNER" ∷ "MEMBER" ∷ "COLLABORATOR" ∷ [])

abbrev is_automation : ActorClass → Bool
is_automation bot_account = true
is_automation github_app_or_other_automation = true
is_automation _ = false

abbrev is_repo_user : ActorClass → Bool
is_repo_user repo_user_principal = true
is_repo_user _ = false

unfoldable pub classify_pr_comment_processing_target :
    Request → PrCommentAdmission → ActorClass → Bool → Checked Target
classify_pr_comment_processing_target request admission actor_class is_self_comment =
    if is_automation actor_class || is_self_comment
    then returned (outcome safe_noop)
    else elim admission.route_outcome [
      | deferred_reconcile ↦ returned (outcome deferred_reconcile)
      | safe_noop ↦ returned (outcome safe_noop)
      | trusted_direct ↦
          if not (admission.pr_head_full_name == admission.github_repository)
          then returned (outcome deferred_reconcile)
          else if admission.pr_author == "dependabot[bot]"
          then returned (outcome deferred_reconcile)
          else if is_repo_user actor_class && admission.declared_trust_class == "pr_trusted_direct"
          then if comment_author_association_allows_trusted_direct
              request.comment_author_association
            then returned (target pr_trusted_direct)
            else returned (outcome deferred_reconcile)
          else raised "Ambiguous same-repo PR comment trust posture; failing closed"
    ]

-- `text.lstrip("@")`
unfoldable pub without_at : String → String
without_at no_text = ""
without_at (char_then c s) =
    let rest = without_at s in if eqb (code c) b'@' then rest else char_then c s

unfoldable pub is_self_comment_author : String → String → String → Bool
is_self_comment_author comment_author bot_name bot_mention =
    let author = lower (strip comment_author) in
    author == lower bot_name || author == lower (without_at bot_mention)

unfoldable pub route_issue_comment_trust :
    Request → Option PrCommentAdmission → Option Target → Checked Target
route_issue_comment_trust request admission processing_target =
    if not request.is_pull_request then returned (target issue_direct) else elim processing_target [
      | some (target pr_trusted_direct) ↦ returned (outcome trusted_direct)
      | some (outcome o) ↦ returned (outcome o)
      | _ ↦ elim admission [
        | none ↦ raised "Trusted direct PR comment handling requires pr_admission"
        | some a ↦ returned (outcome a.route_outcome)
      ]
    ]

abbrev only_outcome : Checked Target → Checked PrCommentRouterOutcome
only_outcome (returned (outcome o)) = returned o
only_outcome (returned (target t)) =
    raised "PR comment router outcome must be trusted_direct, deferred_reconcile, or safe_noop"
only_outcome (raised e) = raised e

abbrev then_route : Request → PrCommentAdmission → Checked Target → Checked PrCommentRouterOutcome
then_route request admission (returned t) =
    only_outcome (route_issue_comment_trust request (some admission) (some t))
then_route request admission (raised e) = raised e

unfoldable pub classify_pr_comment_router_outcome :
    Request → PrCommentAdmission → Bool → Checked PrCommentRouterOutcome
unfolding classify_pr_comment_processing_target route_issue_comment_trust
classify_pr_comment_router_outcome request admission is_self_comment =
    then_route request admission (
      classify_pr_comment_processing_target request admission (classify_issue_comment_actor request)
        is_self_comment)
