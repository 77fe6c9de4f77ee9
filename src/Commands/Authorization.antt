-- ===== src/Commands/Authorization.antt =====
-- Who may assign reviewers: authorize_assignment_command in
-- scripts/reviewer_bot_core/comment_command_policy.py.
use safety_critical_rust_cod.Common.{
  ℕ, suc, String, Bool, true, false, not, ◌&&◌, ◌||◌, Option, none, some, [], ◌∷◌, ◌==◌,
  if◌then◌else◌, truthy, strip, lower, is_in,
}

-- An integer, or a value of another type; `negsuc n` is -(n + 1).
pub data IssueNumber : Type 0 where
  pos negsuc : ℕ → IssueNumber
  other : IssueNumber

abbrev pub is_positive : IssueNumber → Bool
is_positive (pos (suc n)) = true
is_positive _ = false

pub record AssignmentCommandAuthorization : Type 0 where
  pub command_name : String
  pub actor : String
  pub issue_number : IssueNumber
  pub target : Option String
  pub current_reviewer : Option String
  pub is_assigned : Bool
  pub actor_permission : String
  pub authorized : Bool
  pub reason : String

-- The text, or the empty text for a value of another type.
abbrev pub text_or_empty : Option String → String
text_or_empty none = ""
text_or_empty (some s) = s

abbrev pub is_named : Option String → Bool
is_named none = false
is_named (some reviewer) = truthy (strip reviewer)

abbrev pub is_reviewer : String → Option String → Bool
is_reviewer actor none = false
is_reviewer actor (some reviewer) = truthy (strip reviewer) && lower actor == lower reviewer

abbrev pub triage_or_better : String → Bool
triage_or_better permission =
    is_in permission ("admin" ∷ "maintain" ∷ "write" ∷ "triage" ∷ "granted" ∷ [])

abbrev pub is_queue_command : String → Bool
is_queue_command command_name = is_in command_name ("assign-from-queue" ∷ "r?" ∷ [])

-- The outcome, and its reason, once actor, issue and permission are known.
unfoldable pub judge : String → String → Option String → Option String → String → Bool × String
judge command_name actor target current_reviewer permission =
    let is_assigned = is_reviewer actor current_reviewer in
    let triage = triage_or_better permission in
    if command_name == "r?-user"
    then (triage, if triage then "triage_override" else "actor_not_authorized")
    else if is_queue_command command_name
    then (if not (triage || is_assigned)
          && (not (is_named current_reviewer) && lower (text_or_empty target) == "producers")
        then (true, "unassigned_queue_request")
        else (
          triage || is_assigned,
          if triage
              then "triage_override"
              else if is_assigned
              then "assigned_reviewer_pass_semantics"
              else "actor_not_authorized",
        ))
    else (false, "not_assignment_command")

-- `actor.strip()` and `actor_permission.strip().lower()`, of texts.
unfoldable pub login_of : Option String → String
unfolding strip
login_of actor = strip (text_or_empty actor)

unfoldable pub permission_of : Option String → String
unfolding strip lower
permission_of permission = lower (strip (text_or_empty permission))

unfoldable pub authorize_login :
    String
    → String
    → IssueNumber
    → Option String
    → Option String
    → String
    → AssignmentCommandAuthorization
unfolding judge
authorize_login command_name login issue_number target current_reviewer permission =
    let denied : String → String → String → AssignmentCommandAuthorization = λ who known reason.
      record {
        command_name = command_name;
        actor = who;
        issue_number = issue_number;
        target = target;
        current_reviewer = current_reviewer;
        is_assigned = false;
        actor_permission = known;
        authorized = false;
        reason = reason;
      } in
    if not (truthy login)
    then denied "" "unknown" "missing_actor"
    else if not (is_positive issue_number)
    then denied login "unknown" "malformed_issue_number"
    else if is_in permission ("" ∷ "unknown" ∷ "unavailable" ∷ [])
    then denied login (if truthy permission then permission else "unknown") "permission_unavailable"
    else let judged = judge command_name login target current_reviewer permission in
      record {
        command_name = command_name;
        actor = login;
        issue_number = issue_number;
        target = target;
        current_reviewer = current_reviewer;
        is_assigned = is_reviewer login current_reviewer;
        actor_permission = if truthy permission then permission else "unknown";
        authorized = judged.0;
        reason = judged.1;
      }

unfoldable pub authorize_assignment_command :
    String
    → Option String
    → IssueNumber
    → Option String
    → Option String
    → Option String
    → AssignmentCommandAuthorization
unfolding authorize_login login_of permission_of
authorize_assignment_command command_name actor issue_number target current_reviewer permission =
    authorize_login command_name (login_of actor) issue_number target current_reviewer
      (permission_of permission)
