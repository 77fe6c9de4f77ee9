-- ===== src/Privileged.antt =====
-- The privileged command `accept-no-fls-changes`: scripts/reviewer_bot_core/privileged_command_policy.py.
-- Who may ask for it and when it is still allowed. Privileged/Pending has the records in the state,
-- Privileged/Plans what is executed. `permission_status` is the text that the caller read.
pub mod Stored
pub mod Pending
pub mod Plans
pub mod Gates
use Prim.Native.String.{compare as compare_texts}
use safety_critical_rust_cod.Common.{
  ℕ, String, Bool, true, false, not, Option, none, some, List, [], ◌∷◌, ◌==◌, if◌then◌else◌, is_in,
}
use safety_critical_rust_cod.Common.Sorting.{sort_by}
use safety_critical_rust_cod.Value.{Value, list, dict, str, Values, nil, cons, Dict, get, as_text}

abbrev pub command_id : String
command_id = "accept-no-fls-changes"

abbrev pub lock_path : String
lock_path = "src/spec.lock"

-- What the policy reads of a request.
pub record PrivilegedRequest : Type 0 where
  pub is_pull_request : Bool
  pub issue_labels : List String
  pub issue_number : ℕ
  pub actor : String
  pub comment_author : String

pub record PendingAcceptNoFlsChangesRecord : Type 0 where
  pub source_event_key : String
  pub command_name : String
  pub issue_number : ℕ
  pub actor : String
  pub authorization_required_permission : String
  pub authorization_authorized : Bool
  pub target_kind : String
  pub target_number : ℕ
  pub target_labels_snapshot : List String
  pub status : String
  pub created_at : String
  pub completed_at : Option String
  pub result_code : Option String
  pub result_message : Option String
  pub opened_pr_url : Option String

pub record PrivilegedExecutionContext : Type 0 where
  pub target_repo_root : String
  pub base_branch : String
  pub branch_probe_name : String
  pub branch_name : String
  pub expected_changed_files : List String
  pub existing_open_pr_url : Option String

pub record AllowedPrivilegedHandoff : Type 0 where
  pub source_event_key : String
  pub command_name : String
  pub issue_number : ℕ
  pub actor : String
  pub authorization_required_permission : String
  pub authorization_authorized : Bool
  pub target_kind : String
  pub target_number : ℕ
  pub target_labels_snapshot : List String

-- BlockedPrivilegedHandoff with its reason and response, or AllowedPrivilegedHandoff.
pub data HandoffDecision : Type 0 where
  blocked : String → String → HandoffDecision
  allowed : AllowedPrivilegedHandoff → HandoffDecision

-- BlockedPrivilegedExecution with its result, whose status is `failed_closed`, or ExecutePrivilegedPlan.
pub data ExecutionDecision : Type 0 where
  refused : String → Option String → ExecutionDecision
  execute : PendingAcceptNoFlsChangesRecord → PrivilegedExecutionContext → ExecutionDecision

-- The guards that the three gates share, in their order: none, or the code and the message.
unfoldable pub guard : Bool → List String → String → Option (String × String)
guard is_pull_request labels permission_status =
    if is_pull_request
    then some
        ("pull_request_target_not_allowed", "❌ This command can only be used on issues, not PRs.")
    else if not (is_in "fls-audit" labels)
    then some (
      "missing_fls_audit_label", "❌ This command is only available on issues labeled `fls-audit`.",
    )
    else if permission_status == "unavailable"
    then some (
      "authorization_unavailable",
      "❌ Unable to verify triage permissions right now; refusing to run this command.",
    )
    else if not (permission_status == "granted")
    then some ("authorization_failed", "❌ You must have triage permissions to run this command.")
    else none

-- `tuple(sorted(labels))`
unfoldable pub sorted_labels : List String → List String
unfolding sort_by
sorted_labels labels = sort_by compare_texts labels

unfoldable pub validate_accept_no_fls_changes_handoff :
    PrivilegedRequest → String → String → HandoffDecision
unfolding guard sorted_labels
validate_accept_no_fls_changes_handoff request permission_status source_event_key =
    let labels = sorted_labels request.issue_labels in
    elim (guard request.is_pull_request labels permission_status) [
      | some refusal ↦ blocked refusal.0 refusal.1
      | none ↦ allowed (record {
        source_event_key = source_event_key;
        command_name = command_id;
        issue_number = request.issue_number;
        actor = request.comment_author;
        authorization_required_permission = "triage";
        authorization_authorized = true;
        target_kind = "issue";
        target_number = request.issue_number;
        target_labels_snapshot = labels;
      })
    ]

unfoldable pub build_pending_privileged_command :
    String → AllowedPrivilegedHandoff → PendingAcceptNoFlsChangesRecord
build_pending_privileged_command created_at handoff = record {
  source_event_key = handoff.source_event_key;
  command_name = handoff.command_name;
  issue_number = handoff.issue_number;
  actor = handoff.actor;
  authorization_required_permission = handoff.authorization_required_permission;
  authorization_authorized = handoff.authorization_authorized;
  target_kind = handoff.target_kind;
  target_number = handoff.target_number;
  target_labels_snapshot = handoff.target_labels_snapshot;
  status = "pending";
  created_at = created_at;
  completed_at = none;
  result_code = none;
  result_message = none;
  opened_pr_url = none;
}

-- `_accept_no_fls_changes_execution_context`
unfoldable pub execution_context : String → PrivilegedExecutionContext
execution_context target_repo_root = record {
  target_repo_root = target_repo_root;
  base_branch = "";
  branch_probe_name = "";
  branch_name = "";
  expected_changed_files = lock_path ∷ [];
  existing_open_pr_url = none;
}

-- `_pending_accept_no_fls_changes_record_from_request`
unfoldable pub record_from_request : PrivilegedRequest → PendingAcceptNoFlsChangesRecord
unfolding sorted_labels
record_from_request request = record {
  source_event_key = "";
  command_name = command_id;
  issue_number = request.issue_number;
  actor = request.actor;
  authorization_required_permission = "triage";
  authorization_authorized = true;
  target_kind = "issue";
  target_number = request.issue_number;
  target_labels_snapshot = sorted_labels request.issue_labels;
  status = "pending";
  created_at = "";
  completed_at = none;
  result_code = none;
  result_message = none;
  opened_pr_url = none;
}

unfoldable pub prevalidate_accept_no_fls_changes_request :
    PrivilegedRequest → String → List String → ExecutionDecision
unfolding guard sorted_labels execution_context record_from_request
prevalidate_accept_no_fls_changes_request request permission_status changed_files_before =
    elim (guard request.is_pull_request (sorted_labels request.issue_labels) permission_status) [
      | some refusal ↦ refused refusal.0 (some refusal.1)
      | none ↦ elim changed_files_before [
        | file ∷ files ↦
            refused "working_tree_not_clean"
              (some "❌ Working tree is not clean; refusing to update spec.lock.")
        | [] ↦ execute (record_from_request request) (execution_context "")
      ]
    ]

abbrev pub label_text : Value → Option String
label_text (dict label) = as_text (get "name" label)
label_text _ = none

-- The loop of `_snapshot_issue_labels`.
unfoldable pub label_names : Values → List String
unfolding get
label_names nil = []
label_names (cons label labels) = elim (label_text label) [
  | none ↦ label_names labels
  | some name ↦ name ∷ label_names labels
]

-- What is read of the snapshot of an issue: is it one of a pull request, and its labels, a list.
pub record IssueSnapshot : Type 0 where
  pub is_pull_request : Bool
  pub labels : Values

unfoldable pub snapshot_issue_labels : IssueSnapshot → List String
unfolding label_names sorted_labels
snapshot_issue_labels snapshot = sorted_labels (label_names snapshot.labels)

-- A snapshot that is no dict is `none`.
unfoldable pub revalidate_pending_accept_no_fls_changes :
    PendingAcceptNoFlsChangesRecord → Option IssueSnapshot → String → String → ExecutionDecision
unfolding guard snapshot_issue_labels execution_context
revalidate_pending_accept_no_fls_changes r none permission_status target_repo_root =
    refused "unsupported_command" none
revalidate_pending_accept_no_fls_changes r (some snapshot) permission_status target_repo_root =
    if not (r.command_name == command_id)
    then refused "unsupported_command" none
    else let labels = snapshot_issue_labels snapshot in
      elim (guard snapshot.is_pull_request labels permission_status) [
        | some refusal ↦ refused refusal.0 (some refusal.1)
        | none ↦
            execute (record r { target_labels_snapshot = labels })
              (execution_context target_repo_root)
      ]
