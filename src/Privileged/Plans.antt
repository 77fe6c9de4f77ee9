-- ===== src/Privileged/Plans.antt =====
-- What the command executes: assess_accept_no_fls_changes_post_update and
-- plan_accept_no_fls_changes_execution of scripts/reviewer_bot_core/privileged_command_policy.py. The
-- tests of a return code are for 0 and 2; a negative code stands for any other number.
use Prim.Native.String.{compare as compare_texts}
use safety_critical_rust_cod.Common.{
  ℕ, String, Bool, not, Option, none, some, List, [], ◌∷◌, ◌==◌, eqb, if◌then◌else◌, filter,
  append_text, decimal, truthy, or_else,
}
use safety_critical_rust_cod.Common.Sorting.{sort_by}
use safety_critical_rust_cod.LiveReviews.{given}
use safety_critical_rust_cod.Privileged.{lock_path, PrivilegedExecutionContext}

pub record CompletePrivilegedExecution : Type 0 where
  pub status : String
  pub result_code : String
  pub result_message : Option String
  pub opened_pr_url : Option String

abbrev completed : String → String → String → CompletePrivilegedExecution
completed status code message = record {
  status = status;
  result_code = code;
  result_message = some message;
  opened_pr_url = none;
}

-- `f"\\n\\nDetails:..."`, if there are details.
abbrev detail_text : String → String
detail_text details =
    if truthy details then append_text "\n\nDetails:\n```\n" (append_text details "\n```") else ""

-- `", ".join(paths)`
unfoldable pub join_paths : List String → String
join_paths [] = ""
join_paths (path ∷ []) = path
join_paths (path ∷ next ∷ paths) = append_text path (append_text ", " (join_paths (next ∷ paths)))

abbrev pub is_other : String → Bool
is_other path = not (path == lock_path)

-- After the audit and the update succeeded: none if only the lock file changed.
unfoldable pub assess_changes : List String → List String → Option CompletePrivilegedExecution
unfolding join_paths sort_by
assess_changes [] others = some (
    completed "executed" "already_up_to_date"
      "✅ `src/spec.lock` is already up to date; no PR needed.")
assess_changes (path ∷ paths) [] = none
assess_changes (path ∷ paths) (other ∷ others) = some (
    completed "failed_closed" "unexpected_changed_files" (
      append_text
        "❌ Unexpected tracked file changes detected; refusing to open a PR. Please review: "
        (join_paths (sort_by compare_texts (other ∷ others)))))

unfoldable pub assess_accept_no_fls_changes_post_update :
    ℕ → String → ℕ → String → List String → Option CompletePrivilegedExecution
unfolding assess_changes
assess_accept_no_fls_changes_post_update audit_returncode audit_details update_returncode
      update_details changed_files_after =
    if eqb audit_returncode 2
    then some (
        completed "failed_closed" "audit_reported_guideline_impact"
          "❌ The audit reports affected guidelines. Please review and open a PR with the necessary guideline updates instead.")
    else if not (eqb audit_returncode 0)
    then some (
        completed "failed_closed" "audit_failed"
          (append_text "❌ Audit command failed." (detail_text audit_details)))
    else if not (eqb update_returncode 0)
    then some (
        completed "failed_closed" "update_failed"
          (append_text "❌ Failed to update spec.lock." (detail_text update_details)))
    else assess_changes changed_files_after (filter is_other changed_files_after)

unfoldable pub derive_accept_no_fls_changes_branch_name : ℕ → String → Option String → String
unfolding decimal
derive_accept_no_fls_changes_branch_name issue_number branch_date branch_suffix =
    let branch_name =
      append_text "chore/spec-lock-"
        (append_text branch_date (append_text "-issue-" (decimal issue_number))) in
    if given branch_suffix
    then append_text branch_name (append_text "-" (or_else branch_suffix ""))
    else branch_name

pub record AcceptNoFlsChangesPlan : Type 0 where
  pub ordered_steps : List String
  pub revalidation_checkpoints : List String
  pub expected_changed_files : List String
  pub branch_probe_name : String
  pub branch_name : String
  pub base_branch : String
  pub add_paths : List String
  pub git_checkout_args : List String
  pub git_commit_args : List String
  pub git_push_args : List String
  pub commit_message : String
  pub pull_request_title : String
  pub pull_request_body : String

abbrev ordered_execution_steps : List String
ordered_execution_steps =
    "working_tree_clean_check" ∷ "audit_no_impact_check" ∷ "spec_lock_update"
    ∷ "changed_files_validation" ∷ "branch_name_derivation" ∷ "branch_existence_check"
    ∷ "branch_creation" ∷ "git_add_spec_lock" ∷ "git_commit" ∷ "git_push" ∷ "pull_request_create"
    ∷ []

abbrev checkpoints : List String
checkpoints =
    "issue_not_pull_request" ∷ "fls_audit_label_present" ∷ "triage_permission_granted"
    ∷ "working_tree_clean_before_update" ∷ "audit_no_impact_before_update"
    ∷ "changed_files_exact_after_update" ∷ []

abbrev commit_message : String
commit_message = "chore: update spec.lock; no affected guidelines"

-- The plan for a branch, beside the name that is probed.
unfoldable pub plan_of : ℕ → String → String → String → AcceptNoFlsChangesPlan
unfolding decimal
plan_of issue_number base_branch branch_probe_name branch_name = record {
  ordered_steps = ordered_execution_steps;
  revalidation_checkpoints = checkpoints;
  expected_changed_files = lock_path ∷ [];
  branch_probe_name = branch_probe_name;
  branch_name = branch_name;
  base_branch = base_branch;
  add_paths = lock_path ∷ [];
  git_checkout_args = "git" ∷ "checkout" ∷ "-b" ∷ branch_name ∷ [];
  git_commit_args =
      "git" ∷ "-c" ∷ "user.name=guidelines-bot" ∷ "-c"
      ∷ "user.email=guidelines-bot@users.noreply.github.com" ∷ "commit" ∷ "-m" ∷ commit_message
      ∷ [];
  git_push_args = "git" ∷ "push" ∷ "origin" ∷ branch_name ∷ [];
  commit_message = commit_message;
  pull_request_title = "chore: update spec.lock (no guideline impact)";
  pull_request_body =
      append_text
        "Updates `src/spec.lock` after confirming the audit reported no affected guidelines.\n\nCloses #"
        (decimal issue_number);
}

unfoldable pub build_execution_context :
    AcceptNoFlsChangesPlan → String → Option String → PrivilegedExecutionContext
build_execution_context p target_repo_root existing_open_pr_url = record {
  target_repo_root = target_repo_root;
  base_branch = p.base_branch;
  branch_probe_name = p.branch_probe_name;
  branch_name = p.branch_name;
  expected_changed_files = p.expected_changed_files;
  existing_open_pr_url = existing_open_pr_url;
}

-- CompletePrivilegedExecution, or AcceptNoFlsChangesPlan.
pub data PlanDecision : Type 0 where
  complete : CompletePrivilegedExecution → PlanDecision
  plan : AcceptNoFlsChangesPlan → PlanDecision

-- The results of the audit, the update and the changed files; then the issue, the branches and whether
-- the branch that is probed exists.
unfoldable pub plan_accept_no_fls_changes_execution :
    ℕ
    → String
    → ℕ
    → String
    → List String
    → ℕ
    → String
    → String
    → Bool
    → Option String
    → PlanDecision
unfolding assess_accept_no_fls_changes_post_update derive_accept_no_fls_changes_branch_name plan_of
plan_accept_no_fls_changes_execution audit_returncode audit_details update_returncode update_details
      changed_files_after issue_number branch_date base_branch branch_exists branch_suffix =
    elim (assess_accept_no_fls_changes_post_update audit_returncode audit_details update_returncode
      update_details changed_files_after) [
        | some assessment ↦ complete assessment
        | none ↦ plan (
            plan_of issue_number base_branch
              (derive_accept_no_fls_changes_branch_name issue_number branch_date none)
              (derive_accept_no_fls_changes_branch_name issue_number branch_date
                (if branch_exists then branch_suffix else none)))
      ]
