-- ===== src/Examples/Privileges.antt =====
-- The privileged command: scripts/reviewer_bot_core/privileged_command_policy.py.
use safety_critical_rust_cod.Common.{
  ℕ, ◌≡◌, refl, String, true, false, ◌&&◌, Option, none, some, [], ◌∷◌, ◌==◌, eqb, Checked,
  returned,
}
use safety_critical_rust_cod.Value.{Value, dict, str, nil, cons, Dict, empty, entry, get}
use safety_critical_rust_cod.Privileged.{
  command_id, PrivilegedRequest, PendingAcceptNoFlsChangesRecord, IssueSnapshot,
  validate_accept_no_fls_changes_handoff, prevalidate_accept_no_fls_changes_request,
  revalidate_pending_accept_no_fls_changes,
}
use safety_critical_rust_cod.Privileged.Plans.{plan_accept_no_fls_changes_execution}
use safety_critical_rust_cod.Privileged.Gates.{
  may_run, is_execution, is_allowed, is_empty, is_plan, lock_only, gates-may_run, plan-lock_only,
}
use safety_critical_rust_cod.Privileged.Pending.{
  put_pending_accept_no_fls_changes, load_pending_accept_no_fls_changes,
  mark_pending_accept_no_fls_changes_executed,
}
use safety_critical_rust_cod.Privileged.Stored.{executed, load-stored}

abbrev request : PrivilegedRequest
request = record {
  is_pull_request = false;
  issue_labels = "fls-audit" ∷ "bug" ∷ [];
  issue_number = 12;
  actor = "ann";
  comment_author = "ann";
}

abbrev pending : PendingAcceptNoFlsChangesRecord
pending = record {
  source_event_key = "issue_comment:4";
  command_name = "accept-no-fls-changes";
  issue_number = 12;
  actor = "ann";
  authorization_required_permission = "triage";
  authorization_authorized = true;
  target_kind = "issue";
  target_number = 12;
  target_labels_snapshot = "fls-audit" ∷ [];
  status = "pending";
  created_at = "2026-01-05";
  completed_at = none;
  result_code = none;
  result_message = none;
  opened_pr_url = none;
}

abbrev snapshot : IssueSnapshot
snapshot = record {
  is_pull_request = false;
  labels = cons (dict (entry "name" (str "fls-audit") empty)) nil;
}

gates-may_run_example :
    (is_allowed (validate_accept_no_fls_changes_handoff request "granted" "issue_comment:4")
      ≡ may_run false true "granted")
    × (is_execution (prevalidate_accept_no_fls_changes_request request "granted" [])
        ≡ (may_run false true "granted" && is_empty []))
    × (is_execution
          (revalidate_pending_accept_no_fls_changes pending (some snapshot) "granted" "/srv")
        ≡ (pending.command_name == command_id && may_run false true "granted"))
unfolding get
gates-may_run_example = gates-may_run "granted" request "issue_comment:4" [] pending snapshot "/srv"

plan-lock_only_example :
    is_plan (
      plan_accept_no_fls_changes_execution 0 "" 0 ""
        ("src/spec.lock" ∷ [])
        12
        "2026-01-05"
        "main"
        false
        none)
    ≡ (eqb 0 0 && eqb 0 0 && lock_only ("src/spec.lock" ∷ []))
plan-lock_only_example =
    plan-lock_only 0 0 "" "" ("src/spec.lock" ∷ []) 12 "2026-01-05" "main" false none

abbrev python_str : Value → String
python_str v = "None"

abbrev python_int : String → Option ℕ
python_int s = none

abbrev load : Dict → String → Checked (Option PendingAcceptNoFlsChangesRecord)
load = load_pending_accept_no_fls_changes python_str python_int

load-stored_example :
    (load (put_pending_accept_no_fls_changes empty pending) "issue_comment:4"
      ≡ returned (some pending))
    × ((key : String)
        → "issue_comment:4" == key ≡ false
        → load (put_pending_accept_no_fls_changes empty pending) key ≡ load empty key)
    × (load
          (mark_pending_accept_no_fls_changes_executed
            (put_pending_accept_no_fls_changes empty pending)
            "issue_comment:4"
            "2026-01-06"
            "opened_pr"
            "done"
            (some "url")).0
          "issue_comment:4"
        ≡ returned (
            some (
              executed python_str python_int pending "2026-01-06" "opened_pr" "done" (some "url"))))
load-stored_example =
    load-stored python_str python_int empty pending "2026-01-06" "opened_pr" "done" (some "url")
      refl
