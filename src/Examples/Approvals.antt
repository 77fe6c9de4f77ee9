-- ===== src/Examples/Approvals.antt =====
-- Reviews of a pull request: scripts/reviewer_bot_core/approval_policy.py and
-- scripts/reviewer_bot_core/live_review_support.py.
use safety_critical_rust_cod.Common.{
  ℕ, ◌≡◌, refl, String, true, false, Option, none, some, List, [], ◌∷◌, returned, Checked, arith,
}
use safety_critical_rust_cod.Value.{Value, int, str}
use safety_critical_rust_cod.Timestamps.{DateTime, naive}
use safety_critical_rust_cod.Review.Types.{ReviewEntryState, default_entry}
use safety_critical_rust_cod.LiveReviews.{
  text, user, LiveReview, ReviewSnapshotRecord, ReviewFreshnessClassification,
}
use safety_critical_rust_cod.LiveReviews.Reads.{
  ok, Reply, payload, PullRequest, LiveReviewList, read_pull_request_reviews_result,
}
use safety_critical_rust_cod.LiveReviews.Pages.{concat, last, read_pages_total}
use safety_critical_rust_cod.LiveReviews.Authors.{current_head_approval_authors}
use safety_critical_rust_cod.LiveReviews.Kept.{current_head_approval_authors-empty}
use safety_critical_rust_cod.Approvals.{
  derive_completion_authority_decision, derive_write_approval_authority_decision,
}
use safety_critical_rust_cod.Approvals.Status.{
  assigned_classification, result_of, permission_evidence, ApprovalResult, computed, failed,
  Completion, WriteApproval, compute_pr_approval_state_result,
}
use safety_critical_rust_cod.Approvals.Triage.{Approval}
use safety_critical_rust_cod.Approvals.Granted.{IsGranted}
use safety_critical_rust_cod.Approvals.Result.{classified, write_approval-IsGranted}

abbrev fromisoformat : String → Option DateTime
fromisoformat s = some (naive 50)

abbrev isoformat : ℕ → String
isoformat t = "2026-01-05T00:00:00+00:00"

abbrev python_str : Value → String
python_str v = ""

abbrev parse : Option String → Option ℕ
parse none = none
parse (some s) = some 50

abbrev may : String → String → String
may login permission = "granted"

abbrev unknown_rights : String → String → String
unknown_rights login permission = ""

abbrev entry : ReviewEntryState
entry = record default_entry { assigned_at = some "2026-01-05"; current_reviewer = some "Ann" }

abbrev pull_request : PullRequest
pull_request = record { head_sha = str "a1" }

abbrev approval : LiveReview
approval = record {
  id = some (int 7);
  state = some (str "approved");
  submitted_at = text "2026-01-06";
  commit_id = str "a1";
  user = user (str "ann");
}

abbrev reviews : LiveReviewList
reviews = some approval ∷ []

abbrev result : (String → String → String) → Checked ApprovalResult
result ask =
    compute_pr_approval_state_result fromisoformat isoformat python_str parse ask 3 entry
      (ok pull_request) (ok reviews)

-- What a result says, or nothing of note.
abbrev blank : Completion × WriteApproval
blank = (
  record {
    completed = false;
    current_head_sha = "";
    qualifying_review_ids = [];
    authority_decision = derive_completion_authority_decision none none none none false;
  },
  record {
    has_write_approval = false;
    write_approvers = [];
    current_head_sha = "";
    response_state = "";
    authority_decision = none;
  },
)

abbrev parts : Checked ApprovalResult → Completion × WriteApproval
parts (returned (computed c w)) = (c, w)
parts (returned (failed reason c w)) = (c, w)
parts _ = blank

granted_now : result may ≡ returned (computed (parts (result may)).0 (parts (result may)).1)
unfolding compute_pr_approval_state_result derive_completion_authority_decision
    assigned_classification result_of derive_write_approval_authority_decision permission_evidence
granted_now = refl

has_approval : (parts (result may)).1.has_write_approval ≡ true
unfolding compute_pr_approval_state_result derive_completion_authority_decision
    assigned_classification result_of derive_write_approval_authority_decision permission_evidence
has_approval = refl

write_approval-IsGranted_example :
    (cs : List ReviewFreshnessClassification) × (classified fromisoformat isoformat python_str parse
        may entry pull_request reviews
      ≡ returned cs)
    × IsGranted may cs (parts (result may)).0 (parts (result may)).1
write_approval-IsGranted_example =
    write_approval-IsGranted fromisoformat isoformat python_str parse may 3 entry pull_request
      reviews (parts (result may)).0 (parts (result may)).1 granted_now has_approval

failed_now :
    result unknown_rights
    ≡ returned (
        failed "permission_unavailable"
          (parts (result unknown_rights)).0
          (parts (result unknown_rights)).1)
unfolding compute_pr_approval_state_result derive_completion_authority_decision
    assigned_classification result_of derive_write_approval_authority_decision permission_evidence
failed_now = refl

abbrev snapshot : ReviewSnapshotRecord
snapshot = record {
  review_id = int 7;
  state = "APPROVED";
  author = some "ann";
  submitted_at = some "2026-01-06";
  commit_id = some "a1";
  source_precedence = 1;
  payload = approval;
}

no_authors :
    current_head_approval_authors fromisoformat python_str parse entry (some "a1") (some reviews)
    ≡ returned []
unfolding current_head_approval_authors
no_authors = refl

current_head_approval_authors-empty_example : ◌≡◌ {A = List String} [] []
current_head_approval_authors-empty_example =
    current_head_approval_authors-empty fromisoformat python_str parse entry (some "a1")
      (some reviews) [] no_authors

abbrev found : Approval
found = record { submitted_at = 50; id = "7"; author = "ann" }

abbrev one_page : ℕ → Reply LiveReviewList
one_page n = payload reviews

read_pages_total_example :
    read_pull_request_reviews_result (λ n. none) none one_page 1 none ≡ some (ok reviews)
unfolding concat
read_pages_total_example =
    read_pages_total (λ n. none) none one_page 1 (reviews ∷ []) (last refl (omega arith))
      (omega arith)
