-- ===== src/Examples/Responses.antt =====
-- The persisted form of entries, the response to a review and its labels:
-- scripts/reviewer_bot_core/state_adapters.py, scripts/reviewer_bot_core/reviewer_response_policy.py and
-- scripts/reviewer_bot_lib/reviews_projection.py.
use safety_critical_rust_cod.Common.{
  ℕ, ◌≡◌, refl, ◌<◌, String, true, false, ◌&&◌, ◌==◌, Option, none, some, List, [], ◌∷◌, returned,
  arith, Checked, is_in, if◌then◌else◌,
}
use safety_critical_rust_cod.Value.{
  Value, null, int, str, list, dict, nil, cons, Dict, empty, entry, get, is_true,
}
use safety_critical_rust_cod.Timestamps.{DateTime, naive, parse_github_timestamp}
use safety_critical_rust_cod.Review.Types.{ReviewEntryState, default_entry}
use safety_critical_rust_cod.LiveReviews.{LiveReview, text, user, nonblank}
use safety_critical_rust_cod.LiveReviews.Reads.{ok, PullRequest, LiveReviewList}
use safety_critical_rust_cod.Approvals.{
  derive_completion_authority_decision, derive_write_approval_authority_decision,
}
use safety_critical_rust_cod.Approvals.Status.{
  assigned_classification, result_of, permission_evidence, compute_pr_approval_state_result,
}
use safety_critical_rust_cod.Persistence.Entries.{
  entry_of_dict, review_entry_from_persisted, apply_local_state_core_to_persisted,
}
use safety_critical_rust_cod.Persistence.{
  channel_from_persisted, texts_of, reviewer_handoff_from_persisted,
}
use safety_critical_rust_cod.Persistence.RoundTrip.{read-written}
use safety_critical_rust_cod.Persistence.Sidecars.{ensure_sidecar_subtree}
use safety_critical_rust_cod.Persistence.Legacy.{ensured_twice}
use safety_critical_rust_cod.Response.{
  ResponseRecord, record_time, compare_cross_channel_conversation, compare_response_records,
  contributor_revision_handoff_record, current_cycle_reviewer_handoff_record,
}
use safety_critical_rust_cod.Response.Answers.{Response}
use safety_critical_rust_cod.Response.Pulls.{
  derive_pull_response, judge_pull, pull_outcome, respond_pull, judge_approvals, respond_approval,
  approval_outcome,
}
use safety_critical_rust_cod.Response.Derived.{derive_reviewer_response_state}
use safety_critical_rust_cod.Response.Computed.{compute_reviewer_response_state}
use safety_critical_rust_cod.Response.Granted.{DoneBy, done-Granted}
use safety_critical_rust_cod.Response.Turns.{pull_turn, issue_turn}
use safety_critical_rust_cod.Response.Decision.{
  legacy_payload, decorate_response, to_reviewer_response_decision, response_state_of,
}
use safety_critical_rust_cod.Response.Decorated.{decision-decorate}
use safety_critical_rust_cod.Labels.{
  desired_status_labels_from_decision, derive_status_label_projection, StatusLabelProjectionInput,
  StatusLabelProjectionResult, issue_state_of, has_labels, projection_of,
}
use safety_critical_rust_cod.Labels.Deltas.{has_after, status_labels, projection-desired}
use safety_critical_rust_cod.Labels.States.{Shows, response-labelled}

abbrev python_str : Value → String
python_str v = "None"

abbrev python_int : String → Option ℕ
python_int s = none

abbrev handoff_dict : Dict
handoff_dict = entry "source_event_key" (str "issue_comment:4") (
    entry "timestamp" (str "2026-01-05") (
      entry "actor" (str "ann")
        (entry "command_name" (str "feedback") (entry "reviewed_head_sha" (str "a1") empty))))

abbrev persisted : Dict
persisted = entry "current_reviewer" (str "ann") (
    entry "sidecars" null (
      entry "current_cycle_reviewer_handoff" (dict handoff_dict) (
        entry "reviewer_review" (dict (entry "seen_keys" (list (cons (str "k") nil)) empty))
          empty)))

abbrev typed : Checked (Option ReviewEntryState) → ReviewEntryState
typed (returned (some e)) = e
typed _ = default_entry

abbrev typed_entry : ReviewEntryState
typed_entry = typed (review_entry_from_persisted python_str python_int (dict persisted))

read_now :
    review_entry_from_persisted python_str python_int (dict persisted) ≡ returned (some typed_entry)
unfolding review_entry_from_persisted entry_of_dict channel_from_persisted texts_of
    reviewer_handoff_from_persisted
read_now = refl

read-written_example :
    review_entry_from_persisted python_str python_int
      (dict (apply_local_state_core_to_persisted persisted typed_entry))
    ≡ returned (some typed_entry)
read-written_example =
    read-written python_str python_int (dict persisted) persisted typed_entry read_now

ensured_twice_example :
    ensure_sidecar_subtree python_str (ensure_sidecar_subtree python_str persisted)
    ≡ ensure_sidecar_subtree python_str persisted
ensured_twice_example = ensured_twice python_str (λ v. refl) persisted

abbrev fromisoformat : String → Option DateTime
fromisoformat s = if s == "2026-01-05" then some (naive 50) else some (naive 90)

abbrev isoformat : ℕ → String
isoformat t = "2026-01-05"

abbrev parse : Option String → Option ℕ
parse none = none
parse (some s) = some 50

abbrev may : String → String → String
may login permission = "granted"

abbrev assigned_entry : ReviewEntryState
assigned_entry = record default_entry {
  assigned_at = some "2026-01-05";
  current_reviewer = some "Ann";
}

abbrev pull_request : PullRequest
pull_request = record { head_sha = str "a1" }

abbrev approval : LiveReview
approval = record {
  id = some (int 7);
  state = some (str "approved");
  submitted_at = text "2026-01-06";
  commit_id = str "a1";
  user = user (str "ann");
}

abbrev reviews : LiveReviewList
reviews = some approval ∷ []

abbrev computed_response : Checked Response
computed_response =
    compute_reviewer_response_state fromisoformat python_str parse isoformat may 3 assigned_entry
      (some true) (ok pull_request) (ok reviews)

abbrev unknown : Response
unknown =
    derive_reviewer_response_state fromisoformat default_entry false none none none none false none
      [] none

abbrev response_in : Checked Response → Response
response_in (returned r) = r
response_in _ = unknown

computed_now : computed_response ≡ returned (response_in computed_response)
unfolding compute_reviewer_response_state compute_pr_approval_state_result
computed_now = refl

is_done : (response_in computed_response).state ≡ "done"
unfolding compute_reviewer_response_state compute_pr_approval_state_result
    derive_completion_authority_decision assigned_classification result_of
    derive_write_approval_authority_decision permission_evidence derive_reviewer_response_state
    derive_pull_response judge_pull pull_outcome respond_pull judge_approvals respond_approval
    approval_outcome compare_cross_channel_conversation compare_response_records
    contributor_revision_handoff_record current_cycle_reviewer_handoff_record
is_done = refl

done-Granted_example :
    DoneBy fromisoformat isoformat python_str parse may 3 assigned_entry pull_request reviews
done-Granted_example =
    done-Granted fromisoformat isoformat python_str parse may 3 assigned_entry (ok pull_request)
      (ok reviews) (response_in computed_response) computed_now is_done

abbrev record_at : String → ResponseRecord
record_at day = record {
  semantic_key = "issue_comment:9";
  timestamp = day;
  actor = some "ann";
  reviewed_head_sha = none;
  source_precedence = 0;
}

reviewer_known : nonblank (some "Ann") ≡ some "Ann"
unfolding nonblank
reviewer_known = refl

head_known : nonblank (some "a1") ≡ some "a1"
unfolding nonblank
head_known = refl

abbrev time : Option ResponseRecord → ℕ
time = record_time fromisoformat

later_day : time (some (record_at "2026-01-05")) < time (some (record_at "2026-01-09"))
unfolding parse_github_timestamp
later_day = omega arith

since_day : time none < time (some (record_at "2026-01-09"))
unfolding parse_github_timestamp
since_day = omega arith

no_pull_handoff :
    time (current_cycle_reviewer_handoff_record fromisoformat assigned_entry "Ann" (some "a1") true)
    < time (some (record_at "2026-01-09"))
unfolding parse_github_timestamp current_cycle_reviewer_handoff_record
no_pull_handoff = omega arith

no_issue_handoff :
    time (current_cycle_reviewer_handoff_record fromisoformat assigned_entry "Ann" none false)
    < time (some (record_at "2026-01-09"))
unfolding parse_github_timestamp current_cycle_reviewer_handoff_record
no_issue_handoff = omega arith

pull_turn_example :
    (derive_reviewer_response_state fromisoformat assigned_entry true
      (some "a1")
      none
      (some (record_at "2026-01-05"))
      (some (record_at "2026-01-09"))
      true
      none
      []
      none).state
    ≡ "awaiting_reviewer_response"
pull_turn_example =
    pull_turn fromisoformat assigned_entry "Ann" "a1" none (some (record_at "2026-01-05"))
      (some (record_at "2026-01-09")) none true none [] reviewer_known head_known later_day
      no_pull_handoff

not_completed : is_true (get "completed" assigned_entry.current_cycle_completion) ≡ false
unfolding is_true get
not_completed = refl

issue_turn_example :
    (derive_reviewer_response_state fromisoformat assigned_entry false none
      (some (record_at "2026-01-05"))
      none
      (some (record_at "2026-01-09"))
      false
      none
      []
      none).state
    ≡ "awaiting_reviewer_response"
issue_turn_example =
    issue_turn fromisoformat assigned_entry "Ann" (some (record_at "2026-01-05")) none
      (some (record_at "2026-01-09")) reviewer_known not_completed refl later_day since_day
      no_issue_handoff

abbrev scope_dict : Dict
scope_dict =
    entry "current_scope_basis" (str "assigned_at")
      (entry "current_scope_key" (str "reviewer=Ann") empty)

abbrev payload_dict : Dict
payload_dict = entry "anchor_timestamp" (str "2026-01-05") empty

key_kept :
    get "current_scope_key" (legacy_payload python_str "done" none scope_dict payload_dict)
    ≡ get "current_scope_key" scope_dict
unfolding legacy_payload get
key_kept = refl

basis_kept :
    get "current_scope_basis" (legacy_payload python_str "done" none scope_dict payload_dict)
    ≡ get "current_scope_basis" scope_dict
unfolding legacy_payload get
basis_kept = refl

decision-decorate_example :
    to_reviewer_response_decision python_str
      (decorate_response python_str "done" none scope_dict payload_dict)
    ≡ to_reviewer_response_decision python_str
        (legacy_payload python_str "done" none scope_dict payload_dict)
decision-decorate_example =
    decision-decorate python_str (λ v. refl) "done" none scope_dict payload_dict key_kept basis_kept

response-labelled_example :
    Shows
      (derive_reviewer_response_state fromisoformat default_entry false none none none none false
        none [] none).state
response-labelled_example =
    response-labelled fromisoformat default_entry false none none none none none false none []

abbrev input : StatusLabelProjectionInput
input = record {
  issue_number = 3;
  issue_state = some "Open";
  actual_labels = "status: awaiting write approval" ∷ "bug" ∷ [];
  reviewer_response =
      to_reviewer_response_decision python_str
        (entry "response_state" (str "awaiting_reviewer_response") empty);
  reviewer_authority_outcome = "known";
  freshness_runtime_epoch = none;
  status_projection_epoch = none;
}

abbrev projection : StatusLabelProjectionResult
projection = projection_of input ("status: awaiting reviewer response" ∷ [])

projected_now : derive_status_label_projection input ≡ returned projection
unfolding derive_status_label_projection to_reviewer_response_decision response_state_of
projected_now = refl

projection-desired_example :
    (desired : List String) × (desired_status_labels_from_decision input.reviewer_response
      ≡ returned desired)
    × ((label : String)
        → has_after label (status_labels input) projection.delta ≡ is_in label desired)
    × ((issue_state_of (some "Open") == "closed" && has_labels desired) ≡ false)
projection-desired_example = projection-desired input projection projected_now
