-- ===== src/Labels.antt =====
-- The status labels of an issue: scripts/reviewer_bot_lib/reviews_projection.py, with the labels of
-- scripts/reviewer_bot_lib/config.py. A set is a list without duplicates; an error is the text of the
-- RuntimeError.
pub mod Deltas
pub mod States
use Prim.Native.String.{compare as compare_texts}
use text.Mathlib.Text.{starts_with}
use safety_critical_rust_cod.Common.{
  ℕ, String, Bool, true, false, not, ◌&&◌, ◌||◌, Option, none, some, List, [], ◌∷◌, ◌==◌, filter,
  if◌then◌else◌, is_in, lower, strip, truthy, append_text, Checked, returned, raised, ◌>>=◌,
}
use safety_critical_rust_cod.Common.Sorting.{sort_by}
use safety_critical_rust_cod.Value.{
  Value, str, list, dict, Values, nil, cons, empty, entry, get, as_text,
}
use safety_critical_rust_cod.Persistence.{persisted_text}
use safety_critical_rust_cod.Response.Decision.{
  ReviewerResponseDecision, ReviewCycleScope, to_reviewer_response_decision,
}

abbrev pub awaiting_reviewer_label : String
awaiting_reviewer_label = "status: awaiting reviewer response"

abbrev pub awaiting_contributor_label : String
awaiting_contributor_label = "status: awaiting contributor response"

abbrev pub awaiting_write_approval_label : String
awaiting_write_approval_label = "status: awaiting write approval"

abbrev pub reassignment_needed_label : String
reassignment_needed_label = "status: reviewer reassignment needed"

-- `set(labels)`
unfoldable pub set_of : List String → List String
set_of [] = []
set_of (label ∷ labels) =
    let rest = set_of labels in if is_in label rest then rest else label ∷ rest

-- `tuple(sorted(set(labels)))`
unfoldable pub sorted_set : List String → List String
unfolding set_of sort_by
sorted_set labels = sort_by compare_texts (set_of labels)

-- `_blocked(reason)`
abbrev pub blocked : {A : Type 0} → String → Checked A
blocked reason = raised (append_text "status_label_projection_blocked:" reason)

-- `label.get("name") if isinstance(label, dict) else label`
abbrev label_name : Value → Option String
label_name (dict label) = as_text (get "name" label)
label_name label = as_text label

abbrev pub is_status_label : String → Bool
is_status_label label = starts_with label "status: "

unfoldable pub status_names : Values → List String
unfolding get
status_names nil = []
status_names (cons label labels) = elim (label_name label) [
  | none ↦ status_names labels
  | some name ↦ let rest = status_names labels in if is_status_label name then name ∷ rest else rest
]

unfoldable pub actual_status_labels_from_snapshot : Value → List String
unfolding get status_names sorted_set
actual_status_labels_from_snapshot (dict issue_snapshot) = elim (get "labels" issue_snapshot) [
  | list labels ↦ sorted_set (status_names labels)
  | _ ↦ []
]
actual_status_labels_from_snapshot _ = []

-- The tests of `desired_status_labels_from_decision`, on the response state.
unfoldable pub desired_status_labels : String → Checked (List String)
unfolding strip
desired_status_labels state =
    if not (truthy (strip state))
    then blocked "missing_response_state"
    else if is_in state ("projection_failed" ∷ "live_read_unavailable" ∷ [])
    then blocked state
    else if state == "awaiting_reviewer_response"
    then returned (awaiting_reviewer_label ∷ [])
    else if state == "awaiting_contributor_response"
    then returned (awaiting_contributor_label ∷ [])
    else if state == "awaiting_write_approval"
    then returned (awaiting_write_approval_label ∷ [])
    else if state == "reviewer_reassignment_needed"
    then returned (reassignment_needed_label ∷ [])
    else if is_in state ("done" ∷ "closed" ∷ "untracked" ∷ "no_current_reviewer" ∷ [])
    then returned []
    else blocked "unknown_response_state"

unfoldable pub desired_status_labels_from_decision :
    ReviewerResponseDecision → Checked (List String)
unfolding desired_status_labels
desired_status_labels_from_decision decision = desired_status_labels decision.response_state

pub record StatusLabelDelta : Type 0 where
  pub actual_status_labels : List String
  pub desired_status_labels : List String
  pub labels_to_add : List String
  pub labels_to_remove : List String

-- The elements of a list that are not in another.
abbrev pub minus : List String → List String → List String
minus labels others = filter (λ label. not (is_in label others)) labels

unfoldable pub status_label_delta : List String → List String → StatusLabelDelta
unfolding sorted_set
status_label_delta actual desired = record {
  actual_status_labels = sorted_set actual;
  desired_status_labels = sorted_set desired;
  labels_to_add = sorted_set (minus desired actual);
  labels_to_remove = sorted_set (minus actual desired);
}

pub record StatusLabelProjectionInput : Type 0 where
  pub issue_number : ℕ
  pub issue_state : Option String
  pub actual_labels : List String
  pub reviewer_response : ReviewerResponseDecision
  pub reviewer_authority_outcome : String
  pub freshness_runtime_epoch : Option String
  pub status_projection_epoch : Option String

-- The result without the metadata, which are the source's name and the decision.
pub record StatusLabelProjectionResult : Type 0 where
  pub issue_number : ℕ
  pub response_state : String
  pub reviewer_authority_outcome : String
  pub suppression_reason : Option String
  pub current_scope_key : Option String
  pub current_scope_basis : Option String
  pub freshness_runtime_epoch : Option String
  pub status_projection_epoch : Option String
  pub delta : StatusLabelDelta

-- `issue_state.strip().lower()`, of a text.
unfoldable pub issue_state_of : Option String → String
unfolding lower strip
issue_state_of none = ""
issue_state_of (some state) = lower (strip state)

abbrev scope_text : (ReviewCycleScope → Option String) → Option ReviewCycleScope → Option String
scope_text field none = none
scope_text field (some scope) = field scope

unfoldable pub projection_of :
    StatusLabelProjectionInput → List String → StatusLabelProjectionResult
unfolding status_label_delta
projection_of input desired =
    let decision = input.reviewer_response in
    record {
      issue_number = input.issue_number;
      response_state = decision.response_state;
      reviewer_authority_outcome = input.reviewer_authority_outcome;
      suppression_reason = decision.suppression_reason;
      current_scope_key = scope_text (λ s. s.scope_key) decision.scope;
      current_scope_basis = scope_text (λ s. s.scope_basis) decision.scope;
      freshness_runtime_epoch = input.freshness_runtime_epoch;
      status_projection_epoch = input.status_projection_epoch;
      delta = status_label_delta (filter is_status_label input.actual_labels) desired;
    }

abbrev pub has_labels : List String → Bool
has_labels [] = false
has_labels (label ∷ labels) = true

unfoldable pub derive_status_label_projection :
    StatusLabelProjectionInput → Checked StatusLabelProjectionResult
unfolding issue_state_of desired_status_labels_from_decision projection_of
derive_status_label_projection input =
    let issue_state = issue_state_of input.issue_state in
    if not (is_in issue_state ("open" ∷ "closed" ∷ []))
    then blocked "invalid_issue_state"
    else (desired_status_labels_from_decision input.reviewer_response >>= λ desired.
        if issue_state == "closed" && has_labels desired
        then blocked "closed_issue_with_nonterminal_response"
        else returned (projection_of input desired))

-- The set of the labels, for a state and a reason.
unfoldable pub desired_labels_from_response_state :
    (Value → String) → String → Option String → Checked (List String)
unfolding desired_status_labels_from_decision set_of
desired_labels_from_response_state python_str state_name reason =
    desired_status_labels_from_decision (
      to_reviewer_response_decision python_str
        (entry "response_state" (str state_name) (entry "reason" (persisted_text reason) empty)))
    >>= λ desired. returned (set_of desired)
