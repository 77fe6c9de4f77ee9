-- ===== src/Response/Decision.antt =====
-- The decision that a response payload is read as, the payload that a response is written as, and the
-- overlay of the reminder cadence: scripts/reviewer_bot_core/reviewer_response_policy.py.
use safety_critical_rust_cod.Common.{
  ℕ, String, Bool, true, false, not, Option, none, some, [], ◌∷◌, ◌==◌, if◌then◌else◌, is_in,
  is_some, or_else,
}
use safety_critical_rust_cod.Value.{
  Value, null, bool, int, str, dict, Dict, empty, entry, get, get_default, put, is_true, as_text,
  as_int, as_dict,
}
use safety_critical_rust_cod.LiveReviews.{nonblank, given}
use safety_critical_rust_cod.Response.{same_text}
use safety_critical_rust_cod.Persistence.{persisted_text, text_of}
use safety_critical_rust_cod.Persistence.Entries.{put_all}

pub record ReviewCycleScope : Type 0 where
  pub issue_number : Option ℕ
  pub reviewer : Option String
  pub head_sha : Option String
  pub cycle_key : Option String
  pub scope_key : Option String
  pub scope_basis : Option String
  pub anchor_timestamp : Option String

abbrev number_or_none : Option ℕ → Value
number_or_none none = null
number_or_none (some n) = int n

abbrev pub dict_or_none : Option Dict → Value
dict_or_none none = null
dict_or_none (some d) = dict d

unfoldable pub scope_to_output : ReviewCycleScope → Dict
scope_to_output s = entry "issue_number" (number_or_none s.issue_number) (
    entry "reviewer" (persisted_text s.reviewer) (
      entry "head_sha" (persisted_text s.head_sha) (
        entry "cycle_key" (persisted_text s.cycle_key) (
          entry "scope_key" (persisted_text s.scope_key) (
            entry "scope_basis" (persisted_text s.scope_basis)
              (entry "anchor_timestamp" (persisted_text s.anchor_timestamp) empty))))))

pub record ReviewerResponseDecision : Type 0 where
  pub response_state : String
  pub reason : Option String
  pub suppression_reason : Option String
  pub scope : Option ReviewCycleScope
  pub current_head_sha : Option String
  pub anchor_timestamp : Option String
  pub reviewer_authority_outcome : Option String
  pub latest_reviewer_activity_kind : Option String
  pub latest_reviewer_activity_timestamp : Option String
  pub latest_contributor_handoff_timestamp : Option String
  pub suppresses_overdue_reminder : Bool
  pub suppresses_reassignment_followup : Bool
  pub completion_state : Option String
  pub write_approval_authority : Option Dict

abbrev scope_output : Option ReviewCycleScope → Value
scope_output none = null
scope_output (some s) = dict (scope_to_output s)

unfoldable pub decision_to_output : ReviewerResponseDecision → Dict
unfolding scope_to_output
decision_to_output d = entry "response_state" (str d.response_state) (
    entry "reason" (persisted_text d.reason) (
      entry "suppression_reason" (persisted_text d.suppression_reason) (
        entry "scope" (scope_output d.scope) (
          entry "current_head_sha" (persisted_text d.current_head_sha) (
            entry "anchor_timestamp" (persisted_text d.anchor_timestamp) (
              entry "reviewer_authority_outcome" (persisted_text d.reviewer_authority_outcome) (
                entry "latest_reviewer_activity_kind"
                  (persisted_text d.latest_reviewer_activity_kind)
                  (entry "latest_reviewer_activity_timestamp"
                    (persisted_text d.latest_reviewer_activity_timestamp)
                    (entry "latest_contributor_handoff_timestamp"
                      (persisted_text d.latest_contributor_handoff_timestamp)
                      (entry "suppresses_overdue_reminder" (bool d.suppresses_overdue_reminder) (
                        entry "suppresses_reassignment_followup"
                          (bool d.suppresses_reassignment_followup)
                          (entry "completion_state" (persisted_text d.completion_state) (
                            entry "write_approval_authority"
                              (dict_or_none d.write_approval_authority) empty)))))))))))))

-- `a or b`
abbrev pub either_value : Value → Value → Value
either_value a b = if is_true a then a else b

-- `payload.get("current_scope_key") or payload.get("scope_key")`
abbrev pub scope_key_of : Dict → Value
scope_key_of payload = either_value (get "current_scope_key" payload) (get "scope_key" payload)

-- The scope that a key gives, if it is a text that is not blank.
unfoldable pub scope_with_key :
    Dict → Option ℕ → Option String → Option String → Option ReviewCycleScope
unfolding get
scope_with_key payload issue_number reviewer none = none
scope_with_key payload issue_number reviewer (some scope_key) = some (record {
  issue_number = issue_number;
  reviewer = reviewer;
  head_sha = as_text (get "current_head_sha" payload);
  cycle_key = as_text (get "cycle_key" payload);
  scope_key = some scope_key;
  scope_basis = as_text (get "current_scope_basis" payload);
  anchor_timestamp = as_text (get "anchor_timestamp" payload);
})

unfoldable pub derive_review_cycle_scope : Dict → Option ℕ → Option String → Option ReviewCycleScope
unfolding get is_true nonblank
derive_review_cycle_scope payload issue_number reviewer =
    scope_with_key payload issue_number reviewer (nonblank (as_text (scope_key_of payload)))

module _ (python_str : Value → String) where
  unfoldable pub response_state_of : Dict → String
  unfolding get is_true
  response_state_of payload = text_of python_str (
      either_value (get "response_state" payload)
        (either_value (get "state" payload) (str "projection_failed")))

  unfoldable pub to_reviewer_response_decision : Dict → ReviewerResponseDecision
  unfolding get get_default is_true
  to_reviewer_response_decision payload =
      let response_state = response_state_of payload in
      record {
        response_state = response_state;
        reason = as_text (get "reason" payload);
        suppression_reason = as_text (get "suppression_reason" payload);
        scope =
            derive_review_cycle_scope payload (as_int (get "issue_number" payload))
              (as_text (get "current_reviewer" payload));
        current_head_sha = as_text (get "current_head_sha" payload);
        anchor_timestamp = as_text (get "anchor_timestamp" payload);
        reviewer_authority_outcome = as_text (get "reviewer_authority_outcome" payload);
        latest_reviewer_activity_kind = as_text (get "latest_reviewer_activity_kind" payload);
        latest_reviewer_activity_timestamp =
            as_text (get "latest_reviewer_activity_timestamp" payload);
        latest_contributor_handoff_timestamp =
            as_text (get "latest_contributor_handoff_timestamp" payload);
        suppresses_overdue_reminder = is_true (
            get_default "suppresses_overdue_reminder"
              (bool (not (response_state == "awaiting_reviewer_response"))) payload);
        suppresses_reassignment_followup = is_true (
            get_default "suppresses_reassignment_followup"
              (bool (is_in response_state ("done" ∷ "closed" ∷ "untracked" ∷ []))) payload);
        completion_state = as_text (get "completion_state" payload);
        write_approval_authority = as_dict (get "write_approval_authority" payload);
      }

  -- `legacy` of `_decorate_response`.
  unfoldable pub legacy_payload : String → Option String → Dict → Dict → Dict
  unfolding put_all
  legacy_payload state reason scope_fields payload = put_all payload (
      put_all scope_fields (
        entry "state" (str state) (
          entry "response_state" (str state) (
            entry "reason" (persisted_text reason)
              (entry "suppression_reason" (persisted_text reason) empty)))))

  unfoldable pub decorate_response : String → Option String → Dict → Dict → Dict
  unfolding get put put_all
  decorate_response state reason scope_fields payload =
      let legacy = legacy_payload state reason scope_fields payload in
      let decision = to_reviewer_response_decision legacy in
      put "current_scope_basis" (get "current_scope_basis" scope_fields) (
        put "current_scope_key" (get "current_scope_key" scope_fields) (
          put "state" (str decision.response_state) (put_all (decision_to_output decision) legacy)))

-- The cadence of reminders, if there is one.
pub record ReminderCadence : Type 0 where
  pub must_project_reassignment_needed : Bool
  pub exhaustion_reason : Option String

abbrev exhausted_scope : Option ReviewCycleScope → Option ReviewCycleScope
exhausted_scope none = none
exhausted_scope (some s) = some (record s { scope_basis = some "reminder_cadence_exhausted" })

abbrev must_project : Option ReminderCadence → Bool
must_project none = false
must_project (some cadence) = cadence.must_project_reassignment_needed

abbrev exhaustion : Option ReminderCadence → String
exhaustion none = "legacy_duplicate_reminders_exhausted"
exhaustion (some cadence) =
    if given cadence.exhaustion_reason
    then or_else cadence.exhaustion_reason ""
    else "legacy_duplicate_reminders_exhausted"

unfoldable pub apply_reminder_cadence_overlay :
    ReviewerResponseDecision → Option ReminderCadence → ReviewerResponseDecision
apply_reminder_cadence_overlay response cadence =
    if not (must_project cadence)
    then response
    else if not (response.response_state == "awaiting_reviewer_response")
    then response
    else record response {
      response_state = "reviewer_reassignment_needed";
      reason = some (exhaustion cadence);
      suppression_reason = some (exhaustion cadence);
      scope = exhausted_scope response.scope;
      suppresses_overdue_reminder = true;
      suppresses_reassignment_followup = true;
    }

pub record ReviewerActivityRecord : Type 0 where
  pub kind : String
  pub actor : Option String
  pub timestamp : Option String
  pub source_event_key : Option String
  pub reviewed_head_sha : Option String
  pub activity_scope : String
  pub payload : Dict

unfoldable pub classify_reviewer_activity_scope : ReviewerActivityRecord → Option String → String
classify_reviewer_activity_scope activity current_head_sha =
    if is_in activity.activity_scope
      ("current_head" ∷ "stale_head" ∷ "issue_thread" ∷ "diagnostic_only" ∷ "unknown" ∷ [])
    then activity.activity_scope
    else if not (is_some activity.reviewed_head_sha)
    then if activity.kind == "reviewer_comment" then "issue_thread" else "diagnostic_only"
    else if same_text activity.reviewed_head_sha current_head_sha
    then "current_head"
    else "stale_head"
