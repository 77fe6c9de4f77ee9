-- ===== src/Response/Answers.antt =====
-- What _decorate_response of scripts/reviewer_bot_core/reviewer_response_policy.py is called with, and the
-- choice of the record that counts.
use safety_critical_rust_cod.Common.{String, Option, none, some, if◌then◌else◌}
use safety_critical_rust_cod.Timestamps.{DateTime}
use safety_critical_rust_cod.Approvals.{WriteApprovalAuthorityDecision}
use safety_critical_rust_cod.Response.{ResponseRecord, ScopeFields, is_newer, is_later}

-- The arguments of `_decorate_response`; a payload key that is not given is `none`.
pub record Response : Type 0 where
  pub state : String
  pub reason : Option String
  pub scope_fields : ScopeFields
  pub anchor_timestamp : Option String
  pub current_head_sha : Option String
  pub reviewer_comment : Option ResponseRecord
  pub reviewer_review : Option ResponseRecord
  pub current_cycle_reviewer_handoff : Option ResponseRecord
  pub contributor_comment : Option ResponseRecord
  pub contributor_handoff : Option ResponseRecord
  pub write_approval_authority : Option WriteApprovalAuthorityDecision

-- A response without a payload but perhaps an authority.
abbrev pub bare_response :
    String → String → ScopeFields → Option WriteApprovalAuthorityDecision → Response
bare_response state reason scope authority = record {
  state = state;
  reason = some reason;
  scope_fields = scope;
  anchor_timestamp = none;
  current_head_sha = none;
  reviewer_comment = none;
  reviewer_review = none;
  current_cycle_reviewer_handoff = none;
  contributor_comment = none;
  contributor_handoff = none;
  write_approval_authority = authority;
}

abbrev pub timestamp_of : Option ResponseRecord → Option String
timestamp_of none = none
timestamp_of (some r) = some r.timestamp

module _ (fromisoformat : String → Option DateTime) where
  -- A handoff that the contributor has not answered since.
  abbrev pub open_handoff : Option ResponseRecord → Option ResponseRecord → Option ResponseRecord
  open_handoff contributor handoff =
      if is_newer fromisoformat contributor handoff then none else handoff

  -- The later of two records, the second if they are alike.
  abbrev pub later_of : Option ResponseRecord → Option ResponseRecord → Option ResponseRecord
  later_of candidate current =
      if is_later fromisoformat candidate current then candidate else current
