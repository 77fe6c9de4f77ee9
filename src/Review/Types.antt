-- ===== src/Review/Types.antt =====
-- scripts/reviewer_bot_core/review_state_types.py
use safety_critical_rust_cod.Common.{ℕ, String, Bool, false, Option, none, List, []}
use safety_critical_rust_cod.Value.{Value, null, Dict, empty}

pub record AcceptedChannelRecord : Type 0 where
  pub semantic_key : String
  pub timestamp : String
  pub actor : Option String
  pub reviewed_head_sha : Option String
  pub source_precedence : ℕ
  pub payload : Dict

pub record DismissalAcceptedRecord : Type 0 where
  pub semantic_key : String
  pub timestamp : String

-- What `accepted` of a channel can hold beside None.
pub data AcceptedRecord : Type 0 where
  event : AcceptedChannelRecord → AcceptedRecord
  dismissal : DismissalAcceptedRecord → AcceptedRecord

pub record ReviewChannelState : Type 0 where
  pub accepted : Option AcceptedRecord
  pub seen_keys : List String

pub record CurrentCycleReviewerHandoff : Type 0 where
  pub source_event_key : String
  pub timestamp : String
  pub actor : String
  pub command_name : String
  pub reviewed_head_sha : Option String

pub record ReviewEntryState : Type 0 where
  pub skipped : List String
  pub current_reviewer : Option String
  pub cycle_started_at : Option String
  pub active_cycle_started_at : Option String
  pub assigned_at : Option String
  pub active_head_sha : Option String
  pub last_reviewer_activity : Option String
  pub transition_warning_sent : Option String
  pub transition_notice_sent_at : Option String
  pub assignment_method : Option String
  pub review_completed_at : Option String
  pub review_completed_by : Option String
  pub review_completion_source : Option String
  pub mandatory_approver_required : Bool
  pub mandatory_approver_label_applied_at : Option String
  pub mandatory_approver_pinged_at : Option String
  pub mandatory_approver_satisfied_by : Option String
  pub mandatory_approver_satisfied_at : Option String
  pub overdue_anchor : Value
  pub reviewer_comment : ReviewChannelState
  pub reviewer_review : ReviewChannelState
  pub contributor_comment : ReviewChannelState
  pub contributor_revision : ReviewChannelState
  pub review_dismissal : ReviewChannelState
  pub current_cycle_completion : Dict
  pub current_cycle_write_approval : Dict
  pub current_cycle_reviewer_handoff : Option CurrentCycleReviewerHandoff

abbrev pub empty_channel : ReviewChannelState
empty_channel = record { accepted = none; seen_keys = [] }

-- `ReviewEntryState()`, with every field at its default.
abbrev pub default_entry : ReviewEntryState
default_entry = record {
  skipped = [];
  current_reviewer = none;
  cycle_started_at = none;
  active_cycle_started_at = none;
  assigned_at = none;
  active_head_sha = none;
  last_reviewer_activity = none;
  transition_warning_sent = none;
  transition_notice_sent_at = none;
  assignment_method = none;
  review_completed_at = none;
  review_completed_by = none;
  review_completion_source = none;
  mandatory_approver_required = false;
  mandatory_approver_label_applied_at = none;
  mandatory_approver_pinged_at = none;
  mandatory_approver_satisfied_by = none;
  mandatory_approver_satisfied_at = none;
  overdue_anchor = null;
  reviewer_comment = empty_channel;
  reviewer_review = empty_channel;
  contributor_comment = empty_channel;
  contributor_revision = empty_channel;
  review_dismissal = empty_channel;
  current_cycle_completion = empty;
  current_cycle_write_approval = empty;
  current_cycle_reviewer_handoff = none;
}

-- The names of the five channels of an entry.
pub data ChannelName : Type 0 where
  reviewer_comment reviewer_review contributor_comment contributor_revision review_dismissal :
      ChannelName
