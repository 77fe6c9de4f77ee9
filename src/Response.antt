-- ===== src/Response.antt =====
-- Whose turn it is in a review: scripts/reviewer_bot_core/reviewer_response_policy.py. The records that
-- are compared, the boundary and the scope of the cycle, and the handoffs; Response/Derived has the
-- response itself. The entry is in its typed form; of an accepted record the code reads all but the
-- payload, which it passes on.
pub mod Answers
pub mod Issues
pub mod Pulls
pub mod Derived
pub mod Computed
pub mod Done
pub mod Granted
pub mod Turns
pub mod Hidden
pub mod Decision
pub mod Decorated
use Prim.Native.Nat.{Ordering, compare as compare_numbers}
use Prim.Native.String.{compare as compare_texts, then as first_of_two}
use text.Mathlib.Text.{starts_with}
use safety_critical_rust_cod.Common.{
  ℕ, String, Bool, true, false, not, ◌&&◌, ◌||◌, Option, none, some, ◌==◌, ltb, if◌then◌else◌,
  or_else, truthy, lower, append_text, is_some,
}
use safety_critical_rust_cod.Timestamps.{DateTime, datetime_min, parse_github_timestamp}
use safety_critical_rust_cod.Review.Types.{
  AcceptedRecord, event, dismissal, ReviewChannelState, CurrentCycleReviewerHandoff,
  ReviewEntryState,
}
use safety_critical_rust_cod.LiveReviews.{nonblank, given, same_lowered}

pub record ResponseRecord : Type 0 where
  pub semantic_key : String
  pub timestamp : String
  pub actor : Option String
  pub reviewed_head_sha : Option String
  pub source_precedence : ℕ

-- An accepted record as the policy reads it: a missing key gives None, or the rank 0.
unfoldable pub record_of : AcceptedRecord → ResponseRecord
record_of (event r) = record {
  semantic_key = r.semantic_key;
  timestamp = r.timestamp;
  actor = r.actor;
  reviewed_head_sha = r.reviewed_head_sha;
  source_precedence = r.source_precedence;
}
record_of (dismissal r) = record {
  semantic_key = r.semantic_key;
  timestamp = r.timestamp;
  actor = none;
  reviewed_head_sha = none;
  source_precedence = 0;
}

-- `review_data.get(name, {}).get("accepted")`
unfoldable pub accepted_of : ReviewChannelState → Option ResponseRecord
unfolding record_of
accepted_of channel = elim (channel.accepted) [ none ↦ none | some a ↦ some (record_of a) ]

-- A text that is not empty, with the name of its field.
abbrev named : String → Option String → Option (String × String)
named field none = none
named field (some value) = if truthy value then some (field, value) else none

abbrev or_next : Option (String × String) → Option (String × String) → Option (String × String)
or_next none b = b
or_next (some a) b = some a

-- `_initial_cycle_boundary`: the field and its value.
unfoldable pub initial_cycle_boundary : ReviewEntryState → Option (String × String)
initial_cycle_boundary entry =
    or_next (named "active_cycle_started_at" entry.active_cycle_started_at) (
      or_next (named "cycle_started_at" entry.cycle_started_at)
        (named "assigned_at" entry.assigned_at))

abbrev pub boundary_value : Option (String × String) → Option String
boundary_value none = none
boundary_value (some (field, value)) = some value

abbrev boundary_field : Option (String × String) → Option String
boundary_field none = none
boundary_field (some (field, value)) = some field

-- `_initial_reviewer_anchor`
unfoldable pub initial_reviewer_anchor : ReviewEntryState → Option String
unfolding initial_cycle_boundary
initial_reviewer_anchor entry = boundary_value (initial_cycle_boundary entry)

-- `_scope_basis_and_anchor`
unfoldable pub scope_basis_and_anchor :
    ReviewEntryState → Option ResponseRecord → Option String × Option String
unfolding initial_cycle_boundary
scope_basis_and_anchor entry none =
    (boundary_field (initial_cycle_boundary entry), boundary_value (initial_cycle_boundary entry))
scope_basis_and_anchor entry (some handoff) = (
  some (
      if starts_with handoff.semantic_key "pull_request_"
      then "contributor_revision"
      else "contributor_comment"),
  if truthy handoff.timestamp then some handoff.timestamp else none,
)

-- `_scope_value`
abbrev scope_value : Option String → String
scope_value value = if given value then or_else value "" else "none"

-- `_build_current_scope_key`
unfoldable pub build_current_scope_key :
    Option String → Option String → Option String → Option String → Option String
unfolding nonblank
build_current_scope_key current_reviewer current_head cycle_boundary anchor_timestamp =
    elim (nonblank current_reviewer) [
      | none ↦ none
      | some reviewer ↦ some (
          append_text "reviewer=" (
            append_text reviewer (
              append_text "|head=" (
                append_text (scope_value current_head) (
                  append_text "|cycle=" (
                    append_text (scope_value cycle_boundary)
                      (append_text "|anchor=" (scope_value anchor_timestamp))))))))
    ]

pub record ScopeFields : Type 0 where
  pub current_scope_basis : Option String
  pub current_scope_key : Option String

abbrev pub no_scope : ScopeFields
no_scope = record { current_scope_basis = none; current_scope_key = none }

-- `_current_scope_fields`, which is only called without an alternate approval.
unfoldable pub current_scope_fields :
    ReviewEntryState → Option String → Option String → Option ResponseRecord → ScopeFields
unfolding initial_cycle_boundary scope_basis_and_anchor build_current_scope_key
current_scope_fields entry current_reviewer current_head contributor_handoff =
    let basis_and_anchor = scope_basis_and_anchor entry contributor_handoff in
    record {
      current_scope_basis = basis_and_anchor.0;
      current_scope_key =
          build_current_scope_key current_reviewer current_head
            (boundary_value (initial_cycle_boundary entry)) basis_and_anchor.1;
    }

-- `_record_for_current_reviewer`
unfoldable pub record_for_current_reviewer : Option ResponseRecord → String → Option ResponseRecord
unfolding nonblank same_lowered
record_for_current_reviewer none current_reviewer = none
record_for_current_reviewer (some r) current_reviewer =
    if is_some (nonblank r.actor) && not (same_lowered r.actor (some current_reviewer))
    then none
    else some r

-- `a == b` of two texts.
abbrev pub same_text : Option String → Option String → Bool
same_text (some a) (some b) = a == b
same_text _ _ = false

-- `_contributor_revision_handoff_record`
unfoldable pub contributor_revision_handoff_record :
    ReviewEntryState → Option String → Option ResponseRecord → Option ResponseRecord
unfolding accepted_of
contributor_revision_handoff_record entry current_head reviewer_review =
    elim (accepted_of entry.contributor_revision) [
      | none ↦ none
      | some revision ↦
          let reviewer_head : Option String = elim reviewer_review [
            | none ↦ none
            | some r ↦ r.reviewed_head_sha
          ] in
          if not (same_text revision.reviewed_head_sha current_head)
          then none
          else if same_text reviewer_head current_head
          then none
          else some revision
    ]

module _ (fromisoformat : String → Option DateTime) where
  -- `_record_timestamp(...) or datetime.min`, of a timestamp that is a text.
  abbrev pub time_of : String → ℕ
  time_of timestamp = or_else (parse_github_timestamp fromisoformat (some timestamp)) datetime_min

  abbrev pub record_time : Option ResponseRecord → ℕ
  record_time none = datetime_min
  record_time (some r) = time_of r.timestamp

  abbrev record_key : Option ResponseRecord → String
  record_key none = ""
  record_key (some r) = r.semantic_key

  -- `_compare_cross_channel_conversation`; the answers 1, -1 and 0 are `gt`, `lt` and `eq`.
  unfoldable pub compare_cross_channel_conversation :
      Option ResponseRecord → Option ResponseRecord → Ordering
  compare_cross_channel_conversation contributor reviewer =
      first_of_two (compare_numbers (record_time contributor) (record_time reviewer))
        (compare_texts (record_key contributor) (record_key reviewer))

  -- `reviewer_review_helpers.compare_records`
  unfoldable pub compare_response_records : Option ResponseRecord → Option ResponseRecord → Ordering
  compare_response_records left none = Ordering.gt
  compare_response_records none (some right) = Ordering.lt
  compare_response_records (some left) (some right) =
      first_of_two (compare_numbers (time_of left.timestamp) (time_of right.timestamp)) (
        first_of_two (compare_numbers left.source_precedence right.source_precedence)
          (compare_texts left.semantic_key right.semantic_key))

  -- `_compare_cross_channel_conversation(...) > 0`
  abbrev pub is_newer : Option ResponseRecord → Option ResponseRecord → Bool
  is_newer contributor reviewer = elim (compare_cross_channel_conversation contributor reviewer) [
    | Ordering.gt ↦ true
    | _ ↦ false
  ]

  -- The later of two records: the candidate, if `compare_records(candidate, current) > 0`.
  abbrev pub is_later : Option ResponseRecord → Option ResponseRecord → Bool
  is_later candidate current = elim (compare_response_records candidate current) [
    | Ordering.gt ↦ true
    | _ ↦ false
  ]

  -- The head that a handoff names fits: the current one of a pull request, none of an issue.
  abbrev head_fits : Bool → Option String → Option String → Bool
  head_fits true reviewed current_head = same_text reviewed current_head
  head_fits false reviewed current_head = not (is_some reviewed)

  -- `handoff_time < cycle_boundary_time`
  abbrev before_boundary : ℕ → Option ℕ → Bool
  before_boundary time none = false
  before_boundary time (some boundary) = ltb time boundary

  abbrev handoff_record : CurrentCycleReviewerHandoff → ResponseRecord
  handoff_record handoff = record {
    semantic_key = handoff.source_event_key;
    timestamp = handoff.timestamp;
    actor = some handoff.actor;
    reviewed_head_sha = handoff.reviewed_head_sha;
    source_precedence = 1;
  }

  -- The guards of `_current_cycle_reviewer_handoff_record`.
  unfoldable pub handoff_counts :
      ReviewEntryState → CurrentCycleReviewerHandoff → String → Option String → Bool → Bool
  unfolding nonblank lower initial_cycle_boundary parse_github_timestamp
  handoff_counts entry handoff current_reviewer current_head issue_is_pull_request =
      handoff.command_name == "feedback"
      && lower handoff.actor == lower current_reviewer
      && is_some (nonblank (some handoff.timestamp))
      && is_some (nonblank (some handoff.source_event_key))
      && elim (parse_github_timestamp fromisoformat (some handoff.timestamp)) [
        | none ↦ false
        | some time ↦ not (
            before_boundary time (
              parse_github_timestamp fromisoformat (boundary_value (initial_cycle_boundary entry))))
      ]
      && head_fits issue_is_pull_request handoff.reviewed_head_sha current_head

  -- `_current_cycle_reviewer_handoff_record`
  unfoldable pub current_cycle_reviewer_handoff_record :
      ReviewEntryState → String → Option String → Bool → Option ResponseRecord
  unfolding handoff_counts
  current_cycle_reviewer_handoff_record entry current_reviewer current_head issue_is_pull_request =
      elim (entry.current_cycle_reviewer_handoff) [
        | none ↦ none
        | some handoff ↦
            if handoff_counts entry handoff current_reviewer current_head issue_is_pull_request
            then some (handoff_record handoff)
            else none
      ]
