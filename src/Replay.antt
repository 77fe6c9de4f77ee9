-- ===== src/Replay.antt =====
-- What a deferred comment, review or dismissal may still do when it is replayed:
-- scripts/reviewer_bot_core/reconcile_replay_policy.py. A RuntimeError is `none`.
pub mod Reconciled
use safety_critical_rust_cod.Common.{
  ℕ, String, append_text, Bool, true, false, not, ◌&&◌, ◌||◌, Option, none, some, List, [], ◌∷◌,
  ◌==◌, eqb, all, if◌then◌else◌, is_in, truthy, strip, lower, upper, decimal,
}

-- The keys of a classified comment (classify_comment_payload) that the policy reads.
pub record Classified : Type 0 where
  pub comment_class : String
  pub has_non_command_text : Bool
  pub command_count : ℕ

pub record CommentReplayDecision : Type 0 where
  pub record_source_freshness : Bool
  pub replay_comment_command : Bool
  pub mark_reconciled : Bool
  pub clear_gap : Bool
  pub failed_closed_reason : Option String
  pub diagnostic_summary : Option String
  pub failure_kind : Option String
  pub live_classified : Option Classified

pub record ReviewReplayDecision : Type 0 where
  pub accept_reviewer_review : Bool
  pub accept_review_dismissal : Bool
  pub replay_timestamp : Option String
  pub reviewed_head_sha : Option String
  pub actor_login : Option String
  pub mark_reconciled : Bool
  pub clear_gap : Bool
  pub diagnostic_reason : Option String
  pub failure_kind : Option String

pub record DismissedReviewReplayPlan : Type 0 where
  pub record_channel_event : Bool
  pub rebuild_live_approval : Bool
  pub mark_reconciled : Bool
  pub clear_gap : Bool
  pub replay_timestamp : Option String
  pub diagnostic_reason : Option String
  pub failure_kind : Option String

-- What was stored of a comment when it was deferred.
pub record Source : Type 0 where
  pub comment_id : ℕ
  pub comment_class : String
  pub has_non_command_text : Bool
  pub freshness_eligible : Bool

-- What was read of it now.
pub record Live : Type 0 where
  pub comment_found : Bool
  pub body_digest_matches : Bool
  pub classified : Option Classified
  pub failure_kind : Option String

abbrev pub is_command_class : String → Bool
is_command_class c = is_in c ("command_only" ∷ "command_plus_text" ∷ [])

-- `kind or "unavailable"`
abbrev or_unavailable : Option String → String
or_unavailable none = "unavailable"
or_unavailable (some kind) = if truthy kind then kind else "unavailable"

abbrev is_not_found : Option String → Bool
is_not_found none = false
is_not_found (some kind) = kind == "not_found"

abbrev concat : List String → String
concat [] = ""
concat (s ∷ ss) = append_text s (concat ss)

abbrev same_truth : Bool → Bool → Bool
same_truth true b = b
same_truth false b = not b

module _ (runbook_path : String) where
  deferred : Source → List String → String
  unfolding decimal
  deferred source rest =
      concat
        ("Deferred comment " ∷ decimal source.comment_id ∷ concat rest ∷ runbook_path ∷ "." ∷ [])

  fail_closed : Source → Option String → List String → CommentReplayDecision
  unfolding deferred
  fail_closed source failure_kind summary = record {
    record_source_freshness = source.freshness_eligible;
    replay_comment_command = false;
    mark_reconciled = false;
    clear_gap = false;
    failed_closed_reason = some "reconcile_failed_closed";
    diagnostic_summary = some (deferred source summary);
    failure_kind = failure_kind;
    live_classified = none;
  }

  missing_summary : Option String → List String
  missing_summary failure_kind =
      if is_not_found failure_kind
      then " is no longer visible; source-time freshness only may be preserved. See " ∷ []
      else " could not be validated from live GitHub data ("
        ∷ or_unavailable failure_kind
        ∷ "); replay suppressed. See "
        ∷ []

  unfoldable compare_classified : Source → Classified → CommentReplayDecision
  unfolding fail_closed
  compare_classified source live =
      if not (live.comment_class == source.comment_class)
      then fail_closed source none (
          " classification changed from " ∷ source.comment_class ∷ " to " ∷ live.comment_class
          ∷ "; replay suppressed. See " ∷ [])
      else if not (same_truth live.has_non_command_text source.has_non_command_text)
      then fail_closed source none
          (" non-command text classification drifted; replay suppressed. See " ∷ [])
      else if is_command_class source.comment_class && not (eqb live.command_count 1)
      then fail_closed source none
          (" no longer resolves to exactly one command; replay suppressed. See " ∷ [])
      else record {
        record_source_freshness = source.freshness_eligible;
        replay_comment_command = is_command_class source.comment_class;
        mark_reconciled = true;
        clear_gap = true;
        failed_closed_reason = none;
        diagnostic_summary = none;
        failure_kind = none;
        live_classified = some live;
      }

  unfoldable pub decide_comment_replay : Source → Live → Option CommentReplayDecision
  unfolding fail_closed missing_summary compare_classified
  decide_comment_replay source live =
      if not live.comment_found
      then some (fail_closed source live.failure_kind (missing_summary live.failure_kind))
      else if not live.body_digest_matches
      then some (
          fail_closed source none (" body digest changed; command execution suppressed. See " ∷ []))
      else elim live.classified [ none ↦ none | some c ↦ some (compare_classified source c) ]

-- The arguments of decide_review_submitted_replay that it reads; None is `none`.
pub record Submitted : Type 0 where
  pub actor_login : Option String
  pub current_reviewer : Option String
  pub live_commit_id : Option String
  pub live_submitted_at : Option String
  pub current_head_sha : Option String
  pub live_state : Option String
  pub live_visibility_status : Option String
  pub replay_allowed : Bool

-- `isinstance(value, str) and value.strip()`
abbrev pub is_present : Option String → Bool
is_present none = false
is_present (some s) = truthy (strip s)

abbrev pub login_key : Option String → String
login_key none = ""
login_key (some s) = lower (strip s)

abbrev pub is_allowed_state : Option String → Bool
is_allowed_state none = false
is_allowed_state (some s) = is_in (upper s) ("APPROVED" ∷ "COMMENTED" ∷ "CHANGES_REQUESTED" ∷ [])

abbrev pub is_visible : Option String → Bool
is_visible none = false
is_visible (some status) = status == "visible"

abbrev pub same_sha : Option String → Option String → Bool
same_sha (some a) (some b) = a == b
same_sha _ _ = false

abbrev pub actor_matches : Submitted → Bool
actor_matches s =
    let actor = login_key s.actor_login in
    let reviewer = login_key s.current_reviewer in
    truthy actor && (truthy reviewer && actor == reviewer)

abbrev pub inputs_available : Submitted → Bool
inputs_available s = all is_present (
    s.actor_login ∷ s.current_reviewer ∷ s.live_commit_id ∷ s.live_submitted_at ∷ s.current_head_sha
    ∷ [])

abbrev reject_review : Submitted → String → String → ReviewReplayDecision
reject_review s reason failure_kind = record {
  accept_reviewer_review = false;
  accept_review_dismissal = false;
  replay_timestamp = none;
  reviewed_head_sha = none;
  actor_login = s.actor_login;
  mark_reconciled = false;
  clear_gap = false;
  diagnostic_reason = some reason;
  failure_kind = some failure_kind;
}

unfoldable pub decide_review_submitted_replay : Submitted → ReviewReplayDecision
unfolding strip lower upper
decide_review_submitted_replay s =
    let allowed = is_allowed_state s.live_state in
    let head_matches = same_sha s.live_commit_id s.current_head_sha in
    let matches = actor_matches s in
    if not s.replay_allowed
    then reject_review s "submitted_review_replay_not_admitted" "replay_not_admitted"
    else if not (inputs_available s)
    then reject_review s "submitted_review_semantic_inputs_missing" "semantic_inputs_missing"
    else if not (is_visible s.live_visibility_status)
        || not allowed
        || not head_matches
        || not matches
    then reject_review s "submitted_review_live_observation_untrusted" (
        if not head_matches
        then "stale_head"
        else if not allowed
        then "unsupported_review_state"
        else if not matches
        then "actor_mismatch"
        else "live_review_untrusted")
    else record {
      accept_reviewer_review = true;
      accept_review_dismissal = false;
      replay_timestamp = s.live_submitted_at;
      reviewed_head_sha = s.live_commit_id;
      actor_login = s.actor_login;
      mark_reconciled = true;
      clear_gap = true;
      diagnostic_reason = none;
      failure_kind = none;
    }

abbrev pub decide_review_dismissed_replay : String → ReviewReplayDecision
decide_review_dismissed_replay timestamp = record {
  accept_reviewer_review = false;
  accept_review_dismissal = true;
  replay_timestamp = some timestamp;
  reviewed_head_sha = none;
  actor_login = none;
  mark_reconciled = true;
  clear_gap = true;
  diagnostic_reason = none;
  failure_kind = none;
}

unfoldable pub decide_review_dismissed_replay_plan :
    Option String → Bool → Bool → DismissedReviewReplayPlan
unfolding strip
decide_review_dismissed_replay_plan dismissal_timestamp dismissal_exact live_pr_readable =
    if not live_pr_readable
    then record {
      record_channel_event = false;
      rebuild_live_approval = false;
      mark_reconciled = false;
      clear_gap = false;
      replay_timestamp = none;
      diagnostic_reason = some "live_pr_unreadable";
      failure_kind = some "live_pr_unreadable";
    }
    else if not dismissal_exact || not (is_present dismissal_timestamp)
    then record {
      record_channel_event = false;
      rebuild_live_approval = true;
      mark_reconciled = false;
      clear_gap = false;
      replay_timestamp = none;
      diagnostic_reason = some "dismissal_time_not_exact";
      failure_kind = some "dismissal_time_unavailable";
    }
    else record {
      record_channel_event = true;
      rebuild_live_approval = true;
      mark_reconciled = true;
      clear_gap = true;
      replay_timestamp = dismissal_timestamp;
      diagnostic_reason = none;
      failure_kind = none;
    }
