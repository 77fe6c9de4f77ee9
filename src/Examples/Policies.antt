-- ===== src/Examples/Policies.antt =====
-- Freshness and replay of comments: scripts/reviewer_bot_core/comment_freshness_policy.py and
-- scripts/reviewer_bot_core/reconcile_replay_policy.py.
use safety_critical_rust_cod.Common.{
  ◌≡◌, ◌≢◌, ◌↔◌, refl, true, false, none, some, ◌&&◌, lower, strip,
}
use safety_critical_rust_cod.Review.{
  default_entry, reviewer_comment, contributor_comment, reviewer_review, channel,
}
use safety_critical_rust_cod.Freshness.{
  CommentFreshnessEvent, Acceptance, accept_event, same_login, build_comment_freshness_event,
  decide_comment_freshness_event, decide_review_comment, record_conversation_freshness,
}
use safety_critical_rust_cod.Freshness
use safety_critical_rust_cod.Freshness.Accepted.{by_author}
use safety_critical_rust_cod.Freshness.Applied.{pull_request_comment}
use safety_critical_rust_cod.Replay.{
  Classified, CommentReplayDecision, Source, Live, Submitted, decide_comment_replay,
  decide_review_submitted_replay, is_command_class,
}
use safety_critical_rust_cod.Replay.Reconciled.{IsUnchanged, reconciled_iff, decision_consistent}
use safety_critical_rust_cod.Examples.Reviews.{fromisoformat}

-- A comment of the reviewer, `ann`, on a pull request of `ben`.
abbrev request : Freshness.Request
request = record {
  issue_number = 7;
  is_pull_request = true;
  issue_author = "ben";
  comment_id = 42;
  comment_author = "ann";
  comment_created_at = "2026-01-05";
  comment_source_kind = "issue_comment";
  comment_source_event_key = "issue_comment:42";
  reviewed_head_sha = none;
}

-- The same on an issue.
abbrev issue_event : CommentFreshnessEvent
issue_event = record {
  issue_number = 7;
  is_pull_request = false;
  source_event_key = "issue_comment:42";
  comment_id = 42;
  actor = "ann";
  created_at = "2026-01-05";
  channel_kind = "issue_thread";
  source_kind = "issue_comment";
  reviewed_head_sha = none;
  issue_author = "ben";
  current_reviewer = some "Ann";
}

abbrev acceptance : Acceptance
acceptance = record {
  channel_name = reviewer_comment;
  semantic_key = "issue_comment:42";
  timestamp = "2026-01-05";
  actor = "ann";
  update_reviewer_activity = true;
}

issue_event_accepted : decide_comment_freshness_event issue_event none ≡ accept_event acceptance
unfolding decide_comment_freshness_event same_login
issue_event_accepted = refl

abbrev author_event : CommentFreshnessEvent
author_event = record issue_event { actor = "Ben" }

author_wrote : by_author author_event ≡ true
unfolding same_login
author_wrote = refl

pull_request_comment_example :
    let r' = (record_conversation_freshness fromisoformat (some "ann") default_entry request).0 in
    (channel reviewer_comment r' ≡ channel reviewer_comment default_entry)
    × (r'.last_reviewer_activity ≡ none)
    × (r'.transition_warning_sent ≡ none)
    × (r'.transition_notice_sent_at ≡ none)
pull_request_comment_example =
    pull_request_comment fromisoformat (some "ann") default_entry request refl

not_comment : reviewer_review ≢ reviewer_comment
not_comment e = absurd cc

not_contributor : reviewer_review ≢ contributor_comment
not_contributor e = absurd cc

abbrev source : Source
source = record {
  comment_id = 42;
  comment_class = "command_only";
  has_non_command_text = false;
  freshness_eligible = true;
}

abbrev classified : Classified
classified = record {
  comment_class = "command_only";
  has_non_command_text = false;
  command_count = 1;
}

abbrev live : Live
live = record {
  comment_found = true;
  body_digest_matches = true;
  classified = some classified;
  failure_kind = none;
}

abbrev decision : CommentReplayDecision
decision = record {
  record_source_freshness = true;
  replay_comment_command = true;
  mark_reconciled = true;
  clear_gap = true;
  failed_closed_reason = none;
  diagnostic_summary = none;
  failure_kind = none;
  live_classified = some classified;
}

replayed : decide_comment_replay "docs/runbook.md" source live ≡ some decision
unfolding decide_comment_replay
replayed = refl

reconciled_iff_example : (true ≡ true) ↔ ((c : Classified) × IsUnchanged source live c)
reconciled_iff_example = reconciled_iff "docs/runbook.md" source live decision replayed

decision_consistent_example :
    (true ≡ true)
    × (true ≡ true)
    × (true ≡ (true && is_command_class source.comment_class))
    × ((decision.failed_closed_reason ≡ none) ↔ (decision.mark_reconciled ≡ true))
decision_consistent_example = decision_consistent "docs/runbook.md" source live decision replayed

abbrev submitted : Submitted
submitted = record {
  actor_login = some "ann";
  current_reviewer = some "Ann";
  live_commit_id = some "abc";
  live_submitted_at = some "2026-01-05";
  current_head_sha = some "abc";
  live_state = some "approved";
  live_visibility_status = some "visible";
  replay_allowed = true;
}

submitted_reconciled : (decide_review_submitted_replay submitted).mark_reconciled ≡ true
unfolding decide_review_submitted_replay strip lower
submitted_reconciled = refl
