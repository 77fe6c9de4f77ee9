-- ===== src/Freshness.antt =====
-- Which comments count as activity: scripts/reviewer_bot_core/comment_freshness_policy.py, and
-- record_conversation_freshness of scripts/reviewer_bot_lib/comment_application.py, which applies
-- the decision to the review entry.
pub mod Accepted
pub mod Applied
use safety_critical_rust_cod.Common.{
  ℕ, String, append_text, Bool, true, false, not, ◌&&◌, ◌||◌, Option, none, some, ◌==◌,
  if◌then◌else◌, is_in, truthy, strip, lower, decimal,
}
use safety_critical_rust_cod.Timestamps.{DateTime}
use safety_critical_rust_cod.Value.{empty}
use safety_critical_rust_cod.Review.{
  ReviewEntryState, AcceptedChannelRecord, ChannelName, reviewer_comment, contributor_comment,
  accept_channel_event, record_reviewer_activity,
}

-- The fields of CommentEventRequest that this policy reads. A missing source kind or event key is
-- the empty text, which Python's `or` treats the same way.
pub record Request : Type 0 where
  pub issue_number : ℕ
  pub is_pull_request : Bool
  pub issue_author : String
  pub comment_id : ℕ
  pub comment_author : String
  pub comment_created_at : String
  pub comment_source_kind : String
  pub comment_source_event_key : String
  pub reviewed_head_sha : Option String

pub record CommentFreshnessEvent : Type 0 where
  pub issue_number : ℕ
  pub is_pull_request : Bool
  pub source_event_key : String
  pub comment_id : ℕ
  pub actor : String
  pub created_at : String
  pub channel_kind : String
  pub source_kind : String
  pub reviewed_head_sha : Option String
  pub issue_author : String
  pub current_reviewer : Option String

-- A decision: the constructors are the values of `kind`, with the fields that the code sets.
pub record Acceptance : Type 0 where
  pub channel_name : ChannelName
  pub semantic_key : String
  pub timestamp : String
  pub actor : String
  pub update_reviewer_activity : Bool

pub record Diagnosis : Type 0 where
  pub diagnostic_reason : String
  pub semantic_key : Option String
  pub timestamp : Option String
  pub actor : Option String

pub data CommentFreshnessDecision : Type 0 where
  noop : CommentFreshnessDecision
  blocked : String → CommentFreshnessDecision
  diagnostic_only : Diagnosis → CommentFreshnessDecision
  accept_event : Acceptance → CommentFreshnessDecision

abbrev pub if_empty : String → String → String
if_empty other s = if truthy s then s else other

unfoldable pub build_comment_freshness_event : Option String → Request → CommentFreshnessEvent
unfolding decimal
build_comment_freshness_event current_reviewer request =
    let source_kind = if_empty "issue_comment" request.comment_source_kind in
    record {
      issue_number = request.issue_number;
      is_pull_request = request.is_pull_request;
      source_event_key =
          if_empty (append_text source_kind (append_text ":" (decimal request.comment_id)))
            request.comment_source_event_key;
      comment_id = request.comment_id;
      actor = request.comment_author;
      created_at = request.comment_created_at;
      channel_kind =
          if source_kind == "pull_request_review_comment" then "review_comment" else "issue_thread";
      source_kind = source_kind;
      reviewed_head_sha = request.reviewed_head_sha;
      issue_author = request.issue_author;
      current_reviewer = current_reviewer;
    }

unfoldable pub same_login : Option String → Option String → Bool
unfolding strip lower
same_login (some left) (some right) = truthy (strip left) && lower left == lower right
same_login _ _ = false

abbrev accept : CommentFreshnessEvent → ChannelName → Bool → CommentFreshnessDecision
accept e name activity = accept_event (record {
  channel_name = name;
  semantic_key = e.source_event_key;
  timestamp = e.created_at;
  actor = e.actor;
  update_reviewer_activity = activity;
})

-- A diagnosis with a reason only.
abbrev diagnose : String → CommentFreshnessDecision
diagnose reason =
    diagnostic_only
      (record { diagnostic_reason = reason; semantic_key = none; timestamp = none; actor = none })

-- A diagnosis that names its event.
abbrev diagnose_event : CommentFreshnessEvent → String → CommentFreshnessDecision
diagnose_event e reason = diagnostic_only (record {
  diagnostic_reason = reason;
  semantic_key = some e.source_event_key;
  timestamp = some e.created_at;
  actor = some e.actor;
})

-- `if current_head_sha and reviewed != current_head_sha`
abbrev pub is_stale : String → Option String → Bool
is_stale reviewed none = false
is_stale reviewed (some head) = truthy head && not (reviewed == head)

unfoldable pub decide_review_comment :
    CommentFreshnessEvent → Option String → CommentFreshnessDecision
decide_review_comment e current_head_sha = elim e.reviewed_head_sha [
  | none ↦ diagnose "missing_reviewed_head_sha"
  | some reviewed ↦
      if not (truthy reviewed)
      then diagnose "missing_reviewed_head_sha"
      else if is_stale reviewed current_head_sha
      then diagnose "stale_reviewed_head_sha"
      else if same_login (some e.issue_author) (some e.actor)
      then accept e contributor_comment false
      else diagnose "review_comments_do_not_suppress_reminders"
]

unfoldable pub decide_comment_freshness_event :
    CommentFreshnessEvent → Option String → CommentFreshnessDecision
unfolding decide_review_comment
decide_comment_freshness_event e current_head_sha =
    if not (e.source_kind == "issue_comment" || e.source_kind == "pull_request_review_comment")
    then blocked "unsupported_comment_source_kind"
    else if not (e.channel_kind == "issue_thread" || e.channel_kind == "review_comment")
    then blocked "unsupported_comment_channel_kind"
    else if e.source_kind == "pull_request_review_comment"
    then decide_review_comment e current_head_sha
    else if same_login (some e.issue_author) (some e.actor)
    then accept e contributor_comment false
    else if same_login e.current_reviewer (some e.actor)
    then if e.is_pull_request
      then diagnose_event e "plain_pr_reviewer_comment_is_diagnostic_only"
      else accept e reviewer_comment true
    else noop

-- `accept_channel_event` with the defaults of review_state.py.
abbrev pub comment_record : Acceptance → AcceptedChannelRecord
comment_record a = record {
  semantic_key = a.semantic_key;
  timestamp = a.timestamp;
  actor = some a.actor;
  reviewed_head_sha = none;
  source_precedence = 0;
  payload = empty;
}

-- Python's `==` of texts or None.
abbrev same_text : Option String → Option String → Bool
same_text (some a) (some b) = a == b
same_text none none = true
same_text _ _ = false

-- `activity_changed`
abbrev pub timers_differ : ReviewEntryState → ReviewEntryState → Bool
timers_differ r r' =
    not (same_text r.last_reviewer_activity r'.last_reviewer_activity)
    || not (same_text r.transition_warning_sent r'.transition_warning_sent)
    || not (same_text r.transition_notice_sent_at r'.transition_notice_sent_at)

-- The event of a comment: for a comment that is not the author's, the reviewer is the confirmed one.
unfoldable pub conversation_event :
    Option String → ReviewEntryState → Request → CommentFreshnessEvent
unfolding build_comment_freshness_event lower
conversation_event confirmed_reviewer r request =
    let by_author =
      truthy request.issue_author && lower request.issue_author == lower request.comment_author in
    build_comment_freshness_event (if by_author then r.current_reviewer else confirmed_reviewer)
      request

module _ (fromisoformat : String → Option DateTime) where
  unfoldable pub apply_acceptance : ReviewEntryState → Acceptance → ReviewEntryState × Bool
  unfolding accept_channel_event record_reviewer_activity
  apply_acceptance r a =
      let (r', changed) =
        accept_channel_event fromisoformat r a.channel_name (comment_record a) false in
      if a.update_reviewer_activity
      then (let r'' = (record_reviewer_activity fromisoformat r' a.timestamp).0 in
          (r'', changed || timers_differ r' r''))
      else (r', changed)

  unfoldable pub apply_decision :
      ReviewEntryState → CommentFreshnessDecision → ReviewEntryState × Bool
  unfolding apply_acceptance
  apply_decision r (accept_event a) = apply_acceptance r a
  apply_decision r _ = (r, false)

  -- The entry is that of `ensure_review_entry(state, issue_number, create=True)`. The argument
  -- `confirmed_reviewer` is the tracked reviewer if resolve_reviewer_authority confirms it.
  unfoldable pub record_conversation_freshness :
      Option String → ReviewEntryState → Request → ReviewEntryState × Bool
  unfolding conversation_event decide_comment_freshness_event apply_decision
  record_conversation_freshness confirmed_reviewer r request = apply_decision r (
      decide_comment_freshness_event (conversation_event confirmed_reviewer r request)
        r.active_head_sha)
