-- ===== src/Freshness/Applied.antt =====
-- What record_conversation_freshness changes of an entry: scripts/reviewer_bot_lib/comment_application.py.
use safety_critical_rust_cod.Common.{
  ◌≡◌, ◌≢◌, ◌⊎◌, ◌∙◌, sym, ap, refl, String, Bool, true, false, arith, Option, Bool-cases, inl, inr,
}
use safety_critical_rust_cod.Timestamps.{DateTime}
use safety_critical_rust_cod.Review.{
  clear_handoff_after_newer_contributor_event, ReviewEntryState, AcceptedChannelRecord, ChannelName,
  reviewer_comment, contributor_comment, channel, clear_transition_timers, accept_channel_event,
  record_reviewer_activity,
}
use safety_critical_rust_cod.Review.Channels.{channel-accept_other}
use safety_critical_rust_cod.Freshness.Accepted.{accepted_cases}
use safety_critical_rust_cod.Freshness.{
  Request, record_conversation_freshness, Acceptance, CommentFreshnessDecision, accept_event,
  comment_record, conversation_event, build_comment_freshness_event, apply_decision,
  apply_acceptance, decide_comment_freshness_event,
}

not_both : {b : Bool} → b ≡ true → b ≡ false → ⊥
not_both h k = cc

contributor_only : contributor_comment ≢ reviewer_comment
contributor_only e = absurd cc

conversation-pr :
    (reviewer : Option String) (r : ReviewEntryState) (request : Request)
    → (conversation_event reviewer r request).is_pull_request ≡ request.is_pull_request
unfolding conversation_event build_comment_freshness_event
conversation-pr reviewer r request = refl

module _ (fromisoformat : String → Option DateTime) where
  abbrev pub record_comment : Option String → ReviewEntryState → Request → ReviewEntryState × Bool
  record_comment = record_conversation_freshness fromisoformat

  channel-activity :
      (r : ReviewEntryState) (timestamp : String) (name : ChannelName)
      → channel name (record_reviewer_activity fromisoformat r timestamp).0 ≡ channel name r
  unfolding record_reviewer_activity clear_transition_timers
  channel-activity r timestamp reviewer_comment = ground arith
  channel-activity r timestamp _ = ground arith

  channel-apply_acceptance :
      (r : ReviewEntryState) (a : Acceptance) (name : ChannelName)
      → a.channel_name ≢ name
      → channel name (apply_acceptance fromisoformat r a).0 ≡ channel name r
  unfolding apply_acceptance
  channel-apply_acceptance r a name h =
      let accepted = accept_channel_event fromisoformat r a.channel_name (comment_record a) false in
      let kept =
        channel-accept_other fromisoformat r a.channel_name name (comment_record a) false h in
      elim (Bool-cases a.update_reviewer_activity) [
        | inl active ↦ rw active (channel-activity (accepted.0) a.timestamp name ∙ kept)
        | inr other ↦ rw other kept
      ]

  -- A comment changes nothing, or it is accepted.
  record_comment_cases :
      (reviewer : Option String) (r : ReviewEntryState) (request : Request)
      → (record_comment reviewer r request ≡ (r, false))
        ⊎ (a : Acceptance) × (decide_comment_freshness_event
              (conversation_event reviewer r request)
              r.active_head_sha
            ≡ accept_event a)
          × (record_comment reviewer r request ≡ apply_acceptance fromisoformat r a)
  unfolding record_conversation_freshness apply_decision
  record_comment_cases reviewer r request =
      cases
        (decide_comment_freshness_event (conversation_event reviewer r request) r.active_head_sha)
        refl
    where
      cases :
          (d : CommentFreshnessDecision)
          → decide_comment_freshness_event (conversation_event reviewer r request) r.active_head_sha
            ≡ d
          → (record_comment reviewer r request ≡ (r, false))
            ⊎ (a : Acceptance) × (decide_comment_freshness_event
                  (conversation_event reviewer r request)
                  r.active_head_sha
                ≡ accept_event a)
              × (record_comment reviewer r request ≡ apply_acceptance fromisoformat r a)
      cases (accept_event a) h = inr (a, h, rw h refl)
      cases _ h = inl (rw h refl)

  accept-timers :
      (r : ReviewEntryState) (name : ChannelName) (e : AcceptedChannelRecord)
      → let r' = (accept_channel_event fromisoformat r name e false).0 in
        (r'.last_reviewer_activity ≡ r.last_reviewer_activity)
        × (r'.transition_warning_sent ≡ r.transition_warning_sent)
        × (r'.transition_notice_sent_at ≡ r.transition_notice_sent_at)
  unfolding accept_channel_event clear_handoff_after_newer_contributor_event
  accept-timers r reviewer_comment e = ground arith
  accept-timers r _ e = ground arith

  contributor-keeps :
      (r : ReviewEntryState) (a : Acceptance)
      → a.channel_name ≡ contributor_comment
      → a.update_reviewer_activity ≡ false
      → let r' = (apply_acceptance fromisoformat r a).0 in
        (channel reviewer_comment r' ≡ channel reviewer_comment r)
        × (r'.last_reviewer_activity ≡ r.last_reviewer_activity)
        × (r'.transition_warning_sent ≡ r.transition_warning_sent)
        × (r'.transition_notice_sent_at ≡ r.transition_notice_sent_at)
  unfolding apply_acceptance
  contributor-keeps r a contributor silent =
      let name = a.channel_name in
      rw silent (
        let kept = accept-timers r name (comment_record a) in
        (
          channel-accept_other fromisoformat r name reviewer_comment (comment_record a) false
              (λ e. contributor_only (sym contributor ∙ e)),
          kept.0,
          kept.1,
          kept.2,
        ))

  -- A comment changes no other channels than those of reviewer and contributor comments.
  channel-record_comment :
      (reviewer : Option String) (r : ReviewEntryState) (request : Request) (name : ChannelName)
      → name ≢ reviewer_comment
      → name ≢ contributor_comment
      → channel name (record_comment reviewer r request).0 ≡ channel name r
  channel-record_comment reviewer r request name h k =
      elim (record_comment_cases reviewer r request) [
        | inl same ↦ ap (λ x. channel name (x.0)) same
        | inr (a, decided, applied) ↦
            elim (accepted_cases (conversation_event reviewer r request) r.active_head_sha a
              decided).1 [
                | inl (contributor, _, _) ↦
                    rw applied (channel-apply_acceptance r a name (λ e. k (sym e ∙ contributor)))
                | inr (by_reviewer, _, _, _, _, _) ↦
                    rw applied (channel-apply_acceptance r a name (λ e. h (sym e ∙ by_reviewer)))
              ]
      ]

  -- A comment in a request for a pull request changes neither the channel of reviewer comments nor the
  -- time of the last activity nor the transition timers.
  pub pull_request_comment :
      (reviewer : Option String) (r : ReviewEntryState) (request : Request)
      → request.is_pull_request ≡ true
      → let r' = (record_comment reviewer r request).0 in
        (channel reviewer_comment r' ≡ channel reviewer_comment r)
        × (r'.last_reviewer_activity ≡ r.last_reviewer_activity)
        × (r'.transition_warning_sent ≡ r.transition_warning_sent)
        × (r'.transition_notice_sent_at ≡ r.transition_notice_sent_at)
  pull_request_comment reviewer r request pr = elim (record_comment_cases reviewer r request) [
    | inl same ↦ rw same (refl, refl, refl, refl)
    | inr (a, decided, applied) ↦
        elim (accepted_cases (conversation_event reviewer r request) r.active_head_sha a
          decided).1 [
            | inl (contributor, silent, _) ↦ rw applied (contributor-keeps r a contributor silent)
            | inr (_, _, _, not_pr, _, _) ↦
                absurd (not_both (conversation-pr reviewer r request ∙ pr) not_pr)
          ]
  ]
