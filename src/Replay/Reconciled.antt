-- ===== src/Replay/Reconciled.antt =====
-- When a replay reconciles its gap: scripts/reviewer_bot_core/reconcile_replay_policy.py.
use safety_critical_rust_cod.Common.{
  ◌≡◌, ◌↔◌, String, Bool, true, false, ◌&&◌, arith, Option, none, some, eqb_iff, eq_iff, ap,
  Option-cases, inl, inr,
}
use safety_critical_rust_cod.Replay.{
  Classified, CommentReplayDecision, Source, Live, is_command_class, decide_comment_replay,
  compare_classified, Submitted, is_allowed_state, is_visible, same_sha, actor_matches,
  inputs_available, decide_review_submitted_replay,
}

-- The comment is still what it was when it was deferred.
pub record IsUnchanged (source : Source) (live : Live) (c : Classified) : Type 0 where
  pub found : live.comment_found ≡ true
  pub digest : live.body_digest_matches ≡ true
  pub classified : live.classified ≡ some c
  pub comment_class : c.comment_class ≡ source.comment_class
  pub has_non_command_text : c.has_non_command_text ≡ source.has_non_command_text
  pub one_command : is_command_class source.comment_class ≡ true → c.command_count ≡ 1

not_both : {b : Bool} → b ≡ true → b ≡ false → ⊥
not_both h k = cc

same_sha_eq : (a b : Option String) → same_sha a b ≡ true → a ≡ b
same_sha_eq (some a) (some b) h = ap some ((eq_iff a b).0 h)
same_sha_eq none b h = absurd cc
same_sha_eq (some a) none h = absurd cc

module _ (runbook_path : String) (source : Source) (live : Live) where
  IsUnchanged-iff :
      (d : CommentReplayDecision) (c : Classified)
      → live.classified ≡ some c
      → decide_comment_replay runbook_path source live ≡ some d
      → (d.mark_reconciled ≡ true) ↔ IsUnchanged source live c
  unfolding decide_comment_replay compare_classified
  IsUnchanged-iff d c known h = (
    ground (arith, eq_iff c.comment_class source.comment_class, eqb_iff c.command_count 1),
    ground (arith, eq_iff c.comment_class source.comment_class, eqb_iff c.command_count 1),
  )

  unclassified :
      (d : CommentReplayDecision)
      → live.classified ≡ none
      → decide_comment_replay runbook_path source live ≡ some d
      → d.mark_reconciled ≡ false
  unfolding decide_comment_replay
  unclassified d unknown h = ground arith

  -- A decision reconciles the gap of a comment exactly if the comment is found with the same digest and
  -- classified as it was, with exactly one command if it is of a class with a command.
  pub reconciled_iff :
      (d : CommentReplayDecision)
      → decide_comment_replay runbook_path source live ≡ some d
      → (d.mark_reconciled ≡ true) ↔ ((c : Classified) × IsUnchanged source live c)
  reconciled_iff d h = (
    λ reconciled. elim (Option-cases live.classified) [
      | inl unknown ↦ absurd (not_both reconciled (unclassified d unknown h))
      | inr (c, known) ↦ (c, (IsUnchanged-iff d c known h).0 reconciled)
    ],
    λ (c, unchanged). (IsUnchanged-iff d c unchanged.classified h).1 unchanged,
  )

  -- Whatever the decision: source-time freshness is kept as the source was eligible for it, the gap
  -- is cleared exactly if it is reconciled, a command is replayed only then and only for a class
  -- with a command, and a reason is given exactly if it is not reconciled.
  pub decision_consistent :
      (d : CommentReplayDecision)
      → decide_comment_replay runbook_path source live ≡ some d
      → (d.record_source_freshness ≡ source.freshness_eligible)
        × (d.clear_gap ≡ d.mark_reconciled)
        × (d.replay_comment_command ≡ (d.mark_reconciled && is_command_class source.comment_class))
        × ((d.failed_closed_reason ≡ none) ↔ (d.mark_reconciled ≡ true))
  unfolding decide_comment_replay compare_classified
  decision_consistent d h = ground arith

-- A submitted review is accepted exactly if its replay is admitted, all inputs are there, and the
-- review is visible, of an allowed state, for the current head and by the current reviewer.
accepted_review :
    (s : Submitted)
    → (decide_review_submitted_replay s).accept_reviewer_review ≡ (
        s.replay_allowed
        && inputs_available s
        && is_visible s.live_visibility_status
        && is_allowed_state s.live_state
        && same_sha s.live_commit_id s.current_head_sha
        && actor_matches s)
unfolding decide_review_submitted_replay
accepted_review s = ground arith

-- A submitted review that is reconciled is accepted, for the current head, at the time of submission.
accepted_review_head :
    (s : Submitted)
    → (decide_review_submitted_replay s).mark_reconciled ≡ true
    → ((decide_review_submitted_replay s).accept_reviewer_review ≡ true)
      × ((decide_review_submitted_replay s).reviewed_head_sha ≡ s.current_head_sha)
      × ((decide_review_submitted_replay s).replay_timestamp ≡ s.live_submitted_at)
unfolding decide_review_submitted_replay
accepted_review_head s h = ground (arith, same_sha_eq s.live_commit_id s.current_head_sha)
