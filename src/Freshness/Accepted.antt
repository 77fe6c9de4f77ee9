-- ===== src/Freshness/Accepted.antt =====
-- What decide_comment_freshness_event accepts: scripts/reviewer_bot_core/comment_freshness_policy.py.
use safety_critical_rust_cod.Common.{
  ◌≡◌, ◌⊎◌, refl, String, Bool, true, false, not, ◌&&◌, ◌||◌, arith, eq_iff, Option, none, some,
  ◌==◌, Bool-cases, inl, inr, truthy,
}
use safety_critical_rust_cod.Review.{reviewer_comment, contributor_comment}
use safety_critical_rust_cod.Freshness.{
  CommentFreshnessEvent, CommentFreshnessDecision, Acceptance, accept_event, same_login, is_stale,
  decide_comment_freshness_event, decide_review_comment,
}

-- The event is a comment of the author of the issue.
abbrev pub by_author : CommentFreshnessEvent → Bool
by_author e = same_login (some e.issue_author) (some e.actor)

-- The head that a review comment was written for is known and is not a superseded one.
abbrev pub head_is_current : Option String → Option String → Bool
head_is_current none head = false
head_is_current (some reviewed) head = truthy reviewed && not (is_stale reviewed head)

abbrev pub is_accepted : CommentFreshnessDecision → Bool
is_accepted (accept_event a) = true
is_accepted _ = false

-- The acceptance of an event in a channel.
abbrev pub Accepts : CommentFreshnessEvent → Acceptance → Type 0
Accepts e a =
    (a.semantic_key ≡ e.source_event_key) × (a.timestamp ≡ e.created_at) × (a.actor ≡ e.actor)

-- What is accepted carries the key, the time and the actor of the event. It is for the channel of
-- contributor comments, by the author, and no reviewer activity; or it is for the channel of reviewer
-- comments, as reviewer activity, and then it is a comment in the thread of an issue that is not a
-- pull request, by the current reviewer and not by the author.
pub accepted_cases :
    (e : CommentFreshnessEvent) (head : Option String) (a : Acceptance)
    → decide_comment_freshness_event e head ≡ accept_event a
    → Accepts e a
      × ((a.channel_name ≡ contributor_comment)
            × (a.update_reviewer_activity ≡ false)
            × (by_author e ≡ true)
          ⊎ (a.channel_name ≡ reviewer_comment)
            × (a.update_reviewer_activity ≡ true)
            × (e.source_kind ≡ "issue_comment")
            × (e.is_pull_request ≡ false)
            × (by_author e ≡ false)
            × (same_login e.current_reviewer (some e.actor) ≡ true))
unfolding decide_comment_freshness_event decide_review_comment
accepted_cases e head a h = ground (arith, eq_iff e.source_kind "issue_comment")

thread_only :
    (kind : String) → kind ≡ "issue_comment" → (kind == "pull_request_review_comment") ≡ false
thread_only kind h = rw h refl

-- A comment of the author is accepted exactly if it is a comment in the thread or a review comment
-- on a head that is known and not superseded, for the two kinds of channel that the code builds.
author_accepted :
    (e : CommentFreshnessEvent) (head : Option String)
    → (e.channel_kind ≡ "issue_thread") ⊎ (e.channel_kind ≡ "review_comment")
    → by_author e ≡ true
    → is_accepted (decide_comment_freshness_event e head) ≡ (
        e.source_kind == "issue_comment"
        || e.source_kind == "pull_request_review_comment"
          && head_is_current e.reviewed_head_sha head)
unfolding decide_comment_freshness_event decide_review_comment
author_accepted e head channel_kind author = elim (Bool-cases (e.source_kind == "issue_comment")) [
  | inl thread ↦ ground (
    arith,
    thread_only e.source_kind ((eq_iff e.source_kind "issue_comment").0 thread),
    eq_iff e.channel_kind "issue_thread",
    eq_iff e.channel_kind "review_comment",
  )
  | inr other ↦
      ground (arith, eq_iff e.channel_kind "issue_thread", eq_iff e.channel_kind "review_comment")
]
