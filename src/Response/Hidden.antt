-- ===== src/Response/Hidden.antt =====
-- The activity of a reviewer that a gap hides: has_fail_closed_reviewer_activity_for_current_scope of
-- scripts/reviewer_bot_core/reviewer_response_policy.py. A gap is a persisted dict; a reason
-- that is a list or a dict, which Python cannot look up in a set, counts as no reason.
use text.Mathlib.Text.{starts_with}
use safety_critical_rust_cod.Common.{
  ℕ, String, Bool, true, false, ◌&&◌, ◌||◌, Option, none, some, List, [], ◌∷◌, if◌then◌else◌, is_in,
  is_some, leb,
}
use safety_critical_rust_cod.Value.{
  Value, bool, dict, Values, nil, cons, Dict, get, is_true, as_text,
}
use safety_critical_rust_cod.Timestamps.{DateTime, parse_github_timestamp}
use safety_critical_rust_cod.Review.Types.{ReviewEntryState}
use safety_critical_rust_cod.LiveReviews.{nonblank, same_lowered}
use safety_critical_rust_cod.Persistence.{dict_or_empty}
use safety_critical_rust_cod.Response.{initial_cycle_boundary, boundary_value, same_text}

-- `_gap_source_kind`
unfoldable pub gap_source_kind : Dict → Option String
unfolding get nonblank
gap_source_kind gap = elim (nonblank (as_text (get "source_event_kind" gap))) [
  | some kind ↦ some kind
  | none ↦ elim (as_text (get "source_event_key" gap)) [
    | none ↦ none
    | some key ↦
        if starts_with key "issue_comment:"
        then some "issue_comment:created"
        else if starts_with key "pull_request_review_comment:"
        then some "pull_request_review_comment:created"
        else if starts_with key "pull_request_review:"
        then some "pull_request_review:submitted"
        else none
  ]
]

-- The first of two texts that is not blank.
abbrev or_nonblank : Option String → Option String → Option String
or_nonblank a b = elim (nonblank a) [ none ↦ nonblank b | some s ↦ some s ]

-- The payload of the diagnostic of a gap; a value of another type has no keys.
unfoldable pub diagnostic_payload : Dict → Dict
unfolding get
diagnostic_payload gap =
    dict_or_empty (get "payload" (dict_or_empty (get "visible_review_diagnostic" gap)))

-- `comment.get("commit_id") or comment.get("original_commit_id")`
unfoldable pub comment_commit_id : Dict → Option String
unfolding get is_true
comment_commit_id comment = as_text (
    if is_true (get "commit_id" comment)
    then get "commit_id" comment
    else get "original_commit_id" comment)

-- `_visible_review_commit_id`
unfoldable pub visible_review_commit_id : Dict → Option String
unfolding get nonblank diagnostic_payload comment_commit_id
visible_review_commit_id gap = or_nonblank (as_text (get "commit_id" (diagnostic_payload gap))) (
    or_nonblank (as_text (get "source_commit_id" gap))
      (comment_commit_id (dict_or_empty (get "comment" gap))))

-- `_visible_activity_author`
unfoldable pub visible_activity_author : Dict → Option String
unfolding get nonblank diagnostic_payload
visible_activity_author gap = or_nonblank (as_text (get "author" (diagnostic_payload gap))) (
    or_nonblank (as_text (get "source_actor_login" gap)) (
      or_nonblank (as_text (get "actor" gap))
        (as_text (get "login" (dict_or_empty (get "user" (dict_or_empty (get "comment" gap))))))))

abbrev fail_closed_reasons : List String
fail_closed_reasons =
    "observer_failed" ∷ "observer_cancelled" ∷ "observer_run_missing" ∷ "observer_state_unknown"
    ∷ "artifact_missing" ∷ "artifact_invalid" ∷ "artifact_expired" ∷ "reconcile_failed_closed" ∷ []

abbrev reviewer_kinds : List String
reviewer_kinds =
    "issue_comment:created" ∷ "pull_request_review:submitted"
    ∷ "pull_request_review_comment:created" ∷ []

abbrev is_true_itself : Value → Bool
is_true_itself (bool b) = b
is_true_itself _ = false

-- A text that is one of these.
abbrev is_one_of : List String → Option String → Bool
is_one_of texts none = false
is_one_of texts (some s) = is_in s texts

-- `event_timestamp is None`, or before the floor.
abbrev in_scope : Option ℕ → Option ℕ → Bool
in_scope floor none = false
in_scope none (some time) = true
in_scope (some floor) (some time) = leb floor time

-- The head that a review or a comment on one must name; a comment on the issue names none.
unfoldable pub names_head : Dict → Option String → String → Bool
unfolding visible_review_commit_id nonblank
names_head gap current_head_sha kind =
    if is_in kind ("pull_request_review:submitted" ∷ "pull_request_review_comment:created" ∷ [])
    then is_some (nonblank current_head_sha)
      && same_text (visible_review_commit_id gap) current_head_sha
    else true

module _ (fromisoformat : String → Option DateTime) where
  -- The guards of the loop, for a gap that is a dict.
  unfoldable pub hides_activity : String → Option ℕ → Option String → Dict → Bool
  unfolding get gap_source_kind visible_activity_author names_head parse_github_timestamp
      same_lowered
  hides_activity current_reviewer floor current_head_sha gap =
      is_true_itself (get "operator_action_required" gap)
      && is_one_of fail_closed_reasons (as_text (get "reason" gap))
      && is_one_of reviewer_kinds (gap_source_kind gap)
      && in_scope floor
          (parse_github_timestamp fromisoformat (as_text (get "source_event_created_at" gap)))
      && same_lowered (visible_activity_author gap) (some current_reviewer)
      && elim (gap_source_kind gap) [
        | none ↦ false
        | some kind ↦ names_head gap current_head_sha kind
      ]

  unfoldable pub any_hides : String → Option ℕ → Option String → Values → Bool
  unfolding hides_activity
  any_hides current_reviewer floor current_head_sha nil = false
  any_hides current_reviewer floor current_head_sha (cons (dict gap) gaps) =
      hides_activity current_reviewer floor current_head_sha gap
      || any_hides current_reviewer floor current_head_sha gaps
  any_hides current_reviewer floor current_head_sha (cons _ gaps) =
      any_hides current_reviewer floor current_head_sha gaps

  -- The anchor, or else the boundary of the cycle.
  unfoldable pub scope_floor : ReviewEntryState → Option String → Option ℕ
  unfolding parse_github_timestamp initial_cycle_boundary
  scope_floor entry anchor_timestamp =
      elim (parse_github_timestamp fromisoformat anchor_timestamp) [
        | some time ↦ some time
        | none ↦
            parse_github_timestamp fromisoformat (boundary_value (initial_cycle_boundary entry))
      ]

  unfoldable pub has_fail_closed_reviewer_activity_for_current_scope :
      ReviewEntryState → Values → Option String → Option String → Bool
  unfolding nonblank any_hides scope_floor
  has_fail_closed_reviewer_activity_for_current_scope entry fail_closed_gaps anchor_timestamp
        current_head_sha =
      elim (nonblank entry.current_reviewer) [
        | none ↦ false
        | some current_reviewer ↦
            any_hides current_reviewer (scope_floor entry anchor_timestamp) current_head_sha
              fail_closed_gaps
      ]
