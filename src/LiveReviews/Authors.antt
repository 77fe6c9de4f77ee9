-- ===== src/LiveReviews/Authors.antt =====
-- The authors of the approvals on the current head: _current_head_approval_authors of
-- scripts/reviewer_bot_core/reviewer_response_policy.py, over the survivors of
-- filter_current_head_reviews_for_cycle.
use Prim.Native.String.{compare as compare_texts}
use safety_critical_rust_cod.Common.{
  ℕ, String, Bool, Option, none, some, List, [], ◌∷◌, ◌==◌, if◌then◌else◌, lower, upper, or_else,
  Checked, returned, ◌>>=◌,
}
use safety_critical_rust_cod.Common.Sorting.{sort_by}
use safety_critical_rust_cod.Value.{Value, str, as_text}
use safety_critical_rust_cod.Timestamps.{DateTime, parse_github_timestamp}
use safety_critical_rust_cod.Review.Types.{ReviewEntryState}
use safety_critical_rust_cod.LiveReviews.{
  LiveReview, nonblank, login_of, get_current_cycle_boundary,
}
use safety_critical_rust_cod.LiveReviews.Reads.{LiveReviewList}
use safety_critical_rust_cod.LiveReviews.Survivors.{
  Survivors, str_of, filter_current_head_reviews_for_cycle,
  normalize_reviews_with_parsed_timestamps,
}

module _ (fromisoformat : String → Option DateTime) (python_str : Value → String) where
  -- `str(review.get("state", "")).upper() == "APPROVED"`
  abbrev pub is_approval : LiveReview → Bool
  is_approval review =
      upper (str_of fromisoformat python_str (or_else review.state (str ""))) == "APPROVED"

  unfoldable pub approval_authors : Survivors → Checked (List String)
  unfolding upper login_of nonblank
  approval_authors [] = returned []
  approval_authors ((key, review) ∷ survivors) =
      let rest = approval_authors survivors in
      if is_approval review
      then (login_of review >>= λ login. rest >>= λ authors. elim (nonblank (as_text login)) [
        | none ↦ returned authors
        | some author ↦ returned (author ∷ authors)
      ])
      else rest

  -- The survivors of a cycle that has a boundary, for a text that is a head.
  unfoldable pub authors_since : LiveReviewList → String → ℕ → Checked (List String)
  unfolding normalize_reviews_with_parsed_timestamps filter_current_head_reviews_for_cycle
      approval_authors parse_github_timestamp sort_by lower
  authors_since reviews current_head boundary =
      filter_current_head_reviews_for_cycle fromisoformat python_str
        (normalize_reviews_with_parsed_timestamps (parse_github_timestamp fromisoformat) reviews)
        boundary current_head
      >>= λ survivors. approval_authors survivors >>= λ authors.
          returned (sort_by (λ a b. compare_texts (lower a) (lower b)) authors)

  unfoldable pub current_head_approval_authors :
      (Option String → Option ℕ)
      → ReviewEntryState
      → Option String
      → Option LiveReviewList
      → Checked (List String)
  unfolding nonblank get_current_cycle_boundary authors_since
  current_head_approval_authors parse_timestamp entry current_head none = returned []
  current_head_approval_authors parse_timestamp entry current_head (some reviews) =
      elim (nonblank current_head) [
        | none ↦ returned []
        | some head ↦ elim (get_current_cycle_boundary parse_timestamp entry) [
          | none ↦ returned []
          | some boundary ↦ authors_since reviews head boundary
        ]
      ]
