-- ===== src/LiveReviews/Context.antt =====
-- The live reviews of a pull request, classified: build_current_review_context of
-- scripts/reviewer_bot_core/live_review_support.py.
use safety_critical_rust_cod.Common.{
  ℕ, String, Bool, true, false, Option, none, some, List, [], ◌∷◌, truthy, Checked, returned, ◌>>=◌,
  if◌then◌else◌,
}
use safety_critical_rust_cod.Value.{Value, null, str, as_text}
use safety_critical_rust_cod.Timestamps.{DateTime, parse_github_timestamp}
use safety_critical_rust_cod.Review.Types.{ReviewEntryState}
use safety_critical_rust_cod.LiveReviews.{
  stamp_of, ReviewFreshnessClassification, build_review_snapshot_record, classify_review_freshness,
  get_current_cycle_boundary, nonblank,
}
use safety_critical_rust_cod.LiveReviews.Reads.{
  ReadResult, ok, failure, PullRequest, LiveReviewList,
}

pub record CurrentReviewContext : Type 0 where
  pub issue_number : ℕ
  pub current_head_sha : Value
  pub cycle_boundary : Option String
  pub live_reviews_available : Bool
  pub live_reviews_failure_kind : Option String
  pub classifications : List ReviewFreshnessClassification

abbrev text_or_null : Option String → Value
text_or_null none = null
text_or_null (some s) = str s

-- `failure_kind or reason`
abbrev pub kind_or_reason : Option String → String → String
kind_or_reason none reason = reason
kind_or_reason (some kind) reason = if truthy kind then kind else reason

-- `isoformat` is that of a `datetime` in UTC.
module _ (fromisoformat : String → Option DateTime) (isoformat : ℕ → String) where
  -- The snapshot of a review that has one, classified.
  unfoldable pub classify_all :
      Option String
      → Option String
      → Option String
      → LiveReviewList
      → Checked (List ReviewFreshnessClassification)
  unfolding build_review_snapshot_record classify_review_freshness
  classify_all head boundary assigned [] = returned []
  classify_all head boundary assigned (review ∷ reviews) =
      build_review_snapshot_record review none >>= λ snapshot.
      classify_all head boundary assigned reviews >>= λ rest. returned (elim snapshot [
        | none ↦ rest
        | some s ↦
            classify_review_freshness fromisoformat s head (stamp_of boundary) assigned ∷ rest
      ])

  unfoldable pub boundary_text : ReviewEntryState → Option String
  unfolding get_current_cycle_boundary parse_github_timestamp
  boundary_text entry =
      elim (get_current_cycle_boundary (parse_github_timestamp fromisoformat) entry) [
        | none ↦ none
        | some boundary ↦ some (isoformat boundary)
      ]

  unfoldable pub build_current_review_context :
      ℕ
      → ReviewEntryState
      → ReadResult PullRequest
      → ReadResult LiveReviewList
      → Checked CurrentReviewContext
  unfolding boundary_text classify_all nonblank
  build_current_review_context issue_number entry pull_request_result reviews_result =
      let head : Value = elim pull_request_result [
        | ok pull_request ↦ pull_request.head_sha
        | failure reason kind ↦ null
      ] in
      elim reviews_result [
        | failure reason kind ↦ returned (record {
          issue_number = issue_number;
          current_head_sha = head;
          cycle_boundary = boundary_text entry;
          live_reviews_available = false;
          live_reviews_failure_kind = some (kind_or_reason kind reason);
          classifications = [];
        })
        | ok reviews ↦
            classify_all (as_text head) (boundary_text entry) entry.current_reviewer reviews
            >>= λ classifications. returned (record {
              issue_number = issue_number;
              current_head_sha = text_or_null (nonblank (as_text head));
              cycle_boundary = boundary_text entry;
              live_reviews_available = true;
              live_reviews_failure_kind = none;
              classifications = classifications;
            })
      ]
