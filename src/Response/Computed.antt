-- ===== src/Response/Computed.antt =====
-- The response state of an issue or a pull request from what GitHub shows of it:
-- compute_reviewer_response_state of scripts/reviewer_bot_core/reviewer_response_policy.py, and the
-- choice of the reviewer's review of scripts/reviewer_bot_core/reviewer_review_helpers.py. The reviews
-- are a list when they are used, so the reviewer's review is always the one that GitHub shows; the
-- alternate boundary of the cycle is read and thrown away by the source, and is left out.
use Prim.Native.Nat.{Ordering, compare as compare_numbers}
use Prim.Native.String.{compare as compare_texts, then as first_of_two}
use safety_critical_rust_cod.Common.{
  ℕ, String, Bool, true, false, ◌&&◌, Option, none, some, List, [], ◌∷◌, filter, leb, if◌then◌else◌,
  or_else, is_in, is_some, upper, append_text, Checked, returned, ◌>>=◌,
}
use safety_critical_rust_cod.Common.Sorting.{max_by}
use safety_critical_rust_cod.Value.{Value, str, as_text}
use safety_critical_rust_cod.Timestamps.{DateTime, datetime_min, parse_github_timestamp}
use safety_critical_rust_cod.Review.Types.{ReviewEntryState}
use safety_critical_rust_cod.LiveReviews.{
  LiveReview, ReviewSnapshotRecord, login_of, nonblank, stamp_text, same_lowered, same_stripped,
  build_review_snapshot_record, get_current_cycle_boundary,
}
use safety_critical_rust_cod.LiveReviews.Reads.{
  ReadResult, ok, failure, PullRequest, LiveReviewList,
}
use safety_critical_rust_cod.LiveReviews.Survivors.{str_of, id_text}
use safety_critical_rust_cod.LiveReviews.Authors.{current_head_approval_authors}
use safety_critical_rust_cod.Approvals.Status.{compute_pr_approval_state_result}
use safety_critical_rust_cod.Response.{ResponseRecord, accepted_of, no_scope, current_scope_fields}
use safety_critical_rust_cod.Response.Answers.{Response, bare_response}
use safety_critical_rust_cod.Response.Derived.{derive_reviewer_response_state}

module _ (fromisoformat : String → Option DateTime) (python_str : Value → String)
    (parse_iso8601_timestamp : Option String → Option ℕ) where
  abbrev submitted_time : LiveReview → Option ℕ
  submitted_time review = parse_github_timestamp fromisoformat (stamp_text review.submitted_at)

  abbrev since : ℕ → Option ℕ → Bool
  since boundary none = false
  since boundary (some time) = leb boundary time

  -- The guards of the loop, for an author.
  unfoldable pub review_counts : String → ℕ → LiveReview → Value → Bool
  unfolding same_lowered upper nonblank parse_github_timestamp
  review_counts current_reviewer boundary review login =
      same_lowered (as_text login) (some current_reviewer)
      && is_in (upper (str_of fromisoformat python_str (or_else review.state (str ""))))
          ("APPROVED" ∷ "COMMENTED" ∷ "CHANGES_REQUESTED" ∷ [])
      && since boundary (submitted_time review)
      && is_some (nonblank (as_text review.commit_id))

  unfoldable pub valid_reviews : String → ℕ → LiveReviewList → Checked (List LiveReview)
  unfolding review_counts login_of
  valid_reviews current_reviewer boundary [] = returned []
  valid_reviews current_reviewer boundary (none ∷ reviews) =
      valid_reviews current_reviewer boundary reviews
  valid_reviews current_reviewer boundary (some review ∷ reviews) = login_of review >>= λ login.
      valid_reviews current_reviewer boundary reviews >>= λ rest.
      returned
        (if review_counts current_reviewer boundary review login then review ∷ rest else rest)

  unfoldable pub get_valid_current_reviewer_reviews_for_cycle :
      ReviewEntryState → Option ℕ → LiveReviewList → Checked (List LiveReview)
  unfolding valid_reviews nonblank
  get_valid_current_reviewer_reviews_for_cycle entry none reviews = returned []
  get_valid_current_reviewer_reviews_for_cycle entry (some boundary) reviews =
      elim (nonblank entry.current_reviewer) [
        | none ↦ returned []
        | some current_reviewer ↦ valid_reviews current_reviewer boundary reviews
      ]

  -- `_review_sort_key`
  abbrev compare_live_reviews : LiveReview → LiveReview → Ordering
  compare_live_reviews a b =
      first_of_two
        (compare_numbers (or_else (submitted_time a) datetime_min)
          (or_else (submitted_time b) datetime_min))
        (compare_texts (id_text fromisoformat python_str a) (id_text fromisoformat python_str b))

  -- The last of the reviews on the current head, or else of all; a single one is taken as it is.
  unfoldable pub preferred_of : Option String → List LiveReview → Option LiveReview
  unfolding max_by same_stripped
  preferred_of current_head [] = none
  preferred_of current_head (review ∷ []) = some review
  preferred_of current_head valid =
      let on_head = filter (λ r. same_stripped (as_text r.commit_id) current_head) valid in
      max_by compare_live_reviews
        (elim on_head [ [] ↦ valid | review ∷ reviews ↦ review ∷ reviews ])

  unfoldable pub get_preferred_current_reviewer_review_for_cycle :
      ReviewEntryState → PullRequest → LiveReviewList → Checked (Option LiveReview)
  unfolding get_valid_current_reviewer_reviews_for_cycle get_current_cycle_boundary preferred_of
  get_preferred_current_reviewer_review_for_cycle entry pull_request reviews =
      get_valid_current_reviewer_reviews_for_cycle entry
        (get_current_cycle_boundary parse_iso8601_timestamp entry) reviews
      >>= λ valid. returned (preferred_of (as_text pull_request.head_sha) valid)

  unfoldable pub record_of_snapshot : Option ReviewSnapshotRecord → Option ResponseRecord
  record_of_snapshot none = none
  record_of_snapshot (some snapshot) = elim (snapshot.submitted_at) [
    | none ↦ none
    | some submitted_at ↦
        if is_some snapshot.commit_id && is_some snapshot.author
        then some (record {
          semantic_key =
              append_text "pull_request_review:"
                (str_of fromisoformat python_str snapshot.review_id);
          timestamp = submitted_at;
          actor = snapshot.author;
          reviewed_head_sha = snapshot.commit_id;
          source_precedence = 1;
        })
        else none
  ]

  unfoldable pub build_reviewer_review_record_from_live_review :
      Option String → Option LiveReview → Checked (Option ResponseRecord)
  unfolding build_review_snapshot_record record_of_snapshot
  build_reviewer_review_record_from_live_review actor none = returned none
  build_reviewer_review_record_from_live_review actor (some review) =
      build_review_snapshot_record (some review) actor >>= λ snapshot.
      returned (record_of_snapshot snapshot)

  -- The review that the response is derived from.
  unfoldable pub current_review :
      ReviewEntryState → PullRequest → LiveReviewList → Checked (Option ResponseRecord)
  unfolding get_preferred_current_reviewer_review_for_cycle
      build_reviewer_review_record_from_live_review
  current_review entry pull_request reviews =
      get_preferred_current_reviewer_review_for_cycle entry pull_request reviews
      >>= build_reviewer_review_record_from_live_review entry.current_reviewer

  module _ (isoformat : ℕ → String) (user_permission_status : String → String → String) where
    -- A pull request with a head and reviews that could be read.
    unfoldable pub response_of_pull :
        ℕ → ReviewEntryState → PullRequest → String → LiveReviewList → Checked Response
    unfolding current_review compute_pr_approval_state_result current_head_approval_authors
        derive_reviewer_response_state accepted_of
    response_of_pull issue_number entry pull_request current_head reviews =
        current_review entry pull_request reviews >>= λ reviewer_review.
        compute_pr_approval_state_result fromisoformat isoformat python_str parse_iso8601_timestamp
          user_permission_status issue_number entry (ok pull_request) (ok reviews)
        >>= λ approval_result.
            current_head_approval_authors fromisoformat python_str parse_iso8601_timestamp entry
              (some current_head) (some reviews)
            >>= λ approval_authors. returned (
                derive_reviewer_response_state fromisoformat entry true (some current_head) none
                  reviewer_review (accepted_of entry.contributor_comment)
                  (is_some (accepted_of entry.reviewer_review)) (some approval_result)
                  approval_authors (accepted_of entry.reviewer_review))

    unfoldable pub response_of_reads :
        ℕ → ReviewEntryState → ReadResult PullRequest → ReadResult LiveReviewList → Checked Response
    unfolding nonblank response_of_pull current_scope_fields
    response_of_reads issue_number entry (failure reason kind) reviews_result =
        returned (bare_response "projection_failed" reason no_scope none)
    response_of_reads issue_number entry (ok pull_request) reviews_result =
        elim (nonblank (as_text pull_request.head_sha)) [
          | none ↦
              returned
                (bare_response "projection_failed" "pull_request_head_unavailable" no_scope none)
          | some current_head ↦ elim reviews_result [
            | failure reason kind ↦ returned (
                bare_response "projection_failed" reason
                  (current_scope_fields entry entry.current_reviewer (some current_head) none) none)
            | ok reviews ↦ response_of_pull issue_number entry pull_request current_head reviews
          ]
        ]

    -- `issue_snapshot` is none if it is no dict, or says whether it is that of a pull request.
    unfoldable pub compute_reviewer_response_state :
        ℕ
        → ReviewEntryState
        → Option Bool
        → ReadResult PullRequest
        → ReadResult LiveReviewList
        → Checked Response
    unfolding accepted_of derive_reviewer_response_state response_of_reads
    compute_reviewer_response_state issue_number entry none pull_request_result reviews_result =
        returned (bare_response "projection_failed" "issue_snapshot_unavailable" no_scope none)
    compute_reviewer_response_state issue_number entry (some false) pull_request_result
          reviews_result =
        returned (
          derive_reviewer_response_state fromisoformat entry false none
            (accepted_of entry.reviewer_comment) (accepted_of entry.reviewer_review)
            (accepted_of entry.contributor_comment) (is_some (accepted_of entry.reviewer_review))
            none [] none)
    compute_reviewer_response_state issue_number entry (some true) pull_request_result
          reviews_result =
        response_of_reads issue_number entry pull_request_result reviews_result
