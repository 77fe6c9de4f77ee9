-- ===== src/LiveReviews/Kept.antt =====
-- What filter_current_head_reviews_for_cycle keeps: scripts/reviewer_bot_core/live_review_support.py,
-- and its use in scripts/reviewer_bot_core/reviewer_response_policy.py.
use safety_critical_rust_cod.Common.{
  ℕ, ◌≡◌, ◌≢◌, refl, String, false, arith, Option, none, some, List, [], ◌∷◌, returned, or_else,
  inl, inr, Option-cases, >>=-eq-returned, ap, ◌∙◌, sym, returned_inj,
}
use safety_critical_rust_cod.Common.Sorting.{sort_by}
use safety_critical_rust_cod.Value.{Value, null, as_text}
use safety_critical_rust_cod.Timestamps.{DateTime, parse_github_timestamp}
use safety_critical_rust_cod.Review.Types.{ReviewEntryState}
use safety_critical_rust_cod.LiveReviews.{
  Stamp, no_stamp, text, instant, LiveReview, ReviewSnapshotRecord, nonblank, stamp_text, login_of,
  snapshot_by, build_review_snapshot_record, classify_review_freshness, get_current_cycle_boundary,
  scope_of, submitted_after, timestamp_value, is_after,
}
use safety_critical_rust_cod.LiveReviews.Reads.{LiveReviewList}
use safety_critical_rust_cod.LiveReviews.Survivors.{
  Survivors, is_on_current_head, add_survivor, add_on_head, filter_round, fold_checked,
  filter_current_head_reviews_for_cycle, normalize_reviews_with_parsed_timestamps,
}
use safety_critical_rust_cod.LiveReviews.Authors.{
  approval_authors, authors_since, current_head_approval_authors,
}

-- A snapshot carries the timestamp of its review only if that is a text.
snapshot_by-submitted :
    (author : Value) (review : LiveReview) (s : ReviewSnapshotRecord)
    → snapshot_by author review ≡ some s
    → s.submitted_at ≡ nonblank (stamp_text review.submitted_at)
unfolding snapshot_by
snapshot_by-submitted author review s h =
    elim (Option-cases (as_text (or_else review.state null))) [
      | inl e ↦ ground (arith, e)
      | inr (t, e) ↦ ground (arith, e)
    ]

pub snapshot-submitted :
    (review : LiveReview) (s : ReviewSnapshotRecord)
    → build_review_snapshot_record (some review) none ≡ returned (some s)
    → s.submitted_at ≡ nonblank (stamp_text review.submitted_at)
unfolding build_review_snapshot_record nonblank
snapshot-submitted review s h =
    let (author, e, f) =
      >>=-eq-returned (login_of review) (λ a. returned (snapshot_by a review)) h in
    snapshot_by-submitted author review s (returned_inj f)

module _ (fromisoformat : String → Option DateTime) (python_str : Value → String) where
  scope_before_cycle :
      (s : ReviewSnapshotRecord) (head : String) (boundary : ℕ)
      → s.submitted_at ≡ none
      → is_on_current_head (scope_of fromisoformat s (some head) (instant boundary) none) ≡ false
  unfolding scope_of submitted_after timestamp_value is_after
  scope_before_cycle s head boundary h = rw h (ground arith)

  -- Text or no timestamp: the review is left out after the scope test, if not by it.
  add_on_head_nothing :
      (kept : Survivors) (review : LiveReview) (st : Stamp)
      → review.submitted_at ≡ st
      → nonblank (stamp_text st) ≢ none
      → add_on_head fromisoformat python_str review kept ≡ returned kept
  unfolding add_on_head nonblank
  add_on_head_nothing kept review (text t) e h = rw (e, add_on_head)
  add_on_head_nothing kept review (instant t) e h = absurd (h refl)
  add_on_head_nothing kept review no_stamp e h = absurd (h refl)

  -- A round of the loop keeps no review, since a `datetime` is no text and a text no `datetime`.
  add_survivor_nothing :
      (boundary : ℕ) (head : String) (kept : Survivors) (review : LiveReview)
      (s : ReviewSnapshotRecord)
      → s.submitted_at ≡ nonblank (stamp_text review.submitted_at)
      → add_survivor fromisoformat python_str boundary head kept review (some s) ≡ returned kept
  unfolding add_survivor classify_review_freshness
  add_survivor_nothing boundary head kept review s h = elim (Option-cases s.submitted_at) [
    | inl e ↦ rw (scope_before_cycle s head boundary e) refl
    | inr (t, e) ↦
        let on_head = add_on_head_nothing kept review review.submitted_at refl (λ n. absurd cc) in
        ground (arith, on_head)
  ]

  filter_round_nothing :
      (boundary : ℕ) (head : String) (kept : Survivors) (review : Option LiveReview) {r : Survivors}
      → filter_round fromisoformat python_str boundary head kept review ≡ returned r
      → r ≡ kept
  unfolding filter_round add_survivor
  filter_round_nothing boundary head kept none h = sym (returned_inj h)
  filter_round_nothing boundary head kept (some review) h =
      let (snapshot, e, f) =
        >>=-eq-returned (build_review_snapshot_record (some review) none)
          (add_survivor fromisoformat python_str boundary head kept review) h in
      elim (Option-cases snapshot) [
        | inl n ↦ sym (returned_inj (rw n at f))
        | inr (s, n) ↦ sym (
            returned_inj (
              sym (
                add_survivor_nothing boundary head kept review s
                  (snapshot-submitted review s (e ∙ ap returned n)))
              ∙ (rw n at f)))
      ]

  filter_nothing :
      (boundary : ℕ) (head : String) (reviews : LiveReviewList) {r : Survivors}
      → fold_checked (filter_round fromisoformat python_str boundary head) [] reviews ≡ returned r
      → r ≡ []
  unfolding fold_checked
  filter_nothing boundary head [] h = sym (returned_inj h)
  filter_nothing boundary head (review ∷ reviews) h =
      let (kept, e, f) =
        >>=-eq-returned (filter_round fromisoformat python_str boundary head [] review)
          (λ c. fold_checked (filter_round fromisoformat python_str boundary head) c reviews) h in
      filter_nothing boundary head reviews
        (rw (filter_round_nothing boundary head [] review e) at f)

  authors_since_nothing :
      (reviews : LiveReviewList) (head : String) (boundary : ℕ) {r : List String}
      → authors_since fromisoformat python_str reviews head boundary ≡ returned r
      → r ≡ []
  unfolding authors_since filter_current_head_reviews_for_cycle approval_authors sort_by
  authors_since_nothing reviews head boundary h =
      let normalized =
        normalize_reviews_with_parsed_timestamps (parse_github_timestamp fromisoformat) reviews in
      let (kept, e, f) =
        >>=-eq-returned
          (filter_current_head_reviews_for_cycle fromisoformat python_str normalized boundary head)
          _ h in
      let empty : kept ≡ [] = filter_nothing boundary head normalized e in
      sym (returned_inj (rw empty at f))

  -- Whatever the reviews are, the approvals on the current head have no author, unless reading a
  -- review raises an error: the filter wants the text of a timestamp to place the review in the
  -- cycle, and then a `datetime`, and no timestamp is both.
  pub current_head_approval_authors-empty :
      (parse_timestamp : Option String → Option ℕ) (entry : ReviewEntryState) (head : Option String)
      (reviews : Option LiveReviewList) (authors : List String)
      → current_head_approval_authors fromisoformat python_str parse_timestamp entry head reviews
        ≡ returned authors
      → authors ≡ []
  unfolding current_head_approval_authors
  current_head_approval_authors-empty parse_timestamp entry head none authors h =
      sym (returned_inj h)
  current_head_approval_authors-empty parse_timestamp entry head (some reviews) authors h =
      elim (Option-cases (nonblank head)) [
        | inl e ↦ sym (returned_inj (rw (e, current_head_approval_authors) at h))
        | inr (known, e) ↦ elim (Option-cases (get_current_cycle_boundary parse_timestamp entry)) [
          | inl f ↦ sym (returned_inj (rw (e, f, current_head_approval_authors) at h))
          | inr (boundary, f) ↦
              authors_since_nothing reviews known boundary
                (rw (e, f, current_head_approval_authors) at h)
        ]
      ]
