-- ===== src/LiveReviews/Survivors.antt =====
-- The last review of each author on the current head: filter_current_head_reviews_for_cycle and
-- normalize_reviews_with_parsed_timestamps of
-- scripts/reviewer_bot_core/live_review_support.py, and _current_head_approval_authors of
-- scripts/reviewer_bot_core/reviewer_response_policy.py.
use Prim.Native.Nat.{Ordering, compare as compare_numbers}
use Prim.Native.String.{compare as compare_texts, then as first_of_two}
use safety_critical_rust_cod.Common.{
  ℕ, String, Bool, true, false, Option, none, some, List, [], ◌∷◌, ◌==◌, if◌then◌else◌, lower,
  or_else, Checked, returned, ◌>>=◌, map, decimal,
}
use safety_critical_rust_cod.Value.{Value, int, str, as_text}
use safety_critical_rust_cod.Timestamps.{DateTime, datetime_min}
use safety_critical_rust_cod.LiveReviews.{
  Stamp, no_stamp, instant, LiveReview, ReviewSnapshotRecord, Scope, current_head_assigned_reviewer,
  current_head_alternate_reviewer, nonblank, stamp_text, login_of, build_review_snapshot_record,
  classify_review_freshness,
}
use safety_critical_rust_cod.LiveReviews.Reads.{LiveReviewList}

-- A dict of reviews by the lowered login of the author, in the order of insertion.
abbrev pub Survivors : Type 0
Survivors = List (String × LiveReview)

abbrev pub is_on_current_head : Scope → Bool
is_on_current_head current_head_assigned_reviewer = true
is_on_current_head current_head_alternate_reviewer = true
is_on_current_head _ = false

-- A loop that ends with the first error.
unfoldable pub fold_checked : {A B : Type 0} → (B → A → Checked B) → B → List A → Checked B
fold_checked f b [] = returned b
fold_checked f b (a ∷ as') = f b a >>= λ c. fold_checked f c as'

module _ (fromisoformat : String → Option DateTime) (python_str : Value → String) where
  -- Python's `str`
  abbrev pub str_of : Value → String
  str_of (str s) = s
  str_of (int n) = decimal n
  str_of v = python_str v

  -- `str(review.get("id", ""))`
  abbrev pub id_text : LiveReview → String
  id_text review = str_of (or_else review.id (str ""))

  abbrev instant_or_min : Stamp → ℕ
  instant_or_min (instant t) = t
  instant_or_min _ = datetime_min

  -- `candidate_key >= current_key`
  replaces : ℕ → LiveReview → LiveReview → Bool
  unfolding decimal
  replaces submitted_at review current =
      elim (first_of_two (compare_numbers submitted_at (instant_or_min current.submitted_at))
        (compare_texts (id_text review) (id_text current))) [ Ordering.lt ↦ false | _ ↦ true ]

  insert_survivor : String → ℕ → LiveReview → Survivors → Survivors
  unfolding replaces
  insert_survivor key submitted_at review [] = (key, review) ∷ []
  insert_survivor key submitted_at review ((k, current) ∷ survivors) =
      if k == key
      then (k, if replaces submitted_at review current then review else current) ∷ survivors
      else (k, current) ∷ insert_survivor key submitted_at review survivors

  keep_survivor : ℕ → LiveReview → String → Survivors → Survivors
  unfolding lower insert_survivor
  keep_survivor submitted_at review author = insert_survivor (lower author) submitted_at review

  -- What follows the scope test.
  unfoldable pub add_on_head : LiveReview → Survivors → Checked Survivors
  unfolding login_of nonblank keep_survivor
  add_on_head review survivors = elim (review.submitted_at) [
    | instant submitted_at ↦ login_of review >>= λ login. elim (nonblank (as_text login)) [
      | none ↦ returned survivors
      | some author ↦ returned (keep_survivor submitted_at review author survivors)
    ]
    | _ ↦ returned survivors
  ]

  -- A round of the loop, for a review that is a dict.
  unfoldable pub add_survivor :
      ℕ → String → Survivors → LiveReview → Option ReviewSnapshotRecord → Checked Survivors
  unfolding classify_review_freshness add_on_head
  add_survivor boundary current_head survivors review none = returned survivors
  add_survivor boundary current_head survivors review (some snapshot) =
      let c =
        classify_review_freshness fromisoformat snapshot (some current_head) (instant boundary)
          none in
      if is_on_current_head c.classified_scope
      then add_on_head review survivors
      else returned survivors

  unfoldable pub filter_round : ℕ → String → Survivors → Option LiveReview → Checked Survivors
  unfolding build_review_snapshot_record add_survivor
  filter_round boundary current_head survivors none = returned survivors
  filter_round boundary current_head survivors (some review) =
      build_review_snapshot_record (some review) none
      >>= add_survivor boundary current_head survivors review

  unfoldable pub filter_current_head_reviews_for_cycle :
      LiveReviewList → ℕ → String → Checked Survivors
  unfolding filter_round fold_checked
  filter_current_head_reviews_for_cycle reviews boundary current_head =
      fold_checked (filter_round boundary current_head) [] reviews

-- `normalized["submitted_at"] = parse_timestamp(review.get("submitted_at"))`
unfoldable pub normalize_review : (Option String → Option ℕ) → Option LiveReview → Option LiveReview
normalize_review parse_timestamp none = none
normalize_review parse_timestamp (some review) = some (record review {
  submitted_at = elim (parse_timestamp (stamp_text review.submitted_at)) [
    | none ↦ no_stamp
    | some t ↦ instant t
  ];
})

unfoldable pub normalize_reviews_with_parsed_timestamps :
    (Option String → Option ℕ) → LiveReviewList → LiveReviewList
unfolding normalize_review
normalize_reviews_with_parsed_timestamps parse_timestamp = map (normalize_review parse_timestamp)
