-- ===== src/LiveReviews/Reads.antt =====
-- Reading a pull request and its reviews: scripts/reviewer_bot_core/live_review_support.py. GitHub's
-- answers are parameters, and the loop over the pages runs on fuel; `none` says that it ran out.
use safety_critical_rust_cod.Common.{
  ℕ, zero, suc, ◌+◌, String, true, false, Option, none, some, List, [], ◌++◌, ◌==◌, ltb, length,
  filter, is_some, if◌then◌else◌,
}
use safety_critical_rust_cod.Value.{Value}
use safety_critical_rust_cod.LiveReviews.{LiveReview}

-- `{"ok": True, ...}` and `projection_failure_result`.
pub data ReadResult (A : Type 0) : Type 0 where
  ok : A → ReadResult A
  failure : String → Option String → ReadResult A

-- An answer: a SystemExit, a response that is not ok with its failure kind, a payload of another type,
-- or the payload.
pub data Reply (A : Type 0) : Type 0 where
  system_exit : Reply A
  not_ok : Option String → Reply A
  other_payload : Reply A
  payload : A → Reply A

-- `head.get("sha")`, which is null if there is no dict under "head".
pub record PullRequest : Type 0 where
  pub head_sha : Value

abbrev pub LiveReviewList : Type 0
LiveReviewList = List (Option LiveReview)

unfoldable pub fallback_pull_request_payload : Option PullRequest → ReadResult PullRequest
fallback_pull_request_payload (some pull_request) = ok pull_request
fallback_pull_request_payload none = failure "pull_request_unavailable" none

-- The argument is none, no dict, or a dict; then GitHub's answer and that of the second client.
unfoldable pub read_pull_request_result :
    Option (Option PullRequest) → Reply PullRequest → Option PullRequest → ReadResult PullRequest
unfolding fallback_pull_request_payload
read_pull_request_result (some (some pull_request)) response second = ok pull_request
read_pull_request_result (some none) response second =
    failure "pull_request_unavailable" (some "invalid_payload")
read_pull_request_result none system_exit second = fallback_pull_request_payload second
read_pull_request_result none (not_ok none) second = failure "pull_request_unavailable" none
read_pull_request_result none (not_ok (some kind)) second =
    failure (if kind == "not_found" then "pull_request_not_found" else "pull_request_unavailable")
      (some kind)
read_pull_request_result none other_payload second =
    failure "pull_request_unavailable" (some "invalid_payload")
read_pull_request_result none (payload pull_request) second = ok pull_request

-- After a page: the next one if this one is full.
abbrev pub next_page :
    {B : Type 0} (rest : LiveReviewList → Option B)
    → (LiveReviewList → B)
    → LiveReviewList
    → LiveReviewList
    → Option B
next_page rest done collected page =
    let reviews = collected ++ filter is_some page in
    elim (ltb (length page) 100) [ true ↦ some (done reviews) | false ↦ rest reviews ]

module _ (second_page : ℕ → Option LiveReviewList) where
  unfoldable pub fallback_pages : ℕ → ℕ → LiveReviewList → Option (ReadResult LiveReviewList)
  fallback_pages zero page collected = none
  fallback_pages (suc fuel) page collected = elim (second_page page) [
    | none ↦ some (failure "reviews_unavailable" none)
    | some reviews ↦ next_page (fallback_pages fuel (page + 1)) ok collected reviews
  ]

  -- `_fallback_pull_request_reviews_result`; `all` is the answer of get_pull_request_reviews.
  unfoldable pub fallback_pull_request_reviews_result :
      Option LiveReviewList → ℕ → Option (ReadResult LiveReviewList)
  unfolding fallback_pages
  fallback_pull_request_reviews_result (some all) fuel = some (ok all)
  fallback_pull_request_reviews_result none fuel = fallback_pages fuel 1 []

  module _ (all : Option LiveReviewList) (page_reply : ℕ → Reply LiveReviewList) (limit : ℕ) where
    unfoldable pub read_pages : ℕ → ℕ → LiveReviewList → Option (ReadResult LiveReviewList)
    unfolding fallback_pull_request_reviews_result
    read_pages zero page collected = none
    read_pages (suc fuel) page collected = elim (page_reply page) [
      | system_exit ↦ fallback_pull_request_reviews_result all limit
      | not_ok kind ↦ some (failure "reviews_unavailable" kind)
      | other_payload ↦ some (failure "reviews_unavailable" (some "invalid_payload"))
      | payload reviews ↦ next_page (read_pages fuel (page + 1)) ok collected reviews
    ]

    unfoldable pub read_pull_request_reviews_result :
        Option LiveReviewList → Option (ReadResult LiveReviewList)
    unfolding read_pages
    read_pull_request_reviews_result (some reviews) = some (ok reviews)
    read_pull_request_reviews_result none = read_pages limit 1 []
