-- ===== src/LiveReviews/Pages.antt =====
-- What reading the pages of reviews gives: scripts/reviewer_bot_core/live_review_support.py.
use safety_critical_rust_cod.Common.{
  ℕ, zero, suc, ◌+◌, ◌≤◌, ◌<◌, ◌≡◌, refl, sym, ap, ◌∙◌, arith, Option, none, some, List, [], ◌∷◌,
  ◌++◌, append-nil, append_assoc, length, filter, filter-append, is_some, lt→ltb, ge→ltb,
}
use safety_critical_rust_cod.LiveReviews.Reads.{
  ok, Reply, payload, LiveReviewList, next_page, read_pages, read_pull_request_reviews_result,
}

unfoldable pub concat : List LiveReviewList → LiveReviewList
concat [] = []
concat (page ∷ pages) = page ++ concat pages

-- The replies from a page on are these pages: full ones, and a last one that is not full.
pub data Paged (page_reply : ℕ → Reply LiveReviewList) : ℕ → List LiveReviewList → Type 0 where
  last :
      {n : ℕ} {page : LiveReviewList}
      → page_reply n ≡ payload page
      → length page < 100
      → Paged page_reply n (page ∷ [])
  more :
      {n : ℕ} {page : LiveReviewList} {pages : List LiveReviewList}
      → page_reply n ≡ payload page
      → 100 ≤ length page
      → Paged page_reply (n + 1) pages
      → Paged page_reply n (page ∷ pages)

module _ (second_page : ℕ → Option LiveReviewList) (all : Option LiveReviewList)
    (page_reply : ℕ → Reply LiveReviewList) (limit : ℕ) where
  read_pages-concat :
      (fuel n : ℕ) (collected : LiveReviewList) (pages : List LiveReviewList)
      → Paged page_reply n pages
      → length pages ≤ fuel
      → read_pages second_page all page_reply limit fuel n collected
        ≡ some (ok (collected ++ filter is_some (concat pages)))
  unfolding read_pages concat
  read_pages-concat zero n collected _ (last e short) enough = absurd (omega arith)
  read_pages-concat zero n collected _ (more e full later) enough = absurd (omega arith)
  read_pages-concat (suc fuel) n collected _ (last {page = page} e short) enough =
      rw (e, read_pages) (rw (lt→ltb _ _ short, next_page) (rw (append-nil page) refl))
  read_pages-concat (suc fuel) n collected _ (more {page = page} {pages = pages} e full later)
        enough =
      rw (e, read_pages)
        (rw (ge→ltb _ _ full, next_page)
          (read_pages-concat fuel (n + 1) (collected ++ filter is_some page) pages later
              (omega arith)
            ∙ ap (λ reviews. some (ok reviews))
                (append_assoc collected (filter is_some page) (filter is_some (concat pages))
                  ∙ ap (λ rest. collected ++ rest)
                      (sym (filter-append is_some page (concat pages))))))

  -- If GitHub gives the reviews in pages, each of 100 or more but the last, which has fewer, and no
  -- more pages than the limit, then reading them ends and gives the dicts of all pages in their order.
  pub read_pages_total :
      (pages : List LiveReviewList)
      → Paged page_reply 1 pages
      → length pages ≤ limit
      → read_pull_request_reviews_result second_page all page_reply limit none
        ≡ some (ok (filter is_some (concat pages)))
  unfolding read_pull_request_reviews_result
  read_pages_total pages paged enough = read_pages-concat limit 1 [] pages paged enough
