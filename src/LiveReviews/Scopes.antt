-- ===== src/LiveReviews/Scopes.antt =====
-- What the scopes of classified reviews mean: scripts/reviewer_bot_core/live_review_support.py.
use safety_critical_rust_cod.Common.{
  ℕ, ◌≡◌, refl, sym, ap, ◌∙◌, subst, String, Bool, true, not, ◌&&◌, ◌||◌, arith, Option, none, some,
  List, [], ◌∷◌, is_some, or_else, truthy, strip, Bool-cases, Option-cases, inl, inr, all, returned,
  >>=-eq-returned, returned_inj, and_both, or_right,
}
use safety_critical_rust_cod.Common.Folding.{strip-truthy}
use safety_critical_rust_cod.Value.{Value, null, as_text}
use safety_critical_rust_cod.Timestamps.{DateTime}
use safety_critical_rust_cod.LiveReviews.{
  LiveReview, ReviewSnapshotRecord, ReviewFreshnessClassification, Stamp, nonblank, login_of,
  snapshot_by, build_review_snapshot_record, classify_review_freshness, scope_of, is_assigned_scope,
  given, is_malformed, is_dismissed, submitted_after, same_stripped, same_lowered, stamp_of,
}
use safety_critical_rust_cod.LiveReviews.Reads.{LiveReviewList}
use safety_critical_rust_cod.LiveReviews.Survivors.{is_on_current_head}
use safety_critical_rust_cod.LiveReviews.Context.{classify_all}

module _ (fromisoformat : String → Option DateTime) where
  -- A review counts for the cycle.
  abbrev pub counts : ReviewSnapshotRecord → Option String → Stamp → Bool
  counts s head boundary =
      not (is_malformed fromisoformat s)
      && not (is_dismissed fromisoformat s)
      && submitted_after fromisoformat s boundary
      && same_stripped s.commit_id head

  -- A review is put down to the assigned reviewer exactly if it is neither malformed nor dismissed,
  -- was submitted in the cycle, is of the current head and is by that reviewer; and to some reviewer
  -- of the current head exactly if it is all that, but by anybody whose login is known.
  scope_iff :
      (s : ReviewSnapshotRecord) (head : Option String) (boundary : Stamp)
      (assigned : Option String)
      → let scope =
          (classify_review_freshness fromisoformat s head boundary assigned).classified_scope in
        (is_assigned_scope scope ≡ (counts s head boundary && same_lowered s.author assigned))
        × (is_on_current_head scope ≡ (
            counts s head boundary
            && (same_lowered s.author assigned || is_some (nonblank s.author))))
  unfolding classify_review_freshness scope_of
  scope_iff s head boundary assigned = ground arith

nonblank_twice : (o : Option String) → nonblank (nonblank o) ≡ nonblank o
unfolding nonblank
nonblank_twice none = refl
nonblank_twice (some s) = elim (Bool-cases (truthy (strip s))) [
  | inl e ↦ rw e (rw e)
  | inr e ↦ rw e
]

nonblank-given : (o : Option String) → is_some o ≡ true → nonblank o ≡ o → given o ≡ true
unfolding nonblank
nonblank-given none some_text kept = absurd cc
nonblank-given (some s) some_text kept = elim (Bool-cases (truthy (strip s))) [
  | inl e ↦ strip-truthy s e
  | inr e ↦ let gone : none ≡ some s = rw e at kept in absurd cc
]

snapshot_by-author :
    (login : Value) (review : LiveReview) (s : ReviewSnapshotRecord)
    → snapshot_by login review ≡ some s
    → s.author ≡ nonblank (as_text login)
unfolding snapshot_by
snapshot_by-author login review s h = elim (Option-cases (as_text (or_else review.state null))) [
  | inl e ↦ ground (arith, e)
  | inr (t, e) ↦ ground (arith, e)
]

-- The author of a snapshot of a list is no blank text.
snapshot-author :
    (review : Option LiveReview) (s : ReviewSnapshotRecord)
    → build_review_snapshot_record review none ≡ returned (some s)
    → nonblank s.author ≡ s.author
unfolding build_review_snapshot_record nonblank
snapshot-author none s h = absurd cc
snapshot-author (some review) s h =
    let (login, e, f) =
      >>=-eq-returned (login_of review) (λ a. returned (snapshot_by a review)) h in
    let author = snapshot_by-author login review s (returned_inj f) in
    ap nonblank author ∙ nonblank_twice (as_text login) ∙ sym author

same_lowered-is_some : (a b : Option String) → same_lowered a b ≡ true → is_some a ≡ true
unfolding same_lowered
same_lowered-is_some none b h = h
same_lowered-is_some (some a) b h = refl

-- The author of a review that is put down to the assigned reviewer is known.
abbrev pub is_authored : ReviewFreshnessClassification → Bool
is_authored r = not (is_assigned_scope r.classified_scope) || given r.author

module _ (fromisoformat : String → Option DateTime) (isoformat : ℕ → String) where
  classify-is_authored :
      (s : ReviewSnapshotRecord) (head : Option String) (boundary : Stamp)
      (assigned : Option String)
      → nonblank s.author ≡ s.author
      → is_authored (classify_review_freshness fromisoformat s head boundary assigned) ≡ true
  unfolding classify_review_freshness scope_of
  classify-is_authored s head boundary assigned kept =
      elim (Bool-cases (same_lowered s.author assigned)) [
        | inl e ↦
            let known = nonblank-given s.author (same_lowered-is_some s.author assigned e) kept in
            rw kept (or_right _ _ known)
        | inr e ↦ rw e (ground arith)
      ]

  pub classify_all-authored :
      (head boundary assigned : Option String) (reviews : LiveReviewList)
      {cs : List ReviewFreshnessClassification}
      → classify_all fromisoformat isoformat head boundary assigned reviews ≡ returned cs
      → all is_authored cs ≡ true
  unfolding classify_all
  classify_all-authored head boundary assigned [] h =
      subst (λ cs. all is_authored cs ≡ true) (returned_inj h) refl
  classify_all-authored head boundary assigned (review ∷ reviews) h =
      let (snapshot, e, f) = >>=-eq-returned (build_review_snapshot_record review none) _ h in
      let (rest, g, k) =
        >>=-eq-returned (classify_all fromisoformat isoformat head boundary assigned reviews) _ f in
      let later = classify_all-authored head boundary assigned reviews g in
      elim (Option-cases snapshot) [
        | inl n ↦ subst (λ cs. all is_authored cs ≡ true) (returned_inj (rw n at k)) later
        | inr (s, n) ↦
            subst (λ cs. all is_authored cs ≡ true) (returned_inj (rw n at k))
              (and_both
                (classify-is_authored s head (stamp_of boundary) assigned
                  (snapshot-author review s (e ∙ ap returned n)))
                later)
      ]
