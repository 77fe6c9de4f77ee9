-- ===== src/Approvals/Triage.antt =====
-- The first approval by a user with triage permission: find_triage_approval_after of
-- scripts/reviewer_bot_core/approval_policy.py.
use Prim.Native.Nat.{Ordering, compare as compare_numbers}
use Prim.Native.String.{compare as compare_texts, then as first_of_two}
use safety_critical_rust_cod.Common.{
  ℕ, String, Bool, true, false, not, ◌&&◌, Option, none, some, List, [], ◌∷◌, ◌==◌, leb,
  if◌then◌else◌, or_else, truthy, lower, upper, Checked, returned, ◌>>=◌,
}
use safety_critical_rust_cod.Common.Sorting.{sort_by}
use safety_critical_rust_cod.Value.{Value, as_text}
use safety_critical_rust_cod.Timestamps.{DateTime, parse_github_timestamp}
use safety_critical_rust_cod.LiveReviews.{LiveReview, login_of, stamp_text}
use safety_critical_rust_cod.LiveReviews.Survivors.{id_text}
use safety_critical_rust_cod.LiveReviews.Authors.{is_approval}
use safety_critical_rust_cod.Approvals.{Permission, granted, permission_status}

pub record Approval : Type 0 where
  pub submitted_at : ℕ
  pub id : String
  pub author : String

-- `since is not None and submitted_at <= since`
abbrev pub is_too_old : Option ℕ → ℕ → Bool
is_too_old none submitted_at = false
is_too_old (some since) submitted_at = leb submitted_at since

abbrev pub compare_approvals : Approval → Approval → Ordering
compare_approvals a b =
    first_of_two (compare_numbers a.submitted_at b.submitted_at) (compare_texts a.id b.id)

abbrev pub is_granted : Permission → Bool
is_granted granted = true
is_granted _ = false

unfoldable pub cached : String → List (String × Bool) → Option Bool
cached key [] = none
cached key ((k, b) ∷ cache) = if k == key then some b else cached key cache

module _ (fromisoformat : String → Option DateTime) (python_str : Value → String) where
  -- A review with a login, as an approval after the given time.
  unfoldable pub approval_of : Option ℕ → LiveReview → Value → Option Approval
  unfolding parse_github_timestamp
  approval_of since review login =
      let author = or_else (as_text login) "" in
      elim (parse_github_timestamp fromisoformat (stamp_text review.submitted_at)) [
        | none ↦ none
        | some submitted_at ↦
            if truthy author && not (is_too_old since submitted_at)
            then some (record {
              submitted_at = submitted_at;
              id = id_text fromisoformat python_str review;
              author = author;
            })
            else none
      ]

  unfoldable pub approvals_after : Option ℕ → List LiveReview → Checked (List Approval)
  unfolding login_of approval_of upper
  approvals_after since [] = returned []
  approvals_after since (review ∷ reviews) =
      let rest = approvals_after since reviews in
      if is_approval fromisoformat python_str review
      then (login_of review >>= λ login. rest >>= λ approvals.
          elim (approval_of since review login) [
            | none ↦ returned approvals
            | some approval ↦ returned (approval ∷ approvals)
          ])
      else rest

  module _ (user_permission_status : String → String → String) where
    abbrev pub has_triage : String → Bool
    has_triage author = is_granted (permission_status user_permission_status author "triage")

    -- The loop, with its cache of answers by lowered login.
    unfoldable pub first_granted : List (String × Bool) → List Approval → Option Approval
    unfolding cached permission_status lower
    first_granted cache [] = none
    first_granted cache (a ∷ approvals) =
        let key = lower a.author in
        let allowed = or_else (cached key cache) (has_triage a.author) in
        elim allowed [ true ↦ some a | false ↦ first_granted ((key, false) ∷ cache) approvals ]

    unfoldable pub find_triage_approval_after :
        List LiveReview → Option ℕ → Checked (Option Approval)
    unfolding approvals_after sort_by first_granted
    find_triage_approval_after reviews since = approvals_after since reviews >>= λ approvals.
        returned (first_granted [] (sort_by compare_approvals approvals))
