-- ===== src/Labels/Deltas.antt =====
-- What the labels of an issue are after a delta: status_label_delta of
-- scripts/reviewer_bot_lib/reviews_projection.py.
use Prim.Native.String.{compare as compare_texts}
use safety_critical_rust_cod.Common.{
  ◌≡◌, refl, ◌∙◌, ap, String, Bool, true, false, not, ◌&&◌, ◌||◌, List, [], ◌∷◌, ◌==◌, eq_iff,
  filter, is_in, arith, Bool-cases, inl, inr, if◌then◌else◌, sym, Checked-cases, returned,
  returned_inj,
}
use safety_critical_rust_cod.Common.Sorting.{any-sort_by}
use safety_critical_rust_cod.Labels.{
  set_of, sorted_set, minus, StatusLabelDelta, status_label_delta, StatusLabelProjectionInput,
  StatusLabelProjectionResult, is_status_label, desired_status_labels_from_decision, projection_of,
  derive_status_label_projection, issue_state_of, has_labels, blocked,
}

is_in-same : (x l : String) (ys : List String) → x == l ≡ true → is_in x ys ≡ is_in l ys
is_in-same x l ys h = ap (λ t. is_in t ys) ((eq_iff x l).0 h)

is_in-set_of : (l : String) (xs : List String) → is_in l (set_of xs) ≡ is_in l xs
unfolding set_of
is_in-set_of l [] = refl
is_in-set_of l (x ∷ xs) = elim (Bool-cases (is_in x (set_of xs))) [
  | inl e ↦ rw (e, if◌then◌else◌) (ground (arith, is_in-set_of l xs, is_in-same x l (set_of xs)))
  | inr e ↦ rw (e, if◌then◌else◌) (ground (arith, is_in-set_of l xs))
]

is_in-sorted_set : (l : String) (xs : List String) → is_in l (sorted_set xs) ≡ is_in l xs
unfolding sorted_set
is_in-sorted_set l xs = any-sort_by compare_texts (λ t. t == l) (set_of xs) ∙ is_in-set_of l xs

is_in-minus :
    (l : String) (xs ys : List String) → is_in l (minus xs ys) ≡ (is_in l xs && not (is_in l ys))
is_in-minus l [] ys = refl
is_in-minus l (x ∷ xs) ys = elim (Bool-cases (is_in x ys)) [
  | inl e ↦ rw (e, not, if◌then◌else◌) (ground (arith, is_in-minus l xs ys, is_in-same x l ys))
  | inr e ↦ rw (e, not, if◌then◌else◌) (ground (arith, is_in-minus l xs ys, is_in-same x l ys))
]

-- The labels after a delta: those that stay, and those that are added.
abbrev pub has_after : String → List String → StatusLabelDelta → Bool
has_after label actual delta =
    is_in label actual && not (is_in label delta.labels_to_remove)
    || is_in label delta.labels_to_add

-- After a delta an issue has exactly the labels that are desired.
pub delta-desired :
    (label : String) (actual desired : List String)
    → has_after label actual (status_label_delta actual desired) ≡ is_in label desired
unfolding status_label_delta
delta-desired label actual desired =
    rw
      (
        is_in-sorted_set label (minus actual desired),
        is_in-sorted_set label (minus desired actual),
        is_in-minus label actual desired,
        is_in-minus label desired actual,
      )
      (ground arith)

abbrev pub status_labels : StatusLabelProjectionInput → List String
status_labels input = filter is_status_label input.actual_labels

projected :
    (input : StatusLabelProjectionInput) (closed : Bool) (desired : List String)
    (r : StatusLabelProjectionResult)
    → (if closed && has_labels desired
        then blocked "closed_issue_with_nonterminal_response"
        else returned (projection_of input desired))
      ≡ returned r
    → (projection_of input desired ≡ r) × ((closed && has_labels desired) ≡ false)
projected input closed desired r h = elim (Bool-cases (closed && has_labels desired)) [
  | inl e ↦ (let k = rw (e, if◌then◌else◌) at h in absurd (cc k))
  | inr e ↦ (returned_inj (rw (e, if◌then◌else◌) at h), e)
]

-- If the labels of an issue can be projected, then the response has desired labels, after the delta the
-- issue has exactly these as its status labels, and a closed issue has none.
pub projection-desired :
    (input : StatusLabelProjectionInput) (r : StatusLabelProjectionResult)
    → derive_status_label_projection input ≡ returned r
    → (desired : List String) × (desired_status_labels_from_decision input.reviewer_response
        ≡ returned desired)
      × ((label : String) → has_after label (status_labels input) r.delta ≡ is_in label desired)
      × ((issue_state_of input.issue_state == "closed" && has_labels desired) ≡ false)
unfolding derive_status_label_projection projection_of
projection-desired input r h =
    elim (Bool-cases (not (is_in (issue_state_of input.issue_state) ("open" ∷ "closed" ∷ [])))) [
      | inl e ↦ (let k = rw (e, if◌then◌else◌) at h in absurd (cc k))
      | inr e ↦ elim (Checked-cases (desired_status_labels_from_decision input.reviewer_response)) [
        | inl (message, f) ↦ (let k = rw (e, f, if◌then◌else◌) at h in absurd (cc k))
        | inr (desired, f) ↦
            let (same, closed) = projected input _ desired r (rw (e, f, if◌then◌else◌) at h) in
            (
              desired,
              f,
              λ label.
                  ap (λ x. has_after label (status_labels input) x.delta) (sym same)
                  ∙ delta-desired label (status_labels input) desired,
              closed,
            )
      ]
    ]
