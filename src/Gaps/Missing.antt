-- ===== src/Gaps/Missing.antt =====
-- When a run is called missing: scripts/reviewer_bot_core/deferred_gap_diagnosis.py.
use safety_critical_rust_cod.Common.{
  ℕ, ◌≡◌, refl, sym, ap, ◌∙◌, String, Bool, true, false, not, ◌&&◌, eq_iff, Option, none, some,
  List, [], ◌∷◌, ◌==◌, if◌then◌else◌, if_either, Bool-cases, Option-cases, inl, inr, is_in, or_else,
}
use safety_critical_rust_cod.Value.{Value, Dict, get, is_true, is_text, as_dict, dict_laws}
use safety_critical_rust_cod.Timestamps.{DateTime}
use safety_critical_rust_cod.Gaps.{
  Signature, day, has_passed, time_at, can_mark_observer_run_missing, without_run,
  reason_without_run, reason_with_run, reason_of_artifact, reason_of_outcomes, reason_of_scan,
  outcome_reason, correlation_reason, evaluate_deferred_gap_state, observer_run_reason_from_details,
  str_or,
}

and_true_twice : (a : Bool) → (a && true && true) ≡ a
and_true_twice true = refl
and_true_twice false = refl

-- Only a scan that found no run calls a run missing.
not_missing : String → Bool
not_missing reason = not (reason == "observer_run_missing")

record NotMissing (r : String × String) : Type 0 where
  is_other : not_missing r.0 ≡ true

-- A reason that is written out.
other_reason :
    (reason : String) {detail : String} → not_missing reason ≡ true → NotMissing (reason, detail)
other_reason reason h = record { is_other = h }

outcome_reason-NotMissing :
    (expired unavailable is_invalid : Bool) (rest : String × String)
    → NotMissing rest
    → NotMissing (or_else (outcome_reason expired unavailable is_invalid) rest)
unfolding outcome_reason not_missing
outcome_reason-NotMissing true u i rest h = other_reason _ refl
outcome_reason-NotMissing false true i rest h = other_reason _ refl
outcome_reason-NotMissing false false true rest h = other_reason _ refl
outcome_reason-NotMissing false false false rest h = h

correlation_reason-NotMissing :
    (exact none_exact is_unknown : Bool) (outcomes : Option (String × String))
    (named : String → String)
    → ((detail : String) → NotMissing (or_else outcomes ("artifact_missing", detail)))
    → NotMissing (correlation_reason exact none_exact is_unknown outcomes named)
unfolding correlation_reason not_missing
correlation_reason-NotMissing true n u outcomes named h = other_reason _ refl
correlation_reason-NotMissing false true u outcomes named h = h _
correlation_reason-NotMissing false false true outcomes named h = other_reason _ refl
correlation_reason-NotMissing false false false outcomes named h = other_reason _ refl

contradicted : (r : String × String) → NotMissing r → (r.0 == "observer_run_missing") ≡ true → ⊥
unfolding not_missing
contradicted r other same = let no : false ≡ true = sym (ap not same) ∙ other.is_other in absurd cc

window_reason :
    (open_window : Bool)
    → NotMissing (
        if open_window
        then ("awaiting_observer_run", "missing_run_window_open")
        else ("observer_state_unknown", "missing_run_window_not_proven"))
unfolding not_missing
window_reason true = other_reason _ refl
window_reason false = other_reason _ refl

module _ (fromisoformat : String → Option DateTime) (python_str : Value → String)
    (now later : ℕ) where
  -- A day has passed since the event, and both scans were complete.
  abbrev pub is_proven : Dict → Dict → Bool
  is_proven existing_gap run_correlation =
      has_passed (time_at fromisoformat python_str now "source_event_created_at" existing_gap) day
        now
      && is_true (get "full_scan_complete" run_correlation)
      && is_true (get "later_recheck_complete" run_correlation)

  can_mark-without_run :
      (existing_gap run_correlation : Dict)
      → can_mark_observer_run_missing fromisoformat python_str now
          (without_run fromisoformat python_str now existing_gap run_correlation)
        ≡ is_proven existing_gap run_correlation
  unfolding can_mark_observer_run_missing without_run
  can_mark-without_run existing_gap run_correlation =
      simp dict_laws (and_true_twice (is_proven existing_gap run_correlation))

  reason_of_scan-NotMissing :
      (outcomes : Option Dict) (rest : String × String)
      → NotMissing rest
      → NotMissing (or_else (reason_of_scan fromisoformat python_str now outcomes) rest)
  unfolding reason_of_scan reason_of_outcomes
  reason_of_scan-NotMissing none rest h = h
  reason_of_scan-NotMissing (some outcomes) rest h = outcome_reason-NotMissing _ _ _ rest h

  reason_of_artifact-NotMissing :
      (artifact : Option Dict)
      → NotMissing (reason_of_artifact fromisoformat python_str now artifact)
  unfolding reason_of_artifact not_missing
  reason_of_artifact-NotMissing none = other_reason _ refl
  reason_of_artifact-NotMissing (some a) =
      let status = get "status" a in
      let outcomes = as_dict (get "artifact_scan_outcomes" a) in
      correlation_reason-NotMissing (is_text "exact_artifact_match" status)
        (is_text "no_exact_artifact_match" status) (is_text "observer_state_unknown" status)
        (reason_of_scan fromisoformat python_str now outcomes) (str_or python_str (get "reason" a))
        (λ detail.
          reason_of_scan-NotMissing outcomes ("artifact_missing", detail) (other_reason _ refl))

  run_states : List String
  run_states =
      "awaiting_observer_approval" ∷ "observer_in_progress" ∷ "observer_failed"
      ∷ "observer_cancelled" ∷ "observer_state_unknown" ∷ []

  run_states-not_missing :
      (state : String) → is_in state run_states ≡ true → not_missing state ≡ true
  unfolding run_states not_missing
  run_states-not_missing state h = elim (Bool-cases (state == "observer_run_missing")) [
    | inr e ↦ rw e refl
    | inl e ↦
        let no : false ≡ true = rw ((eq_iff state "observer_run_missing").0 e) at h in absurd cc
  ]

  reason_with_run-NotMissing :
      (detail : Dict) (artifact : Option Dict) (signature : Option Signature)
      → NotMissing (reason_with_run fromisoformat python_str now detail artifact signature)
  unfolding reason_with_run run_states not_missing
  reason_with_run-NotMissing detail artifact signature =
      let state = observer_run_reason_from_details python_str detail signature in
      elim (Bool-cases (is_in state run_states)) [
        | inl e ↦ rw (e, reason_with_run) (other_reason state (run_states-not_missing state e))
        | inr e ↦
            rw (e, reason_with_run)
              (if_either NotMissing _ (other_reason "observer_state_unknown" refl)
                (reason_of_artifact-NotMissing artifact))
      ]

  proven :
      (existing_gap run_correlation : Dict)
      → ((reason_without_run fromisoformat python_str now later existing_gap run_correlation).0
          == "observer_run_missing")
        ≡ true
      → is_proven existing_gap run_correlation ≡ true
  unfolding reason_without_run
  proven existing_gap run_correlation h =
      let gap = without_run fromisoformat python_str now existing_gap run_correlation in
      elim (Bool-cases (can_mark_observer_run_missing fromisoformat python_str now gap)) [
        | inl e ↦ sym (can_mark-without_run existing_gap run_correlation) ∙ e
        | inr e ↦ absurd (contradicted _ (window_reason _) (rw (e, reason_without_run) at h))
      ]

  -- A run is called missing only if the scan found no candidate, a day has passed since the event, and
  -- both scans of the runs were complete.
  pub missing-is_proven :
      (existing_gap run_correlation : Dict) (run_detail artifact : Option Dict)
      (signature : Option Signature)
      → ((evaluate_deferred_gap_state fromisoformat python_str now later existing_gap
            run_correlation run_detail artifact signature).0
          == "observer_run_missing")
        ≡ true
      → (is_text "no_candidate_runs" (get "status" run_correlation) ≡ true)
        × (is_proven existing_gap run_correlation ≡ true)
  unfolding evaluate_deferred_gap_state reason_without_run
  missing-is_proven existing_gap run_correlation run_detail artifact signature h =
      let status = get "status" run_correlation in
      elim (Bool-cases (is_text "observer_state_unknown" status)) [
        | inl e ↦ let no : false ≡ true = rw (e, evaluate_deferred_gap_state) at h in absurd cc
        | inr e ↦ elim (Bool-cases (is_text "no_candidate_runs" status)) [
          | inl f ↦
              (f, proven existing_gap run_correlation (rw (e, f, evaluate_deferred_gap_state) at h))
          | inr f ↦ elim (Option-cases run_detail) [
            | inl g ↦
                let no : false ≡ true = rw (e, f, g, evaluate_deferred_gap_state) at h in absurd cc
            | inr (detail, g) ↦ absurd (
                contradicted _ (reason_with_run-NotMissing detail artifact signature)
                  (rw (e, f, g, evaluate_deferred_gap_state) at h))
          ]
        ]
      ]
