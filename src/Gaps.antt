-- ===== src/Gaps.antt =====
-- Why a deferred event was not replayed: scripts/reviewer_bot_core/deferred_gap_diagnosis.py. The
-- records of runs, artifacts and gaps are JSON objects. `python_str` is `str` of a value that is
-- neither a text nor a number.
pub mod Artifacts
pub mod Candidates
pub mod Missing
pub mod Swept
pub mod Matches
use Prim.Native.Nat.{compare as compare_numbers}
use safety_critical_rust_cod.Common.{
  ℕ, ◌+◌, ◌*◌, String, Bool, true, false, not, ◌&&◌, ◌||◌, Option, none, some, List, [], ◌∷◌, ◌==◌,
  ltb, leb, eqb, all, any, is_in, is_some, or_else, if◌then◌else◌, strip, decimal, truthy,
  append_text,
}
use safety_critical_rust_cod.Value.{
  Value, null, bool, str, int, list, dict, Values, nil, cons, Dict, empty, entry, get, get_default,
  put, is_true, is_text, as_int, as_dict, as_text, any_value,
}
use safety_critical_rust_cod.Timestamps.{DateTime, parse_github_timestamp}

-- A signature of a run: what some keys hold, each a text or None.
abbrev pub Signature : Type 0
Signature = List (String × Option String)

abbrev pub holds : Option String → Value → Bool
holds none null = true
holds (some s) v = is_text s v
holds _ _ = false

abbrev pub minute : ℕ
minute = 60 * 1000000

abbrev pub day : ℕ
day = 24 * 60 * minute

-- `now >= start + delay`, if the start is known.
abbrev pub has_passed : Option ℕ → ℕ → ℕ → Bool
has_passed none delay now = false
has_passed (some start) delay now = leb (start + delay) now

-- What is said of an artifact that did not match, if one had expired, else if one could not be
-- downloaded, else if one was invalid.
unfoldable pub outcome_reason : Bool → Bool → Bool → Option (String × String)
outcome_reason true download_unavailable is_invalid =
    some ("artifact_expired", "prior_visibility_or_retention_proof_required")
outcome_reason false true is_invalid =
    some ("observer_state_unknown", "artifact_download_unavailable")
outcome_reason false false true = some ("artifact_invalid", "artifact_download_or_payload_invalid")
outcome_reason false false false = none

-- By the status of the correlation: an exact match, else none, else an unknown state; `named` gives
-- its reason, or a text for none.
unfoldable pub correlation_reason :
    Bool → Bool → Bool → Option (String × String) → (String → String) → String × String
correlation_reason true is_none is_unknown outcomes named =
    ("observer_state_unknown", "successful_artifact_present_without_reconcile_marker")
correlation_reason false true is_unknown outcomes named =
    or_else outcomes ("artifact_missing", named "exact_artifact_missing")
correlation_reason false false true outcomes named =
    ("observer_state_unknown", named "artifact_ambiguity")
correlation_reason false false false outcomes named = ("artifact_invalid", named "artifact_invalid")

module _ (python_str : Value → String) where
  -- Python's `str`
  abbrev pub str_of : Value → String
  str_of (str s) = s
  str_of (int n) = decimal n
  str_of v = python_str v

  -- `str(value or text)`
  abbrev pub str_or : Value → String → String
  str_or v text = if is_true v then str_of v else text

  unfoldable pub observer_run_reason_from_details : Dict → Option Signature → String
  unfolding get get_default strip
  observer_run_reason_from_details run_details runbook_signature =
      let status = strip (str_of (get_default "status" (str "") run_details)) in
      let conclusion = get "conclusion" run_details in
      let signed : Signature → Bool =
        λ s. all (λ (key, value). holds value (get key run_details)) s in
      let concluded : List String → Bool = λ texts. any (λ t. is_text t conclusion) texts in
      if elim runbook_signature [ none ↦ false | some [] ↦ false | some (x ∷ xs) ↦ signed (x ∷ xs) ]
      then "awaiting_observer_approval"
      else if is_in status ("queued" ∷ "in_progress" ∷ [])
      then "observer_in_progress"
      else if not (status == "completed")
      then "observer_state_unknown"
      else if is_text "success" conclusion
      then "completed_success"
      else if concluded ("failure" ∷ "timed_out" ∷ "action_required" ∷ "stale" ∷ [])
      then "observer_failed"
      else if is_text "cancelled" conclusion
      then "observer_cancelled"
      else "observer_state_unknown"

module _ (fromisoformat : String → Option DateTime) (python_str : Value → String) (now : ℕ) where
  abbrev pub time_at : String → Dict → Option ℕ
  time_at key d = parse_github_timestamp fromisoformat (as_text (get key d))

  unfoldable pub can_mark_observer_run_missing : Dict → Bool
  unfolding get is_true parse_github_timestamp
  can_mark_observer_run_missing gap =
      has_passed (time_at "source_event_created_at" gap) day now
      && is_true (get "full_scan_complete" gap)
      && is_true (get "later_recheck_complete" gap)
      && not (is_true (get "correlated_run_found" gap))
      && not (is_true (get "approval_pending_evidence_retained" gap))

  unfoldable pub classify_artifact_gap_reason : Dict → ℕ → String
  unfolding get is_true parse_github_timestamp
  classify_artifact_gap_reason gap retention_days =
      if is_true (get "artifact_seen_at" gap) || is_true (get "artifact_last_downloadable_at" gap)
      then "artifact_expired"
      else if is_true (get "retention_window_documented" gap)
          && has_passed (time_at "run_created_at" gap) (retention_days * day) now
      then "artifact_expired"
      else if is_true (get "artifact_inspection_complete" gap)
      then "artifact_missing"
      else "observer_state_unknown"

  -- The gap of an event that no run was found for.
  unfoldable pub without_run : Dict → Dict → Dict
  unfolding put get is_true
  without_run existing_gap run_correlation = put "approval_pending_evidence_retained" (bool false) (
      put "correlated_run_found" (bool false) (
        put "later_recheck_complete" (bool (is_true (get "later_recheck_complete" run_correlation)))
          (put "full_scan_complete" (bool (is_true (get "full_scan_complete" run_correlation)))
            existing_gap)))

  -- The clock is read once more, later.
  unfoldable pub reason_without_run : ℕ → Dict → Dict → String × String
  unfolding can_mark_observer_run_missing without_run get parse_github_timestamp
  reason_without_run later existing_gap run_correlation =
      let created_at = time_at "source_event_created_at" existing_gap in
      if can_mark_observer_run_missing (without_run existing_gap run_correlation)
      then ("observer_run_missing", "negative_inference_satisfied")
      else if is_some created_at && not (has_passed created_at day later)
      then ("awaiting_observer_run", "missing_run_window_open")
      else ("observer_state_unknown", "missing_run_window_not_proven")

  unfoldable pub reason_of_outcomes : Dict → Option (String × String)
  unfolding any_value outcome_reason
  reason_of_outcomes outcomes =
      let seen : List String → Bool =
        λ texts. any_value (λ outcome. any (λ t. is_text t outcome) texts) outcomes in
      outcome_reason (seen ("expired" ∷ [])) (seen ("download_unavailable" ∷ [])) (
        seen (
          "missing_download_url" ∷ "download_failed" ∷ "invalid_payload_layout"
          ∷ "invalid_payload_format" ∷ []))

  unfoldable pub reason_of_scan : Option Dict → Option (String × String)
  unfolding reason_of_outcomes
  reason_of_scan none = none
  reason_of_scan (some outcomes) = reason_of_outcomes outcomes

  unfoldable pub reason_of_artifact : Option Dict → String × String
  unfolding get is_true reason_of_scan correlation_reason
  reason_of_artifact none = ("artifact_missing", "artifact_correlation_unavailable")
  reason_of_artifact (some artifact_correlation) =
      let status = get "status" artifact_correlation in
      correlation_reason (is_text "exact_artifact_match" status)
        (is_text "no_exact_artifact_match" status) (is_text "observer_state_unknown" status)
        (reason_of_scan (as_dict (get "artifact_scan_outcomes" artifact_correlation)))
        (str_or python_str (get "reason" artifact_correlation))

  -- The reason of an event with a candidate run, by the state of the run.
  unfoldable pub reason_with_run : Dict → Option Dict → Option Signature → String × String
  unfolding observer_run_reason_from_details reason_of_artifact
  reason_with_run run_detail artifact_correlation runbook_signature =
      let state = observer_run_reason_from_details python_str run_detail runbook_signature in
      if is_in state (
        "awaiting_observer_approval" ∷ "observer_in_progress" ∷ "observer_failed"
        ∷ "observer_cancelled" ∷ "observer_state_unknown" ∷ [])
      then (state, append_text "run_detail:" state)
      else if not (state == "completed_success")
      then ("observer_state_unknown", "unmapped_run_state")
      else reason_of_artifact artifact_correlation

  unfoldable pub evaluate_deferred_gap_state :
      ℕ → Dict → Dict → Option Dict → Option Dict → Option Signature → String × String
  unfolding get is_true reason_without_run reason_with_run
  evaluate_deferred_gap_state later existing_gap run_correlation run_detail artifact_correlation
        runbook_signature =
      let status = get "status" run_correlation in
      if is_text "observer_state_unknown" status
      then (
        "observer_state_unknown",
        str_or python_str (get "reason" run_correlation) "run_scan_unknown",
      )
      else if is_text "no_candidate_runs" status
      then reason_without_run later existing_gap run_correlation
      else elim run_detail [
        | none ↦ ("observer_state_unknown", "run_detail_unavailable")
        | some detail ↦ reason_with_run detail artifact_correlation runbook_signature
      ]
