-- ===== src/Gaps/Swept.antt =====
-- The sweep of one event: scripts/reviewer_bot_lib/sweeper.py over
-- scripts/reviewer_bot_core/deferred_gap_diagnosis.py. `inspect` reads the artifacts of the candidates,
-- `fetch_run_detail` the state of the one candidate; the clock is read at `now`, then at `later`.
use safety_critical_rust_cod.Common.{
  ℕ, ◌≡◌, refl, sym, ap, ◌∙◌, String, Bool, true, Option, none, some, List, [], ◌∷◌, filter, ◌==◌,
  if◌then◌else◌, and_left, and_right, Option-cases, inl, inr,
}
use safety_critical_rust_cod.Value.{
  Value, str, bool, Dict, get, put, is_true, is_text, as_int, as_text, dict_laws,
}
use safety_critical_rust_cod.Timestamps.{DateTime, parse_github_timestamp}
use safety_critical_rust_cod.Gaps.{Signature, day, has_passed, evaluate_deferred_gap_state}
use safety_critical_rust_cod.Gaps.Candidates.{
  expected_event, dicts, is_candidate, recheck, with_exact_run, unknown_runs, scanned_runs,
  scan_runs, scan_from, correlate_candidate_observer_runs,
}
use safety_critical_rust_cod.Gaps.Missing.{missing-is_proven}

get-with_exact_run :
    (artifact : Option Dict) (d : Dict)
    → (get "status" (with_exact_run artifact d) ≡ get "status" d)
      × (get "later_recheck_complete" (with_exact_run artifact d) ≡ get "later_recheck_complete" d)
unfolding with_exact_run
get-with_exact_run none d = (refl, refl)
get-with_exact_run (some a) d = elim (Option-cases (as_int (get "correlated_run" a))) [
  | inl e ↦ rw (e, with_exact_run) (refl, refl)
  | inr (n, e) ↦ rw (e, with_exact_run) (simp dict_laws, simp dict_laws)
]

get-recheck :
    (gap d : Dict)
    → (get "status" (recheck gap d) ≡ get "status" d)
      × (get "later_recheck_complete" (recheck gap d)
          ≡ bool (is_true (get "full_scan_complete" gap)))
unfolding recheck
get-recheck gap d = (simp dict_laws, simp dict_laws)

module _ (fromisoformat : String → Option DateTime) (python_str : Value → String) (pr_number : ℕ)
    (workflow_file github_repository : String) where
  -- The scan took place, for an event of a known kind and time, and no run is a candidate.
  abbrev pub NoCandidate : Option ℕ → Option String → Option (List Value) → Type 0
  NoCandidate (some created_at) (some event) (some runs) =
      filter
        (is_candidate fromisoformat python_str pr_number workflow_file github_repository created_at
          event)
        (dicts runs)
      ≡ []
  NoCandidate _ _ _ = ⊥

  scanned_runs-none :
      (runs : List Dict)
      → is_text "no_candidate_runs" (get "status" (scanned_runs runs)) ≡ true
      → runs ≡ []
  unfolding scanned_runs get
  scanned_runs-none [] h = refl
  scanned_runs-none (run ∷ runs) h = absurd cc

  scan_from-NoCandidate :
      (created_at : Option ℕ) (event : Option String) (runs : Option (List Value))
      → is_text "no_candidate_runs" (
          get "status" (
            scan_from fromisoformat python_str pr_number workflow_file github_repository created_at
              event runs))
        ≡ true
      → NoCandidate created_at event runs
  unfolding scan_from scan_runs unknown_runs get
  scan_from-NoCandidate none event runs h = absurd cc
  scan_from-NoCandidate (some t) event none h = absurd cc
  scan_from-NoCandidate (some t) none (some runs) h = absurd cc
  scan_from-NoCandidate (some t) (some event) (some runs) h = scanned_runs-none _ h

  module _ (now later : ℕ) (inspect : Value → Option Dict)
      (fetch_run_detail : Dict → Option Dict → Option Dict) (signature : Option Signature)
      (source_event_kind source_created_at : String) (workflow_runs : Option (List Value))
      (existing_gap : Dict) where
    abbrev scan : Dict
    scan = recheck existing_gap (
        correlate_candidate_observer_runs fromisoformat python_str pr_number workflow_file
          github_repository source_event_kind source_created_at workflow_runs)

    abbrev has_candidates : Bool
    has_candidates = is_text "candidate_runs_found" (get "status" scan)

    abbrev artifacts : Option Dict
    artifacts = if has_candidates then inspect (get "candidate_runs" scan) else none

    abbrev run_detail : Option Dict
    run_detail =
        if has_candidates then fetch_run_detail (with_exact_run artifacts scan) artifacts else none

    abbrev gap_now : Dict
    gap_now = put "source_event_created_at" (str source_created_at) existing_gap

    -- The reason that the sweep of an event records.
    unfoldable pub swept_reason : String × String
    unfolding evaluate_deferred_gap_state with_exact_run put get
    swept_reason =
        evaluate_deferred_gap_state fromisoformat python_str now later gap_now
          (with_exact_run artifacts scan) run_detail artifacts signature

    gap_now-created : get "source_event_created_at" gap_now ≡ str source_created_at
    gap_now-created = simp dict_laws

    -- A sweep calls the run of an event missing only if a day has passed since the event, an earlier
    -- sweep had scanned all runs, and this one had the list of runs and found no candidate in it.
    pub swept-missing :
        (swept_reason.0 == "observer_run_missing") ≡ true
        → NoCandidate
            (parse_github_timestamp fromisoformat (some source_created_at))
            (expected_event source_event_kind)
            workflow_runs
          × (has_passed (parse_github_timestamp fromisoformat (some source_created_at)) day now
              ≡ true)
          × (is_true (get "full_scan_complete" existing_gap) ≡ true)
    unfolding swept_reason correlate_candidate_observer_runs is_true
    swept-missing h =
        let correlation =
          correlate_candidate_observer_runs fromisoformat python_str pr_number workflow_file
            github_repository source_event_kind source_created_at workflow_runs in
        let kept = get-with_exact_run artifacts scan in
        let noted = get-recheck existing_gap correlation in
        let found =
          missing-is_proven fromisoformat python_str now later gap_now
            (with_exact_run artifacts scan) run_detail artifacts signature h in
        let passed = and_left _ _ (and_left _ _ found.1) in
        let rechecked = and_right _ _ found.1 in
        (
          scan_from-NoCandidate _ _ _
              (sym (ap (is_text "no_candidate_runs") (kept.0 ∙ noted.0)) ∙ found.0),
          sym (
                ap (λ v. has_passed (parse_github_timestamp fromisoformat (as_text v)) day now)
                  gap_now-created)
              ∙ passed,
          sym (ap is_true (kept.1 ∙ noted.1)) ∙ rechecked,
        )
