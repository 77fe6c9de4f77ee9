-- ===== src/Gaps/Candidates.antt =====
-- The runs of the observer that may belong to an event: correlate_candidate_observer_runs of
-- scripts/reviewer_bot_core/deferred_gap_diagnosis.py, and the sweeper's use of it. The window is
-- compared by sums; for an event in the first two minutes of the year 1 Python's `timedelta` overflows.
use safety_critical_rust_cod.Common.{
  ℕ, ◌+◌, ◌*◌, String, Bool, true, false, ◌&&◌, Option, none, some, List, [], ◌∷◌, ◌==◌, leb,
  if◌then◌else◌, filter,
}
use safety_critical_rust_cod.Value.{
  Value, null, bool, str, list, dict, Values, nil, cons, Dict, empty, entry, get, get_default, put,
  is_true, as_int, as_dict, as_text,
}
use safety_critical_rust_cod.Timestamps.{DateTime, parse_github_timestamp}
use safety_critical_rust_cod.Gaps.{minute, str_of}
use safety_critical_rust_cod.Gaps.Artifacts.{is_int}

abbrev pub expected_event : String → Option String
expected_event kind =
    if kind == "issue_comment:created"
    then some "issue_comment"
    else if kind == "pull_request_review:submitted"
    then some "pull_request_review"
    else if kind == "pull_request_review:dismissed"
    then some "pull_request_review"
    else if kind == "pull_request_review_comment:created"
    then some "pull_request_review_comment"
    else none

-- Not before two minutes before the event, and not after half an hour after it.
abbrev pub in_window : ℕ → Option ℕ → Bool
in_window created_at none = false
in_window created_at (some created) =
    leb created_at (created + 2 * minute) && leb created (created_at + 30 * minute)

abbrev names_repository : String → Option Dict → Bool
names_repository github_repository none = true
names_repository github_repository (some repo) = elim (as_text (get "full_name" repo)) [
  | none ↦ true
  | some full_name ↦ full_name == github_repository
]

abbrev is_pull : ℕ → Value → Bool
is_pull pr_number v = elim (as_dict v) [
  | none ↦ false
  | some pr ↦ is_int pr_number (get "number" pr)
]

unfoldable pub has_pull : ℕ → Values → Bool
unfolding get
has_pull pr_number nil = false
has_pull pr_number (cons v vs) =
    let rest = has_pull pr_number vs in if is_pull pr_number v then true else rest

-- A list with some pull request has this one.
unfoldable pub names_pull : ℕ → Value → Bool
unfolding has_pull
names_pull pr_number (list (cons v vs)) = has_pull pr_number (cons v vs)
names_pull pr_number v = true

unfoldable pub unknown_runs : String → Dict
unknown_runs reason = entry "status" (str "observer_state_unknown") (
    entry "reason" (str reason) (
      entry "candidate_run_ids" (list nil) (
        entry "full_scan_complete" (bool false)
          (entry "later_recheck_complete" (bool false) (entry "correlated_run" null empty)))))

abbrev as_values : List Dict → Values
as_values [] = nil
as_values (run ∷ runs) = cons (dict run) (as_values runs)

-- The ids of the runs that have a number.
unfoldable pub run_ids : List Dict → Values
unfolding get
run_ids [] = nil
run_ids (run ∷ runs) =
    let rest = run_ids runs in
    elim (as_int (get "id" run)) [ none ↦ rest | some n ↦ cons (get "id" run) rest ]

abbrev status_of : List Dict → String
status_of [] = "no_candidate_runs"
status_of (run ∷ runs) = "candidate_runs_found"

unfoldable pub scanned_runs : List Dict → Dict
unfolding run_ids
scanned_runs candidates = entry "status" (str (status_of candidates)) (
    entry "reason" null (
      entry "candidate_runs" (list (as_values candidates)) (
        entry "candidate_run_ids" (list (run_ids candidates)) (
          entry "full_scan_complete" (bool true)
            (entry "later_recheck_complete" (bool false) (entry "correlated_run" null empty))))))

-- The dicts of a list.
abbrev pub dicts : List Value → List Dict
dicts [] = []
dicts (v ∷ vs) = let rest = dicts vs in elim (as_dict v) [ none ↦ rest | some d ↦ d ∷ rest ]

-- The sweeper's record of the scan: the scan of an earlier sweep makes this one the recheck.
unfoldable pub recheck : Dict → Dict → Dict
unfolding put get is_true
recheck existing_gap run_correlation =
    put "later_recheck_complete" (bool (is_true (get "full_scan_complete" existing_gap)))
      run_correlation

-- An exact run that the artifacts show is noted.
unfoldable pub with_exact_run : Option Dict → Dict → Dict
unfolding put get
with_exact_run none run_correlation = run_correlation
with_exact_run (some artifact_correlation) run_correlation =
    let exact_run_id = get "correlated_run" artifact_correlation in
    elim (as_int exact_run_id) [
      | none ↦ run_correlation
      | some n ↦
          put "correlated_run_found" (bool true) (put "correlated_run" exact_run_id run_correlation)
    ]

module _ (fromisoformat : String → Option DateTime) (python_str : Value → String) (pr_number : ℕ)
    (workflow_file github_repository : String) where
  -- A run of the event's workflow, in the window, that names no other repository or pull request.
  unfoldable pub is_candidate : ℕ → String → Dict → Bool
  unfolding get get_default parse_github_timestamp names_pull
  is_candidate created_at event run =
      (str_of python_str (get_default "event" (str "") run) == event)
      && in_window created_at
          (parse_github_timestamp fromisoformat (as_text (get "created_at" run)))
      && (str_of python_str (get_default "path" (str "") run) == workflow_file)
      && names_repository github_repository (as_dict (get "repository" run))
      && names_pull pr_number (get "pull_requests" run)

  unfoldable pub scan_runs : ℕ → Option String → List Value → Dict
  unfolding is_candidate scanned_runs unknown_runs
  scan_runs created_at none runs = unknown_runs "unsupported_source_event_kind"
  scan_runs created_at (some event) runs =
      scanned_runs (filter (is_candidate created_at event) (dicts runs))

  unfoldable pub scan_from : Option ℕ → Option String → Option (List Value) → Dict
  unfolding scan_runs unknown_runs
  scan_from none event workflow_runs = unknown_runs "invalid_source_event_created_at"
  scan_from (some created_at) event none = unknown_runs "workflow_run_scan_unavailable"
  scan_from (some created_at) event (some runs) = scan_runs created_at event runs

  unfoldable pub correlate_candidate_observer_runs : String → String → Option (List Value) → Dict
  unfolding scan_from parse_github_timestamp
  correlate_candidate_observer_runs source_event_kind source_event_created_at workflow_runs =
      scan_from (parse_github_timestamp fromisoformat (some source_event_created_at))
        (expected_event source_event_kind) workflow_runs
