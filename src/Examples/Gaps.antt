-- ===== src/Examples/Gaps.antt =====
-- Deferred events without a replay: scripts/reviewer_bot_core/deferred_gap_diagnosis.py.
use safety_critical_rust_cod.Common.{
  ℕ, ◌≡◌, refl, String, true, ◌==◌, Option, none, some, List, [], ◌∷◌,
}
use safety_critical_rust_cod.Value.{
  Value, bool, int, str, dict, Dict, empty, entry, get, is_text, is_true,
}
use safety_critical_rust_cod.Timestamps.{DateTime, naive, parse_github_timestamp}
use safety_critical_rust_cod.Gaps.{day, has_passed}
use safety_critical_rust_cod.Gaps.Swept.{NoCandidate, swept_reason, swept-missing}
use safety_critical_rust_cod.Gaps.Candidates.{
  expected_event, correlate_candidate_observer_runs, recheck,
}
use safety_critical_rust_cod.Gaps.Artifacts.{is_match, correlate_run_artifacts_exact}
use safety_critical_rust_cod.Gaps.Matches.{exact_match-is_match}

abbrev fromisoformat : String → Option DateTime
fromisoformat s = some (naive 50)

abbrev python_str : Value → String
python_str v = ""

abbrev tomorrow : ℕ
tomorrow = 100000000000

abbrev gap : Dict
gap = entry "full_scan_complete" (bool true) empty

-- A run of another workflow.
abbrev pushed : List Value
pushed = dict (entry "event" (str "push") empty) ∷ []

no_inspection : Value → Option Dict
no_inspection candidates = none

no_detail : Dict → Option Dict → Option Dict
no_detail run_correlation artifacts = none

missing_now :
    ((swept_reason fromisoformat python_str 3 "observer.yml" "rust/guidelines" tomorrow tomorrow
        no_inspection no_detail none "issue_comment:created" "2026-01-05T00:00:00Z"
        (some pushed)
        gap).0
      == "observer_run_missing")
    ≡ true
unfolding swept_reason correlate_candidate_observer_runs recheck
missing_now = refl

swept-missing_example :
    NoCandidate fromisoformat python_str 3 "observer.yml" "rust/guidelines"
      (parse_github_timestamp fromisoformat (some "2026-01-05T00:00:00Z"))
      (expected_event "issue_comment:created")
      (some pushed)
    × (has_passed (parse_github_timestamp fromisoformat (some "2026-01-05T00:00:00Z")) day tomorrow
        ≡ true)
    × (is_true (get "full_scan_complete" gap) ≡ true)
swept-missing_example =
    swept-missing fromisoformat python_str 3 "observer.yml" "rust/guidelines" tomorrow tomorrow
      no_inspection no_detail none "issue_comment:created" "2026-01-05T00:00:00Z" (some pushed) gap
      missing_now

abbrev key : String
key = "issue_comment:12"

abbrev artifact : Dict
artifact = entry "source_event_key" (str key) (
    entry "source_run_id" (int 7)
      (entry "source_run_attempt" (int 1) (entry "pr_number" (int 3) empty)))

abbrev runs : List (ℕ × List Value)
runs = (7, dict artifact ∷ []) ∷ []

matched_now :
    is_text "exact_artifact_match" (get "status" (correlate_run_artifacts_exact key 3 (some runs)))
    ≡ true
unfolding correlate_run_artifacts_exact get
matched_now = refl

exact_match-is_match_example :
    (run_id : ℕ) × (payload : Dict) × (get "correlated_run"
        (correlate_run_artifacts_exact key 3 (some runs))
      ≡ int run_id)
    × (get "artifact_payload" (correlate_run_artifacts_exact key 3 (some runs)) ≡ dict payload)
    × (is_match key 3 run_id payload ≡ true)
exact_match-is_match_example = exact_match-is_match key 3 runs matched_now
