-- ===== src/Gaps/Artifacts.antt =====
-- The artifacts of runs that match an event exactly: correlate_run_artifacts_exact of
-- scripts/reviewer_bot_core/deferred_gap_diagnosis.py.
use Prim.Native.Nat.{compare as compare_numbers}
use safety_critical_rust_cod.Common.{
  ℕ, String, Bool, false, ◌&&◌, Option, none, some, List, [], ◌∷◌, ◌++◌, map, eqb, any,
  if◌then◌else◌,
}
use safety_critical_rust_cod.Common.Sorting.{sort_by}
use safety_critical_rust_cod.Value.{
  Value, null, str, int, list, dict, Values, nil, cons, Dict, empty, entry, get, is_text, as_int,
  as_dict,
}

-- A value that is this number.
abbrev pub is_int : ℕ → Value → Bool
is_int n v = elim (as_int v) [ none ↦ false | some m ↦ eqb m n ]

-- A dict of payloads by attempt, in the order of insertion.
abbrev pub Attempts : Type 0
Attempts = List (ℕ × Dict)

abbrev as_values : List ℕ → Values
as_values [] = nil
as_values (n ∷ ns) = cons (int n) (as_values ns)

abbrev reply : String → Value → Value → Dict → Dict
reply status reason run rest =
    entry "status" (str status) (entry "reason" reason (entry "correlated_run" run rest))

-- `sorted` of a set of numbers.
abbrev pub distinct : List ℕ → List ℕ
distinct [] = []
distinct (n ∷ ns) = let rest = distinct ns in if any (eqb n) rest then rest else n ∷ rest

abbrev pub sorted : List ℕ → List ℕ
sorted = sort_by compare_numbers

abbrev pub last_match : ℕ × Dict → List (ℕ × Dict) → ℕ × Dict
last_match m [] = m
last_match m (n ∷ matches) = last_match n matches

-- By the runs of the matches: the last match counts, if all are of one run.
unfoldable pub reply_by : List ℕ → ℕ × Dict → Dict
reply_by (x ∷ y ∷ more) found =
    reply "observer_state_unknown" (str "ambiguous_exact_artifact_matches") null
      (entry "candidate_run_ids" (list (as_values (x ∷ y ∷ more))) empty)
reply_by ids found = reply "exact_artifact_match" null (int found.0) (
    entry "artifact_payload" (dict found.1)
      (entry "candidate_run_ids" (list (as_values ids)) empty))

-- The reply for the matches, of which there may be none.
unfoldable pub reply_of : List ℕ → List (ℕ × Dict) → Dict
unfolding sort_by reply_by
reply_of candidate_run_ids [] =
    reply "no_exact_artifact_match" (str "no_exact_source_event_key_match") null
      (entry "candidate_run_ids" (list (as_values (sorted candidate_run_ids))) empty)
reply_of candidate_run_ids (m ∷ matches) =
    reply_by (sorted (distinct (map (λ (run_id, payload). run_id) (m ∷ matches))))
      (last_match m matches)

module _ (source_event_key : String) where
  abbrev pub has_key : Dict → Bool
  has_key payload = is_text source_event_key (get "source_event_key" payload)

  -- The first payload of an attempt stays, unless one with the key follows.
  unfoldable pub put_attempt : ℕ → Dict → Attempts → Attempts
  unfolding get
  put_attempt attempt payload [] = (attempt, payload) ∷ []
  put_attempt attempt payload ((n, previous) ∷ attempts) =
      if eqb n attempt
      then (n, if has_key payload then payload else previous) ∷ attempts
      else (n, previous) ∷ put_attempt attempt payload attempts

  unfoldable pub latest_by_attempt : Attempts → List Value → Attempts
  unfolding put_attempt get
  latest_by_attempt done [] = done
  latest_by_attempt done (value ∷ payloads) =
      latest_by_attempt
        (elim (as_dict value) [
          | none ↦ done
          | some payload ↦ elim (as_int (get "source_run_attempt" payload)) [
            | none ↦ done
            | some attempt ↦ put_attempt attempt payload done
          ]
        ])
        payloads

  module _ (pr_number : ℕ) where
    abbrev pub is_match : ℕ → Dict → Bool
    is_match run_id payload =
        has_key payload
        && is_int run_id (get "source_run_id" payload)
        && is_int pr_number (get "pr_number" payload)

    unfoldable pub matches_of_run : ℕ → Attempts → List (ℕ × Dict)
    unfolding get
    matches_of_run run_id [] = []
    matches_of_run run_id ((attempt, payload) ∷ attempts) =
        let rest = matches_of_run run_id attempts in
        if is_match run_id payload then (run_id, payload) ∷ rest else rest

    unfoldable pub all_matches : List (ℕ × List Value) → List (ℕ × Dict)
    unfolding matches_of_run latest_by_attempt
    all_matches [] = []
    all_matches ((run_id, payloads) ∷ runs) =
        matches_of_run run_id (latest_by_attempt [] payloads) ++ all_matches runs

    unfoldable pub correlate_run_artifacts_exact : Option (List (ℕ × List Value)) → Dict
    unfolding all_matches reply_of
    correlate_run_artifacts_exact none =
        reply "observer_state_unknown" (str "artifact_scan_unavailable") null empty
    correlate_run_artifacts_exact (some payloads_by_run) =
        reply_of (map (λ (run_id, payloads). run_id) payloads_by_run) (all_matches payloads_by_run)
