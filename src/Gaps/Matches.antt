-- ===== src/Gaps/Matches.antt =====
-- What an exact match of an artifact says: scripts/reviewer_bot_core/deferred_gap_diagnosis.py.
use safety_critical_rust_cod.Common.{
  ℕ, ◌≡◌, refl, String, Bool, true, some, List, [], ◌∷◌, map, all, Bool-cases, inl, inr, and_both,
  and_left, and_right, all-append,
}
use safety_critical_rust_cod.Value.{Value, int, dict, Dict, get, is_text}
use safety_critical_rust_cod.Gaps.Artifacts.{
  Attempts, is_match, matches_of_run, latest_by_attempt, all_matches, distinct, sorted, last_match,
  reply_by, reply_of, correlate_run_artifacts_exact,
}

module _ (key : String) (pr_number : ℕ) where
  abbrev are_matches : List (ℕ × Dict) → Bool
  are_matches = all (λ (run_id, payload). is_match key pr_number run_id payload)

  matches_of_run-match :
      (run_id : ℕ) (attempts : Attempts)
      → are_matches (matches_of_run key pr_number run_id attempts) ≡ true
  unfolding matches_of_run
  matches_of_run-match run_id [] = refl
  matches_of_run-match run_id ((attempt, payload) ∷ attempts) =
      elim (Bool-cases (is_match key pr_number run_id payload)) [
        | inl e ↦ rw e (and_both e (matches_of_run-match run_id attempts))
        | inr e ↦ rw e (matches_of_run-match run_id attempts)
      ]

  all_matches-match :
      (runs : List (ℕ × List Value)) → are_matches (all_matches key pr_number runs) ≡ true
  unfolding all_matches
  all_matches-match [] = refl
  all_matches-match ((run_id, payloads) ∷ runs) =
      all-append _ (matches_of_run key pr_number run_id (latest_by_attempt key [] payloads)) _
        (matches_of_run-match run_id (latest_by_attempt key [] payloads)) (all_matches-match runs)

module _ (key : String) (pr_number : ℕ) where
  last_match-match :
      (m : ℕ × Dict) (matches : List (ℕ × Dict))
      → are_matches key pr_number (m ∷ matches) ≡ true
      → is_match key pr_number (last_match m matches).0 (last_match m matches).1 ≡ true
  last_match-match m [] h = and_left (is_match key pr_number m.0 m.1) _ h
  last_match-match m (n ∷ matches) h =
      last_match-match n matches (and_right (is_match key pr_number m.0 m.1) _ h)

  -- A reply that reports an exact match reports its run and its payload.
  abbrev pub Reports : Dict → Type 0
  Reports reply =
      is_text "exact_artifact_match" (get "status" reply) ≡ true
      → (run_id : ℕ) × (payload : Dict) × (get "correlated_run" reply ≡ int run_id)
        × (get "artifact_payload" reply ≡ dict payload)
        × (is_match key pr_number run_id payload ≡ true)

  reply_by-Reports :
      (ids : List ℕ) (found : ℕ × Dict)
      → is_match key pr_number found.0 found.1 ≡ true
      → Reports (reply_by ids found)
  unfolding reply_by get
  reply_by-Reports [] found h = λ exact. (found.0, found.1, refl, refl, h)
  reply_by-Reports (x ∷ []) found h = λ exact. (found.0, found.1, refl, refl, h)
  reply_by-Reports (x ∷ y ∷ more) found h = λ exact. absurd cc

  reply_of-Reports :
      (ids : List ℕ) (matches : List (ℕ × Dict))
      → are_matches key pr_number matches ≡ true
      → Reports (reply_of ids matches)
  unfolding reply_of get
  reply_of-Reports ids [] h = λ exact. absurd cc
  reply_of-Reports ids (m ∷ matches) h =
      reply_by-Reports (sorted (distinct (map (λ (run_id, payload). run_id) (m ∷ matches))))
        (last_match m matches) (last_match-match m matches h)

  -- Where an exact match is reported, its payload carries the key of the event, the number of the pull
  -- request and the run that it is reported for.
  pub exact_match-is_match :
      (runs : List (ℕ × List Value))
      → is_text "exact_artifact_match"
          (get "status" (correlate_run_artifacts_exact key pr_number (some runs)))
        ≡ true
      → (run_id : ℕ) × (payload : Dict) × (get "correlated_run"
            (correlate_run_artifacts_exact key pr_number (some runs))
          ≡ int run_id)
        × (get "artifact_payload" (correlate_run_artifacts_exact key pr_number (some runs))
            ≡ dict payload)
        × (is_match key pr_number run_id payload ≡ true)
  unfolding correlate_run_artifacts_exact
  exact_match-is_match runs =
      reply_of-Reports (map (λ (run_id, payloads). run_id) runs) (all_matches key pr_number runs)
        (all_matches-match key pr_number runs)
