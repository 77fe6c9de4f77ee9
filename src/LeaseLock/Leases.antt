-- ===== src/LeaseLock/Leases.antt =====
-- Renewing and releasing the lease: scripts/reviewer_bot_lib/lease_lock.py. A loop over the attempts
-- is recursion on the number of attempts that are left.
use safety_critical_rust_cod.Common.{
  ℕ, zero, suc, ◌+◌, String, Bool, true, false, not, ◌&&◌, ◌||◌, Option, none, some, [], ◌∷◌, ltb,
  if◌then◌else◌, truthy, Checked, returned, raised,
}
use safety_critical_rust_cod.Value.{is_text, Value, null, int, str, Dict, empty, entry, get}
use safety_critical_rust_cod.Timestamps.{parse_iso8601_utc}
use safety_critical_rust_cod.LeaseLock.{
  Host, History, slept, LeaseContext, Response, has_status, is_retryable_status,
  normalize_lock_metadata, get_lock_ref_snapshot, create_lock_commit, cas_update_lock_ref,
  extract_commit_sha,
}

-- How an attempt ends: with the answer of the whole call, or with another attempt.
pub data Attempt : Type 0 where
  finished : Bool → LeaseContext → Attempt
  again : Attempt

abbrev pub clear_lock_metadata : Dict
clear_lock_metadata = normalize_lock_metadata (entry "lock_state" (str "unlocked") empty)

abbrev pub is_null : Value → Bool
is_null null = true
is_null _ = false

unfoldable pub snapshot_is_stale_unlocked_predecessor : Dict → Bool
unfolding get
snapshot_is_stale_unlocked_predecessor lock =
    is_text "unlocked" (get "lock_state" lock) && is_null (get "lock_token" lock)

module _ (host : Host) where
  parsed_text : Value → Option ℕ
  unfolding parse_iso8601_utc
  parsed_text (str s) = parse_iso8601_utc host.fromisoformat (some s)
  parsed_text _ = none

  unfoldable pub lock_is_currently_valid : Dict → ℕ → Bool
  unfolding get parsed_text
  lock_is_currently_valid lock now =
      is_text "locked" (get "lock_state" lock)
      && elim (get "lock_token" lock) [ str token ↦ truthy token | _ ↦ false ]
      && elim (parsed_text (get "lock_expires_at" lock)) [
        | none ↦ false
        | some expires_at ↦ ltb now expires_at
      ]

  -- The time of expiry, as text, of a lease that is built after this history.
  abbrev pub expiry : History → String
  expiry h = host.isoformat (host.now h + host.lock_lease_ttl)

  unfoldable pub build_lock_metadata : LeaseContext → History → Dict
  unfolding normalize_lock_metadata
  build_lock_metadata context h = normalize_lock_metadata (
      entry "schema_version" (int 1) (
        entry "lock_state" (str "locked") (
          entry "lock_owner_run_id" (str context.lock_owner_run_id) (
            entry "lock_owner_workflow" (str context.lock_owner_workflow) (
              entry "lock_owner_job" (str context.lock_owner_job) (
                entry "lock_token" (str context.lock_token) (
                  entry "lock_acquired_at" (str (host.isoformat (host.now h)))
                    (entry "lock_expires_at" (str (expiry h)) empty))))))))

  -- `_sleep` for the delay of an attempt.
  abbrev pub sleep : ℕ → History → History × Attempt
  sleep attempt h = (slept attempt ∷ h, again)

  -- From the ref update on; `success` is what the lease is after it.
  unfoldable pub update_ref :
      LeaseContext → LeaseContext → ℕ → Response → History → History × Attempt
  unfolding cas_update_lock_ref extract_commit_sha
  update_ref context success attempt created h = elim (extract_commit_sha created.payload) [
    | none ↦ (h, finished false context)
    | some new_commit_sha ↦
        let (h', updated) = cas_update_lock_ref host new_commit_sha h in
        if has_status (200 ∷ []) updated
        then (h', finished true success)
        else if has_status (409 ∷ 422 ∷ []) updated || is_retryable_status updated.status_code
        then sleep attempt h'
        else (h', finished false context)
  ]

  -- A commit with this metadata, and then the ref to it.
  unfoldable pub write_lock :
      LeaseContext → LeaseContext → ℕ → String → String → Dict → History → History × Attempt
  unfolding create_lock_commit update_ref
  write_lock context success attempt ref_head_sha tree_sha lock_meta h =
      let (h', created) = create_lock_commit host ref_head_sha tree_sha lock_meta h in
      if has_status (201 ∷ []) created
      then update_ref context success attempt created h'
      else if is_retryable_status created.status_code
      then sleep attempt h'
      else (h', finished false context)

  -- The rest of an attempt after the snapshot; an error of the snapshot ends the loop.
  unfoldable pub renew_after :
      LeaseContext → ℕ → History × Checked (String × String × Dict) → History × Attempt
  unfolding get write_lock build_lock_metadata
  renew_after context attempt (h, raised e) = (h, finished false context)
  renew_after context attempt (h, returned (ref_head_sha, tree_sha, current_lock)) =
      if is_text context.lock_token (get "lock_token" current_lock)
      then write_lock context (record context { lock_expires_at = some (expiry h) }) attempt
          ref_head_sha tree_sha (build_lock_metadata context h) h
      else (h, finished false context)

  unfoldable pub renew_attempt : LeaseContext → ℕ → History → History × Attempt
  unfolding get_lock_ref_snapshot renew_after
  renew_attempt context attempt h = renew_after context attempt (get_lock_ref_snapshot host h)

  -- The attempts of a loop, the first of them with the number `attempt`.
  unfoldable pub run_attempts :
      (LeaseContext → ℕ → History → History × Attempt)
      → ℕ
      → ℕ
      → LeaseContext
      → History
      → History × Bool × LeaseContext
  run_attempts try zero attempt context h = (h, false, context)
  run_attempts try (suc rounds) attempt context h =
      let (h', step) = try context attempt h in
      elim step [
        | finished result context' ↦ (h', result, context')
        | again ↦ run_attempts try rounds (suc attempt) context h'
      ]

  unfoldable pub renew_state_issue_lease_lock :
      LeaseContext → History → History × Bool × LeaseContext
  unfolding run_attempts renew_attempt
  renew_state_issue_lease_lock = run_attempts renew_attempt host.lock_api_retry_limit 1

  unfoldable pub release_after :
      LeaseContext → ℕ → History × Checked (String × String × Dict) → History × Attempt
  unfolding get write_lock snapshot_is_stale_unlocked_predecessor
  release_after context attempt (h, raised e) = (h, finished false context)
  release_after context attempt (h, returned (ref_head_sha, tree_sha, current_lock)) =
      if is_text context.lock_token (get "lock_token" current_lock)
      then write_lock context context attempt ref_head_sha tree_sha clear_lock_metadata h
      else if snapshot_is_stale_unlocked_predecessor current_lock
      then sleep attempt h
      else (h, finished false context)

  unfoldable pub release_attempt : LeaseContext → ℕ → History → History × Attempt
  unfolding get_lock_ref_snapshot release_after
  release_attempt context attempt h = release_after context attempt (get_lock_ref_snapshot host h)

  -- The active lease before and after; `finally` clears it.
  unfoldable pub release_state_issue_lease_lock :
      Option LeaseContext → History → History × Bool × Option LeaseContext
  unfolding run_attempts release_attempt
  release_state_issue_lease_lock none h = (h, true, none)
  release_state_issue_lease_lock (some context) h =
      let (h', released, _) = run_attempts release_attempt host.lock_api_retry_limit 1 context h in
      (h', released, none)

  renewed : History × Bool × LeaseContext → History × Bool × Option LeaseContext
  renewed (h, result, context) = (h, result, some context)

  unfoldable pub ensure_state_issue_lease_lock_fresh :
      Option LeaseContext → History → History × Bool × Option LeaseContext
  unfolding renew_state_issue_lease_lock parse_iso8601_utc renewed
  ensure_state_issue_lease_lock_fresh none h = (h, false, none)
  ensure_state_issue_lease_lock_fresh (some context) h = elim context.lock_expires_at [
    | none ↦ (h, true, some context)
    | some expires ↦
        if not (truthy expires)
        then (h, true, some context)
        else elim (parse_iso8601_utc host.fromisoformat (some expires)) [
          | none ↦ renewed (renew_state_issue_lease_lock context h)
          | some expires_at ↦
              if ltb (host.now h + host.lock_renewal_window) expires_at
              then (h, true, some context)
              else renewed (renew_state_issue_lease_lock context h)
        ]
  ]
