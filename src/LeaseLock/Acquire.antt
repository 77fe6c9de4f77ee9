-- ===== src/LeaseLock/Acquire.antt =====
-- Acquiring the lease: acquire_state_issue_lease_lock of scripts/reviewer_bot_lib/lease_lock.py. The
-- loop runs on fuel; a `raise` is a constructor of AcquireError, without the text of the message.
use safety_critical_rust_cod.Common.{
  ℕ, zero, suc, ◌-◌, String, Bool, true, false, ◌&&◌, Option, none, some, [], ◌∷◌, ◌==◌, ltb,
  if◌then◌else◌, truthy, strip, Checked, returned, raised,
}
use safety_critical_rust_cod.Value.{is_text, Value, str, Dict, get, is_true, as_text}
use safety_critical_rust_cod.LeaseLock.{
  Host, History, slept, LeaseContext, has_status, is_retryable_status, get_lock_ref_snapshot,
  create_lock_commit, cas_update_lock_ref, extract_commit_sha, display,
}
use safety_critical_rust_cod.LeaseLock.Leases.{
  lock_is_currently_valid, build_lock_metadata, expiry, snapshot_is_stale_unlocked_predecessor,
}

pub data AcquireError : Type 0 where
  timed_out owner_drifted commit_not_permitted commit_failed commit_without_sha : AcquireError
  owner_mismatched unexpected_lock ref_not_found update_not_permitted update_failed : AcquireError
  snapshot_failed : String → AcquireError

-- How a round of the loop ends.
pub data Step : Type 0 where
  acquired : LeaseContext → Step
  failed : AcquireError → Step
  retry : Step

pub record Owner : Type 0 where
  pub run_id : String
  pub workflow : String
  pub job : String

abbrev or_text : String → String → String
or_text a b = if truthy a then a else b

module _ (host : Host) where
  unfoldable pub get_lock_owner_context : Owner
  unfolding strip
  get_lock_owner_context =
      let config : String → String = λ name. strip (host.config_value name) in
      record {
        run_id = or_text (config "WORKFLOW_RUN_ID") (or_text (config "GITHUB_RUN_ID") "local-run");
        workflow =
            or_text (config "WORKFLOW_NAME") (or_text (config "GITHUB_WORKFLOW") "reviewer-bot");
        job = or_text (config "WORKFLOW_JOB_NAME") (or_text (config "GITHUB_JOB") "reviewer-bot");
      }

  -- `str(value or "")`
  abbrev text_of : Value → String
  text_of (str s) = s
  text_of v = if is_true v then host.python_str v else ""

  abbrev pub snapshot_matches_expected_lock : Dict → String → Bool
  snapshot_matches_expected_lock lock token =
      is_text "locked" (get "lock_state" lock) && is_text token (get "lock_token" lock)

  unfoldable pub snapshot_matches_expected_owner : Dict → Owner → Bool
  unfolding get is_true
  snapshot_matches_expected_owner lock owner =
      text_of (get "lock_owner_run_id" lock) == owner.run_id
      && text_of (get "lock_owner_workflow" lock) == owner.workflow
      && text_of (get "lock_owner_job" lock) == owner.job

  -- `_activate_lease_context`
  abbrev pub lease : String → Owner → Option String → LeaseContext
  lease token owner lock_expires_at = record {
    lock_token = token;
    lock_owner_run_id = owner.run_id;
    lock_owner_workflow = owner.workflow;
    lock_owner_job = owner.job;
    state_issue_url = host.state_issue_html_url;
    lock_ref = display host;
    lock_expires_at = lock_expires_at;
  }

  module _ (token : String) (owner : Owner) (attempt : ℕ) where
    abbrev wait : History → History × Step
    wait h = (slept attempt ∷ h, retry)

    -- After the ref was moved: the second snapshot.
    unfoldable pub confirm :
        Option String → History × Checked (String × String × Dict) → History × Step
    unfolding snapshot_matches_expected_owner snapshot_is_stale_unlocked_predecessor get
    confirm expires (h, raised e) = (h, failed (snapshot_failed e))
    confirm expires (h, returned (head, tree, lock)) =
        if snapshot_matches_expected_lock lock token
        then (if snapshot_matches_expected_owner lock owner
            then (h, acquired (lease token owner expires))
            else (h, failed owner_mismatched))
        else if snapshot_is_stale_unlocked_predecessor lock
        then wait h
        else (h, failed unexpected_lock)

    unfoldable pub move_ref : Option String → String → History → History × Step
    unfolding cas_update_lock_ref get_lock_ref_snapshot confirm
    move_ref expires new_commit_sha h =
        let (h', updated) = cas_update_lock_ref host new_commit_sha h in
        if has_status (200 ∷ []) updated
        then confirm expires (get_lock_ref_snapshot host h')
        else if has_status (409 ∷ 422 ∷ []) updated
        then wait h'
        else if has_status (404 ∷ []) updated
        then (h', failed ref_not_found)
        else if has_status (401 ∷ 403 ∷ []) updated
        then (h', failed update_not_permitted)
        else if is_retryable_status updated.status_code
        then wait h'
        else (h', failed update_failed)

    unfoldable pub move_ref_to : Option String → Option String → History → History × Step
    unfolding move_ref
    move_ref_to expires none h = (h, failed commit_without_sha)
    move_ref_to expires (some new_commit_sha) h = move_ref expires new_commit_sha h

    -- The lock is free: a commit with the own lock, and then the ref to it.
    unfoldable pub take_lock : String → String → History → History × Step
    unfolding create_lock_commit build_lock_metadata extract_commit_sha move_ref_to
    take_lock ref_head_sha tree_sha h =
        let (h', created) =
          create_lock_commit host ref_head_sha tree_sha
            (build_lock_metadata host (lease token owner none) h) h in
        if has_status (201 ∷ []) created
        then move_ref_to (some (expiry host h)) (extract_commit_sha created.payload) h'
        else if is_retryable_status created.status_code
        then wait h'
        else if has_status (401 ∷ 403 ∷ []) created
        then (h', failed commit_not_permitted)
        else (h', failed commit_failed)

    unfoldable pub acquire_after : History × Checked (String × String × Dict) → History × Step
    unfolding lock_is_currently_valid get snapshot_matches_expected_owner take_lock
    acquire_after (h, raised e) = (h, failed (snapshot_failed e))
    acquire_after (h, returned (ref_head_sha, tree_sha, current_lock)) =
        if lock_is_currently_valid host current_lock (host.now h)
        then (if snapshot_matches_expected_lock current_lock token
            then (if snapshot_matches_expected_owner current_lock owner
                then (
                  h,
                  acquired (lease token owner (as_text (get "lock_expires_at" current_lock))),
                )
                else (h, failed owner_drifted))
            else wait h)
        else take_lock ref_head_sha tree_sha h

  -- `continue`, or the end of the loop.
  abbrev pub acquire_next :
      (History → History × Option Step) → History × Step → History × Option Step
  acquire_next rest (h, retry) = rest h
  acquire_next rest (h, acquired context) = (h, some (acquired context))
  acquire_next rest (h, failed e) = (h, some (failed e))

  -- The rounds of the loop; `none` says that the fuel ran out.
  unfoldable pub acquire_loop : String → Owner → ℕ → ℕ → ℕ → History → History × Option Step
  unfolding get_lock_ref_snapshot acquire_after
  acquire_loop token owner wait_started_at zero attempt h = (h, none)
  acquire_loop token owner wait_started_at (suc fuel) attempt h =
      elim (ltb host.lock_max_wait (host.monotonic h - wait_started_at)) [
        | true ↦ (h, some (failed timed_out))
        | false ↦
            acquire_next (acquire_loop token owner wait_started_at fuel (suc attempt))
              (acquire_after token owner attempt (get_lock_ref_snapshot host h))
      ]

  unfoldable pub acquire_state_issue_lease_lock :
      ℕ → Option LeaseContext → History → History × Option Step
  unfolding get_lock_owner_context acquire_loop
  acquire_state_issue_lease_lock fuel (some context) h = (h, some (acquired context))
  acquire_state_issue_lease_lock fuel none h =
      acquire_loop host.uuid4_hex get_lock_owner_context (host.monotonic h) fuel 1 h
