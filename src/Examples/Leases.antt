-- ===== src/Examples/Leases.antt =====
-- A lease that is held: scripts/reviewer_bot_lib/lease_lock.py.
use safety_critical_rust_cod.Common.{
  ℕ, is_some, ◌≤◌, ◌≡◌, refl, true, none, arith, String, some, [], ◌==◌, if◌then◌else◌, length,
  returned,
}
use safety_critical_rust_cod.Timestamps.{naive}
use safety_critical_rust_cod.Value.{Value, null, str, dict, Dict, entry, empty}
use safety_critical_rust_cod.LeaseLock.{
  Host, normalize_lock_metadata, render_lock_commit_message, parse_lock_commit_message, History,
  Call, Response, LeaseContext, bind, require_sha, checked,
}
use safety_critical_rust_cod.LeaseLock.Leases.{
  renew_state_issue_lease_lock, release_state_issue_lease_lock,
}
use safety_critical_rust_cod.LeaseLock.Acquire.{
  acquire_state_issue_lease_lock, acquired, lease, get_lock_owner_context,
}
use safety_critical_rust_cod.LeaseLock.Rounds.{IsTaken, IsSteady, Confirmed}
use safety_critical_rust_cod.LeaseLock.Acquisition.{
  acquire_total, acquire-IsTaken, acquire-Confirmed,
}
use safety_critical_rust_cod.LeaseLock.Codec.{parse_render}
use safety_critical_rust_cod.LeaseLock.Ownership.{IsOwned, renew-IsOwned, release-IsOwned}

abbrev held : Dict
held = entry "lock_state" (str "locked") (
    entry "lock_token" (str "token-1") (
      entry "lock_owner_run_id" (str "local-run") (
        entry "lock_owner_workflow" (str "reviewer-bot")
          (entry "lock_owner_job" (str "reviewer-bot") empty))))

abbrev response : ℕ → Value → Response
response status payload = record { status_code = some status; payload = payload; text = "" }

abbrev with_sha : String → Value
with_sha sha = dict (entry "sha" (str sha) empty)

-- A server on which this run holds the lock and every write succeeds.
abbrev answer : History → Call → Response
answer h c =
    if c.method == "PATCH"
    then response 200 null
    else if c.method == "POST"
    then response 201 (with_sha "b2")
    else if c.endpoint == "git/ref/heads/lock"
    then response 200 (dict (entry "object" (with_sha "a1") empty))
    else response 200 (
        dict
          (entry "tree" (with_sha "t0") (entry "message" (str "reviewer-bot-lock-v1\n{}") empty)))

abbrev host : Host
host = record {
  answer = answer;
  now = λ h. 100;
  fromisoformat = λ s. some (naive 50);
  isoformat = λ t. "2026-01-05T00:05:00+00:00";
  dumps = λ d. "{}";
  loads = λ s. some (dict (normalize_lock_metadata held));
  lock_ref_name = "refs/heads/lock";
  lock_ref_bootstrap_branch = "main";
  lock_lease_ttl = 300;
  lock_renewal_window = 60;
  lock_api_retry_limit = 3;
  lock_max_wait = 2;
  monotonic = length;
  uuid4_hex = "token-1";
  config_value = λ name. "";
  state_issue_html_url = "";
  python_str = λ v. "";
}

abbrev context : LeaseContext
context = record {
  lock_token = "token-1";
  lock_owner_run_id = "17";
  lock_owner_workflow = "bot";
  lock_owner_job = "review";
  state_issue_url = "";
  lock_ref = "refs/heads/lock";
  lock_expires_at = some "2026-01-05T00:00:00+00:00";
}

renewed : (renew_state_issue_lease_lock host context []).1 ≡ true
unfolding renew_state_issue_lease_lock bind require_sha checked
renewed = refl

renew-IsOwned_example :
    let k = (renew_state_issue_lease_lock host context []).0 in
    IsOwned host "token-1" [] k × (length k ≤ 24)
renew-IsOwned_example = renew-IsOwned host context []

release-IsOwned_example :
    let k = (release_state_issue_lease_lock host (some context) []).0 in
    IsOwned host "token-1" [] k × (length k ≤ 24)
release-IsOwned_example = release-IsOwned host context []

host-IsSteady : IsSteady host
host-IsSteady = record { never_back = λ e h. omega arith; asleep = λ n h. omega arith }

acquire_total_example : is_some (acquire_state_issue_lease_lock host 4 none []).1 ≡ true
acquire_total_example = acquire_total host none 4 [] host-IsSteady (omega arith)

acquire-IsTaken_example : IsTaken host [] (acquire_state_issue_lease_lock host 4 none []).0
acquire-IsTaken_example = acquire-IsTaken host 4 []

abbrev acquired_lease : LeaseContext
acquired_lease =
    lease host "token-1" (get_lock_owner_context host) (some "2026-01-05T00:05:00+00:00")

acquired_now : (acquire_state_issue_lease_lock host 4 none []).1 ≡ some (acquired acquired_lease)
unfolding acquire_state_issue_lease_lock get_lock_owner_context bind require_sha checked
acquired_now = refl

acquire-Confirmed_example :
    Confirmed host "token-1"
      (get_lock_owner_context host)
      (acquire_state_issue_lease_lock host 4 none []).0
acquire-Confirmed_example = acquire-Confirmed host 4 [] acquired_lease acquired_now

parse_render_example :
    (parse_lock_commit_message host (render_lock_commit_message host held)
      ≡ returned (normalize_lock_metadata held))
    × (render_lock_commit_message host (normalize_lock_metadata held)
        ≡ render_lock_commit_message host held)
parse_render_example = parse_render host held refl
