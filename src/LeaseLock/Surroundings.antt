-- ===== src/LeaseLock/Surroundings.antt =====
-- What the lease lock reads of its surroundings, and code that calls GitHub and may raise an error:
-- scripts/reviewer_bot_lib/config.py for the records, scripts/reviewer_bot_lib/lease_lock.py.
use safety_critical_rust_cod.Common.{ℕ, String, Option, none, some, List, Checked, returned, raised}
use safety_critical_rust_cod.Value.{Value, Dict}
use safety_critical_rust_cod.Timestamps.{DateTime}

-- `GitHubApiResult`, the fields that this code reads. No status is a failure of transport.
pub record Response : Type 0 where
  pub status_code : Option ℕ
  pub payload : Value
  pub text : String

pub record Call : Type 0 where
  pub method : String
  pub endpoint : String
  pub body : Value

pub data Event : Type 0 where
  called : Call → Event
  slept : ℕ → Event

-- The newest event first.
abbrev pub History : Type 0
History = List Event

-- What the lock code reads of its surroundings. An instant is a number of microseconds, and so is a
-- span of time. `config_value` gives the empty text for a name that is not set, and `python_str` is
-- `str` of a value that is no text.
pub record Host : Type 0 where
  pub answer : History → Call → Response
  pub now : History → ℕ
  pub fromisoformat : String → Option DateTime
  pub isoformat : ℕ → String
  pub dumps : Dict → String
  pub loads : String → Option Value
  pub lock_ref_name : String
  pub lock_ref_bootstrap_branch : String
  pub lock_lease_ttl : ℕ
  pub lock_renewal_window : ℕ
  pub lock_api_retry_limit : ℕ
  pub lock_max_wait : ℕ
  pub monotonic : History → ℕ
  pub uuid4_hex : String
  pub config_value : String → String
  pub state_issue_html_url : String
  pub python_str : Value → String

-- `LeaseContext`
pub record LeaseContext : Type 0 where
  pub lock_token : String
  pub lock_owner_run_id : String
  pub lock_owner_workflow : String
  pub lock_owner_job : String
  pub state_issue_url : String
  pub lock_ref : String
  pub lock_expires_at : Option String

-- Code that calls GitHub, sleeps, and may raise an error.
abbrev pub Action : Type 0 → Type 0
Action A = History → History × Checked A

-- The rest of the code after a result; an error ends it.
abbrev pub proceed : {A B : Type 0} → (A → Action B) → History × Checked A → History × Checked B
proceed f (h, returned a) = f a h
proceed f (h, raised e) = (h, raised e)

unfoldable pub bind : {A B : Type 0} → Action A → (A → Action B) → Action B
bind m f h = proceed f (m h)

unfoldable pub done_with : {A : Type 0} → A → Action A
done_with a h = (h, returned a)

unfoldable pub fail : {A : Type 0} → String → Action A
fail e h = (h, raised e)

unfoldable pub require_sha : String → Option String → Action String
unfolding fail done_with
require_sha message none = fail message
require_sha message (some sha) = done_with sha

unfoldable pub checked : {A : Type 0} → Checked A → Action A
checked result h = (h, result)
