-- ===== src/LeaseLock.antt =====
-- The lease lock, a commit message on a ref of the repository: scripts/reviewer_bot_lib/lock_codec.py
-- and the reads and writes of scripts/reviewer_bot_lib/lease_lock.py.
--
-- GitHub's answer to a call is a function of the history of all calls and sleeps before it, so that
-- any behaviour of the server and of other runs that hold the lock is covered; so is the clock.
-- The JSON codec and the printing of an instant are parameters.
pub mod Surroundings
pub mod Leases
pub mod Bounds
pub mod Guards
pub mod Ownership
pub mod Acquire
pub mod Rounds
pub mod Acquisition
pub mod Codec
unfoldable pub use Surroundings.*
use Prim.Native.Char.{code}
use Prim.Native.String.{[] as no_text, ◌∷◌ as char_then}
use safety_critical_rust_cod.Common.{
  ℕ, zero, suc, ◌+◌, String, append_text, Bool, true, false, not, ◌&&◌, ◌||◌, Option, none, some,
  List, [], ◌∷◌, ◌==◌, eqb, ltb, leb, if◌then◌else◌, any, truthy, strip, decimal, Checked, returned,
  raised,
}
use safety_critical_rust_cod.Value.{
  Value, null, int, str, dict, Dict, empty, entry, get, bool, list, cons, nil,
}
use safety_critical_rust_cod.Timestamps.{DateTime, parse_iso8601_utc}

-- lock_codec.py

-- An `int`, and `bool` is one.
abbrev schema_of : Value → Value
schema_of (int n) = int n
schema_of (bool b) = bool b
schema_of _ = int 1

unfoldable pub normalize_lock_metadata : Dict → Dict
unfolding get
normalize_lock_metadata d = entry "schema_version" (schema_of (get "schema_version" d)) (
    entry "lock_state" (get "lock_state" d) (
      entry "lock_owner_run_id" (get "lock_owner_run_id" d) (
        entry "lock_owner_workflow" (get "lock_owner_workflow" d) (
          entry "lock_owner_job" (get "lock_owner_job" d) (
            entry "lock_token" (get "lock_token" d) (
              entry "lock_acquired_at" (get "lock_acquired_at" d)
                (entry "lock_expires_at" (get "lock_expires_at" d) empty)))))))

abbrev pub marker : String
marker = "reviewer-bot-lock-v1\n"

-- `text[len(prefix):]` if the text starts with the prefix.
unfoldable pub without_prefix : String → String → Option String
without_prefix no_text s = some s
without_prefix (char_then c p) no_text = none
without_prefix (char_then c p) (char_then d s) =
    let rest = without_prefix p s in if eqb (code c) (code d) then rest else none

-- `payload.get(key)` if the payload is a dict.
unfoldable pub field : String → Value → Value
unfolding get
field key (dict d) = get key d
field key _ = null

abbrev non_empty_text : Value → Option String
non_empty_text (str s) = if truthy s then some s else none
non_empty_text _ = none

unfoldable pub extract_ref_sha : Value → Option String
unfolding field
extract_ref_sha payload = non_empty_text (field "sha" (field "object" payload))

unfoldable pub extract_commit_tree_sha : Value → Option String
unfolding field
extract_commit_tree_sha payload = non_empty_text (field "sha" (field "tree" payload))

unfoldable pub extract_commit_sha : Value → Option String
unfolding field
extract_commit_sha payload = non_empty_text (field "sha" payload)

abbrev pub has_status : List ℕ → Response → Bool
has_status codes response = elim response.status_code [
  | none ↦ false
  | some status ↦ any (eqb status) codes
]

-- retrying.is_retryable_status
abbrev pub is_retryable_status : Option ℕ → Bool
is_retryable_status none = false
is_retryable_status (some status) = eqb status 429 || leb 500 status

abbrev show_status : Response → String
show_status response = elim response.status_code [ none ↦ "None" | some n ↦ decimal n ]

abbrev concat : List String → String
concat [] = ""
concat (s ∷ ss) = append_text s (concat ss)

-- " (status 404): text"
abbrev with_status : String → Response → String
with_status message response =
    concat (message ∷ " (status " ∷ show_status response ∷ "): " ∷ response.text ∷ [])

-- `normalize_lock_ref_name`
unfoldable pub normalize_lock_ref_name : String → String
unfolding strip without_prefix
normalize_lock_ref_name ref_name =
    let stripped = strip ref_name in
    let normalized : String = elim (without_prefix "refs/" stripped) [
      | none ↦ stripped
      | some s ↦ s
    ] in
    if truthy normalized then normalized else "heads/reviewer-bot-state-lock"

abbrev pub is_dict : Value → Bool
is_dict (dict d) = true
is_dict _ = false

abbrev pub text_or_empty : Value → String
text_or_empty (str s) = s
text_or_empty _ = ""

module _ (host : Host) where
  unfoldable pub render_lock_commit_message : Dict → String
  unfolding normalize_lock_metadata
  render_lock_commit_message lock_meta =
      append_text marker (host.dumps (normalize_lock_metadata lock_meta))

  unfoldable pub parse_lock_commit_message : String → Checked Dict
  unfolding normalize_lock_metadata without_prefix
  parse_lock_commit_message message =
      let invalid : Checked Dict = raised "invalid reviewer-bot lock commit message" in
      elim (without_prefix marker message) [
        | none ↦ invalid
        | some lock_json ↦ elim (host.loads lock_json) [
          | some (dict d) ↦ returned (normalize_lock_metadata d)
          | _ ↦ invalid
        ]
      ]

  unfoldable pub lock_ref : String
  unfolding normalize_lock_ref_name
  lock_ref = normalize_lock_ref_name host.lock_ref_name

  unfoldable pub send : Call → History → History × Response
  send call h = (called call ∷ h, host.answer h call)

  unfoldable pub request : Call → Action Response
  unfolding send
  request call h = let (h', response) = send call h in (h', returned response)

  abbrev pub get_call : String → Call
  get_call endpoint = record { method = "GET"; endpoint = endpoint; body = null }

  -- "refs/..." of the lock ref
  abbrev pub display : String
  display = append_text "refs/" lock_ref

  abbrev ref_sha_of : Response → Action String
  ref_sha_of response =
      require_sha "Reviewer-bot lock ref exists but SHA was missing"
        (extract_ref_sha response.payload)

  refresh_lock_ref : Action String
  unfolding lock_ref request extract_ref_sha
  refresh_lock_ref = bind (request (get_call (append_text "git/ref/" lock_ref))) (λ refreshed.
      if has_status (200 ∷ []) refreshed
      then ref_sha_of refreshed
      else fail (with_status "Unable to read reviewer-bot lock ref after create" refreshed))

  create_lock_ref : String → Action String
  unfolding lock_ref request refresh_lock_ref
  create_lock_ref branch_sha =
      bind
        (request (record {
          method = "POST";
          endpoint = "git/refs";
          body = dict (entry "ref" (str display) (entry "sha" (str branch_sha) empty));
        }))
        (λ created.
          if has_status (201 ∷ 422 ∷ []) created
          then refresh_lock_ref
          else fail
              (with_status (append_text "Failed to create reviewer-bot lock ref " display) created))

  bootstrap_lock_ref : Action String
  unfolding request extract_ref_sha create_lock_ref
  bootstrap_lock_ref =
      let branch = host.lock_ref_bootstrap_branch in
      bind (request (get_call (append_text "git/ref/heads/" branch))) (λ response.
        if has_status (200 ∷ []) response
        then bind
            (require_sha "Bootstrap branch ref did not include SHA"
              (extract_ref_sha response.payload))
            create_lock_ref
        else fail (
            with_status
              (concat (
                "Unable to read bootstrap branch refs/heads/" ∷ branch
                ∷ " for reviewer-bot lock ref create" ∷ []))
              response))

  unfoldable pub ensure_lock_ref_exists : Action String
  unfolding lock_ref request extract_ref_sha bootstrap_lock_ref
  ensure_lock_ref_exists = bind (request (get_call (append_text "git/ref/" lock_ref))) (λ response.
      if has_status (200 ∷ []) response
      then ref_sha_of response
      else if has_status (404 ∷ 422 ∷ []) response
      then bootstrap_lock_ref
      else fail
          (with_status (append_text "Failed to read reviewer-bot lock ref " display) response))

  read_lock_commit : String → Response → Action (String × String × Dict)
  unfolding field extract_commit_tree_sha parse_lock_commit_message
  read_lock_commit ref_sha response =
      if not (has_status (200 ∷ []) response)
      then fail (with_status (append_text "Failed to read lock commit " ref_sha) response)
      else if not (is_dict response.payload)
      then fail "Lock commit response payload was not a JSON object"
      else bind
          (require_sha "Lock commit payload missing tree SHA"
            (extract_commit_tree_sha response.payload))
          (λ tree_sha.
            bind
              (checked
                (parse_lock_commit_message (text_or_empty (field "message" response.payload))))
              (λ lock_meta. done_with (ref_sha, tree_sha, lock_meta)))

  unfoldable pub get_lock_ref_snapshot : Action (String × String × Dict)
  unfolding ensure_lock_ref_exists request read_lock_commit
  get_lock_ref_snapshot = bind ensure_lock_ref_exists (λ ref_sha.
      bind (request (get_call (append_text "git/commits/" ref_sha))) (read_lock_commit ref_sha))

  unfoldable pub create_lock_commit : String → String → Dict → History → History × Response
  unfolding send render_lock_commit_message
  create_lock_commit parent_sha tree_sha lock_meta = send (record {
    method = "POST";
    endpoint = "git/commits";
    body = dict (
        entry "message" (str (render_lock_commit_message lock_meta))
          (entry "tree" (str tree_sha) (entry "parents" (list (cons (str parent_sha) nil)) empty)));
  })

  unfoldable pub cas_update_lock_ref : String → History → History × Response
  unfolding send lock_ref
  cas_update_lock_ref new_sha = send (record {
    method = "PATCH";
    endpoint = append_text "git/refs/" lock_ref;
    body = dict (entry "sha" (str new_sha) (entry "force" (bool false) empty));
  })
