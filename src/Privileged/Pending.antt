-- ===== src/Privileged/Pending.antt =====
-- The pending commands in the state: scripts/reviewer_bot_core/privileged_command_policy.py. A function
-- that adds missing dicts or changes a record returns the new entry. What `tuple` makes of a text, a
-- dict or a list with another element is outside the types, and is the error "untyped".

use safety_critical_rust_cod.Common.{
  ℕ, String, Bool, true, false, ◌&&◌, Option, none, some, List, or_else, if◌then◌else◌, Checked,
  returned, raised, ◌>>=◌,
}
use safety_critical_rust_cod.Value.{
  Value, bool, int, str, list, dict, Dict, empty, entry, get, put, is_true, as_dict,
}
use safety_critical_rust_cod.Persistence.{
  has_key, texts_of, values_of, persisted_text, dict_or_empty, text_of, optional_text, int_of,
}
use safety_critical_rust_cod.Privileged.{PendingAcceptNoFlsChangesRecord}

-- `asdict(record)`
unfoldable pub record_to_dict : PendingAcceptNoFlsChangesRecord → Dict
record_to_dict r = entry "source_event_key" (str r.source_event_key) (
    entry "command_name" (str r.command_name) (
      entry "issue_number" (int r.issue_number) (
        entry "actor" (str r.actor) (
          entry "authorization_required_permission" (str r.authorization_required_permission) (
            entry "authorization_authorized" (bool r.authorization_authorized) (
              entry "target_kind" (str r.target_kind) (
                entry "target_number" (int r.target_number) (
                  entry "target_labels_snapshot" (list (values_of r.target_labels_snapshot)) (
                    entry "status" (str r.status) (
                      entry "created_at" (str r.created_at) (
                        entry "completed_at" (persisted_text r.completed_at) (
                          entry "result_code" (persisted_text r.result_code) (
                            entry "result_message" (persisted_text r.result_message) (
                              entry "opened_pr_url" (persisted_text r.opened_pr_url)
                                empty))))))))))))))

-- The keys that are read by `record[key]`.
unfoldable pub has_fields : Dict → Bool
unfolding has_key
has_fields d =
    has_key "source_event_key" d
    && has_key "command_name" d
    && has_key "issue_number" d
    && has_key "actor" d
    && has_key "authorization_required_permission" d
    && has_key "authorization_authorized" d
    && has_key "target_kind" d
    && has_key "target_number" d
    && has_key "target_labels_snapshot" d
    && has_key "status" d
    && has_key "created_at" d

-- `tuple(value)`; None, a number and a Boolean are no iterables.
unfoldable pub labels_of : Value → Checked (Option (List String))
labels_of (list vs) = texts_of vs >>= λ labels. returned (some labels)
labels_of (str s) = raised "untyped"
labels_of (dict d) = raised "untyped"
labels_of _ = returned none

module _ (python_str : Value → String) (python_int : String → Option ℕ) where
  -- The record, from its two numbers and its labels.
  unfoldable pub record_with : Dict → ℕ → ℕ → List String → PendingAcceptNoFlsChangesRecord
  unfolding get is_true
  record_with d issue_number target_number labels = record {
    source_event_key = text_of python_str (get "source_event_key" d);
    command_name = text_of python_str (get "command_name" d);
    issue_number = issue_number;
    actor = text_of python_str (get "actor" d);
    authorization_required_permission =
        text_of python_str (get "authorization_required_permission" d);
    authorization_authorized = is_true (get "authorization_authorized" d);
    target_kind = text_of python_str (get "target_kind" d);
    target_number = target_number;
    target_labels_snapshot = labels;
    status = text_of python_str (get "status" d);
    created_at = text_of python_str (get "created_at" d);
    completed_at = optional_text python_str (get "completed_at" d);
    result_code = optional_text python_str (get "result_code" d);
    result_message = optional_text python_str (get "result_message" d);
    opened_pr_url = optional_text python_str (get "opened_pr_url" d);
  }

  unfoldable pub with_labels :
      Dict → ℕ → ℕ → Option (List String) → Option PendingAcceptNoFlsChangesRecord
  with_labels d issue_number target_number none = none
  with_labels d issue_number target_number (some labels) =
      some (record_with d issue_number target_number labels)

  -- An error in a number is caught.
  unfoldable pub with_numbers :
      Dict → Checked ℕ → Checked ℕ → Checked (Option PendingAcceptNoFlsChangesRecord)
  unfolding get labels_of with_labels
  with_numbers d (returned issue_number) (returned target_number) =
      labels_of (get "target_labels_snapshot" d) >>= λ labels.
      returned (with_labels d issue_number target_number labels)
  with_numbers d issue_number target_number = returned none

  -- `_coerce_pending_accept_no_fls_changes_record`
  unfoldable pub coerce_record : Value → Checked (Option PendingAcceptNoFlsChangesRecord)
  unfolding get has_fields int_of with_numbers
  coerce_record (dict d) =
      if has_fields d
      then with_numbers d (int_of python_str python_int (get "issue_number" d))
          (int_of python_str python_int (get "target_number" d))
      else returned none
  coerce_record _ = returned none

-- `get_pending_privileged_commands(review_data)`
unfoldable pub get_pending_privileged_commands : Dict → Dict
unfolding get
get_pending_privileged_commands review_data =
    dict_or_empty (get "pending_privileged_commands" (dict_or_empty (get "sidecars" review_data)))

-- The entry with these pending commands, in dicts that are added if they are missing.
unfoldable pub set_pending : Dict → Dict → Dict
unfolding get put
set_pending pending review_data =
    put "sidecars"
      (dict (
        put "pending_privileged_commands" (dict pending)
          (dict_or_empty (get "sidecars" review_data))))
      review_data

unfoldable pub put_pending_accept_no_fls_changes : Dict → PendingAcceptNoFlsChangesRecord → Dict
unfolding put set_pending get_pending_privileged_commands record_to_dict
put_pending_accept_no_fls_changes review_data r =
    set_pending
      (put r.source_event_key (dict (record_to_dict r))
        (get_pending_privileged_commands review_data))
      review_data

-- The entry with the dicts that reading the pending commands adds.
abbrev pub touched : Dict → Dict
touched review_data = set_pending (get_pending_privileged_commands review_data) review_data

module _ (python_str : Value → String) (python_int : String → Option ℕ) where
  -- The record that is loaded; the entry becomes `touched`.
  unfoldable pub load_pending_accept_no_fls_changes :
      Dict → String → Checked (Option PendingAcceptNoFlsChangesRecord)
  unfolding get get_pending_privileged_commands coerce_record
  load_pending_accept_no_fls_changes review_data source_event_key =
      coerce_record python_str python_int
        (get source_event_key (get_pending_privileged_commands review_data))

  abbrev Found : Type 0
  Found = Option (ℕ × Dict × PendingAcceptNoFlsChangesRecord)

  -- The entry of the issue whose record was found, or the rest of the loop.
  unfoldable pub found_in :
      String
      → Dict
      → Dict
      → Checked (Dict × Found)
      → Option PendingAcceptNoFlsChangesRecord
      → Checked (Dict × Found)
  found_in issue_key review_data rest later (some r) = returned (
    entry issue_key (dict review_data) rest,
    some (or_else (python_int issue_key) r.issue_number, review_data, r),
  )
  found_in issue_key review_data rest later none =
      later >>= λ found. returned (entry issue_key (dict review_data) found.0, found.1)

  -- The loop over the active reviews, with the entries that it touches.
  unfoldable pub find_in : String → Dict → Checked (Dict × Found)
  unfolding load_pending_accept_no_fls_changes found_in
  find_in source_event_key empty = returned (empty, none)
  find_in source_event_key (entry issue_key (dict review_data) rest) =
      load_pending_accept_no_fls_changes review_data source_event_key
      >>= found_in issue_key (touched review_data) rest (find_in source_event_key rest)
  find_in source_event_key (entry issue_key value rest) =
      find_in source_event_key rest >>= λ found. returned (entry issue_key value found.0, found.1)

  unfoldable pub find_pending_accept_no_fls_changes : Dict → String → Checked (Dict × Found)
  unfolding get put find_in
  find_pending_accept_no_fls_changes state source_event_key = elim (get "active_reviews" state) [
    | dict active_reviews ↦ find_in source_event_key active_reviews >>= λ found.
        returned (put "active_reviews" (dict found.0) state, found.1)
    | _ ↦ returned (state, none)
  ]

-- A key that is set only if there is a value.
abbrev put_given : String → Option String → Dict → Dict
put_given key none d = d
put_given key (some value) d = put key (str value) d

-- The entry with a changed record, if there is one that is a dict.
unfoldable pub change_record : String → (Dict → Dict) → Dict → Dict × Bool
unfolding get put get_pending_privileged_commands set_pending
change_record source_event_key change review_data =
    let pending = get_pending_privileged_commands review_data in
    elim (as_dict (get source_event_key pending)) [
      | none ↦ (touched review_data, false)
      | some r ↦ (set_pending (put source_event_key (dict (change r)) pending) review_data, true)
    ]

abbrev pub executed_record : String → String → String → Option String → Dict → Dict
executed_record completed_at result result_message opened_pr_url r =
    put_given "opened_pr_url" opened_pr_url (
      put "result_message" (str result_message) (
        put "result_code" (str result)
          (put "completed_at" (str completed_at) (put "status" (str "executed") r))))

unfoldable pub mark_pending_accept_no_fls_changes_executed :
    Dict → String → String → String → String → Option String → Dict × Bool
unfolding put change_record
mark_pending_accept_no_fls_changes_executed review_data source_event_key completed_at result
      result_message opened_pr_url =
    change_record source_event_key
      (executed_record completed_at result result_message opened_pr_url) review_data

abbrev failed_record : String → String → Option String → Dict → Dict
failed_record completed_at result result_message r = put_given "result_message" result_message (
    put "result_code" (str result)
      (put "completed_at" (str completed_at) (put "status" (str "failed_closed") r)))

unfoldable pub mark_pending_accept_no_fls_changes_failed_closed :
    Dict → String → String → String → Option String → Dict × Bool
unfolding put change_record
mark_pending_accept_no_fls_changes_failed_closed review_data source_event_key completed_at result
      result_message =
    change_record source_event_key (failed_record completed_at result result_message) review_data
