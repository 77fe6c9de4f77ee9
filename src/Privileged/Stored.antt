-- ===== src/Privileged/Stored.antt =====
-- A pending command that is stored is loaded again: scripts/reviewer_bot_core/privileged_command_policy.py.
use safety_critical_rust_cod.Common.{
  ℕ, ◌≡◌, refl, String, true, false, Option, none, some, ◌==◌, eq_iff, if◌then◌else◌, returned,
}
use safety_critical_rust_cod.Value.{Value, dict, Dict, get, put, get-put, dict_laws, is_true}
use safety_critical_rust_cod.Persistence.{has_key, int_of}
use safety_critical_rust_cod.Persistence.RoundTrip.{
  texts_of-values_of, optional_text-persisted_text,
}
use safety_critical_rust_cod.Privileged.{PendingAcceptNoFlsChangesRecord}
use safety_critical_rust_cod.Privileged.Pending.{
  record_to_dict, has_fields, labels_of, record_with, with_labels, with_numbers, coerce_record,
  get_pending_privileged_commands, set_pending, put_pending_accept_no_fls_changes,
  load_pending_accept_no_fls_changes, change_record, executed_record,
  mark_pending_accept_no_fls_changes_executed,
}

-- What was set is what is pending.
pending-set :
    (pending review_data : Dict)
    → get_pending_privileged_commands (set_pending pending review_data) ≡ pending
unfolding get_pending_privileged_commands set_pending
pending-set pending review_data = simp dict_laws

get-put_here : (k : String) (v : Value) (d : Dict) → get k (put k v d) ≡ v
get-put_here k v d = rw (get-put k k v d, (eq_iff k k).1 refl, if◌then◌else◌) refl

change-found :
    (key : String) (d : Dict) (change : Dict → Dict) (review_data : Dict)
    → get key (get_pending_privileged_commands review_data) ≡ dict d
    → change_record key change review_data ≡ (
      set_pending
          (put key (dict (change d)) (get_pending_privileged_commands review_data))
          review_data,
      true,
    )
unfolding change_record
change-found key d change review_data h = rw (h, change_record) refl

module _ (python_str : Value → String) (python_int : String → Option ℕ) where
  coerce-record_to_dict :
      (r : PendingAcceptNoFlsChangesRecord)
      → coerce_record python_str python_int (dict (record_to_dict r)) ≡ returned (some r)
  unfolding coerce_record record_to_dict has_fields has_key get int_of with_numbers labels_of
      with_labels record_with is_true
  coerce-record_to_dict r = simp (texts_of-values_of, optional_text-persisted_text)

  load-put_same :
      (review_data : Dict) (r : PendingAcceptNoFlsChangesRecord)
      → load_pending_accept_no_fls_changes python_str python_int
          (put_pending_accept_no_fls_changes review_data r)
          r.source_event_key
        ≡ returned (some r)
  unfolding load_pending_accept_no_fls_changes put_pending_accept_no_fls_changes
  load-put_same review_data r = rw (pending-set, get-put_here) (coerce-record_to_dict r)

  load-put_other :
      (review_data : Dict) (r : PendingAcceptNoFlsChangesRecord) (key : String)
      → r.source_event_key == key ≡ false
      → load_pending_accept_no_fls_changes python_str python_int
          (put_pending_accept_no_fls_changes review_data r)
          key
        ≡ load_pending_accept_no_fls_changes python_str python_int review_data key
  unfolding load_pending_accept_no_fls_changes put_pending_accept_no_fls_changes
  load-put_other review_data r key h = rw (pending-set, get-put, h) refl

  abbrev pub executed :
      PendingAcceptNoFlsChangesRecord
      → String
      → String
      → String
      → Option String
      → PendingAcceptNoFlsChangesRecord
  executed r completed_at result message url = record r {
    status = "executed";
    completed_at = some completed_at;
    result_code = some result;
    result_message = some message;
    opened_pr_url = url;
  }

  coerce-executed :
      (r : PendingAcceptNoFlsChangesRecord) (completed_at result message : String)
      (url : Option String)
      → r.opened_pr_url ≡ none
      → coerce_record python_str python_int
          (dict (executed_record completed_at result message url (record_to_dict r)))
        ≡ returned (some (executed r completed_at result message url))
  unfolding coerce_record record_to_dict has_fields has_key get put int_of with_numbers labels_of
      with_labels record_with is_true
  coerce-executed r completed_at result message none fresh =
      simp (texts_of-values_of, optional_text-persisted_text, fresh)
  coerce-executed r completed_at result message (some u) fresh =
      simp (texts_of-values_of, optional_text-persisted_text)

  -- A pending command that was stored is loaded as it was, and loads of other commands are as before;
  -- one that was stored without the address of a pull request and is then marked as executed is loaded
  -- with its result.
  pub load-stored :
      (review_data : Dict) (r : PendingAcceptNoFlsChangesRecord)
      (completed_at result message : String) (url : Option String)
      → r.opened_pr_url ≡ none
      → (load_pending_accept_no_fls_changes python_str python_int
            (put_pending_accept_no_fls_changes review_data r)
            r.source_event_key
          ≡ returned (some r))
        × ((key : String)
            → r.source_event_key == key ≡ false
            → load_pending_accept_no_fls_changes python_str python_int
                (put_pending_accept_no_fls_changes review_data r)
                key
              ≡ load_pending_accept_no_fls_changes python_str python_int review_data key)
        × (load_pending_accept_no_fls_changes python_str python_int
              (mark_pending_accept_no_fls_changes_executed
                (put_pending_accept_no_fls_changes review_data r)
                r.source_event_key
                completed_at
                result
                message
                url).0
              r.source_event_key
            ≡ returned (some (executed r completed_at result message url)))
  unfolding load_pending_accept_no_fls_changes mark_pending_accept_no_fls_changes_executed
      put_pending_accept_no_fls_changes
  load-stored review_data r completed_at result message url fresh =
      let key = r.source_event_key in
      let stored : Dict = put_pending_accept_no_fls_changes review_data r in
      let there : get key (get_pending_privileged_commands stored) ≡ dict (record_to_dict r) =
        rw (pending-set, get-put_here) refl in
      (
        load-put_same review_data r,
        λ other h. load-put_other review_data r other h,
        rw
            (
              change-found key (record_to_dict r) (executed_record completed_at result message url)
                  stored there,
              pending-set,
              get-put_here,
            )
            (coerce-executed r completed_at result message url fresh),
      )
