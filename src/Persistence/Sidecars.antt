-- ===== src/Persistence/Sidecars.antt =====
-- The side cars of a persisted entry: ensure_sidecar_subtree of
-- scripts/reviewer_bot_core/state_adapters.py, which brings older shapes of the entry into the present
-- one. A deepcopy is the value itself.
use safety_critical_rust_cod.Common.{String, decimal, if◌then◌else◌}
use safety_critical_rust_cod.Value.{
  Value, null, str, list, dict, Values, nil, cons, Dict, empty, entry, get, put, remove, is_true,
  is_text,
}
use safety_critical_rust_cod.Persistence.{dict_or_empty, text_of}

-- The dict that `_migrate_repair_marker` builds.
unfoldable pub marker_fields : Dict → Dict
unfolding get
marker_fields m = entry "kind" (get "kind" m) (
    entry "phase" (get "phase" m) (
      entry "status_code" (get "status_code" m) (
        entry "reason" (get "reason" m) (
          entry "failure_kind" (get "failure_kind" m) (
            entry "retry_attempts" (get "retry_attempts" m) (
              entry "recorded_at" (get "recorded_at" m)
                (entry "live_assignees" (get "live_assignees" m) empty)))))))

unfoldable pub migrate_repair_marker : Value → Value
unfolding marker_fields
migrate_repair_marker (dict m) = dict (marker_fields m)
migrate_repair_marker _ = null

-- The loop of `_migrate_deferred_gaps`.
unfoldable pub dict_entries : Dict → Dict
dict_entries empty = empty
dict_entries (entry k (dict payload) d) = entry k (dict payload) (dict_entries d)
dict_entries (entry k _ d) = dict_entries d

unfoldable pub migrate_deferred_gaps : Value → Dict
unfolding dict_entries
migrate_deferred_gaps (dict legacy) = dict_entries legacy
migrate_deferred_gaps _ = empty

-- A record of a reconciled event.
abbrev pub event_record : String → Value → Value
event_record key at = dict (entry "source_event_key" (str key) (entry "reconciled_at" at empty))

-- The loop over a list of keys.
unfoldable pub listed_events : Dict → Values → Dict
unfolding put
listed_events done nil = done
listed_events done (cons (str key) vs) = listed_events (put key (event_record key null) done) vs
listed_events done (cons _ vs) = listed_events done vs

module _ (python_str : Value → String) where
  -- `str(record.get("source_event_key") or source_event_key)`
  abbrev pub key_of : String → Value → String
  key_of key v = if is_true v then text_of python_str v else key

  unfoldable pub migrate_event : String → Value → Value
  unfolding get is_true decimal
  migrate_event key (dict r) =
      event_record (key_of key (get "source_event_key" r)) (get "reconciled_at" r)
  migrate_event key _ = event_record key null

  -- The loop over a dict.
  unfoldable pub migrate_events : Dict → Dict
  unfolding migrate_event
  migrate_events empty = empty
  migrate_events (entry k v d) = entry k (migrate_event k v) (migrate_events d)

  unfoldable pub migrate_reconciled_source_events : Value → Dict
  unfolding migrate_events listed_events
  migrate_reconciled_source_events (dict legacy) = migrate_events legacy
  migrate_reconciled_source_events (list keys) = listed_events empty keys
  migrate_reconciled_source_events _ = empty

-- A dict of the side cars, or one of the entry, or an empty one.
abbrev pub first_dict : Value → Value → Value
first_dict (dict d) _ = dict d
first_dict _ (dict d) = dict d
first_dict _ _ = dict empty

-- `sidecars["deferred_gaps"]`
abbrev pub gaps_of : Value → Value → Value
gaps_of (dict d) _ = dict d
gaps_of _ legacy = dict (migrate_deferred_gaps legacy)

-- `a if a is not None else b`
abbrev pub unless_none : Value → Value → Value
unless_none null b = b
unless_none a _ = a

-- The markers that the side cars hold, under the canonical names.
unfoldable pub canonical_markers : Dict → Dict
unfolding get migrate_repair_marker
canonical_markers m = entry "review_repair" (migrate_repair_marker (get "review_repair" m)) (
    entry "head_observation_repair" (migrate_repair_marker (get "head_observation_repair" m)) (
      entry "status_label_projection" (migrate_repair_marker (get "status_label_projection" m)) (
        entry "issue_snapshot_read" (migrate_repair_marker (get "issue_snapshot_read" m)) (
          entry "warning_dedupe_read" (migrate_repair_marker (get "warning_dedupe_read" m)) (
            entry "warning_post" (migrate_repair_marker (get "warning_post" m)) (
              entry "transition_dedupe_read"
                (migrate_repair_marker (get "transition_dedupe_read" m))
                (entry "transition_post" (migrate_repair_marker (get "transition_post" m)) (
                  entry "assignment_add_write"
                    (migrate_repair_marker (get "assignment_add_write" m))
                    (entry "assignment_remove_write"
                      (migrate_repair_marker (get "assignment_remove_write" m))
                      (entry "assignment_confirm_read"
                        (migrate_repair_marker (get "assignment_confirm_read" m)) empty))))))))))

-- The marker of an older shape goes to the canonical name that its kind or phase says.
unfoldable pub place_legacy_marker : Value → Dict → Dict
unfolding get put marker_fields
place_legacy_marker (dict legacy) markers =
    if is_text "projection_failure" (get "kind" legacy)
    then put "status_label_projection" (dict (marker_fields legacy)) markers
    else if is_text "review_repair" (get "phase" legacy)
    then put "review_repair" (dict (marker_fields legacy)) markers
    else if is_text "head_observation_repair" (get "phase" legacy)
    then put "head_observation_repair" (dict (marker_fields legacy)) markers
    else markers
place_legacy_marker _ markers = markers

module _ (python_str : Value → String) where
  -- The side cars of an entry, from those it has.
  unfoldable pub fill_sidecars : Dict → Dict → Dict
  unfolding get put
  fill_sidecars review_entry sidecars =
      let s1 =
        put "pending_privileged_commands"
          (first_dict (get "pending_privileged_commands" sidecars)
            (get "pending_privileged_commands" review_entry))
          sidecars in
      let s2 =
        put "deferred_gaps" (gaps_of (get "deferred_gaps" s1) (get "deferred_gaps" review_entry))
          s1 in
      let s3 =
        put "observer_discovery_watermarks"
          (first_dict (get "observer_discovery_watermarks" s2)
            (get "observer_discovery_watermarks" review_entry))
          s2 in
      let s4 =
        put "reconciled_source_events"
          (dict (
            migrate_reconciled_source_events python_str (
              unless_none (get "reconciled_source_events" s3)
                (get "reconciled_source_events" review_entry))))
          s3 in
      put "repair_markers"
        (dict (
          place_legacy_marker (get "repair_needed" review_entry)
            (canonical_markers (dict_or_empty (get "repair_markers" s4)))))
        s4

  unfoldable pub ensure_sidecar_subtree : Dict → Dict
  unfolding get put remove
  ensure_sidecar_subtree review_entry =
      let sidecars = fill_sidecars review_entry (dict_or_empty (get "sidecars" review_entry)) in
      remove "reconciled_source_events" (
        remove "observer_discovery_watermarks" (
          remove "deferred_gaps" (
            remove "pending_privileged_commands"
              (remove "repair_needed" (put "sidecars" (dict sidecars) review_entry)))))
