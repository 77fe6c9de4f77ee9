-- ===== src/Persistence/Entries.antt =====
-- The persisted form of a whole review entry: review_entry_from_persisted, review_entry_to_persisted and
-- apply_local_state_core_to_persisted of scripts/reviewer_bot_core/state_adapters.py.
use safety_critical_rust_cod.Common.{ℕ, String, Option, some, none, Checked, returned, ◌>>=◌, false}
use safety_critical_rust_cod.Value.{
  Value, bool, list, dict, Dict, empty, entry, get, get_default, put, is_true,
}
use safety_critical_rust_cod.Review.Types.{ReviewChannelState, ReviewEntryState}
use safety_critical_rust_cod.Persistence.{
  list_or_empty, values_of, persisted_text, dict_or_empty, optional_text, channel_from_persisted,
  channel_to_persisted, reviewer_handoff_from_persisted, reviewer_handoff_to_persisted,
}

-- The entry as a dict: `review_entry_from_persisted` of a dict.
module _ (python_str : Value → String) (python_int : String → Option ℕ) where
  unfoldable pub entry_of_dict : Dict → Checked ReviewEntryState
  unfolding get get_default is_true
  entry_of_dict review_entry =
      let channel : String → Checked ReviewChannelState =
        λ name. channel_from_persisted python_str python_int (get name review_entry) in
      let optional : String → Option String =
        λ name. optional_text python_str (get name review_entry) in
      list_or_empty (get "skipped" review_entry) >>= λ skipped.
      channel "reviewer_comment" >>= λ reviewer_comment.
      channel "reviewer_review" >>= λ reviewer_review.
      channel "contributor_comment" >>= λ contributor_comment.
      channel "contributor_revision" >>= λ contributor_revision.
      channel "review_dismissal" >>= λ review_dismissal. returned (record {
        skipped = skipped;
        current_reviewer = optional "current_reviewer";
        cycle_started_at = optional "cycle_started_at";
        active_cycle_started_at = optional "active_cycle_started_at";
        assigned_at = optional "assigned_at";
        active_head_sha = optional "active_head_sha";
        last_reviewer_activity = optional "last_reviewer_activity";
        transition_warning_sent = optional "transition_warning_sent";
        transition_notice_sent_at = optional "transition_notice_sent_at";
        assignment_method = optional "assignment_method";
        review_completed_at = optional "review_completed_at";
        review_completed_by = optional "review_completed_by";
        review_completion_source = optional "review_completion_source";
        mandatory_approver_required =
            is_true (get_default "mandatory_approver_required" (bool false) review_entry);
        mandatory_approver_label_applied_at = optional "mandatory_approver_label_applied_at";
        mandatory_approver_pinged_at = optional "mandatory_approver_pinged_at";
        mandatory_approver_satisfied_by = optional "mandatory_approver_satisfied_by";
        mandatory_approver_satisfied_at = optional "mandatory_approver_satisfied_at";
        overdue_anchor = get "overdue_anchor" review_entry;
        reviewer_comment = reviewer_comment;
        reviewer_review = reviewer_review;
        contributor_comment = contributor_comment;
        contributor_revision = contributor_revision;
        review_dismissal = review_dismissal;
        current_cycle_completion = dict_or_empty (get "current_cycle_completion" review_entry);
        current_cycle_write_approval =
            dict_or_empty (get "current_cycle_write_approval" review_entry);
        current_cycle_reviewer_handoff =
            reviewer_handoff_from_persisted (get "current_cycle_reviewer_handoff" review_entry);
      })

  unfoldable pub review_entry_from_persisted : Value → Checked (Option ReviewEntryState)
  unfolding entry_of_dict
  review_entry_from_persisted (dict d) = entry_of_dict d >>= λ e. returned (some e)
  review_entry_from_persisted (list vs) =
      entry_of_dict (entry "skipped" (list vs) empty) >>= λ e. returned (some e)
  review_entry_from_persisted _ = returned none

unfoldable pub review_entry_to_persisted : ReviewEntryState → Dict
review_entry_to_persisted e = entry "skipped" (list (values_of e.skipped)) (
    entry "current_reviewer" (persisted_text e.current_reviewer) (
      entry "cycle_started_at" (persisted_text e.cycle_started_at) (
        entry "active_cycle_started_at" (persisted_text e.active_cycle_started_at) (
          entry "assigned_at" (persisted_text e.assigned_at) (
            entry "active_head_sha" (persisted_text e.active_head_sha) (
              entry "last_reviewer_activity" (persisted_text e.last_reviewer_activity) (
                entry "transition_warning_sent" (persisted_text e.transition_warning_sent) (
                  entry "transition_notice_sent_at" (persisted_text e.transition_notice_sent_at) (
                    entry "assignment_method" (persisted_text e.assignment_method) (
                      entry "review_completed_at" (persisted_text e.review_completed_at) (
                        entry "review_completed_by" (persisted_text e.review_completed_by) (
                          entry "review_completion_source"
                            (persisted_text e.review_completion_source)
                            (entry "mandatory_approver_required"
                              (bool e.mandatory_approver_required)
                              (entry "mandatory_approver_label_applied_at"
                                (persisted_text e.mandatory_approver_label_applied_at)
                                (entry "mandatory_approver_pinged_at"
                                  (persisted_text e.mandatory_approver_pinged_at)
                                  (entry "mandatory_approver_satisfied_by"
                                    (persisted_text e.mandatory_approver_satisfied_by)
                                    (entry "mandatory_approver_satisfied_at"
                                      (persisted_text e.mandatory_approver_satisfied_at)
                                      (entry "overdue_anchor" e.overdue_anchor (
                                        entry "reviewer_comment"
                                          (channel_to_persisted e.reviewer_comment)
                                          (entry "reviewer_review"
                                            (channel_to_persisted e.reviewer_review)
                                            (entry "contributor_comment"
                                              (channel_to_persisted e.contributor_comment)
                                              (entry "contributor_revision"
                                                (channel_to_persisted e.contributor_revision)
                                                (entry "review_dismissal"
                                                  (channel_to_persisted e.review_dismissal)
                                                  (entry "current_cycle_completion"
                                                    (dict e.current_cycle_completion)
                                                    (entry "current_cycle_write_approval"
                                                      (dict e.current_cycle_write_approval)
                                                      (entry "current_cycle_reviewer_handoff"
                                                        (reviewer_handoff_to_persisted
                                                          e.current_cycle_reviewer_handoff)
                                                        empty))))))))))))))))))))))))))

-- `for key, value in persisted.items(): target[key] = value`
unfoldable pub put_all : Dict → Dict → Dict
unfolding put
put_all empty target = target
put_all (entry k v persisted) target = put_all persisted (put k v target)

unfoldable pub apply_local_state_core_to_persisted : Dict → ReviewEntryState → Dict
unfolding put_all review_entry_to_persisted
apply_local_state_core_to_persisted target e = put_all (review_entry_to_persisted e) target
