-- ===== src/Persistence/RoundTrip.antt =====
-- An entry that is written into a persisted dict is read back from it:
-- scripts/reviewer_bot_core/state_adapters.py.
use safety_critical_rust_cod.Common.{
  ℕ, String, false, Option, none, some, Option-cases, List, [], ◌∷◌, Checked, returned, raised,
  ◌>>=◌, ◌≡◌, refl, inl, inr, subst, Returns,
}
use safety_critical_rust_cod.Value.{
  Value, bool, list, dict, Dict, empty, entry, get, get_default, is_true,
}
use safety_critical_rust_cod.Review.Types.{
  AcceptedRecord, event, dismissal, ReviewChannelState, ReviewEntryState,
}
use safety_critical_rust_cod.Persistence.{
  all_keys, texts_of, list_or_empty, values_of, persisted_text, optional_text, int_of, payload_of,
  is_dismissal, accepted_from_persisted, optional_accepted, channel_from_persisted,
  accepted_to_persisted, channel_to_persisted,
}
use safety_critical_rust_cod.Persistence.Handoffs.{
  IsComplete, handoff_from-to_persisted, handoff_from_persisted-IsComplete,
}
use safety_critical_rust_cod.Persistence.Fields.{get-field, default-field}
use safety_critical_rust_cod.Persistence.Entries.{
  entry_of_dict, review_entry_from_persisted, review_entry_to_persisted,
  apply_local_state_core_to_persisted,
}

pub texts_of-values_of : (ss : List String) → texts_of (values_of ss) ≡ returned ss
unfolding texts_of values_of
texts_of-values_of [] = refl
texts_of-values_of (s ∷ ss) = rw (texts_of-values_of ss, texts_of) refl

pub optional_text-persisted_text :
    (python_str : Value → String) (o : Option String)
    → optional_text python_str (persisted_text o) ≡ o
optional_text-persisted_text python_str none = refl
optional_text-persisted_text python_str (some s) = refl

module _ (python_str : Value → String) (python_int : String → Option ℕ) where
  accepted_from-to_persisted :
      (a : AcceptedRecord)
      → accepted_from_persisted python_str python_int (accepted_to_persisted a) ≡ returned a
  unfolding accepted_to_persisted accepted_from_persisted get get_default is_dismissal all_keys
      int_of payload_of
  accepted_from-to_persisted (event r) = rw (
    optional_text-persisted_text python_str r.actor,
    optional_text-persisted_text python_str r.reviewed_head_sha,
  )
  accepted_from-to_persisted (dismissal r) = refl

  channel_from-to_persisted :
      (c : ReviewChannelState)
      → channel_from_persisted python_str python_int (channel_to_persisted c) ≡ returned c
  unfolding channel_from_persisted channel_to_persisted optional_accepted get
  channel_from-to_persisted c = elim (Option-cases c.accepted) [
    | inl e ↦ rw (e, texts_of-values_of c.seen_keys) refl
    | inr (a, e) ↦ rw (e, accepted_from-to_persisted a, texts_of-values_of c.seen_keys) refl
  ]

-- A split on a result, with the equation of each case.
either_result {ℓ} :
    {A : Type 0} {C : Type ℓ} (m : Checked A)
    → ((e : String) → m ≡ raised e → C)
    → ((a : A) → m ≡ returned a → C)
    → C
either_result (returned a) f g = g a refl
either_result (raised e) f g = f e refl

module _ (python_str : Value → String) (python_int : String → Option ℕ) where
  entry_of-to_persisted :
      (e : ReviewEntryState)
      → IsComplete e.current_cycle_reviewer_handoff
      → entry_of_dict python_str python_int (review_entry_to_persisted e) ≡ returned e
  unfolding entry_of_dict review_entry_to_persisted get get_default is_true
  entry_of-to_persisted e h = simp (
    texts_of-values_of,
    channel_from-to_persisted python_str python_int,
    handoff_from-to_persisted e.current_cycle_reviewer_handoff h,
    optional_text-persisted_text,
  )

  entry_of-apply :
      (t : Dict) (e : ReviewEntryState)
      → entry_of_dict python_str python_int (apply_local_state_core_to_persisted t e)
        ≡ entry_of_dict python_str python_int (review_entry_to_persisted e)
  unfolding entry_of_dict
  entry_of-apply t e =
      rw
        (
          get-field "skipped" t e refl,
          get-field "current_reviewer" t e refl,
          get-field "cycle_started_at" t e refl,
          get-field "active_cycle_started_at" t e refl,
          get-field "assigned_at" t e refl,
          get-field "active_head_sha" t e refl,
          get-field "last_reviewer_activity" t e refl,
          get-field "transition_warning_sent" t e refl,
          get-field "transition_notice_sent_at" t e refl,
          get-field "assignment_method" t e refl,
          get-field "review_completed_at" t e refl,
          get-field "review_completed_by" t e refl,
          get-field "review_completion_source" t e refl,
          get-field "mandatory_approver_label_applied_at" t e refl,
          get-field "mandatory_approver_pinged_at" t e refl,
          get-field "mandatory_approver_satisfied_by" t e refl,
          get-field "mandatory_approver_satisfied_at" t e refl,
          get-field "overdue_anchor" t e refl,
          get-field "reviewer_comment" t e refl,
          get-field "reviewer_review" t e refl,
          get-field "contributor_comment" t e refl,
          get-field "contributor_revision" t e refl,
          get-field "review_dismissal" t e refl,
          get-field "current_cycle_completion" t e refl,
          get-field "current_cycle_write_approval" t e refl,
          get-field "current_cycle_reviewer_handoff" t e refl,
          default-field "mandatory_approver_required" (bool false) t e refl,
        )
        refl

  -- An entry whose handoff is complete is read back from every dict into which it was written, whatever
  -- that dict held before.
  pub from_persisted-apply :
      (t : Dict) (e : ReviewEntryState)
      → IsComplete e.current_cycle_reviewer_handoff
      → review_entry_from_persisted python_str python_int
          (dict (apply_local_state_core_to_persisted t e))
        ≡ returned (some e)
  unfolding review_entry_from_persisted
  from_persisted-apply t e h = rw (entry_of-apply t e, entry_of-to_persisted e h) refl

  abbrev HasCompleteHandoff : ReviewEntryState → Type 0
  HasCompleteHandoff e = IsComplete e.current_cycle_reviewer_handoff

  entry_of-IsComplete :
      (d : Dict) → Returns HasCompleteHandoff (entry_of_dict python_str python_int d)
  unfolding entry_of_dict
  entry_of-IsComplete d =
      either_result (list_or_empty (get "skipped" d)) (λ e h. rw (h, ◌>>=◌) tt)
        (λ a h.
          rw (h, ◌>>=◌)
            (either_result (channel_from_persisted python_str python_int (get "reviewer_comment" d))
              (λ e h. rw (h, ◌>>=◌) tt)
              (λ a h.
                rw (h, ◌>>=◌)
                  (either_result
                    (channel_from_persisted python_str python_int (get "reviewer_review" d))
                    (λ e h. rw (h, ◌>>=◌) tt)
                    (λ a h.
                      rw (h, ◌>>=◌)
                        (either_result
                          (channel_from_persisted python_str python_int
                            (get "contributor_comment" d))
                          (λ e h. rw (h, ◌>>=◌) tt)
                          (λ a h.
                            rw (h, ◌>>=◌)
                              (either_result
                                (channel_from_persisted python_str python_int
                                  (get "contributor_revision" d))
                                (λ e h. rw (h, ◌>>=◌) tt)
                                (λ a h.
                                  rw (h, ◌>>=◌)
                                    (either_result
                                      (channel_from_persisted python_str python_int
                                        (get "review_dismissal" d))
                                      (λ e h. rw (h, ◌>>=◌) tt)
                                      (λ a h.
                                        rw (h, ◌>>=◌)
                                          (handoff_from_persisted-IsComplete
                                            (get "current_cycle_reviewer_handoff" d)))))))))))))

  from_entry-IsComplete :
      (d : Dict) (e : ReviewEntryState)
      → (entry_of_dict python_str python_int d >>= λ x. returned (some x)) ≡ returned (some e)
      → HasCompleteHandoff e
  from_entry-IsComplete d e h =
      either_result (entry_of_dict python_str python_int d) (λ text r. absurd cc)
        (λ x r.
          let returns : Returns HasCompleteHandoff (entry_of_dict python_str python_int d) =
            entry_of-IsComplete d in
          let here : HasCompleteHandoff x = rw r at returns in
          let same : returned (some x) ≡ returned (some e) = rw r at h in
          let eq : x ≡ e = cc same in subst HasCompleteHandoff eq here)

  from_persisted-IsComplete :
      (v : Value) (e : ReviewEntryState)
      → review_entry_from_persisted python_str python_int v ≡ returned (some e)
      → HasCompleteHandoff e
  unfolding review_entry_from_persisted
  from_persisted-IsComplete (dict d) e h = from_entry-IsComplete d e h
  from_persisted-IsComplete (list vs) e h =
      from_entry-IsComplete (entry "skipped" (list vs) empty) e h
  from_persisted-IsComplete v e h = absurd cc

  -- An entry that was read from a persisted value, and is then written into any dict, is read back
  -- from that dict as the same entry.
  pub read-written :
      (v : Value) (t : Dict) (e : ReviewEntryState)
      → review_entry_from_persisted python_str python_int v ≡ returned (some e)
      → review_entry_from_persisted python_str python_int
          (dict (apply_local_state_core_to_persisted t e))
        ≡ returned (some e)
  read-written v t e h = from_persisted-apply t e (from_persisted-IsComplete v e h)
