-- ===== src/Persistence/Fields.antt =====
-- What a dict holds after an entry was written into it: apply_local_state_core_to_persisted of
-- scripts/reviewer_bot_core/state_adapters.py.
use safety_critical_rust_cod.Common.{
  String, Bool, true, false, not, ◌&&◌, ◌||◌, ◌==◌, eq_iff, if◌then◌else◌, ◌≡◌, refl, arith,
}
use safety_critical_rust_cod.Value.{Value, Dict, empty, entry, get, get_default, put, get-put}
use safety_critical_rust_cod.Review.Types.{ReviewEntryState}
use safety_critical_rust_cod.Persistence.{has_key}
use safety_critical_rust_cod.Persistence.Entries.{
  review_entry_to_persisted, put_all, apply_local_state_core_to_persisted,
}

-- No key stands twice.
unfoldable pub distinct : Dict → Bool
unfolding has_key
distinct empty = true
distinct (entry k v d) = not (has_key k d) && distinct d

pub get-put_all :
    (k : String) (p t : Dict)
    → distinct p ≡ true
    → get k (put_all p t) ≡ (if has_key k p then get k p else get k t)
unfolding get put_all has_key distinct
get-put_all k empty t h = refl
get-put_all k (entry i v p) t h =
    ground (arith, eq_iff i k, get-put k i v t, get-put_all k p (put i v t))

get_default-has_key :
    (k : String) (v : Value) (d : Dict) → has_key k d ≡ true → get_default k v d ≡ get k d
unfolding get get_default has_key
get_default-has_key k v empty h = absurd cc
get_default-has_key k v (entry i w d) h = ground (arith, get_default-has_key k v d)

pub has_key-put :
    (k i : String) (v : Value) (d : Dict) → has_key k d ≡ true → has_key k (put i v d) ≡ true
unfolding has_key put
has_key-put k i v empty h = absurd cc
has_key-put k i v (entry j w d) h = ground (arith, has_key-put k i v d)

put-has_key : (k : String) (v : Value) (d : Dict) → has_key k (put k v d) ≡ true
unfolding has_key put
put-has_key k v empty = ground (arith, eq_iff k k)
put-has_key k v (entry j w d) = ground (arith, put-has_key k v d)

put_all-has_key : (k : String) (p t : Dict) → has_key k t ≡ true → has_key k (put_all p t) ≡ true
unfolding put_all
put_all-has_key k empty t h = h
put_all-has_key k (entry i v p) t h = put_all-has_key k p (put i v t) (has_key-put k i v t h)

all_put_all : (k : String) (p t : Dict) → has_key k p ≡ true → has_key k (put_all p t) ≡ true
unfolding put_all has_key
all_put_all k empty t h = absurd cc
all_put_all k (entry i v p) t h = ground (
  arith,
  eq_iff i k,
  put-has_key i v t,
  put_all-has_key k p (put i v t),
  all_put_all k p (put i v t),
)

-- What a field of the target is read as.
to_persisted-distinct : (e : ReviewEntryState) → distinct (review_entry_to_persisted e) ≡ true
unfolding review_entry_to_persisted distinct has_key
to_persisted-distinct e = refl

-- The keys that are written.
abbrev pub is_field : String → Bool
is_field k =
    ("skipped" == k
      || ("current_reviewer" == k
          || ("cycle_started_at" == k
              || ("active_cycle_started_at" == k
                  || ("assigned_at" == k
                      || ("active_head_sha" == k
                          || ("last_reviewer_activity" == k
                              || ("transition_warning_sent" == k
                                  || ("transition_notice_sent_at" == k
                                      || ("assignment_method" == k
                                          || ("review_completed_at" == k
                                              || ("review_completed_by" == k
                                                  || ("review_completion_source" == k
                                                      || ("mandatory_approver_required" == k
                                                          || ("mandatory_approver_label_applied_at"
                                                            == k
                                                            || ("mandatory_approver_pinged_at" == k
                                                            || ("mandatory_approver_satisfied_by"
                                                            == k
                                                            || ("mandatory_approver_satisfied_at"
                                                            == k
                                                            || ("overdue_anchor" == k
                                                            || ("reviewer_comment" == k
                                                            || ("reviewer_review" == k
                                                            || ("contributor_comment" == k
                                                            || ("contributor_revision" == k
                                                            || ("review_dismissal" == k
                                                            || ("current_cycle_completion" == k
                                                            || ("current_cycle_write_approval" == k
                                                            || ("current_cycle_reviewer_handoff"
                                                            == k
                                                            || false)))))))))))))))))))))))))))

has_key-to_persisted :
    (k : String) (e : ReviewEntryState) → has_key k (review_entry_to_persisted e) ≡ is_field k
unfolding review_entry_to_persisted has_key
has_key-to_persisted k e = refl

get-apply :
    (k : String) (t : Dict) (e : ReviewEntryState)
    → get k (apply_local_state_core_to_persisted t e)
      ≡ (if is_field k then get k (review_entry_to_persisted e) else get k t)
unfolding apply_local_state_core_to_persisted
get-apply k t e =
    rw
      (
        get-put_all k (review_entry_to_persisted e) t (to_persisted-distinct e),
        has_key-to_persisted k e,
      )
      refl

pub get-field :
    (k : String) (t : Dict) (e : ReviewEntryState)
    → is_field k ≡ true
    → get k (apply_local_state_core_to_persisted t e) ≡ get k (review_entry_to_persisted e)
get-field k t e h = rw (get-apply k t e, h) refl

pub default-field :
    (k : String) (v : Value) (t : Dict) (e : ReviewEntryState)
    → is_field k ≡ true
    → get_default k v (apply_local_state_core_to_persisted t e)
      ≡ get_default k v (review_entry_to_persisted e)
unfolding apply_local_state_core_to_persisted
default-field k v t e h =
    let there : has_key k (review_entry_to_persisted e) ≡ true = rw (has_key-to_persisted k e) h in
    rw
      (
        get_default-has_key k v (put_all (review_entry_to_persisted e) t)
            (all_put_all k (review_entry_to_persisted e) t there),
        get_default-has_key k v (review_entry_to_persisted e) there,
      )
      (get-field k t e h)

-- A key that is no field of the entry keeps its value.
pub apply-other_key :
    (k : String) (t : Dict) (e : ReviewEntryState)
    → is_field k ≡ false
    → get k (apply_local_state_core_to_persisted t e) ≡ get k t
apply-other_key k t e h = rw (get-apply k t e, h) refl
