-- ===== src/Persistence/Events.antt =====
-- The reconciled events are migrated once: _migrate_reconciled_source_events of
-- scripts/reviewer_bot_core/state_adapters.py.
use safety_critical_rust_cod.Common.{
  String, true, eq_iff, truthy, if◌then◌else◌, ◌≡◌, refl, arith, truthy-decimal, Bool-cases, inl,
  inr,
}
use safety_critical_rust_cod.Value.{
  Value, null, bool, int, str, list, dict, Values, nil, cons, Dict, empty, entry, get, put, is_true,
}
use safety_critical_rust_cod.Persistence.{text_of}
use safety_critical_rust_cod.Persistence.Sidecars.{
  event_record, listed_events, key_of, migrate_event, migrate_events,
  migrate_reconciled_source_events,
}

-- What `str` gives for a value that is true is never the empty text.
module _ (python_str : Value → String)
    (some_text : (v : Value) → truthy (python_str v) ≡ true) where
  pub truthy-text_of : (v : Value) → is_true v ≡ true → truthy (text_of python_str v) ≡ true
  unfolding is_true
  truthy-text_of (str s) h = ground arith
  truthy-text_of (int n) h = truthy-decimal n
  truthy-text_of null h = some_text null
  truthy-text_of (bool b) h = some_text (bool b)
  truthy-text_of (list vs) h = some_text (list vs)
  truthy-text_of (dict d) h = some_text (dict d)

  pub is_true-str : (s : String) → is_true (str s) ≡ truthy s
  unfolding is_true
  is_true-str s = ground arith

  key_self : (k : String) → key_of python_str k (str k) ≡ k
  key_self k = elim (Bool-cases (is_true (str k))) [
    | inl h ↦ rw (h, if◌then◌else◌) refl
    | inr h ↦ rw (h, if◌then◌else◌) refl
  ]

  key_twice :
      (k : String) (v : Value)
      → key_of python_str k (str (key_of python_str k v)) ≡ key_of python_str k v
  key_twice k v = elim (Bool-cases (is_true v)) [
    | inl h ↦ rw (h, is_true-str (text_of python_str v), truthy-text_of v h, if◌then◌else◌) refl
    | inr h ↦ rw (h, if◌then◌else◌) (key_self k)
  ]

  migrate_event_twice :
      (k : String) (v : Value)
      → migrate_event python_str k (migrate_event python_str k v) ≡ migrate_event python_str k v
  unfolding migrate_event get
  migrate_event_twice k (dict r) = rw (key_twice k (get "source_event_key" r)) refl
  migrate_event_twice k null = rw (key_self k) refl
  migrate_event_twice k _ = rw (key_self k) refl

  migrate_events_twice :
      (d : Dict)
      → migrate_events python_str (migrate_events python_str d) ≡ migrate_events python_str d
  unfolding migrate_events
  migrate_events_twice empty = refl
  migrate_events_twice (entry k v d) = rw (migrate_event_twice k v, migrate_events_twice d) refl

  migrate_events-put :
      (k : String) (d : Dict)
      → migrate_events python_str (put k (event_record k null) d)
        ≡ put k (event_record k null) (migrate_events python_str d)
  unfolding migrate_events migrate_event put get
  migrate_events-put k empty = rw (key_self k) refl
  migrate_events-put k (entry i v d) =
      ground (arith, eq_iff i k, key_self k, migrate_events-put k d)

  migrate_listed :
      (done : Dict) (vs : Values)
      → migrate_events python_str done ≡ done
      → migrate_events python_str (listed_events done vs) ≡ listed_events done vs
  unfolding listed_events
  migrate_listed done nil h = h
  migrate_listed done (cons (str k) vs) h =
      migrate_listed (put k (event_record k null) done) vs (rw (migrate_events-put k done, h) refl)
  migrate_listed done (cons _ vs) h = migrate_listed done vs h

  pub migrate_reconciled_twice :
      (v : Value)
      → migrate_events python_str (migrate_reconciled_source_events python_str v)
        ≡ migrate_reconciled_source_events python_str v
  unfolding migrate_reconciled_source_events migrate_events
  migrate_reconciled_twice (dict d) = migrate_events_twice d
  migrate_reconciled_twice (list vs) = migrate_listed empty vs refl
  migrate_reconciled_twice _ = refl
