-- ===== src/Persistence.antt =====
-- The persisted form of a review entry: scripts/reviewer_bot_core/state_adapters.py. A persisted dict
-- has texts as keys. `python_str` is Python's `str` of a value that is no text, and `python_int` is
-- `int` of a text, with `none` for a ValueError. The types of review_state_types.py hold lists of
-- texts and a payload that is a dict: a list with another element, or another payload that is true,
-- which Python would copy into them as it is, is here the error "untyped".
pub mod Entries
pub mod Sidecars
pub mod Keys
pub mod Markers
pub mod Events
pub mod Legacy
pub mod Handoffs
pub mod Fields
pub mod RoundTrip
use safety_critical_rust_cod.Common.{
  ℕ, String, Bool, true, false, not, ◌&&◌, ◌||◌, Option, none, some, List, [], ◌∷◌, ◌==◌, truthy,
  strip, if◌then◌else◌, is_some, is_in, Checked, returned, raised, ◌>>=◌, decimal,
}
use safety_critical_rust_cod.Value.{
  Value, null, bool, int, str, list, dict, Values, nil, cons, Dict, empty, entry, get, get_default,
  put, is_true, as_text,
}
use safety_critical_rust_cod.Review.Types.{
  AcceptedChannelRecord, DismissalAcceptedRecord, AcceptedRecord, event, dismissal,
  ReviewChannelState, empty_channel, CurrentCycleReviewerHandoff, ReviewEntryState, default_entry,
}

-- `key in d`
unfoldable pub has_key : String → Dict → Bool
has_key key empty = false
has_key key (entry k v d) = k == key || has_key key d

-- Every key of a dict passes a test.
unfoldable pub all_keys : (String → Bool) → Dict → Bool
all_keys p empty = true
all_keys p (entry k v d) = p k && all_keys p d

-- `list(values)`, for a list of texts.
unfoldable pub texts_of : Values → Checked (List String)
texts_of nil = returned []
texts_of (cons (str s) vs) = texts_of vs >>= λ ss. returned (s ∷ ss)
texts_of (cons _ vs) = raised "untyped"

-- `list(value) if isinstance(value, list) else []`
abbrev pub list_or_empty : Value → Checked (List String)
list_or_empty (list vs) = texts_of vs
list_or_empty _ = returned []

unfoldable pub values_of : List String → Values
values_of [] = nil
values_of (s ∷ ss) = cons (str s) (values_of ss)

-- A text, or None.
abbrev pub persisted_text : Option String → Value
persisted_text none = null
persisted_text (some s) = str s

-- A dict, or the empty one.
abbrev pub dict_or_empty : Value → Dict
dict_or_empty (dict d) = d
dict_or_empty _ = empty

-- `set(accepted).issubset({"semantic_key", "timestamp"})`
unfoldable pub is_dismissal : Dict → Bool
unfolding all_keys
is_dismissal accepted = all_keys (λ k. is_in k ("semantic_key" ∷ "timestamp" ∷ [])) accepted

-- `accepted.get("payload") or {}`
unfoldable pub payload_of : Value → Checked Dict
unfolding is_true
payload_of (dict d) = returned d
payload_of v = if is_true v then raised "untyped" else returned empty

module _ (python_str : Value → String) where
  -- `str(value)`
  abbrev pub text_of : Value → String
  text_of (str s) = s
  text_of (int n) = decimal n
  text_of v = python_str v

  -- `str(value) if value is not None else None`
  abbrev pub optional_text : Value → Option String
  optional_text null = none
  optional_text v = some (text_of v)

module _ (python_str : Value → String) (python_int : String → Option ℕ) where
  -- `int(value)`
  unfoldable pub int_of : Value → Checked ℕ
  int_of (int n) = returned n
  int_of (bool true) = returned 1
  int_of (bool false) = returned 0
  int_of (str s) = elim (python_int s) [ none ↦ raised "ValueError" | some n ↦ returned n ]
  int_of _ = raised "TypeError"

  unfoldable pub accepted_from_persisted : Dict → Checked AcceptedRecord
  unfolding get get_default is_dismissal int_of payload_of decimal
  accepted_from_persisted accepted =
      let semantic_key = text_of python_str (get_default "semantic_key" (str "") accepted) in
      let timestamp = text_of python_str (get_default "timestamp" (str "") accepted) in
      if is_dismissal accepted
      then returned (dismissal (record { semantic_key = semantic_key; timestamp = timestamp }))
      else (int_of (get_default "source_precedence" (int 0) accepted) >>= λ source_precedence.
          payload_of (get "payload" accepted) >>= λ payload. returned (
            event (record {
              semantic_key = semantic_key;
              timestamp = timestamp;
              actor = optional_text python_str (get "actor" accepted);
              reviewed_head_sha = optional_text python_str (get "reviewed_head_sha" accepted);
              source_precedence = source_precedence;
              payload = payload;
            })))

  unfoldable pub optional_accepted : Value → Checked (Option AcceptedRecord)
  unfolding accepted_from_persisted
  optional_accepted (dict accepted) = accepted_from_persisted accepted >>= λ a. returned (some a)
  optional_accepted _ = returned none

  -- What `review_entry.get(name)` holds, as a channel.
  unfoldable pub channel_from_persisted : Value → Checked ReviewChannelState
  unfolding get optional_accepted texts_of
  channel_from_persisted (dict raw_channel) =
      optional_accepted (get "accepted" raw_channel) >>= λ accepted.
      list_or_empty (get "seen_keys" raw_channel) >>= λ seen_keys.
      returned (record { accepted = accepted; seen_keys = seen_keys })
  channel_from_persisted _ = returned empty_channel

unfoldable pub accepted_to_persisted : AcceptedRecord → Dict
accepted_to_persisted (event r) = entry "semantic_key" (str r.semantic_key) (
    entry "timestamp" (str r.timestamp) (
      entry "actor" (persisted_text r.actor) (
        entry "reviewed_head_sha" (persisted_text r.reviewed_head_sha) (
          entry "source_precedence" (int r.source_precedence)
            (entry "payload" (dict r.payload) empty)))))
accepted_to_persisted (dismissal r) =
    entry "semantic_key" (str r.semantic_key) (entry "timestamp" (str r.timestamp) empty)

unfoldable pub channel_to_persisted : ReviewChannelState → Value
unfolding accepted_to_persisted values_of
channel_to_persisted channel = dict (
    entry "accepted"
      (elim (channel.accepted) [ none ↦ null | some a ↦ dict (accepted_to_persisted a) ])
      (entry "seen_keys" (list (values_of channel.seen_keys)) empty))

-- `set(value) == _REVIEWER_HANDOFF_KEYS`
unfoldable pub has_handoff_keys : Dict → Bool
unfolding all_keys has_key
has_handoff_keys d =
    has_key "source_event_key" d
    && has_key "timestamp" d
    && has_key "actor" d
    && has_key "command_name" d
    && has_key "reviewed_head_sha" d
    && all_keys
        (λ k.
          is_in k (
            "source_event_key" ∷ "timestamp" ∷ "actor" ∷ "command_name" ∷ "reviewed_head_sha" ∷ []))
        d

-- A text that is not blank.
unfoldable pub is_nonblank_text : Value → Bool
unfolding strip
is_nonblank_text (str s) = truthy (strip s)
is_nonblank_text _ = false

abbrev pub is_null : Value → Bool
is_null null = true
is_null _ = false

abbrev pub text_or_blank : Value → String
text_or_blank (str s) = s
text_or_blank _ = ""

-- The early returns of `_reviewer_handoff_from_persisted`, for a dict with the right keys.
unfoldable pub is_handoff : Dict → Bool
unfolding get is_nonblank_text
is_handoff d =
    is_nonblank_text (get "source_event_key" d)
    && is_nonblank_text (get "timestamp" d)
    && is_nonblank_text (get "actor" d)
    && text_or_blank (get "command_name" d) == "feedback"
    && (is_null (get "reviewed_head_sha" d) || is_nonblank_text (get "reviewed_head_sha" d))

unfoldable pub reviewer_handoff_from_persisted : Value → Option CurrentCycleReviewerHandoff
unfolding get has_handoff_keys is_handoff
reviewer_handoff_from_persisted (dict d) =
    if has_handoff_keys d && is_handoff d
    then some (record {
      source_event_key = text_or_blank (get "source_event_key" d);
      timestamp = text_or_blank (get "timestamp" d);
      actor = text_or_blank (get "actor" d);
      command_name = text_or_blank (get "command_name" d);
      reviewed_head_sha = as_text (get "reviewed_head_sha" d);
    })
    else none
reviewer_handoff_from_persisted _ = none

unfoldable pub reviewer_handoff_to_persisted : Option CurrentCycleReviewerHandoff → Value
reviewer_handoff_to_persisted none = null
reviewer_handoff_to_persisted (some h) = dict (
    entry "source_event_key" (str h.source_event_key) (
      entry "timestamp" (str h.timestamp) (
        entry "actor" (str h.actor) (
          entry "command_name" (str h.command_name)
            (entry "reviewed_head_sha" (persisted_text h.reviewed_head_sha) empty)))))
