-- ===== src/Review.antt =====
-- One review entry and the local mutations of it: scripts/reviewer_bot_core/review_state_machine.py
-- over the types of review_state_types.py. A persisted entry is a dict; `ensure_review_entry` brings
-- it to the form that these types have before any function below reads it, so
-- here an entry is of that type, and a function that mutates it returns the new entry.
pub mod Types
pub mod Channels
pub mod Activity
pub mod Entries
pub mod Cycle
pub use Types.*
use Prim.Native.Nat.{Ordering, compare as compare_numbers}
use Prim.Native.String.{compare as compare_texts, then as first_of_two}
use safety_critical_rust_cod.Common.{
  ℕ, ◌+◌, String, Bool, true, false, not, ◌&&◌, ◌||◌, Option, none, some, List, [], ◌∷◌, ◌++◌, ◌==◌,
  ltb, leb, eqb, if◌then◌else◌, is_in, is_some, truthy, lower, or_else,
}
use safety_critical_rust_cod.Value.{Dict, empty, entry, bool, str, null, Value}
use safety_critical_rust_cod.Timestamps.{DateTime, datetime_min, parse_github_timestamp}

abbrev pub channel : ChannelName → ReviewEntryState → ReviewChannelState
channel reviewer_comment r = r.reviewer_comment
channel reviewer_review r = r.reviewer_review
channel contributor_comment r = r.contributor_comment
channel contributor_revision r = r.contributor_revision
channel review_dismissal r = r.review_dismissal

abbrev pub set_channel : ChannelName → ReviewChannelState → ReviewEntryState → ReviewEntryState
set_channel reviewer_comment c r = record r { reviewer_comment = c }
set_channel reviewer_review c r = record r { reviewer_review = c }
set_channel contributor_comment c r = record r { contributor_comment = c }
set_channel contributor_revision c r = record r { contributor_revision = c }
set_channel review_dismissal c r = record r { review_dismissal = c }

unfoldable pub clear_transition_timers : ReviewEntryState → ReviewEntryState
clear_transition_timers r = record r {
  transition_warning_sent = none;
  transition_notice_sent_at = none;
}

unfoldable pub record_transition_notice_sent : ReviewEntryState → String → ReviewEntryState
record_transition_notice_sent r timestamp = record r { transition_notice_sent_at = some timestamp }

abbrev pub record_timestamp : AcceptedRecord → String
record_timestamp (event e) = e.timestamp
record_timestamp (dismissal d) = d.timestamp

-- `left.get("source_precedence", 0)`
abbrev pub record_rank : AcceptedRecord → ℕ
record_rank (event e) = e.source_precedence
record_rank (dismissal d) = 0

abbrev pub record_key : AcceptedRecord → String
record_key (event e) = e.semantic_key
record_key (dismissal d) = d.semantic_key

-- `_clear_handoff` applies to the contributor's channels.
abbrev pub is_contributor : ChannelName → Bool
is_contributor contributor_comment = true
is_contributor contributor_revision = true
is_contributor _ = false

module _ (fromisoformat : String → Option DateTime) where
  unfoldable pub record_reviewer_activity : ReviewEntryState → String → ReviewEntryState × Bool
  unfolding clear_transition_timers
  record_reviewer_activity r timestamp =
      elim (parse_github_timestamp fromisoformat (some timestamp)) [
        | none ↦ (r, false)
        | some candidate ↦
            let changed =
              clear_transition_timers (record r { last_reviewer_activity = some timestamp }) in
            elim (parse_github_timestamp fromisoformat r.last_reviewer_activity) [
              | none ↦ (changed, true)
              | some current ↦ if ltb current candidate then (changed, true) else (r, false)
            ]
      ]

  abbrev pub record_time : AcceptedRecord → ℕ
  record_time a =
      or_else (parse_github_timestamp fromisoformat (some (record_timestamp a))) datetime_min

  -- The tuples (time, rank, key), compared in that order.
  unfoldable pub compare_tuples : AcceptedRecord → AcceptedRecord → Ordering
  compare_tuples left right =
      first_of_two (compare_numbers (record_time left) (record_time right)) (
        first_of_two (compare_numbers (record_rank left) (record_rank right))
          (compare_texts (record_key left) (record_key right)))

  -- The answers 1, -1 and 0 are `gt`, `lt` and `eq`.
  unfoldable pub compare_records : Option AcceptedRecord → Option AcceptedRecord → Ordering
  unfolding compare_tuples
  compare_records left none = Ordering.gt
  compare_records none (some right) = Ordering.lt
  compare_records (some left) (some right) = compare_tuples left right

  unfoldable pub clear_handoff_after_newer_contributor_event :
      ReviewEntryState → String → ReviewEntryState × Bool
  clear_handoff_after_newer_contributor_event r timestamp = elim r.current_cycle_reviewer_handoff [
    | none ↦ (r, false)
    | some handoff ↦ elim (parse_github_timestamp fromisoformat (some timestamp)) [
      | none ↦ (r, false)
      | some contributor_time ↦
          elim (parse_github_timestamp fromisoformat (some handoff.timestamp)) [
            | none ↦ (r, false)
            | some handoff_time ↦
                if leb contributor_time handoff_time
                then (r, false)
                else (record r { current_cycle_reviewer_handoff = none }, true)
          ]
    ]
  ]

  unfoldable pub semantic_key_seen : ReviewEntryState → ChannelName → String → Bool
  semantic_key_seen r name semantic_key = is_in semantic_key (channel name r).seen_keys

  -- What the channel accepts when a candidate comes: the candidate if it is not older.
  unfoldable pub prefer : AcceptedRecord → Option AcceptedRecord → Option AcceptedRecord
  unfolding compare_records
  prefer candidate current = elim (compare_records (some candidate) current) [
    | Ordering.lt ↦ current
    | _ ↦ some candidate
  ]

  unfoldable pub accept_channel_event :
      ReviewEntryState → ChannelName → AcceptedChannelRecord → Bool → ReviewEntryState × Bool
  unfolding prefer clear_handoff_after_newer_contributor_event
  accept_channel_event r name candidate dismissal_only =
      let c = channel name r in
      if is_in candidate.semantic_key c.seen_keys
      then (r, false)
      else let seen = c.seen_keys ++ candidate.semantic_key ∷ [] in
        if dismissal_only
        then (
          set_channel name
              (record {
                accepted = elim c.accepted [
                  | some a ↦ some a
                  | none ↦ some (
                      dismissal (record {
                        semantic_key = candidate.semantic_key;
                        timestamp = candidate.timestamp;
                      }))
                ];
                seen_keys = seen;
              })
              r,
          true,
        )
        else let r' =
            set_channel name
              (record { accepted = prefer (event candidate) c.accepted; seen_keys = seen }) r in
          if is_contributor name
          then ((clear_handoff_after_newer_contributor_event r' candidate.timestamp).0, true)
          else (r', true)
