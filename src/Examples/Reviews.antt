-- ===== src/Examples/Reviews.antt =====
-- Review entries: scripts/reviewer_bot_core/review_state_machine.py.
use safety_critical_rust_cod.Common.{
  ◌≡◌, ◌≢◌, refl, true, false, String, Option, none, some, [], ◌∷◌, eq_iff, ◌==◌, if◌then◌else◌,
}
use safety_critical_rust_cod.Value.{empty}
use safety_critical_rust_cod.Timestamps.{DateTime, aware, parse_github_timestamp}
use safety_critical_rust_cod.Review.{
  ReviewEntryState, AcceptedChannelRecord, CurrentCycleReviewerHandoff, default_entry,
  reviewer_comment, reviewer_review, channel, accept_channel_event,
}
use safety_critical_rust_cod.Review.Entries.{Reviews}
use safety_critical_rust_cod.Review.Channels.{accept_twice, Alike, replay, replay_swap}
use safety_critical_rust_cod.Review.Activity.{instant, activities, activities-latest}

-- A parser of two days of January 2026.
abbrev pub fromisoformat : String → Option DateTime
fromisoformat day =
    if day == "2026-01-05"
    then some (aware 5)
    else if day == "2026-01-09"
    then some (aware 9)
    else none

abbrev comment : String → String → AcceptedChannelRecord
comment key timestamp = record {
  semantic_key = key;
  timestamp = timestamp;
  actor = some "ann";
  reviewed_head_sha = none;
  source_precedence = 0;
  payload = empty;
}

abbrev early : AcceptedChannelRecord
early = comment "issue_comment:1" "2026-01-05"

abbrev late : AcceptedChannelRecord
late = comment "issue_comment:2" "2026-01-09"

abbrev handoff : CurrentCycleReviewerHandoff
handoff = record {
  source_event_key = "issue_comment:1";
  timestamp = "2026-01-05";
  actor = "ann";
  command_name = "feedback";
  reviewed_head_sha = none;
}

abbrev handed_off : ReviewEntryState
handed_off = record default_entry { current_cycle_reviewer_handoff = some handoff }

abbrev reviews : Reviews
reviews = (7, record default_entry { current_reviewer = some "Ann" }) ∷ []

false-true : false ≢ true
false-true h = absurd cc

keys_differ : early.semantic_key ≢ late.semantic_key
keys_differ e = false-true ((eq_iff early.semantic_key late.semantic_key).1 e)

replay_swap_example :
    Alike fromisoformat
      (channel reviewer_comment
        (replay fromisoformat default_entry reviewer_comment ((early, false) ∷ (late, false) ∷ [])))
      (channel reviewer_comment
        (replay fromisoformat default_entry reviewer_comment ((late, false) ∷ (early, false) ∷ [])))
replay_swap_example =
    replay_swap fromisoformat default_entry reviewer_comment [] [] early late keys_differ

accept_twice_example :
    let r = (accept_channel_event fromisoformat default_entry reviewer_comment early false).0 in
    accept_channel_event fromisoformat r reviewer_comment early false ≡ (r, false)
accept_twice_example =
    accept_twice fromisoformat default_entry reviewer_comment early early false false refl

channels_differ : reviewer_comment ≢ reviewer_review
channels_differ e = absurd cc

activities-latest_example :
    instant fromisoformat
      (activities fromisoformat default_entry
        ("2026-01-09" ∷ "2026-01-05" ∷ [])).last_reviewer_activity
    ≡ 9
unfolding parse_github_timestamp
activities-latest_example =
    activities-latest fromisoformat default_entry ("2026-01-09" ∷ "2026-01-05" ∷ [])
