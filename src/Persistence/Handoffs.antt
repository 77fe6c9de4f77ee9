-- ===== src/Persistence/Handoffs.antt =====
-- The handoff of a persisted entry: _reviewer_handoff_from_persisted and
-- _reviewer_handoff_to_persisted of scripts/reviewer_bot_core/state_adapters.py.
use safety_critical_rust_cod.Common.{
  String, Bool, true, ◌&&◌, ◌||◌, Option, none, some, eq_iff, truthy, strip, if◌then◌else◌, ◌≡◌,
  refl, arith, Bool-cases, inl, inr, and_right,
}
use safety_critical_rust_cod.Value.{Value, null, str, dict, Dict, as_text, get}
use safety_critical_rust_cod.Review.Types.{CurrentCycleReviewerHandoff}
use safety_critical_rust_cod.Persistence.{
  persisted_text, has_handoff_keys, is_nonblank_text, is_null, text_or_blank, is_handoff,
  reviewer_handoff_from_persisted, reviewer_handoff_to_persisted,
}

abbrev is_nonblank : String → Bool
is_nonblank s = truthy (strip s)

abbrev is_head : Option String → Bool
is_head none = true
is_head (some s) = is_nonblank s

-- No field is blank, the head may be None, and the command is `feedback`.
abbrev pub IsComplete : Option CurrentCycleReviewerHandoff → Type 0
IsComplete none = Unit
IsComplete (some h) =
    (is_nonblank h.source_event_key ≡ true)
    × (is_nonblank h.timestamp ≡ true)
    × (is_nonblank h.actor ≡ true)
    × (h.command_name ≡ "feedback")
    × (is_head h.reviewed_head_sha ≡ true)

is_head-persisted_text :
    (o : Option String)
    → is_head o ≡ true
    → (is_null (persisted_text o) || is_nonblank_text (persisted_text o)) ≡ true
unfolding is_nonblank_text
is_head-persisted_text none h = refl
is_head-persisted_text (some s) h = h

as_text-persisted_text : (o : Option String) → as_text (persisted_text o) ≡ o
as_text-persisted_text none = refl
as_text-persisted_text (some s) = refl

pub handoff_from-to_persisted :
    (h : Option CurrentCycleReviewerHandoff)
    → IsComplete h
    → reviewer_handoff_from_persisted (reviewer_handoff_to_persisted h) ≡ h
unfolding reviewer_handoff_from_persisted reviewer_handoff_to_persisted is_handoff get
    is_nonblank_text
handoff_from-to_persisted none i = refl
handoff_from-to_persisted (some h) (key, time, actor, command, head) =
    rw
      (
        key,
        time,
        actor,
        command,
        is_head-persisted_text h.reviewed_head_sha head,
        as_text-persisted_text h.reviewed_head_sha,
      )
      refl

text_or_blank-nonblank :
    (v : Value) → is_nonblank_text v ≡ true → is_nonblank (text_or_blank v) ≡ true
unfolding is_nonblank_text
text_or_blank-nonblank (str s) h = h
text_or_blank-nonblank v h = absurd cc

as_text-is_head :
    (v : Value) → (is_null v || is_nonblank_text v) ≡ true → is_head (as_text v) ≡ true
unfolding is_nonblank_text
as_text-is_head null h = refl
as_text-is_head (str s) h = h
as_text-is_head v h = absurd cc

abbrev fields_of : Dict → CurrentCycleReviewerHandoff
fields_of d = record {
  source_event_key = text_or_blank (get "source_event_key" d);
  timestamp = text_or_blank (get "timestamp" d);
  actor = text_or_blank (get "actor" d);
  command_name = text_or_blank (get "command_name" d);
  reviewed_head_sha = as_text (get "reviewed_head_sha" d);
}

split_tests :
    (a b c d e : Bool)
    → (a && b && c && d && e) ≡ true
    → (a ≡ true) × (b ≡ true) × (c ≡ true) × (d ≡ true) × (e ≡ true)
split_tests a b c d e h = ground arith

is_handoff-fields : (d : Dict) → is_handoff d ≡ true → IsComplete (some (fields_of d))
unfolding is_handoff
is_handoff-fields d h =
    let (key, time, actor, command, head) = split_tests _ _ _ _ _ h in
    (
      text_or_blank-nonblank (get "source_event_key" d) key,
      text_or_blank-nonblank (get "timestamp" d) time,
      text_or_blank-nonblank (get "actor" d) actor,
      (eq_iff (text_or_blank (get "command_name" d)) "feedback").0 command,
      as_text-is_head (get "reviewed_head_sha" d) head,
    )

-- Whatever handoff is read is complete.
pub handoff_from_persisted-IsComplete : (v : Value) → IsComplete (reviewer_handoff_from_persisted v)
unfolding reviewer_handoff_from_persisted
handoff_from_persisted-IsComplete (dict d) =
    elim (Bool-cases (has_handoff_keys d && is_handoff d)) [
      | inl h ↦
          rw (h, if◌then◌else◌)
            (is_handoff-fields d (and_right (has_handoff_keys d) (is_handoff d) h))
      | inr h ↦ rw (h, if◌then◌else◌) tt
    ]
handoff_from_persisted-IsComplete v = tt
