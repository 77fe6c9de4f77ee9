-- ===== src/Timestamps.antt =====
-- Timestamps: parse_github_timestamp of scripts/reviewer_bot_core/live_review_support.py (the same
-- text as parse_timestamp of deferred_gap_diagnosis.py) and scripts/reviewer_bot_lib/timestamps.py.
-- An instant is a number of microseconds since the least `datetime` in UTC. `fromisoformat` is
-- Python's `datetime.fromisoformat`, with `none` for a ValueError; the theorems hold of every parser.
-- A time with a zone is in the model only if its instant in UTC is in the range of `datetime`: for any
-- other, such as 0001-01-01T00:00:00+01:00, `astimezone` raises an OverflowError, which nothing catches
-- and which is not modelled.
use Prim.Native.Char.{code}
use Prim.Native.String.{[], ◌∷◌}
use safety_critical_rust_cod.Common.{
  ℕ, ◌≡◌, refl, String, append_text, Option, none, some, eqb, truthy, strip, if◌then◌else◌,
}

-- A `datetime` with no zone, or with one: then it is the instant that `astimezone(utc)` gives, if it
-- gives one.
pub data DateTime : Type 0 where
  naive : ℕ → DateTime
  aware : ℕ → DateTime

-- `timestamp.replace(tzinfo=utc)` if it has no zone, `timestamp.astimezone(utc)` if it has one.
abbrev pub to_utc : DateTime → ℕ
to_utc (naive t) = t
to_utc (aware t) = t

-- `value.replace("Z", "+00:00")`
unfoldable pub replace_z : String → String
replace_z [] = []
replace_z (c ∷ s) =
    let rest = replace_z s in if eqb (code c) b'Z' then append_text "+00:00" rest else c ∷ rest

-- The least `datetime`, which stands for a timestamp that cannot be read.
abbrev pub datetime_min : ℕ
datetime_min = 0

module _ (fromisoformat : String → Option DateTime) where
  unfoldable pub parse_github_timestamp : Option String → Option ℕ
  unfolding replace_z
  parse_github_timestamp none = none
  parse_github_timestamp (some value) =
      if truthy value
      then elim (fromisoformat (replace_z value)) [ none ↦ none | some t ↦ some (to_utc t) ]
      else none

  unfoldable pub parse_iso8601_utc : Option String → Option ℕ
  unfolding replace_z strip
  parse_iso8601_utc none = none
  parse_iso8601_utc (some value) =
      if truthy (strip value)
      then elim (fromisoformat (replace_z (strip value))) [ none ↦ none | some t ↦ some (to_utc t) ]
      else none

replace_z_example : replace_z "2025-03-01T00:00:00Z" ≡ "2025-03-01T00:00:00+00:00"
unfolding replace_z
replace_z_example = refl
