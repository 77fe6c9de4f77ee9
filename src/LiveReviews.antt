-- ===== src/LiveReviews.antt =====
-- The reviews that GitHub shows of a pull request, and what each of them counts for:
-- scripts/reviewer_bot_core/live_review_support.py and
-- scripts/reviewer_bot_core/reviewer_review_helpers.py. A review is a JSON object, as far as the code
-- reads it; an element of a list of reviews is `none` if it is no dict.
pub mod Reads
pub mod Pages
pub mod Context
pub mod Survivors
pub mod Scopes
pub mod Authors
pub mod Kept
use safety_critical_rust_cod.Common.{
  ℕ, String, Bool, true, false, not, ◌&&◌, ◌||◌, Option, none, some, List, [], ◌∷◌, ◌==◌, leb,
  if◌then◌else◌, is_some, or_else, truthy, strip, lower, upper, decimal, Checked, returned, raised,
  ◌>>=◌,
}
use safety_critical_rust_cod.Value.{Value, null, int, str, bool, is_true, as_text}
use safety_critical_rust_cod.Timestamps.{DateTime, parse_github_timestamp}
use safety_critical_rust_cod.Review.Types.{ReviewEntryState}

-- A timestamp: a text, a `datetime`, or neither.
pub data Stamp : Type 0 where
  no_stamp : Stamp
  text : String → Stamp
  instant : ℕ → Stamp

-- What a review has under "user": no such key, a dict with that login, or anything else.
pub data User : Type 0 where
  no_user : User
  user : Value → User
  malformed_user : User

-- `none` stands for a missing key, except that a commit id that is missing is `null`.
pub record LiveReview : Type 0 where
  pub id : Option Value
  pub state : Option Value
  pub submitted_at : Stamp
  pub commit_id : Value
  pub user : User

-- `review.get("user", {}).get("login")`
unfoldable pub login_of : LiveReview → Checked Value
login_of review = elim (review.user) [
  | no_user ↦ returned null
  | user login ↦ returned login
  | malformed_user ↦ raised "AttributeError"
]

-- `value if isinstance(value, str) and value.strip() else None`
unfoldable pub nonblank : Option String → Option String
unfolding strip
nonblank none = none
nonblank (some s) = if truthy (strip s) then some s else none

-- The truth of an optional text.
abbrev pub given : Option String → Bool
given none = false
given (some s) = truthy s

pub record ReviewSnapshotRecord : Type 0 where
  pub review_id : Value
  pub state : String
  pub author : Option String
  pub submitted_at : Option String
  pub commit_id : Option String
  pub source_precedence : ℕ
  pub payload : LiveReview

abbrev pub stamp_text : Stamp → Option String
stamp_text (text s) = some s
stamp_text _ = none

-- `isinstance(review_id, (int, str)) and str(review_id).strip()`; a `bool` is an `int`.
is_review_id : Value → Bool
unfolding strip
is_review_id (int n) = true
is_review_id (bool b) = true
is_review_id (str s) = truthy (strip s)
is_review_id _ = false

unfoldable pub snapshot_by : Value → LiveReview → Option ReviewSnapshotRecord
unfolding is_review_id nonblank strip upper
snapshot_by author review =
    let review_id = or_else review.id null in
    elim (as_text (or_else review.state null)) [
      | none ↦ none
      | some state ↦
          if is_review_id review_id && truthy (strip state)
          then some (record {
            review_id = review_id;
            state = upper state;
            author = nonblank (as_text author);
            submitted_at = nonblank (stamp_text review.submitted_at);
            commit_id = nonblank (as_text review.commit_id);
            source_precedence = 1;
            payload = review;
          })
          else none
    ]

unfoldable pub build_review_snapshot_record :
    Option LiveReview → Option String → Checked (Option ReviewSnapshotRecord)
unfolding snapshot_by login_of nonblank
build_review_snapshot_record none actor = returned none
build_review_snapshot_record (some review) actor = elim (nonblank actor) [
  | some name ↦ returned (snapshot_by (str name) review)
  | none ↦ login_of review >>= λ author. returned (snapshot_by author review)
]

-- `classified_scope`
pub data Scope : Type 0 where
  malformed dismissed_or_superseded before_cycle stale_head : Scope
  current_head_assigned_reviewer current_head_alternate_reviewer unknown : Scope

abbrev pub is_assigned_scope : Scope → Bool
is_assigned_scope current_head_assigned_reviewer = true
is_assigned_scope _ = false

unfoldable pub reason : Scope → Option String
reason malformed = some "malformed_review_snapshot"
reason dismissed_or_superseded = some "review_dismissed_or_superseded"
reason before_cycle = some "review_before_cycle_boundary"
reason stale_head = some "review_not_on_current_head"
reason current_head_assigned_reviewer = none
reason current_head_alternate_reviewer = some "alternate_reviewer_diagnostic_only"
reason unknown = some "unknown_review_author"

pub record ReviewFreshnessClassification : Type 0 where
  pub review_id : Value
  pub author : Option String
  pub state : Option String
  pub submitted_at : Option String
  pub commit_id : Option String
  pub classified_scope : Scope
  pub is_assigned_reviewer : Bool
  pub is_current_head : Bool
  pub is_after_cycle_boundary : Bool
  pub is_dismissed_or_superseded : Bool
  pub diagnostic_reason : Option String
  pub payload : LiveReview

-- `a.strip() == b.strip()` of two texts.
unfoldable pub same_stripped : Option String → Option String → Bool
unfolding strip
same_stripped (some a) (some b) = strip a == strip b
same_stripped _ _ = false

-- `a.lower() == b.lower()` of two texts.
unfoldable pub same_lowered : Option String → Option String → Bool
unfolding lower
same_lowered (some a) (some b) = lower a == lower b
same_lowered _ _ = false

-- `boundary_dt is None or (submitted_dt is not None and submitted_dt >= boundary_dt)`
unfoldable pub is_after : Option ℕ → Option ℕ → Bool
is_after submitted none = true
is_after none (some boundary) = false
is_after (some submitted) (some boundary) = leb boundary submitted

abbrev pub stamp_of : Option String → Stamp
stamp_of none = no_stamp
stamp_of (some s) = text s

module _ (fromisoformat : String → Option DateTime) where
  -- `_timestamp_value`
  unfoldable pub timestamp_value : Stamp → Option ℕ
  unfolding parse_github_timestamp
  timestamp_value no_stamp = none
  timestamp_value (text s) = parse_github_timestamp fromisoformat (some s)
  timestamp_value (instant t) = some t

  unfoldable pub is_malformed : ReviewSnapshotRecord → Bool
  unfolding is_true strip
  is_malformed review = not (is_true review.review_id) || not (truthy (strip review.state))

  unfoldable pub is_dismissed : ReviewSnapshotRecord → Bool
  unfolding upper
  is_dismissed review = upper review.state == "DISMISSED"

  unfoldable pub submitted_after : ReviewSnapshotRecord → Stamp → Bool
  unfolding timestamp_value is_after
  submitted_after review cycle_boundary =
      is_after (timestamp_value (stamp_of review.submitted_at)) (timestamp_value cycle_boundary)

  unfoldable pub scope_of : ReviewSnapshotRecord → Option String → Stamp → Option String → Scope
  unfolding is_malformed is_dismissed submitted_after same_stripped same_lowered nonblank
  scope_of review current_head_sha cycle_boundary assigned_reviewer =
      if is_malformed review
      then malformed
      else if is_dismissed review
      then dismissed_or_superseded
      else if not (submitted_after review cycle_boundary)
      then before_cycle
      else if not (same_stripped review.commit_id current_head_sha)
      then stale_head
      else if same_lowered review.author assigned_reviewer
      then current_head_assigned_reviewer
      else if is_some (nonblank review.author)
      then current_head_alternate_reviewer
      else unknown

  unfoldable pub classify_review_freshness :
      ReviewSnapshotRecord → Option String → Stamp → Option String → ReviewFreshnessClassification
  unfolding scope_of reason is_dismissed submitted_after same_stripped same_lowered nonblank upper
  classify_review_freshness review current_head_sha cycle_boundary assigned_reviewer =
      let scope = scope_of review current_head_sha cycle_boundary assigned_reviewer in
      record {
        review_id = review.review_id;
        author = nonblank review.author;
        state = elim (nonblank (some review.state)) [ none ↦ none | some s ↦ some (upper s) ];
        submitted_at = nonblank review.submitted_at;
        commit_id = nonblank review.commit_id;
        classified_scope = scope;
        is_assigned_reviewer = same_lowered review.author assigned_reviewer;
        is_current_head = same_stripped review.commit_id current_head_sha;
        is_after_cycle_boundary = submitted_after review cycle_boundary;
        is_dismissed_or_superseded = is_dismissed review;
        diagnostic_reason = reason scope;
        payload = review.payload;
      }

-- The first of the three fields that `parse_timestamp` can read.
unfoldable pub get_current_cycle_boundary : (Option String → Option ℕ) → ReviewEntryState → Option ℕ
get_current_cycle_boundary parse_timestamp entry =
    let or_next : Option ℕ → Option ℕ → Option ℕ = λ a b. if is_some a then a else b in
    or_next (parse_timestamp entry.active_cycle_started_at)
      (or_next (parse_timestamp entry.cycle_started_at) (parse_timestamp entry.assigned_at))
