-- ===== src/Review/Channels.antt =====
-- accept_channel_event of scripts/reviewer_bot_core/review_state_machine.py: what a channel holds
-- after events, whatever their order.
use Prim.Native.Nat.{Ordering}
use text.Mathlib.TextEquality.{path_by_compare}
use text.Mathlib.TextPositions.{eq_refl}
use safety_critical_rust_cod.Common.Order.{IsOrder, numbers-IsOrder, texts-IsOrder}
use safety_critical_rust_cod.Common.{
  ◌≡◌, ◌≢◌, refl, ap, ◌∙◌, String, Bool, true, false, ◌||◌, Option, none, some, List, [], ◌∷◌, ◌++◌,
  arith, is_in, ◌==◌, eq_iff, if◌then◌else◌, Bool-cases, Option-cases, inl, inr,
}
use safety_critical_rust_cod.Timestamps.{DateTime}
use safety_critical_rust_cod.Review.{
  AcceptedRecord, AcceptedChannelRecord, event, dismissal, ReviewEntryState, ReviewChannelState,
  ChannelName, reviewer_comment, reviewer_review, contributor_comment, contributor_revision,
  review_dismissal, channel, set_channel, record_key, record_rank, record_time, compare_tuples,
  prefer, accept_channel_event,
}

is_in-snoc : (n : String) (xs : List String) → is_in n (xs ++ n ∷ []) ≡ true
is_in-snoc n [] = rw eq_refl refl
is_in-snoc n (x ∷ xs) = ground (arith, is_in-snoc n xs)

is_in-append : (n : String) (xs ys : List String) → is_in n (xs ++ ys) ≡ (is_in n xs || is_in n ys)
is_in-append n [] ys = refl
is_in-append n (x ∷ xs) ys = ground (arith, is_in-append n xs ys)

module _ (fromisoformat : String → Option DateTime) where
  abbrev accept :
      ReviewEntryState → ChannelName → AcceptedChannelRecord → Bool → ReviewEntryState × Bool
  accept = accept_channel_event fromisoformat

  compare_tuples-IsOrder : IsOrder (compare_tuples fromisoformat)
  unfolding compare_tuples
  compare_tuples-IsOrder = record {
    flipped = λ a b. ground (
      arith,
      numbers-IsOrder.flipped (record_time fromisoformat a) (record_time fromisoformat b),
      numbers-IsOrder.flipped (record_rank a) (record_rank b),
      texts-IsOrder.flipped (record_key a) (record_key b),
    );
    chained = λ a b c h k. ground (
      arith,
      numbers-IsOrder.chained (record_time fromisoformat a) (record_time fromisoformat b)
          (record_time fromisoformat c),
      numbers-IsOrder.flipped (record_time fromisoformat a) (record_time fromisoformat b),
      numbers-IsOrder.chained (record_rank a) (record_rank b) (record_rank c),
      texts-IsOrder.chained (record_key a) (record_key b) (record_key c),
    );
  }

  -- Records that compare as equal have one key.
  compare_tuples-key :
      (a b : AcceptedRecord)
      → compare_tuples fromisoformat a b ≡ Ordering.eq
      → record_key a ≡ record_key b
  unfolding compare_tuples
  compare_tuples-key a b h = path_by_compare (record_key a) (record_key b) (ground arith)

  -- What a channel accepts from two events of different keys does not depend on their order.
  prefer_comm :
      (a b : AcceptedRecord) (c : Option AcceptedRecord)
      → record_key a ≢ record_key b
      → prefer fromisoformat a (prefer fromisoformat b c)
        ≡ prefer fromisoformat b (prefer fromisoformat a c)
  unfolding prefer
  prefer_comm a b none h =
      ground (arith, compare_tuples-key a b, compare_tuples-IsOrder.flipped a b)
  prefer_comm a b (some c) h =
      let order = compare_tuples-IsOrder in
      ground (
        arith,
        compare_tuples-key a b,
        order.flipped a b,
        order.flipped a c,
        order.flipped b c,
        order.chained a b c,
        order.chained a c b,
        order.chained b a c,
        order.chained b c a,
        order.chained c a b,
        order.chained c b a,
      )

  -- An event whose key was seen changes nothing.
  accept_seen :
      (r : ReviewEntryState) (name : ChannelName) (e : AcceptedChannelRecord) (d : Bool)
      → is_in e.semantic_key (channel name r).seen_keys ≡ true
      → accept r name e d ≡ (r, false)
  unfolding accept_channel_event
  accept_seen r name e d h = rw (h, accept_channel_event)

  -- An event and whether it is a dismissal.
  abbrev pub Arrival : Type 0
  Arrival = AcceptedChannelRecord × Bool

  -- What a channel accepts once an event with an unseen key arrives: the first dismissal stays.
  accepted_after : Arrival → Option AcceptedRecord → Option AcceptedRecord
  accepted_after (e, false) c = prefer fromisoformat (event e) c
  accepted_after (e, true) (some a) = some a
  accepted_after (e, true) none =
      some (dismissal (record { semantic_key = e.semantic_key; timestamp = e.timestamp }))

  -- What an event does to its channel.
  after_event : ReviewChannelState → Arrival → ReviewChannelState
  after_event c (e, d) = if is_in e.semantic_key c.seen_keys then c else record {
    accepted = accepted_after (e, d) c.accepted;
    seen_keys = c.seen_keys ++ e.semantic_key ∷ [];
  }

  channel-set :
      (name : ChannelName) (c : ReviewChannelState) (r : ReviewEntryState)
      → channel name (set_channel name c r) ≡ c
  channel-set reviewer_comment c r = refl
  channel-set reviewer_review c r = refl
  channel-set contributor_comment c r = refl
  channel-set contributor_revision c r = refl
  channel-set review_dismissal c r = refl

  channel-dismissal :
      (r : ReviewEntryState) (name : ChannelName) (e : AcceptedChannelRecord)
      → channel name (accept r name e true).0 ≡ after_event (channel name r) (e, true)
  unfolding accept_channel_event after_event accepted_after
  channel-dismissal r name e = elim (Bool-cases (is_in e.semantic_key (channel name r).seen_keys)) [
    | inl seen ↦ rw (seen, accept_channel_event) refl
    | inr fresh ↦ elim (Option-cases (channel name r).accepted) [
      | inl k ↦ rw (fresh, k, accept_channel_event) (channel-set name _ r)
      | inr (a, k) ↦ rw (fresh, k, accept_channel_event) (channel-set name _ r)
    ]
  ]

  channel-accept :
      (r : ReviewEntryState) (name : ChannelName) (e : Arrival)
      → channel name (accept r name e.0 e.1).0 ≡ after_event (channel name r) e
  unfolding accept_channel_event after_event accepted_after
  channel-accept r name (e, true) = channel-dismissal r name e
  channel-accept r reviewer_comment (e, false) = ground arith
  channel-accept r _ (e, false) = ground arith

  -- Accepting an event in a channel changes no other channel.
  pub channel-accept_other :
      (r : ReviewEntryState) (name other : ChannelName) (e : AcceptedChannelRecord) (d : Bool)
      → name ≢ other
      → channel other (accept r name e d).0 ≡ channel other r
  unfolding accept_channel_event
  channel-accept_other r reviewer_comment reviewer_comment e d h = absurd (h refl)
  channel-accept_other r _ _ e d h = ground arith

  accept_keys :
      (r : ReviewEntryState) (name : ChannelName) (e : AcceptedChannelRecord) (d : Bool)
      → is_in e.semantic_key (channel name r).seen_keys ≡ false
      → (channel name (accept r name e d).0).seen_keys
        ≡ (channel name r).seen_keys ++ e.semantic_key ∷ []
  unfolding accept_channel_event
  accept_keys r reviewer_comment e d h = ground arith
  accept_keys r _ e d h = ground arith

  -- After an event was given to a channel, an event with the same key changes nothing in it and is
  -- reported as no change.
  pub accept_twice :
      (r : ReviewEntryState) (name : ChannelName) (e e' : AcceptedChannelRecord) (d d' : Bool)
      → e'.semantic_key ≡ e.semantic_key
      → accept (accept r name e d).0 name e' d' ≡ ((accept r name e d).0, false)
  accept_twice r name e e' d d' same =
      elim (Bool-cases (is_in e.semantic_key (channel name r).seen_keys)) [
        | inl seen ↦ rw (accept_seen r name e d seen) (accept_seen r name e' d' (rw same seen))
        | inr fresh ↦ accept_seen (accept r name e d).0 name e' d' (
            rw same (
              rw (accept_keys r name e d fresh)
                (is_in-snoc e.semantic_key (channel name r).seen_keys)))
      ]

  -- Two states of a channel that accept and refuse the same events from now on.
  pub record Alike (c c' : ReviewChannelState) : Type 0 where
    pub accepted : c.accepted ≡ c'.accepted
    pub seen : (key : String) → is_in key c.seen_keys ≡ is_in key c'.seen_keys

  after_event-seen :
      (c : ReviewChannelState) (e : Arrival) (key : String)
      → is_in key (after_event c e).seen_keys ≡ (is_in key c.seen_keys || (e.0.semantic_key == key))
  unfolding after_event
  after_event-seen c (e, d) key =
      ground (arith, eq_iff e.semantic_key key, is_in-append key c.seen_keys (e.semantic_key ∷ []))

  after_event-accepted :
      (c : ReviewChannelState) (e : Arrival)
      → (after_event c e).accepted
        ≡ (if is_in e.0.semantic_key c.seen_keys then c.accepted else accepted_after e c.accepted)
  unfolding after_event
  after_event-accepted c (e, d) = ground arith

  Alike-after :
      (c c' : ReviewChannelState) (e : Arrival)
      → Alike c c'
      → Alike (after_event c e) (after_event c' e)
  Alike-after c c' e a = record {
    accepted = ground (
      arith,
      after_event-accepted c e,
      after_event-accepted c' e,
      a.accepted,
      a.seen e.0.semantic_key,
    );
    seen = λ key. ground (arith, after_event-seen c e key, after_event-seen c' e key, a.seen key);
  }

  accepted_after_comm :
      (a b : AcceptedChannelRecord) (c : Option AcceptedRecord)
      → a.semantic_key ≢ b.semantic_key
      → accepted_after (a, false) (accepted_after (b, false) c)
        ≡ accepted_after (b, false) (accepted_after (a, false) c)
  unfolding accepted_after
  accepted_after_comm a b c h = prefer_comm (event a) (event b) c h

  Alike-swap :
      (c : ReviewChannelState) (a b : AcceptedChannelRecord)
      → a.semantic_key ≢ b.semantic_key
      → Alike
          (after_event (after_event c (a, false)) (b, false))
          (after_event (after_event c (b, false)) (a, false))
  Alike-swap c a b h = record {
    accepted = ground (
      arith,
      after_event-accepted c (a, false),
      after_event-accepted c (b, false),
      after_event-accepted (after_event c (a, false)) (b, false),
      after_event-accepted (after_event c (b, false)) (a, false),
      after_event-seen c (a, false) b.semantic_key,
      after_event-seen c (b, false) a.semantic_key,
      eq_iff a.semantic_key b.semantic_key,
      eq_iff b.semantic_key a.semantic_key,
      accepted_after_comm a b c.accepted h,
    );
    seen = λ key. ground (
      arith,
      after_event-seen c (a, false) key,
      after_event-seen c (b, false) key,
      after_event-seen (after_event c (a, false)) (b, false) key,
      after_event-seen (after_event c (b, false)) (a, false) key,
    );
  }

  -- The events of a replay, one after another, each a dismissal or not.
  unfoldable pub replay : ReviewEntryState → ChannelName → List Arrival → ReviewEntryState
  replay r name [] = r
  replay r name (e ∷ events) = replay (accept r name e.0 e.1).0 name events

  after_events : ReviewChannelState → List Arrival → ReviewChannelState
  after_events c [] = c
  after_events c (e ∷ events) = after_events (after_event c e) events

  channel-replay :
      (name : ChannelName) (events : List Arrival) (r : ReviewEntryState)
      → channel name (replay r name events) ≡ after_events (channel name r) events
  unfolding replay after_events
  channel-replay name [] r = refl
  channel-replay name (e ∷ events) r =
      channel-replay name events (accept r name e.0 e.1).0
      ∙ ap (λ c. after_events c events) (channel-accept r name e)

  Alike-after_events :
      (events : List Arrival) (c c' : ReviewChannelState)
      → Alike c c'
      → Alike (after_events c events) (after_events c' events)
  unfolding after_events
  Alike-after_events [] c c' a = a
  Alike-after_events (e ∷ events) c c' a =
      Alike-after_events events (after_event c e) (after_event c' e) (Alike-after c c' e a)

  Alike-swap_events :
      (before after : List Arrival) (a b : AcceptedChannelRecord) (c : ReviewChannelState)
      → a.semantic_key ≢ b.semantic_key
      → Alike
          (after_events c (before ++ (a, false) ∷ (b, false) ∷ after))
          (after_events c (before ++ (b, false) ∷ (a, false) ∷ after))
  unfolding after_events
  Alike-swap_events [] after a b c h = Alike-after_events after _ _ (Alike-swap c a b h)
  Alike-swap_events (e ∷ before) after a b c h =
      Alike-swap_events before after a b (after_event c e) h

  -- Two neighbouring events with different keys that are no dismissals may come in either order, whatever
  -- events, dismissals included, come before and after them: the channel ends with the same accepted
  -- record and the same set of seen keys.
  pub replay_swap :
      (r : ReviewEntryState) (name : ChannelName) (before after : List Arrival)
      (a b : AcceptedChannelRecord)
      → a.semantic_key ≢ b.semantic_key
      → Alike
          (channel name (replay r name (before ++ (a, false) ∷ (b, false) ∷ after)))
          (channel name (replay r name (before ++ (b, false) ∷ (a, false) ∷ after)))
  replay_swap r name before after a b h =
      rw (channel-replay, channel-replay) (Alike-swap_events before after a b (channel name r) h)
