-- ===== src/LeaseLock/Rounds.antt =====
-- A round of the loop that acquires the lease: scripts/reviewer_bot_lib/lease_lock.py.
use safety_critical_rust_cod.Common.{
  if_either, ℕ, ◌≤◌, ◌<◌, ◌≡◌, refl, String, true, false, arith, Option, some, none, [], ◌∷◌,
  Checked, returned, raised, Bool-cases, inl, inr,
}
use safety_critical_rust_cod.Value.{Dict}
use safety_critical_rust_cod.LeaseLock.{
  Host, History, Event, called, slept, get_lock_ref_snapshot, create_lock_commit,
  cas_update_lock_ref, send, extract_commit_sha, has_status, is_retryable_status,
}
use safety_critical_rust_cod.LeaseLock.Bounds.{Reads, start, read, snapshot-IsReading}
use safety_critical_rust_cod.LeaseLock.Guards.{IsGuarded, reading, sleeping, updating}
use safety_critical_rust_cod.LeaseLock.Leases.{
  lock_is_currently_valid, build_lock_metadata, snapshot_is_stale_unlocked_predecessor,
}
use safety_critical_rust_cod.LeaseLock.Acquire.{
  Step, acquired, failed, retry, Owner, AcquireError, lease, confirm, move_ref, move_ref_to,
  take_lock, acquire_after, snapshot_matches_expected_lock, snapshot_matches_expected_owner,
}

-- Permits the lock that nobody holds at that time.
abbrev pub IsTaken : Host → History → History → Type 0
IsTaken host =
    IsGuarded host
      (λ (l : History) (lock : Dict). lock_is_currently_valid host lock (host.now l) ≡ false)

-- The monotonic clock does not run backwards, and runs on while the run sleeps.
pub record IsSteady (host : Host) : Type 0 where
  pub never_back : (e : Event) (h : History) → host.monotonic h ≤ host.monotonic (e ∷ h)
  pub asleep : (n : ℕ) (h : History) → host.monotonic h < host.monotonic (slept n ∷ h)

-- The last thing that was read at this history is a lock of this token and owner.
pub record Confirmed (host : Host) (token : String) (owner : Owner) (l : History) : Type 0 where
  pub since : History
  pub head : String
  pub tree : String
  pub lock : Dict
  pub snapshot : get_lock_ref_snapshot host since ≡ (l, returned (head, tree, lock))
  pub token_matches : snapshot_matches_expected_lock host lock token ≡ true
  pub owner_matches : snapshot_matches_expected_owner host lock owner ≡ true

abbrev Later : Host → History → History → Type 0
Later host k l = IsSteady host → host.monotonic k ≤ host.monotonic l

Reads-Later : (host : Host) (k l : History) → Reads k l → Later host k l
Reads-Later host k l start steady = omega arith
Reads-Later host k _ (read {k = l} c safe r) steady =
    omega (arith, Reads-Later host k l r steady, steady.never_back (called c) l)

module _ (host : Host) (token : String) (owner : Owner) (h : History) where
  -- What a step means that ends a round from `k` to `l`.
  abbrev pub Means : History → History → Step → Type 0
  Means k l (acquired c) = Confirmed host token owner l × (c.lock_token ≡ token)
  Means k l (failed e) = Unit
  Means k l retry = IsSteady host → host.monotonic k < host.monotonic l

  -- A round that starts at `k` and ends so.
  pub record Rounded (k : History) (r : History × Step) : Type 0 where
    pub guarded : IsTaken host h r.0
    pub meant : Means k r.0 r.1

  ended : (k l : History) (e : AcquireError) → IsTaken host h l → Rounded k (l, failed e)
  ended k l e guarded = record { guarded = guarded; meant = tt }

  waited :
      (k l : History) (n : ℕ) → IsTaken host h l → Later host k l → Rounded k (slept n ∷ l, retry)
  waited k l n guarded later = record {
    guarded = sleeping n guarded;
    meant = λ steady. omega (arith, later steady, steady.asleep n l);
  }

  -- What a snapshot that is read at `l` from `k` on leaves.
  abbrev Seen : History → History → Type 0
  Seen k l = IsTaken host h l × Later host k l

  snapshot-Seen : (k l : History) → Seen k l → Seen k (get_lock_ref_snapshot host l).0
  snapshot-Seen k l (guarded, later) =
      let r = (snapshot-IsReading host).run l in
      (
        reading l guarded (r.0),
        λ steady.
            omega (
              arith,
              later steady,
              Reads-Later host l (get_lock_ref_snapshot host l).0 (r.0) steady,
            ),
      )

  confirm-Rounded :
      (k l : History) (n : ℕ) (expires : Option String)
      (s : History × Checked (String × String × Dict))
      → get_lock_ref_snapshot host l ≡ s
      → Seen k s.0
      → Rounded k (confirm host token owner n expires s)
  unfolding confirm
  confirm-Rounded k l n expires (m, raised e) same (guarded, later) = ended k m _ guarded
  confirm-Rounded k l n expires (m, returned (head, tree, lock)) same (guarded, later) =
      elim (Bool-cases (snapshot_matches_expected_lock host lock token)) [
        | inr other ↦
            rw (other, confirm)
              (if_either (Rounded k) (snapshot_is_stale_unlocked_predecessor lock)
                {x = (slept n ∷ m, retry)} {y = (m, failed _)} (waited k m n guarded later)
                (ended k m _ guarded))
        | inl own ↦ elim (Bool-cases (snapshot_matches_expected_owner host lock owner)) [
          | inr other ↦ rw (own, confirm) (rw other (ended k m _ guarded))
          | inl ours ↦
              rw (own, confirm)
                (rw ours (record {
                  guarded = guarded;
                  meant = (
                    record {
                      since = l;
                      head = head;
                      tree = tree;
                      lock = lock;
                      snapshot = same;
                      token_matches = own;
                      owner_matches = ours;
                    },
                    refl,
                  );
                }))
        ]
      ]

  move_ref-Rounded :
      (k l : History) (n : ℕ) (expires : Option String) (sha : String)
      → Seen k (cas_update_lock_ref host sha l).0
      → Rounded k (move_ref host token owner n expires sha l)
  unfolding move_ref
  move_ref-Rounded k l n expires sha seen =
      let (m, updated) = cas_update_lock_ref host sha l in
      if_either (Rounded k) (has_status (200 ∷ []) updated)
        (confirm-Rounded k m n expires (get_lock_ref_snapshot host m) refl (snapshot-Seen k m seen))
        (if_either (Rounded k) (has_status (409 ∷ 422 ∷ []) updated) (waited k m n seen.0 seen.1) (
          if_either (Rounded k) (has_status (404 ∷ []) updated) (ended k m _ seen.0) (
            if_either (Rounded k) (has_status (401 ∷ 403 ∷ []) updated) (ended k m _ seen.0) (
              if_either (Rounded k) (is_retryable_status updated.status_code)
                (waited k m n seen.0 seen.1) (ended k m _ seen.0)))))

  move_ref_to-Rounded :
      (k l : History) (n : ℕ) (expires sha : Option String)
      → Seen k l
      → ((s : String) → IsTaken host h (cas_update_lock_ref host s l).0)
      → Rounded k (move_ref_to host token owner n expires sha l)
  unfolding move_ref_to cas_update_lock_ref send
  move_ref_to-Rounded k l n expires none seen moved = ended k l _ seen.0
  move_ref_to-Rounded k l n expires (some sha) seen moved =
      move_ref-Rounded k l n expires sha
        (moved sha, λ steady. omega (arith, seen.1 steady, steady.never_back (called _) l))

  take_lock-Rounded :
      (k l : History) (n : ℕ) (head tree : String) (lock : Dict)
      → get_lock_ref_snapshot host k ≡ (l, returned (head, tree, lock))
      → lock_is_currently_valid host lock (host.now l) ≡ false
      → Seen k l
      → Rounded k (take_lock host token owner n head tree l)
  unfolding take_lock create_lock_commit cas_update_lock_ref send move_ref_to
  take_lock-Rounded k l n head tree lock same free (guarded, later) =
      let meta = build_lock_metadata host (lease host token owner none) l in
      let (m, created) = create_lock_commit host head tree meta l in
      let seen : Seen k m = (
        reading l guarded (read _ refl start),
        λ steady. omega (arith, later steady, steady.never_back (called _) l),
      ) in
      if_either (Rounded k) (has_status (201 ∷ []) created)
        (move_ref_to-Rounded k m n _ (extract_commit_sha created.payload) seen
          (λ sha. updating k l head tree lock sha meta same free guarded))
        (if_either (Rounded k) (is_retryable_status created.status_code)
          (waited k m n seen.0 seen.1)
          (if_either (Rounded k) (has_status (401 ∷ 403 ∷ []) created) (ended k m _ seen.0)
            (ended k m _ seen.0)))

  acquire_after-Rounded :
      (k : History) (n : ℕ) (s : History × Checked (String × String × Dict))
      → get_lock_ref_snapshot host k ≡ s
      → Seen k s.0
      → Rounded k (acquire_after host token owner n s)
  unfolding acquire_after
  acquire_after-Rounded k n (l, raised e) same (guarded, later) = ended k l _ guarded
  acquire_after-Rounded k n (l, returned (head, tree, lock)) same (guarded, later) =
      elim (Bool-cases (lock_is_currently_valid host lock (host.now l))) [
        | inr free ↦
            rw (free, acquire_after)
              (take_lock-Rounded k l n head tree lock same free (guarded, later))
        | inl valid ↦ elim (Bool-cases (snapshot_matches_expected_lock host lock token)) [
          | inr other ↦ rw (valid, acquire_after) (rw other (waited k l n guarded later))
          | inl own ↦ elim (Bool-cases (snapshot_matches_expected_owner host lock owner)) [
            | inr other ↦ rw (valid, acquire_after) (rw own (rw other (ended k l _ guarded)))
            | inl ours ↦
                rw (valid, acquire_after)
                  (rw own (
                    rw ours (record {
                      guarded = guarded;
                      meant = (
                        record {
                          since = k;
                          head = head;
                          tree = tree;
                          lock = lock;
                          snapshot = same;
                          token_matches = own;
                          owner_matches = ours;
                        },
                        refl,
                      );
                    })))
          ]
        ]
      ]

  pub acquire-Rounded :
      (k : History) (n : ℕ)
      → IsTaken host h k
      → Rounded k (acquire_after host token owner n (get_lock_ref_snapshot host k))
  acquire-Rounded k n guarded =
      acquire_after-Rounded k n (get_lock_ref_snapshot host k) refl
        (snapshot-Seen k k (guarded, λ steady. omega arith))
  -- What the loop gives: a lease only if it is confirmed.
