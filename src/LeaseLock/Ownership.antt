-- ===== src/LeaseLock/Ownership.antt =====
-- The lock's ref is moved only by its owner: renewing and releasing in
-- scripts/reviewer_bot_lib/lease_lock.py.
use safety_critical_rust_cod.Common.{
  if_either, ℕ, zero, suc, ◌+◌, ◌*◌, ◌≤◌, ◌≡◌, refl, String, true, false, arith, some, [], ◌∷◌,
  Checked, returned, raised, length, Bool-cases, Option-cases, inl, inr,
}
use safety_critical_rust_cod.Value.{is_text, Dict, get}
use safety_critical_rust_cod.LeaseLock.{
  Host, History, slept, Response, LeaseContext, get_lock_ref_snapshot, create_lock_commit,
  cas_update_lock_ref, send, extract_commit_sha, has_status, is_retryable_status,
}
use safety_critical_rust_cod.LeaseLock.Guards.{IsGuarded, begin, reading, sleeping, updating}
use safety_critical_rust_cod.LeaseLock.Bounds.{start, read, snapshot-IsReading}
use safety_critical_rust_cod.LeaseLock.Leases.{
  expiry, build_lock_metadata, clear_lock_metadata, snapshot_is_stale_unlocked_predecessor, Attempt,
  finished, again, update_ref, write_lock, renew_after, renew_attempt, release_after,
  release_attempt, run_attempts, renew_state_issue_lease_lock, release_state_issue_lease_lock,
}

-- Permits the lock that has this token.
abbrev pub IsOwned : Host → String → History → History → Type 0
IsOwned host token =
    IsGuarded host (λ (l : History) (lock : Dict). is_text token (get "lock_token" lock) ≡ true)

module _ (host : Host) (context : LeaseContext) (h : History) where
  abbrev token : String
  token = context.lock_token

  -- An attempt that starts at `k` and ends so.
  pub record Attempted (k : History) (r : History × Attempt) : Type 0 where
    pub owned : IsOwned host token h r.0
    pub bounded : length r.0 ≤ length k + 8

  update_ref-Attempted :
      (k l : History) (success : LeaseContext) (n : ℕ) (created : Response)
      → length l ≤ length k + 6
      → IsOwned host token h l
      → ((sha : String) → IsOwned host token h (cas_update_lock_ref host sha l).0)
      → Attempted k (update_ref host context success n created l)
  unfolding update_ref cas_update_lock_ref send
  update_ref-Attempted k l success n created bound owned moved =
      elim (Option-cases (extract_commit_sha created.payload)) [
        | inl missing ↦ rw (missing, update_ref) (record { owned = owned; bounded = omega arith })
        | inr (sha, e) ↦
            let ended : (a : Attempt) → Attempted k ((cas_update_lock_ref host sha l).0, a) =
              λ a. record { owned = moved sha; bounded = omega arith } in
            rw (e, update_ref)
              (if_either (Attempted k) _ (ended (finished true success)) (
                if_either (Attempted k) _
                  (record { owned = sleeping n (moved sha); bounded = omega arith })
                  (ended (finished false context))))
      ]

  write_lock-Attempted :
      (j k l : History) (success : LeaseContext) (n : ℕ) (head tree : String) (lock meta : Dict)
      → get_lock_ref_snapshot host k ≡ (l, returned (head, tree, lock))
      → is_text token (get "lock_token" lock) ≡ true
      → length l ≤ length j + 5
      → IsOwned host token h l
      → Attempted j (write_lock host context success n head tree meta l)
  unfolding write_lock create_lock_commit send
  write_lock-Attempted j k l success n head tree lock meta e same bound owned =
      let (committed, created) = create_lock_commit host head tree meta l in
      let kept : IsOwned host token h committed = reading l owned (read _ refl start) in
      if_either (Attempted j) (has_status (201 ∷ []) created)
        (update_ref-Attempted j committed success n created (omega arith) kept
          (λ sha. updating k l head tree lock sha meta e same owned))
        (if_either (Attempted j) (is_retryable_status created.status_code)
          {x = (slept n ∷ committed, again)} {y = (committed, finished false context)}
          (record { owned = sleeping n kept; bounded = omega arith })
          (record { owned = kept; bounded = omega arith }))

  -- What a snapshot leaves: the history is read only, and grew by at most five calls.
  abbrev Read : History → History → Type 0
  Read k l = IsOwned host token h l × (length l ≤ length k + 5)

  snapshot-Read : (k : History) → IsOwned host token h k → Read k (get_lock_ref_snapshot host k).0
  snapshot-Read k owned = let r = (snapshot-IsReading host).run k in (reading k owned (r.0), r.1)

  renew_after-Attempted :
      (k : History) (n : ℕ) (s : History × Checked (String × String × Dict))
      → get_lock_ref_snapshot host k ≡ s
      → Read k s.0
      → Attempted k (renew_after host context n s)
  unfolding renew_after
  renew_after-Attempted k n (l, raised e) h (owned, bound) = record {
    owned = owned;
    bounded = omega arith;
  }
  renew_after-Attempted k n (l, returned (head, tree, lock)) e (owned, bound) =
      elim (Bool-cases (is_text token (get "lock_token" lock))) [
        | inl same ↦
            rw (same, renew_after)
              (write_lock-Attempted k k l
                (record context { lock_expires_at = some (expiry host l) }) n head tree lock
                (build_lock_metadata host context l) e same bound owned)
        | inr foreign ↦ rw (foreign, renew_after) (record { owned = owned; bounded = omega arith })
      ]

  release_after-Attempted :
      (k : History) (n : ℕ) (s : History × Checked (String × String × Dict))
      → get_lock_ref_snapshot host k ≡ s
      → Read k s.0
      → Attempted k (release_after host context n s)
  unfolding release_after
  release_after-Attempted k n (l, raised e) h (owned, bound) = record {
    owned = owned;
    bounded = omega arith;
  }
  release_after-Attempted k n (l, returned (head, tree, lock)) e (owned, bound) =
      elim (Bool-cases (is_text token (get "lock_token" lock))) [
        | inl same ↦
            rw (same, release_after)
              (write_lock-Attempted k k l context n head tree lock clear_lock_metadata e same bound
                owned)
        | inr foreign ↦
            rw (foreign, release_after)
              (if_either (Attempted k) (snapshot_is_stale_unlocked_predecessor lock)
                {x = (slept n ∷ l, again)} {y = (l, finished false context)}
                (record { owned = sleeping n owned; bounded = omega arith })
                (record { owned = owned; bounded = omega arith }))
      ]

  -- Attempts, each of which is one as above.
  run_attempts-IsOwned :
      (try : LeaseContext → ℕ → History → History × Attempt)
      → ((k : History) (n : ℕ) → IsOwned host token h k → Attempted k (try context n k))
      → (rounds n : ℕ) (k : History) → IsOwned host token h k
      → IsOwned host token h (run_attempts host try rounds n context k).0
        × (length (run_attempts host try rounds n context k).0 ≤ length k + 8 * rounds)
  unfolding run_attempts
  run_attempts-IsOwned try step zero n k owned = (owned, omega arith)
  run_attempts-IsOwned try step (suc rounds) n k owned =
      cases (run_attempts-IsOwned try step rounds (suc n)) (try context n k) refl
    where
      cases :
          ((l : History)
            → IsOwned host token h l
            → IsOwned host token h (run_attempts host try rounds (suc n) context l).0
              × (length (run_attempts host try rounds (suc n) context l).0 ≤ length l + 8 * rounds))
          → (s : History × Attempt) → try context n k ≡ s
          → IsOwned host token h (run_attempts host try (suc rounds) n context k).0
            × (length (run_attempts host try (suc rounds) n context k).0
                ≤ length k + 8 * suc rounds)
      cases later (l, finished result context') e =
          let a = step k n owned in rw (e, run_attempts) (a.owned, omega (arith, a.bounded))
      cases later (l, again) e =
          let a = step k n owned in
          let rest = later (try context n k).0 a.owned in
          rw (e, run_attempts) (rest.0, omega (arith, a.bounded, rest.1))

  -- Whatever the server and the other runs do, renewing a lease moves the ref only right after the
  -- creation of a commit on the head of a snapshot that has the lease's token, and it makes at most
  -- eight calls or sleeps for each attempt that the limit allows.
  pub renew-IsOwned :
      let k = (renew_state_issue_lease_lock host context h).0 in
      IsOwned host token h k × (length k ≤ length h + 8 * host.lock_api_retry_limit)
  unfolding renew_state_issue_lease_lock renew_attempt
  renew-IsOwned =
      run_attempts-IsOwned (renew_attempt host)
        (λ k n owned.
          renew_after-Attempted k n (get_lock_ref_snapshot host k) refl (snapshot-Read k owned))
        host.lock_api_retry_limit 1 h begin

  -- Whatever the server and the other runs do, releasing an active lease moves the ref only right after
  -- the creation of a commit on the head of a snapshot that has the lease's token, and it makes at most
  -- eight calls or sleeps for each attempt that the limit allows.
  pub release-IsOwned :
      let k = (release_state_issue_lease_lock host (some context) h).0 in
      IsOwned host token h k × (length k ≤ length h + 8 * host.lock_api_retry_limit)
  unfolding release_state_issue_lease_lock release_attempt
  release-IsOwned =
      run_attempts-IsOwned (release_attempt host)
        (λ k n owned.
          release_after-Attempted k n (get_lock_ref_snapshot host k) refl (snapshot-Read k owned))
        host.lock_api_retry_limit 1 h begin
