-- ===== src/LeaseLock/Acquisition.antt =====
-- What acquiring the lease promises: scripts/reviewer_bot_lib/lease_lock.py.
use safety_critical_rust_cod.Common.{
  ℕ, zero, suc, ◌+◌, ◌-◌, ◌≤◌, ◌<◌, ◌≡◌, refl, sym, ap, ◌∙◌, subst, String, true, arith, Option,
  some, none, Bool-cases, inl, inr, ltb, is_some,
}
use safety_critical_rust_cod.LeaseLock.{Host, History, LeaseContext, get_lock_ref_snapshot}
use safety_critical_rust_cod.LeaseLock.Guards.{begin}
use safety_critical_rust_cod.LeaseLock.Acquire.{
  Step, acquired, failed, retry, Owner, acquire_after, acquire_next, acquire_loop,
  acquire_state_issue_lease_lock, get_lock_owner_context,
}
use safety_critical_rust_cod.LeaseLock.Rounds.{
  IsTaken, IsSteady, Confirmed, Rounded, acquire-Rounded,
}

module _ (host : Host) (token : String) (owner : Owner) (h : History) where
  abbrev Gives : History × Option Step → Type 0
  Gives (l, some (acquired c)) = Confirmed host token owner l × (c.lock_token ≡ token)
  Gives _ = Unit

  -- The history is one in which the ref was moved as permitted.
  abbrev Sound : History × Option Step → Type 0
  Sound r = IsTaken host h r.0 × Gives r

  acquire_next-Sound :
      (k : History) (rest : History → History × Option Step) (r : History × Step)
      → ((l : History) → IsTaken host h l → Sound (rest l))
      → Rounded host token owner h k r
      → Sound (acquire_next host rest r)
  acquire_next-Sound k rest (l, retry) later round = later l round.guarded
  acquire_next-Sound k rest (l, acquired c) later round = (round.guarded, round.meant)
  acquire_next-Sound k rest (l, failed e) later round = (round.guarded, tt)

  acquire_loop-Sound :
      (fuel started n : ℕ) (k : History)
      → IsTaken host h k
      → Sound (acquire_loop host token owner started fuel n k)
  unfolding acquire_loop
  acquire_loop-Sound zero started n k guarded = (guarded, tt)
  acquire_loop-Sound (suc fuel) started n k guarded =
      elim (Bool-cases (ltb host.lock_max_wait (host.monotonic k - started))) [
        | inl late ↦ rw (late, acquire_loop) (guarded, tt)
        | inr early ↦
            rw (early, acquire_loop)
              (acquire_next-Sound k (acquire_loop host token owner started fuel (suc n))
                (acquire_after host token owner n (get_lock_ref_snapshot host k))
                (acquire_loop-Sound fuel started (suc n))
                (acquire-Rounded host token owner h k n guarded))
      ]

  acquire_next-total :
      (k : History) (rest : History → History × Option Step) (r : History × Step)
      → IsSteady host
      → ((l : History) → host.monotonic k < host.monotonic l → is_some (rest l).1 ≡ true)
      → Rounded host token owner h k r
      → is_some (acquire_next host rest r).1 ≡ true
  acquire_next-total k rest (l, retry) steady later round = later l (round.meant steady)
  acquire_next-total k rest (l, acquired c) steady later round = refl
  acquire_next-total k rest (l, failed e) steady later round = refl

module _ (host : Host) (token : String) (owner : Owner) where
  acquire_loop-total :
      (fuel started n : ℕ) (k : History)
      → IsSteady host
      → 1 ≤ fuel
      → started ≤ host.monotonic k
      → host.lock_max_wait + 2 ≤ fuel + (host.monotonic k - started)
      → is_some (acquire_loop host token owner started fuel n k).1 ≡ true
  unfolding acquire_loop
  acquire_loop-total zero started n k steady one began enough = absurd (omega arith)
  acquire_loop-total (suc fuel) started n k steady one began enough =
      elim (Bool-cases (ltb host.lock_max_wait (host.monotonic k - started))) [
        | inl late ↦ rw (late, acquire_loop) refl
        | inr early ↦
            rw (early, acquire_loop)
              (acquire_next-total host token owner k k
                (acquire_loop host token owner started fuel (suc n))
                (acquire_after host token owner n (get_lock_ref_snapshot host k)) steady
                (λ l on.
                  acquire_loop-total fuel started (suc n) l steady (ground (arith, early))
                    (omega arith) (ground (arith, early, on, began, enough)))
                (acquire-Rounded host token owner k k n begin))
      ]

-- On a host whose clock is steady, acquiring the lease ends with a lease or an error, once the fuel
-- is two more than the longest wait in ticks of the clock.
pub acquire_total :
    (host : Host) (active : Option LeaseContext) (fuel : ℕ) (h : History)
    → IsSteady host
    → host.lock_max_wait + 2 ≤ fuel
    → is_some (acquire_state_issue_lease_lock host fuel active h).1 ≡ true
unfolding acquire_state_issue_lease_lock
acquire_total host (some context) fuel h steady enough = refl
acquire_total host none fuel h steady enough =
    acquire_loop-total host host.uuid4_hex (get_lock_owner_context host) fuel (host.monotonic h) 1 h
      steady (omega arith) (omega arith) (omega arith)

abbrev token_of : Option Step → String
token_of (some (acquired c)) = c.lock_token
token_of _ = ""

Gives-Confirmed :
    (host : Host) (token : String) (owner : Owner) (h : History) (r : History × Option Step)
    (c : LeaseContext)
    → Gives host token owner h r
    → r.1 ≡ some (acquired c)
    → Confirmed host c.lock_token owner r.0
Gives-Confirmed host token owner h (l, some (acquired d)) c (confirmed, same) e =
    subst (λ t. Confirmed host t owner l) (sym same ∙ ap token_of e) confirmed
Gives-Confirmed host token owner h (l, some (failed x)) c given e = absurd cc
Gives-Confirmed host token owner h (l, some retry) c given e = absurd cc
Gives-Confirmed host token owner h (l, none) c given e = absurd cc

module _ (host : Host) (fuel : ℕ) (h : History) where
  -- Whatever the server and the other runs do, while a run that has no lease acquires one, the ref is
  -- moved only right after the creation of a commit on the head of a snapshot whose lock nobody held
  -- at that time.
  pub acquire-IsTaken : IsTaken host h (acquire_state_issue_lease_lock host fuel none h).0
  unfolding acquire_state_issue_lease_lock
  acquire-IsTaken =
      (acquire_loop-Sound host host.uuid4_hex (get_lock_owner_context host) h fuel
        (host.monotonic h) 1 h begin).0

  -- If a run that has no lease acquires one, then the last snapshot that it read of the ref is locked
  -- with the token of the lease and the owner of the run.
  pub acquire-Confirmed :
      (c : LeaseContext)
      → (acquire_state_issue_lease_lock host fuel none h).1 ≡ some (acquired c)
      → Confirmed host c.lock_token
          (get_lock_owner_context host)
          (acquire_state_issue_lease_lock host fuel none h).0
  unfolding acquire_state_issue_lease_lock
  acquire-Confirmed c e =
      Gives-Confirmed host host.uuid4_hex (get_lock_owner_context host) h
        (acquire_loop host host.uuid4_hex (get_lock_owner_context host) (host.monotonic h) fuel 1 h)
        c
        (acquire_loop-Sound host host.uuid4_hex (get_lock_owner_context host) h fuel
          (host.monotonic h) 1 h begin).1
        e
