-- ===== src/LeaseLock/Guards.antt =====
-- The calls that move the lock's ref, and what was read before each of them:
-- scripts/reviewer_bot_lib/lease_lock.py.
use safety_critical_rust_cod.Common.{ℕ, ◌≡◌, String, ◌∷◌, returned}
use safety_critical_rust_cod.Value.{Dict}
use safety_critical_rust_cod.LeaseLock.{
  Host, History, slept, get_lock_ref_snapshot, create_lock_commit, cas_update_lock_ref,
}
use safety_critical_rust_cod.LeaseLock.Bounds.{Reads}

-- The second history follows the first, and in what follows the ref is moved only right after the
-- creation of a commit on the head of a snapshot whose lock is a permitted one at that time.
pub data IsGuarded (host : Host) (Permits : History → Dict → Type 0) (h : History)
    : History → Type 0 where
  begin : IsGuarded host Permits h h
  reading :
      (k : History) {l : History}
      → IsGuarded host Permits h k
      → Reads k l
      → IsGuarded host Permits h l
  sleeping :
      {k : History} (n : ℕ) → IsGuarded host Permits h k → IsGuarded host Permits h (slept n ∷ k)
  updating :
      (k l : History) (head tree : String) (lock : Dict) (sha : String) (meta : Dict)
      → get_lock_ref_snapshot host k ≡ (l, returned (head, tree, lock))
      → Permits l lock
      → IsGuarded host Permits h l
      → IsGuarded host Permits h
          (cas_update_lock_ref host sha (create_lock_commit host head tree meta l).0).0
