-- ===== src/LeaseLock/Bounds.antt =====
-- What the lock code does to the history of calls: scripts/reviewer_bot_lib/lease_lock.py.
use safety_critical_rust_cod.Common.{
  ℕ, ◌+◌, ◌≤◌, ◌≡◌, refl, String, not, Bool, true, false, ◌==◌, arith, Option, none, some, [], ◌∷◌,
  Checked, returned, raised, if◌then◌else◌, length,
}
use safety_critical_rust_cod.LeaseLock.{
  has_status, is_dict, Host, History, Call, called, Action, proceed, bind, Response, require_sha,
  checked, done_with, fail, request, send, ensure_lock_ref_exists, refresh_lock_ref,
  create_lock_ref, bootstrap_lock_ref, read_lock_commit, get_lock_ref_snapshot,
}

-- A call that moves a ref.
abbrev pub is_update : Call → Bool
is_update c = c.method == "PATCH"

-- The second history follows the first by calls none of which moves a ref.
pub data Reads (h : History) : History → Type 0 where
  start : Reads h h
  read : {k : History} (c : Call) → is_update c ≡ false → Reads h k → Reads h (called c ∷ k)

Reads-trans : {h k l : History} → Reads h k → Reads k l → Reads h l
Reads-trans r start = r
Reads-trans r (read c safe s) = read c safe (Reads-trans r s)

-- The action makes at most `n` calls, and moves no ref.
pub record IsReading {A : Type 0} (n : ℕ) (m : Action A) : Type 0 where
  pub run : (h : History) → Reads h (m h).0 × (length (m h).0 ≤ length h + n)

done_with-IsReading : {A : Type 0} (n : ℕ) (a : A) → IsReading n (done_with a)
unfolding done_with
done_with-IsReading n a = record { run = λ h. (start, omega arith) }

fail-IsReading : (A : Type 0) (n : ℕ) (e : String) → IsReading {A = A} n (fail e)
unfolding fail
fail-IsReading A n e = record { run = λ h. (start, omega arith) }

proceed-Reads :
    {A B : Type 0} (a b : ℕ) (f : A → Action B)
    → ((x : A) → IsReading b (f x))
    → (h : History) (r : History × Checked A) → Reads h r.0 × (length r.0 ≤ length h + a)
    → Reads h (proceed f r).0 × (length (proceed f r).0 ≤ length h + (a + b))
proceed-Reads a b f next h (k, returned x) (reads, bound) =
    let rest = (next x).run k in (Reads-trans reads rest.0, omega arith)
proceed-Reads a b f next h (k, raised e) (reads, bound) = (reads, omega arith)

bind-IsReading :
    {A B : Type 0} (a b : ℕ) (m : Action A) (f : A → Action B)
    → IsReading a m
    → ((x : A) → IsReading b (f x))
    → IsReading (a + b) (bind m f)
unfolding bind
bind-IsReading a b m f first next = record {
  run = λ h. proceed-Reads a b f next h (m h) (first.run h);
}

if-IsReading :
    {A : Type 0} (n : ℕ) (test : Bool) (yes no : Action A)
    → IsReading n yes
    → IsReading n no
    → IsReading n (if test then yes else no)
if-IsReading n true a b first second = first
if-IsReading n false a b first second = second

module _ (host : Host) where
  request-IsReading : (c : Call) → is_update c ≡ false → IsReading 1 (request host c)
  unfolding request send
  request-IsReading c safe = record { run = λ h. (read c safe start, omega arith) }

  require_sha-IsReading :
      (n : ℕ) (message : String) (sha : Option String) → IsReading n (require_sha message sha)
  unfolding require_sha
  require_sha-IsReading n message none = fail-IsReading String n message
  require_sha-IsReading n message (some sha) = done_with-IsReading n sha

  refresh-IsReading : IsReading 1 (refresh_lock_ref host)
  unfolding refresh_lock_ref
  refresh-IsReading =
      bind-IsReading 1 0 _ _ (request-IsReading _ refl)
        (λ r. if-IsReading 0 _ _ _ (require_sha-IsReading 0 _ _) (fail-IsReading _ 0 _))

  create-IsReading : (sha : String) → IsReading 2 (create_lock_ref host sha)
  unfolding create_lock_ref
  create-IsReading sha =
      bind-IsReading 1 1 _ _ (request-IsReading _ refl)
        (λ r. if-IsReading 1 _ _ _ refresh-IsReading (fail-IsReading _ 1 _))

  bootstrap-IsReading : IsReading 3 (bootstrap_lock_ref host)
  unfolding bootstrap_lock_ref
  bootstrap-IsReading = bind-IsReading 1 2 _ _ (request-IsReading _ refl) (λ r.
      if-IsReading 2 _ _ _ (bind-IsReading 0 2 _ _ (require_sha-IsReading 0 _ _) create-IsReading)
        (fail-IsReading _ 2 _))

  ensure-IsReading : IsReading 4 (ensure_lock_ref_exists host)
  unfolding ensure_lock_ref_exists
  ensure-IsReading = bind-IsReading 1 3 _ _ (request-IsReading _ refl) (λ r.
      if-IsReading 3 _ _ _ (require_sha-IsReading 3 _ _)
        (if-IsReading 3 _ _ _ bootstrap-IsReading (fail-IsReading _ 3 _)))

  checked-IsReading : {A : Type 0} (n : ℕ) (result : Checked A) → IsReading n (checked result)
  unfolding checked
  checked-IsReading n result = record { run = λ h. (start, omega arith) }

  commit-IsReading : (sha : String) (r : Response) → IsReading 0 (read_lock_commit host sha r)
  unfolding read_lock_commit
  commit-IsReading sha r =
      if-IsReading 0 (not (has_status (200 ∷ []) r)) _ _ (fail-IsReading _ 0 _) (
        if-IsReading 0 (not (is_dict r.payload)) _ _ (fail-IsReading _ 0 _) (
          bind-IsReading 0 0 _ _ (require_sha-IsReading 0 _ _) (λ tree.
            bind-IsReading 0 0 _ _ (checked-IsReading 0 _) (λ lock. done_with-IsReading 0 _))))

  -- Reading the lock makes at most five calls, and moves no ref.
  pub snapshot-IsReading : IsReading 5 (get_lock_ref_snapshot host)
  unfolding get_lock_ref_snapshot
  snapshot-IsReading =
      bind-IsReading 4 1 _ _ ensure-IsReading
        (λ sha. bind-IsReading 1 0 _ _ (request-IsReading _ refl) (commit-IsReading sha))
