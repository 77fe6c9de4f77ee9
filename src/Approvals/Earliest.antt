-- ===== src/Approvals/Earliest.antt =====
-- What find_triage_approval_after finds: scripts/reviewer_bot_core/approval_policy.py.
use Prim.Native.Nat.{compare as compare_numbers}
use Prim.Native.String.{compare as compare_texts}
use mathlib.Core.List.{Memᴰ}
use safety_critical_rust_cod.Common.{
  ◌≡◌, String, Bool, true, not, ◌||◌, Option, none, some, List, ◌==◌, all, lower,
}
use safety_critical_rust_cod.Common.Sorting.{not_after}
use safety_critical_rust_cod.Value.{Value}
use safety_critical_rust_cod.Timestamps.{DateTime}
use safety_critical_rust_cod.Approvals.Triage.{Approval, compare_approvals, cached, has_triage}

module _ (fromisoformat : String → Option DateTime) (python_str : Value → String)
    (ask : String → String → String) where
  abbrev triage : String → Bool
  triage = has_triage fromisoformat python_str ask

  -- GitHub's answers do not depend on the case of a login.
  abbrev pub IgnoresCase : Type 0
  IgnoresCase = (a b : String) → (lower a == lower b) ≡ true → ask a "triage" ≡ ask b "triage"

  -- What is cached is the answer for every login of that key.
  abbrev Faithful : List (String × Bool) → Type 0
  Faithful cache =
      (author : String) (b : Bool) → cached (lower author) cache ≡ some b → b ≡ triage author

  -- No approval of the list is by a user with triage permission, or this one of the list is and none
  -- that is by such a user is before it.
  abbrev pub IsEarliest : List Approval → Option Approval → Type 0
  IsEarliest approvals none = all (λ b. not (triage b.author)) approvals ≡ true
  IsEarliest approvals (some a) =
      Memᴰ a approvals
      × (triage a.author ≡ true)
      × (all (λ b. not (triage b.author) || not_after compare_approvals a b) approvals ≡ true)
