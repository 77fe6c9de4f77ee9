-- ===== src/Commands/Rights.antt =====
-- Who is authorised by authorize_assignment_command, scripts/reviewer_bot_core/comment_command_policy.py.
use safety_critical_rust_cod.Common.{
  ◌≡◌, ◌≢◌, ◌↔◌, ◌⊎◌, refl, String, Bool, true, false, not, ◌&&◌, ◌||◌, arith, Option, [], ◌∷◌,
  ◌==◌, if◌then◌else◌, subst, eq_iff, Bool-cases, inl, inr, truthy, lower, is_in,
}
use safety_critical_rust_cod.Commands.Authorization.{
  IssueNumber, is_positive, text_or_empty, is_named, is_reviewer, triage_or_better,
  is_queue_command, judge, login_of, permission_of, authorize_login, authorize_assignment_command,
}

-- The right to the command: a triager may use each of the two, and the queue is open to the
-- reviewer too, and to anybody who asks for a producer while nobody is assigned.
abbrev pub IsEntitled : String → String → String → Option String → Option String → Type 0
IsEntitled command login permission target reviewer =
    (triage_or_better permission ≡ true)
      × ((command == "r?-user") ≡ true ⊎ is_queue_command command ≡ true)
    ⊎ (is_reviewer login reviewer ≡ true) × (is_queue_command command ≡ true)
    ⊎ (is_named reviewer ≡ false)
      × (is_queue_command command ≡ true)
      × ((lower (text_or_empty target) == "producers") ≡ true)

not_queue : is_queue_command "r?-user" ≢ true
not_queue h = absurd cc

queue_other : (command : String) → is_queue_command command ≡ true → (command == "r?-user") ≡ false
queue_other command h = elim (Bool-cases (command == "r?-user")) [
  | inl same ↦
      absurd
        (not_queue (subst (λ c. is_queue_command c ≡ true) ((eq_iff command "r?-user").0 same) h))
  | inr different ↦ different
]

judge_iff :
    (command login permission : String) (target reviewer : Option String)
    → ((judge command login target reviewer permission).0 ≡ true)
      ↔ IsEntitled command login permission target reviewer
unfolding judge
judge_iff command login permission target reviewer =
    (ground arith, ground (arith, queue_other command))

abbrev pub is_unknown : String → Bool
is_unknown permission = is_in permission ("" ∷ "unknown" ∷ "unavailable" ∷ [])

authorize_login-authorized :
    (command login : String) (n : IssueNumber) (target reviewer : Option String)
    (permission : String)
    → (authorize_login command login n target reviewer permission).authorized ≡ (
        truthy login
        && is_positive n
        && not (is_unknown permission)
        && (judge command login target reviewer permission).0)
unfolding authorize_login
authorize_login-authorized command login n target reviewer permission = ground arith

all_iff :
    {P : Type 0} (a b c d : Bool)
    → (d ≡ true) ↔ P
    → ((a && b && not c && d) ≡ true) ↔ (a ≡ true) × (b ≡ true) × (c ≡ false) × P
all_iff {P} true true false d (to, from) = (λ h. (refl, refl, refl, to h), λ (_, _, _, p). from p)
all_iff {P} false b c d iff = (λ h. absurd cc, λ (h, _, _, _). absurd cc)
all_iff {P} true false c d iff = (λ h. absurd cc, λ (_, h, _, _). absurd cc)
all_iff {P} true true true d iff = (λ h. absurd cc, λ (_, _, h, _). absurd cc)

-- A command is authorised exactly if the actor has a name, the issue number is positive, the
-- permission of the actor is known, and the actor is entitled to the command.
pub authorized_iff :
    (command : String) (actor : Option String) (n : IssueNumber)
    (target reviewer permission : Option String)
    → ((authorize_assignment_command command actor n target reviewer permission).authorized ≡ true)
      ↔ (truthy (login_of actor) ≡ true)
        × (is_positive n ≡ true)
        × (is_in (permission_of permission) ("" ∷ "unknown" ∷ "unavailable" ∷ []) ≡ false)
        × IsEntitled command (login_of actor) (permission_of permission) target reviewer
unfolding authorize_assignment_command
authorized_iff command actor n target reviewer permission =
    let login = login_of actor in
    let known = permission_of permission in
    rw (authorize_login-authorized command login n target reviewer known) (
      all_iff (truthy login) (is_positive n) (is_unknown known)
        ((judge command login target reviewer known).0)
        (judge_iff command login known target reviewer))

abbrev pub is_grant : String → Bool
is_grant reason =
    is_in reason
      ("triage_override" ∷ "assigned_reviewer_pass_semantics" ∷ "unassigned_queue_request" ∷ [])

-- `judge` with its tests given.
abbrev outcome : Bool → Bool → Bool → Bool → Bool → Bool × String
outcome specific queue triage assigned vacant =
    if specific
    then (triage, if triage then "triage_override" else "actor_not_authorized")
    else if queue
    then (if not (triage || assigned) && vacant then (true, "unassigned_queue_request") else (
      triage || assigned,
      if triage
          then "triage_override"
          else if assigned
          then "assigned_reviewer_pass_semantics"
          else "actor_not_authorized",
    ))
    else (false, "not_assignment_command")

is_grant-outcome :
    (specific queue triage assigned vacant : Bool)
    → let o = outcome specific queue triage assigned vacant in is_grant (o.1) ≡ o.0
is_grant-outcome true queue true assigned vacant = refl
is_grant-outcome true queue false assigned vacant = refl
is_grant-outcome false false triage assigned vacant = refl
is_grant-outcome false true true assigned vacant = refl
is_grant-outcome false true false true vacant = refl
is_grant-outcome false true false false true = refl
is_grant-outcome false true false false false = refl

is_grant-judge :
    (command login : String) (target reviewer : Option String) (permission : String)
    → is_grant ((judge command login target reviewer permission).1)
      ≡ (judge command login target reviewer permission).0
unfolding judge
is_grant-judge command login target reviewer permission =
    is_grant-outcome (command == "r?-user") (is_queue_command command) (triage_or_better permission)
      (is_reviewer login reviewer)
      (not (is_named reviewer) && lower (text_or_empty target) == "producers")

authorize_login-reason :
    (command login : String) (n : IssueNumber) (target reviewer : Option String)
    (permission : String)
    → let a = authorize_login command login n target reviewer permission in
      is_grant a.reason ≡ a.authorized
unfolding authorize_login
authorize_login-reason command login n target reviewer permission =
    elim (Bool-cases (truthy login)) [
      | inr unnamed ↦ rw unnamed refl
      | inl named ↦ rw named (elim (Bool-cases (is_positive n)) [
        | inr malformed ↦ rw malformed refl
        | inl positive ↦ rw positive (elim (Bool-cases (is_unknown permission)) [
          | inl unknown ↦ rw unknown refl
          | inr known ↦ rw known (is_grant-judge command login target reviewer permission)
        ])
      ])
    ]

-- The reason tells the outcome: it is one of three exactly if the command is authorised.
authorized-reason :
    (command : String) (actor : Option String) (n : IssueNumber)
    (target reviewer permission : Option String)
    → let a = authorize_assignment_command command actor n target reviewer permission in
      is_grant a.reason ≡ a.authorized
unfolding authorize_assignment_command
authorized-reason command actor n target reviewer permission =
    authorize_login-reason command (login_of actor) n target reviewer (permission_of permission)
