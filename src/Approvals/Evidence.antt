-- ===== src/Approvals/Evidence.antt =====
-- What the evidence of the permission reads says: scripts/reviewer_bot_core/approval_policy.py.
use safety_critical_rust_cod.Common.{
  ◌≡◌, ◌⊎◌, inl, inr, refl, String, Bool, true, false, ◌&&◌, ◌||◌, arith, eq_iff, Option, none,
  some, List, [], ◌∷◌, ◌==◌, any, any-elim, and_right, if◌then◌else◌, or_else, truthy, lower,
  Bool-cases, either, or_left, or_right, subst,
}
use safety_critical_rust_cod.Common.Folding.{lower_twice, lower-truthy}
use safety_critical_rust_cod.LiveReviews.{given, ReviewFreshnessClassification}
use safety_critical_rust_cod.Approvals.{
  Permission, granted, PermissionMap, is_approved, is_empty, put_status, status_of, lowered_onto,
  permission_status,
}
use safety_critical_rust_cod.Approvals.Triage.{is_granted}
use safety_critical_rust_cod.Approvals.Status.{permission_evidence}

status-put :
    (j k : String) (s : Permission) (m : PermissionMap)
    → status_of j (put_status k s m) ≡ (if k == j then s else status_of j m)
unfolding status_of put_status
status-put j k s [] = refl
status-put j k s ((i, t) ∷ m) =
    ground (arith, eq_iff k j, eq_iff i k, eq_iff i j, status-put j k s m)

-- Some login of the map, lowered, is that login, and has the permission.
abbrev pub grants : String → PermissionMap → Bool
grants login m = any (λ (key, s). (lower key == login) && is_granted s) m

pub lowered-granted :
    (login : String) (done m : PermissionMap)
    → status_of login (lowered_onto done m) ≡ granted
    → (is_granted (status_of login done) || grants login m) ≡ true
unfolding lowered_onto
lowered-granted login done [] h = rw h
lowered-granted login done ((key, s) ∷ m) h = ground (
  arith,
  lowered-granted login (put_status (lower key) s done) m,
  status-put login (lower key) s done,
)

grants-put :
    (login k : String) (s : Permission) (m : PermissionMap)
    → grants login (put_status k s m) ≡ true
    → (((lower k == login) && is_granted s) ≡ true) ⊎ (grants login m ≡ true)
unfolding put_status
grants-put login k s [] h = either _ _ h
grants-put login k s ((i, t) ∷ m) h =
    let new = (lower k == login) && is_granted s in
    let old = (lower i == login) && is_granted t in
    elim (Bool-cases (i == k)) [
      | inl e ↦ elim (either _ _ (rw e at h)) [
        | inl p ↦
            inl (subst (λ x. ((lower x == login) && is_granted s) ≡ true) ((eq_iff i k).0 e) p)
        | inr q ↦ inr (or_right old (grants login m) q)
      ]
      | inr e ↦ elim (either old (grants login (put_status k s m)) (rw e at h)) [
        | inl p ↦ inr (or_left old (grants login m) p)
        | inr q ↦ elim (grants-put login k s m q) [
          | inl p ↦ inl p
          | inr r ↦ inr (or_right old (grants login m) r)
        ]
      ]
    ]

regroup : (a b c : Bool) → a ≡ true → (b && c) ≡ true → (a && c && b) ≡ true
regroup true b c p q = ground arith
regroup false b c p q = absurd cc

module _ (user_permission_status : String → String → String) where
  -- An approval of a user who GitHub says may push.
  abbrev pub may_push : ReviewFreshnessClassification → Bool
  may_push r =
      is_approved r.state
      && given r.author
      && is_granted (permission_status user_permission_status (or_else r.author "") "push")

  abbrev status : ReviewFreshnessClassification → Permission
  status r = permission_status user_permission_status (or_else r.author "") "push"

  -- The same, by a user with that login, lowered.
  abbrev pub may_push_as : String → ReviewFreshnessClassification → Bool
  may_push_as login r = may_push r && (lower (or_else r.author "") == login)

  pub evidence-grants :
      (login : String) (done : PermissionMap) (current : List ReviewFreshnessClassification)
      → grants login (permission_evidence user_permission_status done current) ≡ true
      → (grants login done ≡ true) ⊎ (any (may_push_as login) current ≡ true)
  unfolding permission_evidence
  evidence-grants login done [] h = inl h
  evidence-grants login done (c ∷ current) h =
      let author = or_else c.author "" in
      elim (Bool-cases (is_approved c.state && given c.author)) [
        | inr e ↦ elim (evidence-grants login done current (rw e at h)) [
          | inl p ↦ inl p
          | inr q ↦ inr (or_right (may_push_as login c) _ q)
        ]
        | inl e ↦
            elim (evidence-grants login (put_status (lower author) (status c) done) current
              (rw e at h)) [
                | inr q ↦ inr (or_right (may_push_as login c) _ q)
                | inl p ↦ elim (grants-put login (lower author) (status c) done p) [
                  | inr q ↦ inl q
                  | inl r ↦
                      let same = rw (lower_twice author) at r in
                      inr (or_left (may_push_as login c) _ (regroup _ _ _ e same))
                ]
              ]
      ]

put-nonempty :
    (k : String) (s : Permission) (m : PermissionMap) → is_empty (put_status k s m) ≡ false
unfolding put_status
put-nonempty k s [] = refl
put-nonempty k s ((i, t) ∷ m) = ground arith

pub lowered-nonempty :
    (done m : PermissionMap)
    → (is_empty done ≡ false) ⊎ (is_empty m ≡ false)
    → is_empty (lowered_onto done m) ≡ false
unfolding lowered_onto
lowered-nonempty done [] (inl p) = p
lowered-nonempty done [] (inr q) = absurd cc
lowered-nonempty done ((key, s) ∷ m) _ =
    lowered-nonempty (put_status (lower key) s done) m (inl (put-nonempty (lower key) s done))

-- An approval by somebody has its permission read.
pub evidence-nonempty :
    (user_permission_status : String → String → String) (done : PermissionMap)
    (current : List ReviewFreshnessClassification)
    → (is_empty done ≡ false) ⊎ (any (λ r. is_approved r.state && given r.author) current ≡ true)
    → is_empty (permission_evidence user_permission_status done current) ≡ false
unfolding permission_evidence
evidence-nonempty ask done [] (inl p) = p
evidence-nonempty ask done [] (inr q) = absurd cc
evidence-nonempty ask done (c ∷ current) h =
    elim (Bool-cases (is_approved c.state && given c.author)) [
      | inl e ↦ rw e (
          evidence-nonempty ask (put_status (lower (or_else c.author "")) _ done) current
            (inl (put-nonempty (lower (or_else c.author "")) _ done)))
      | inr e ↦
          rw e (
            evidence-nonempty ask done current (elim h [ inl p ↦ inl p | inr q ↦ inr (rw e at q) ]))
    ]

given-truthy : (o : Option String) → given o ≡ true → truthy (or_else o "") ≡ true
given-truthy none h = absurd cc
given-truthy (some s) h = h

module _ (user_permission_status : String → String → String) where
  pub granted-may_push :
      (login : String) (current : List ReviewFreshnessClassification)
      → status_of login (lowered_onto [] (permission_evidence user_permission_status [] current))
        ≡ granted
      → any (may_push_as user_permission_status login) current ≡ true
  unfolding status_of
  granted-may_push login current h =
      let evidence =
        lowered-granted login [] (permission_evidence user_permission_status [] current) h in
      elim (evidence-grants user_permission_status login [] current evidence) [
        | inl p ↦ absurd cc
        | inr q ↦ q
      ]

  given_second : (a b c d : Bool) → (a && b && c && d) ≡ true → b ≡ true
  given_second true true c d h = refl
  given_second true false c d h = absurd cc
  given_second false b c d h = absurd cc

  -- Who may push under a login has one.
  pub may_push-truthy :
      (x : String) (current : List ReviewFreshnessClassification)
      → any (may_push_as user_permission_status (lower x)) current ≡ true
      → truthy x ≡ true
  may_push-truthy x current h =
      any-elim (may_push_as user_permission_status (lower x)) current h (λ r p.
        lower-truthy (or_else r.author "") x (given-truthy r.author (given_second _ _ _ _ p))
          (and_right (may_push user_permission_status r) _ p))
