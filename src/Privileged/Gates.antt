-- ===== src/Privileged/Gates.antt =====
-- When the privileged command may run: scripts/reviewer_bot_core/privileged_command_policy.py.
use Prim.Native.String.{compare as compare_texts}
use safety_critical_rust_cod.Common.{
  ◌||◌, ℕ, ◌≡◌, refl, ap, ◌∙◌, subst, sym, String, Bool, true, false, not, ◌&&◌, Option, none, some,
  List, [], ◌∷◌, ◌==◌, eq_iff, eqb, all, filter, if◌then◌else◌, is_in, arith, Option-cases,
  Bool-cases, inl, inr,
}
use safety_critical_rust_cod.Privileged.{
  command_id, lock_path, PrivilegedRequest, PendingAcceptNoFlsChangesRecord, ExecutionDecision,
  PrivilegedExecutionContext, refused, execute, HandoffDecision, blocked, allowed, guard,
  IssueSnapshot, snapshot_issue_labels, sorted_labels, label_text, label_names,
  revalidate_pending_accept_no_fls_changes, validate_accept_no_fls_changes_handoff,
  prevalidate_accept_no_fls_changes_request,
}
use safety_critical_rust_cod.Common.Sorting.{any-sort_by}
use safety_critical_rust_cod.Value.{
  Value, list, dict, str, bool, int, null, Values, nil, cons, get, is_text, as_text,
}
use safety_critical_rust_cod.Privileged.Plans.{
  PlanDecision, plan, complete, CompletePrivilegedExecution, assess_changes,
  assess_accept_no_fls_changes_post_update, plan_accept_no_fls_changes_execution, is_other,
}

-- It runs on an issue that has the label, for a user who may triage.
abbrev pub may_run : Bool → Bool → String → Bool
may_run is_pull_request is_labelled permission_status =
    not is_pull_request && is_labelled && permission_status == "granted"

abbrev pub is_named : String → Value → Bool
is_named name (dict label) = is_text name (get "name" label)
is_named name label = false

-- Some label of a snapshot has this name.
abbrev pub has_label : String → Values → Bool
has_label name nil = false
has_label name (cons label labels) = is_named name label || has_label name labels

abbrev named : String → Option String → Bool
named name none = false
named name (some text) = text == name

named-as_text : (name : String) (v : Value) → named name (as_text v) ≡ is_text name v
named-as_text name (str s) = refl
named-as_text name null = refl
named-as_text name (bool b) = refl
named-as_text name (int n) = refl
named-as_text name (list vs) = refl
named-as_text name (dict d) = refl

named-label_text :
    (name : String) (label : Value) → named name (label_text label) ≡ is_named name label
named-label_text name (dict label) = named-as_text name (get "name" label)
named-label_text name (str s) = refl
named-label_text name null = refl
named-label_text name (bool b) = refl
named-label_text name (int n) = refl
named-label_text name (list vs) = refl

has_label-names :
    (name : String) (labels : Values) → is_in name (label_names labels) ≡ has_label name labels
unfolding label_names
has_label-names name nil = refl
has_label-names name (cons label labels) =
    let rest = has_label-names name labels in
    let first = named-label_text name label in
    elim (Option-cases (label_text label)) [
      | inl e ↦ rw (e, label_names) (rw (sym (rw e at first)) rest)
      | inr (text, e) ↦
          rw (e, label_names) (rw (sym (rw e at first)) (ap (λ b. (text == name) || b) rest))
    ]

has_label-snapshot :
    (name : String) (snapshot : IssueSnapshot)
    → is_in name (snapshot_issue_labels snapshot) ≡ has_label name snapshot.labels
unfolding snapshot_issue_labels sorted_labels
has_label-snapshot name snapshot =
    any-sort_by compare_texts (λ t. t == name) (label_names snapshot.labels)
    ∙ has_label-names name snapshot.labels

is_in-sorted :
    (name : String) (labels : List String) → is_in name (sorted_labels labels) ≡ is_in name labels
unfolding sorted_labels
is_in-sorted name labels = any-sort_by compare_texts (λ t. t == name) labels

abbrev pub is_execution : ExecutionDecision → Bool
is_execution (execute r context) = true
is_execution (refused code message) = false

abbrev pub is_allowed : HandoffDecision → Bool
is_allowed (allowed handoff) = true
is_allowed (blocked reason response) = false

abbrev pub is_empty : List String → Bool
is_empty [] = true
is_empty (path ∷ paths) = false

unavailable_not_granted : (s : String) → s == "unavailable" ≡ true → s == "granted" ≡ false
unavailable_not_granted s h =
    subst (λ t. t == "granted" ≡ false) (sym ((eq_iff s "unavailable").0 h)) refl

guard-some :
    (p : Bool) (labels : List String) (status : String) (refusal : String × String) {b : Bool}
    → is_in "fls-audit" labels ≡ b
    → guard p labels status ≡ some refusal
    → may_run p b status ≡ false
unfolding guard
guard-some p labels status refusal k h = ground (arith, unavailable_not_granted status)

guard-none :
    (p : Bool) (labels : List String) (status : String) {b : Bool}
    → is_in "fls-audit" labels ≡ b
    → guard p labels status ≡ none
    → may_run p b status ≡ true
unfolding guard
guard-none p labels status k h = ground arith

files_gate :
    (r : PendingAcceptNoFlsChangesRecord) (c : PrivilegedExecutionContext) (m : Option String)
    (files : List String)
    → is_execution (elim files as (λ f. ExecutionDecision) [
      | x ∷ xs ↦ refused "working_tree_not_clean" m
      | [] ↦ execute r c
    ])
      ≡ is_empty files
files_gate r c m [] = refl
files_gate r c m (x ∷ xs) = refl

module _ (status : String) where
  validate-allowed :
      (request : PrivilegedRequest) (key : String)
      → is_allowed (validate_accept_no_fls_changes_handoff request status key)
        ≡ may_run request.is_pull_request (is_in "fls-audit" request.issue_labels) status
  unfolding validate_accept_no_fls_changes_handoff
  validate-allowed request key =
      let p = request.is_pull_request in
      let labels = sorted_labels request.issue_labels in
      elim (Option-cases (guard p labels status)) [
        | inl e ↦
            rw
              (
                e,
                guard-none p labels status (is_in-sorted "fls-audit" request.issue_labels) e,
                validate_accept_no_fls_changes_handoff,
              )
              refl
        | inr (refusal, e) ↦
            rw
              (
                e,
                guard-some p labels status refusal (is_in-sorted "fls-audit" request.issue_labels)
                    e,
                validate_accept_no_fls_changes_handoff,
              )
              refl
      ]

  prevalidate-execution :
      (request : PrivilegedRequest) (files : List String)
      → is_execution (prevalidate_accept_no_fls_changes_request request status files) ≡ (
          may_run request.is_pull_request (is_in "fls-audit" request.issue_labels) status
          && is_empty files)
  unfolding prevalidate_accept_no_fls_changes_request
  prevalidate-execution request files =
      let p = request.is_pull_request in
      let labels = sorted_labels request.issue_labels in
      elim (Option-cases (guard p labels status)) [
        | inl e ↦
            rw
              (
                e,
                guard-none p labels status (is_in-sorted "fls-audit" request.issue_labels) e,
                prevalidate_accept_no_fls_changes_request,
              )
              (files_gate _ _ _ files)
        | inr (refusal, e) ↦
            rw
              (
                e,
                guard-some p labels status refusal (is_in-sorted "fls-audit" request.issue_labels)
                    e,
                prevalidate_accept_no_fls_changes_request,
              )
              refl
      ]

  revalidate-execution :
      (r : PendingAcceptNoFlsChangesRecord) (snapshot : IssueSnapshot) (root : String)
      → is_execution (revalidate_pending_accept_no_fls_changes r (some snapshot) status root) ≡ (
          r.command_name == command_id
          && may_run snapshot.is_pull_request (has_label "fls-audit" snapshot.labels) status)
  unfolding revalidate_pending_accept_no_fls_changes
  revalidate-execution r snapshot root =
      let p = snapshot.is_pull_request in
      let labels = snapshot_issue_labels snapshot in
      elim (Bool-cases (r.command_name == command_id)) [
        | inl f ↦ elim (Option-cases (guard p labels status)) [
          | inl e ↦
              rw
                (
                  f,
                  e,
                  guard-none p labels status (has_label-snapshot "fls-audit" snapshot) e,
                  revalidate_pending_accept_no_fls_changes,
                )
                refl
          | inr (refusal, e) ↦
              rw
                (
                  f,
                  e,
                  guard-some p labels status refusal (has_label-snapshot "fls-audit" snapshot) e,
                  revalidate_pending_accept_no_fls_changes,
                )
                refl
        ]
        | inr f ↦ rw (f, revalidate_pending_accept_no_fls_changes) refl
      ]

  -- The three gates let the command through exactly on an issue, which is no pull request, with a label
  -- named `fls-audit`, if the permission is granted; at the second gate there must also be no changed
  -- file, and at the third, with a snapshot of the issue, the record must be of this command.
  pub gates-may_run :
      (request : PrivilegedRequest) (key : String) (files : List String)
      (r : PendingAcceptNoFlsChangesRecord) (snapshot : IssueSnapshot) (root : String)
      → (is_allowed (validate_accept_no_fls_changes_handoff request status key)
          ≡ may_run request.is_pull_request (is_in "fls-audit" request.issue_labels) status)
        × (is_execution (prevalidate_accept_no_fls_changes_request request status files) ≡ (
            may_run request.is_pull_request (is_in "fls-audit" request.issue_labels) status
            && is_empty files))
        × (is_execution (revalidate_pending_accept_no_fls_changes r (some snapshot) status root) ≡ (
            r.command_name == command_id
            && may_run snapshot.is_pull_request (has_label "fls-audit" snapshot.labels) status))
  gates-may_run request key files r snapshot root = (
    validate-allowed request key,
    prevalidate-execution request files,
    revalidate-execution r snapshot root,
  )

abbrev pub is_plan : PlanDecision → Bool
is_plan (plan p) = true
is_plan (complete c) = false

abbrev pub is_lock : String → Bool
is_lock path = path == lock_path

-- The changed files are the lock file, and it did change.
abbrev pub lock_only : List String → Bool
lock_only files = not (is_empty files) && all is_lock files

abbrev passes : Option CompletePrivilegedExecution → Bool
passes none = true
passes (some c) = false

others-none : (files : List String) → is_empty (filter is_other files) ≡ all is_lock files
others-none [] = refl
others-none (f ∷ files) = elim (Bool-cases (is_lock f)) [
  | inl e ↦ rw (e, not, if◌then◌else◌) (others-none files)
  | inr e ↦ rw (e, not, if◌then◌else◌) refl
]

changes-passes :
    (files others : List String)
    → passes (assess_changes files others) ≡ (not (is_empty files) && is_empty others)
unfolding assess_changes
changes-passes [] others = refl
changes-passes (f ∷ files) [] = refl
changes-passes (f ∷ files) (o ∷ others) = refl

two_not_zero : (n : ℕ) → eqb n 2 ≡ true → eqb n 0 ≡ false
two_not_zero n h = ground arith

assess-passes :
    (audit update : ℕ) (details more : String) (files : List String)
    → passes (assess_accept_no_fls_changes_post_update audit details update more files)
      ≡ (eqb audit 0 && eqb update 0 && lock_only files)
unfolding assess_accept_no_fls_changes_post_update
assess-passes audit update details more files = elim (Bool-cases (eqb audit 2)) [
  | inl e ↦ rw (e, two_not_zero audit e, assess_accept_no_fls_changes_post_update) refl
  | inr e ↦ elim (Bool-cases (eqb audit 0)) [
    | inr f ↦ rw (e, f, assess_accept_no_fls_changes_post_update) refl
    | inl f ↦ elim (Bool-cases (eqb update 0)) [
      | inr g ↦ rw (e, f, g, assess_accept_no_fls_changes_post_update) refl
      | inl g ↦
          rw (e, f, g, assess_accept_no_fls_changes_post_update)
            (changes-passes files (filter is_other files)
              ∙ ap (λ b. not (is_empty files) && b) (others-none files))
    ]
  ]
]

-- A plan, which opens a pull request, is made exactly if the audit and the update succeeded and the
-- lock file, and no other file, has changed.
pub plan-lock_only :
    (audit update : ℕ) (details more : String) (files : List String) (issue_number : ℕ)
    (branch_date base_branch : String) (branch_exists : Bool) (branch_suffix : Option String)
    → is_plan (
        plan_accept_no_fls_changes_execution audit details update more files issue_number
          branch_date base_branch branch_exists branch_suffix)
      ≡ (eqb audit 0 && eqb update 0 && lock_only files)
unfolding plan_accept_no_fls_changes_execution
plan-lock_only audit update details more files issue_number branch_date base_branch branch_exists
      branch_suffix =
    let a = assess-passes audit update details more files in
    elim (Option-cases (assess_accept_no_fls_changes_post_update audit details update more files)) [
      | inl e ↦ rw (e, plan_accept_no_fls_changes_execution) (rw e at a)
      | inr (c, e) ↦ rw (e, plan_accept_no_fls_changes_execution) (rw e at a)
    ]
