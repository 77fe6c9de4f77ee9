-- ===== src/Response/Decorated.antt =====
-- What a decorated response is read as: _decorate_response and to_reviewer_response_decision of
-- scripts/reviewer_bot_core/reviewer_response_policy.py.
use safety_critical_rust_cod.Common.{
  ℕ, ◌≡◌, refl, String, true, Option, none, some, ◌==◌, if◌then◌else◌, truthy, arith, eq_iff,
  Bool-cases, inl, inr,
}
use safety_critical_rust_cod.Value.{
  Value, null, bool, int, str, list, dict, Dict, empty, entry, get, get_default, put, is_true,
  as_text, as_int, as_dict, get-put,
}
use safety_critical_rust_cod.Persistence.{persisted_text, text_of}
use safety_critical_rust_cod.Persistence.Entries.{put_all}
use safety_critical_rust_cod.Persistence.Events.{truthy-text_of, is_true-str}
use safety_critical_rust_cod.Response.Decision.{
  dict_or_none, decision_to_output, either_value, scope_key_of, scope_with_key,
  derive_review_cycle_scope, response_state_of, to_reviewer_response_decision, legacy_payload,
  decorate_response,
}

get_default-put :
    (j k : String) (x v : Value) (d : Dict)
    → get_default j x (put k v d) ≡ (if k == j then v else get_default j x d)
unfolding get_default put
get_default-put j k x v empty = refl
get_default-put j k x v (entry i w d) =
    ground (arith, eq_iff k j, eq_iff i k, eq_iff i j, get_default-put j k x v d)

ruleset payload_laws = (get-put, get_default-put)

as_text_twice : (v : Value) → as_text (persisted_text (as_text v)) ≡ as_text v
as_text_twice (str s) = refl
as_text_twice null = refl
as_text_twice (bool b) = refl
as_text_twice (int n) = refl
as_text_twice (list vs) = refl
as_text_twice (dict d) = refl

as_dict_twice : (v : Value) → as_dict (dict_or_none (as_dict v)) ≡ as_dict v
as_dict_twice (dict d) = refl
as_dict_twice null = refl
as_dict_twice (bool b) = refl
as_dict_twice (int n) = refl
as_dict_twice (str s) = refl
as_dict_twice (list vs) = refl

module _ (python_str : Value → String)
    (some_text : (v : Value) → truthy (python_str v) ≡ true) where
  text_of-either :
      (a b : Value)
      → truthy (text_of python_str b) ≡ true
      → truthy (text_of python_str (either_value a b)) ≡ true
  text_of-either a b h = elim (Bool-cases (is_true a)) [
    | inl e ↦ rw (e, either_value) (truthy-text_of python_str some_text a e)
    | inr e ↦ rw (e, either_value) h
  ]

  response_state_of-truthy : (d : Dict) → truthy (response_state_of python_str d) ≡ true
  unfolding response_state_of
  response_state_of-truthy d =
      text_of-either (get "response_state" d) _
        (text_of-either (get "state" d) (str "projection_failed") refl)

  state_twice :
      (s : String) (v : Value) → truthy s ≡ true → text_of python_str (either_value (str s) v) ≡ s
  state_twice s v h = rw (is_true-str python_str some_text s, h, either_value) refl

  module _ (state : String) (reason : Option String) (scope_fields payload : Dict)
      (scope_key : get "current_scope_key"
          (legacy_payload python_str state reason scope_fields payload)
        ≡ get "current_scope_key" scope_fields)
      (scope_basis : get "current_scope_basis"
          (legacy_payload python_str state reason scope_fields payload)
        ≡ get "current_scope_basis" scope_fields) where
    abbrev legacy : Dict
    legacy = legacy_payload python_str state reason scope_fields payload

    abbrev decorated : Dict
    decorated = decorate_response python_str state reason scope_fields payload

    scope_with_key-decorate :
        (n : Option ℕ) (reviewer key : Option String)
        → scope_with_key decorated n reviewer key ≡ scope_with_key legacy n reviewer key
    unfolding scope_with_key decorate_response decision_to_output put_all
        to_reviewer_response_decision
    scope_with_key-decorate n reviewer none = refl
    scope_with_key-decorate n reviewer (some key) = simp (payload_laws, as_text_twice, scope_basis)

    scope_key-decorate : scope_key_of decorated ≡ scope_key_of legacy
    unfolding decorate_response decision_to_output put_all to_reviewer_response_decision
    scope_key-decorate = simp (payload_laws, scope_key)

    scope-decorate :
        (n : Option ℕ) (reviewer : Option String)
        → derive_review_cycle_scope
            (decorate_response python_str state reason scope_fields payload)
            n
            reviewer
          ≡ derive_review_cycle_scope legacy n reviewer
    unfolding derive_review_cycle_scope
    scope-decorate n reviewer = rw (scope_key-decorate, scope_with_key-decorate n reviewer _) refl

    state-decorate :
        response_state_of python_str
          (decorate_response python_str state reason scope_fields payload)
        ≡ response_state_of python_str legacy
    unfolding decorate_response decision_to_output put_all to_reviewer_response_decision
        response_state_of
    state-decorate =
        simp payload_laws
          (state_twice (response_state_of python_str legacy) _ (response_state_of-truthy legacy))

    -- If the payload before its decoration has the `current_scope_key` and the `current_scope_basis` of the
    -- scope's fields, so that the payload did not overwrite them, and `str` of a value that is no text is
    -- not the empty text, then decorating the payload does not change the decision that it is read as.
    pub decision-decorate :
        to_reviewer_response_decision python_str
          (decorate_response python_str state reason scope_fields payload)
        ≡ to_reviewer_response_decision python_str legacy
    unfolding to_reviewer_response_decision decorate_response decision_to_output put_all
    decision-decorate =
        simp (payload_laws, as_text_twice, as_dict_twice)
          (rw
            (
              state-decorate,
              scope-decorate (as_int (get "issue_number" legacy))
                  (as_text (get "current_reviewer" legacy)),
            )
            refl)
