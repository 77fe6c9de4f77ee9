-- ===== src/Value.antt =====
-- The values of the persisted state: what the YAML and JSON codecs give. Numbers are natural: the
-- bot stores numbers of issues, comments, reviews, attempts and ranks. A dict is its entries, each
-- key once.
use safety_critical_rust_cod.Common.{
  ℕ, ◌≡◌, refl, String, Bool, true, false, ◌||◌, arith, Option, none, some, ◌==◌, eqb, eq_iff,
  if◌then◌else◌,
}

mutual
  pub data Value : Type 0 where
    null : Value
    bool : Bool → Value
    int : ℕ → Value
    str : String → Value
    list : Values → Value
    dict : Dict → Value

  pub data Values : Type 0 where
    nil : Values
    cons : Value → Values → Values

  pub data Dict : Type 0 where
    empty : Dict
    entry : String → Value → Dict → Dict

-- `d.get(key)`; a missing key gives None.
unfoldable pub get : String → Dict → Value
get key empty = null
get key (entry k v d) = if k == key then v else get key d

-- `d[key] = value`, in the place of the key if it is there.
unfoldable pub put : String → Value → Dict → Dict
put key value empty = entry key value empty
put key value (entry k v d) = if k == key then entry k value d else entry k v (put key value d)

-- `d.pop(key, None)`
unfoldable pub remove : String → Dict → Dict
remove key empty = empty
remove key (entry k v d) = if k == key then remove key d else entry k v (remove key d)

pub get-put :
    (j k : String) (v : Value) (d : Dict) → get j (put k v d) ≡ (if k == j then v else get j d)
unfolding get put
get-put j k v empty = refl
get-put j k v (entry i w d) = ground (arith, eq_iff k j, eq_iff i k, eq_iff i j, get-put j k v d)

pub get-remove : (j k : String) (d : Dict) → get j (remove k d) ≡ (if k == j then null else get j d)
unfolding get remove
get-remove j k empty = ground arith
get-remove j k (entry i w d) = ground (arith, eq_iff k j, eq_iff i k, eq_iff i j, get-remove j k d)

-- Writing back what a key holds changes nothing that a reader sees.
pub get-put_self : (j k : String) (d : Dict) → get j (put k (get k d) d) ≡ get j d
get-put_self j k d = ground (arith, get-put j k (get k d) d, eq_iff k j)

pub ruleset dict_laws = (get-put, get-remove)

-- `bool(value)` and `value or {}`.
unfoldable pub is_true : Value → Bool
is_true null = false
is_true (bool b) = b
is_true (int n) = if eqb n 0 then false else true
is_true (str s) = if s == "" then false else true
is_true (list nil) = false
is_true (list (cons x xs)) = true
is_true (dict empty) = false
is_true (dict (entry k v d)) = true

-- A text, if the value is one.
abbrev pub as_text : Value → Option String
as_text (str s) = some s
as_text _ = none

-- A value that is this text.
abbrev pub is_text : String → Value → Bool
is_text t (str s) = s == t
is_text t _ = false

-- `d.get(key, value)`: a missing key gives the value, a key that holds None gives None.
unfoldable pub get_default : String → Value → Dict → Value
get_default key value empty = value
get_default key value (entry k v d) = if k == key then v else get_default key value d

-- `any(p(value) for value in d.values())`
unfoldable pub any_value : (Value → Bool) → Dict → Bool
any_value p empty = false
any_value p (entry k v d) = p v || any_value p d

-- A number, if `isinstance(value, int)`: True and False are 1 and 0.
abbrev pub as_int : Value → Option ℕ
as_int (int n) = some n
as_int (bool true) = some 1
as_int (bool false) = some 0
as_int _ = none

-- A dict, if the value is one.
abbrev pub as_dict : Value → Option Dict
as_dict (dict d) = some d
as_dict _ = none
