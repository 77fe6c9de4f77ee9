-- ===== src/Persistence/Keys.antt =====
-- Dicts that already hold a value, or that lack a key.
use safety_critical_rust_cod.Common.{
  String, true, false, ◌==◌, eq_iff, if◌then◌else◌, ◌≡◌, refl, arith,
}
use safety_critical_rust_cod.Value.{Value, dict, Dict, empty, entry, get, put, remove}
use safety_critical_rust_cod.Persistence.{has_key}

put_same : (k : String) (v : Value) (d : Dict) → has_key k d ≡ true → get k d ≡ v → put k v d ≡ d
unfolding put get has_key
put_same k v empty h g = absurd cc
put_same k v (entry i w d) h g = ground (arith, put_same k v d)

has_key-get : (k : String) (d v : Dict) → get k d ≡ dict v → has_key k d ≡ true
unfolding get has_key
has_key-get k empty v h = absurd cc
has_key-get k (entry i w d) v h = ground (arith, has_key-get k d v)

pub put_dict : (k : String) (d v : Dict) → get k d ≡ dict v → put k (dict v) d ≡ d
put_dict k d v h = put_same k (dict v) d (has_key-get k d v h) h

pub remove_absent : (k : String) (d : Dict) → has_key k d ≡ false → remove k d ≡ d
unfolding remove has_key
remove_absent k empty h = refl
remove_absent k (entry i w d) h = ground (arith, remove_absent k d)

pub has_key-remove :
    (j k : String) (d : Dict) → has_key j (remove k d) ≡ (if k == j then false else has_key j d)
unfolding remove has_key
has_key-remove j k empty = ground arith
has_key-remove j k (entry i w d) =
    ground (arith, eq_iff i k, eq_iff k j, eq_iff i j, has_key-remove j k d)
