-- ===== src/LeaseLock/Codec.antt =====
-- The round trip of the lock's commit message: scripts/reviewer_bot_lib/lock_codec.py.
use Prim.Native.Char.{code}
use Prim.Native.String.{[] as no_text, ◌∷◌ as char_then}
use text.Mathlib.TextLemmas.{nil-append, cons-append}
use safety_critical_rust_cod.Common.{◌≡◌, ap, refl, String, append_text, some, returned, eqb_iff}
use safety_critical_rust_cod.Value.{Value, bool, int, dict, Dict, get}
use safety_critical_rust_cod.LeaseLock.{
  Host, normalize_lock_metadata, marker, without_prefix, render_lock_commit_message,
  parse_lock_commit_message, schema_of,
}

without_prefix-append : (p s : String) → without_prefix p (append_text p s) ≡ some s
unfolding without_prefix
without_prefix-append no_text s = rw (nil-append s) refl
without_prefix-append (char_then c p) s =
    rw (cons-append c p s) (rw ((eqb_iff (code c) (code c)).1 refl) (without_prefix-append p s))

schema_of_twice : (v : Value) → schema_of (schema_of v) ≡ schema_of v
schema_of_twice (int n) = refl
schema_of_twice (bool b) = refl
schema_of_twice _ = refl

normalize_twice :
    (d : Dict) → normalize_lock_metadata (normalize_lock_metadata d) ≡ normalize_lock_metadata d
unfolding normalize_lock_metadata get
normalize_twice d = rw schema_of_twice refl

parse_render_once :
    (host : Host) (d : Dict)
    → host.loads (host.dumps (normalize_lock_metadata d)) ≡ some (dict (normalize_lock_metadata d))
    → parse_lock_commit_message host (render_lock_commit_message host d)
      ≡ returned (normalize_lock_metadata d)
unfolding render_lock_commit_message parse_lock_commit_message
parse_render_once host d codec =
    rw
      (
        without_prefix-append marker (host.dumps (normalize_lock_metadata d)),
        parse_lock_commit_message,
      )
      (rw codec (ap returned (normalize_twice d)))

-- If the JSON codec reads back the dict of some lock metadata, normalized, then the message of the
-- commit that carries the metadata is read back as the normalized metadata, and the message that is
-- rendered from what was read is the same message.
pub parse_render :
    (host : Host) (d : Dict)
    → host.loads (host.dumps (normalize_lock_metadata d)) ≡ some (dict (normalize_lock_metadata d))
    → (parse_lock_commit_message host (render_lock_commit_message host d)
        ≡ returned (normalize_lock_metadata d))
      × (render_lock_commit_message host (normalize_lock_metadata d)
          ≡ render_lock_commit_message host d)
unfolding render_lock_commit_message
parse_render host d codec = (
  parse_render_once host d codec,
  ap (λ n. append_text marker (host.dumps n)) (normalize_twice d),
)
