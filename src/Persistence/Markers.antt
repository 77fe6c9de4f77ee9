-- ===== src/Persistence/Markers.antt =====
-- The repair markers are migrated once: _migrate_repair_marker of
-- scripts/reviewer_bot_core/state_adapters.py.
use safety_critical_rust_cod.Common.{if◌then◌else◌, ◌≡◌, refl, Bool-cases, inl, inr}
use safety_critical_rust_cod.Value.{
  Value, null, bool, int, str, list, dict, Dict, get, put, is_text,
}
use safety_critical_rust_cod.Persistence.Sidecars.{
  marker_fields, migrate_repair_marker, canonical_markers, place_legacy_marker,
}

migrate_marker_twice :
    (v : Value) → migrate_repair_marker (migrate_repair_marker v) ≡ migrate_repair_marker v
unfolding migrate_repair_marker marker_fields get
migrate_marker_twice (dict m) = refl
migrate_marker_twice null = refl
migrate_marker_twice (bool b) = refl
migrate_marker_twice (int n) = refl
migrate_marker_twice (str s) = refl
migrate_marker_twice (list vs) = refl

canonical_twice : (m : Dict) → canonical_markers (canonical_markers m) ≡ canonical_markers m
unfolding canonical_markers get
canonical_twice m = simp migrate_marker_twice

canonical_put_status :
    (l m : Dict)
    → canonical_markers
        (put "status_label_projection" (dict (marker_fields l)) (canonical_markers m))
      ≡ put "status_label_projection" (dict (marker_fields l)) (canonical_markers m)
unfolding canonical_markers put get
canonical_put_status l m = simp migrate_marker_twice

canonical_put_review :
    (l m : Dict)
    → canonical_markers (put "review_repair" (dict (marker_fields l)) (canonical_markers m))
      ≡ put "review_repair" (dict (marker_fields l)) (canonical_markers m)
unfolding canonical_markers put get
canonical_put_review l m = simp migrate_marker_twice

canonical_put_head :
    (l m : Dict)
    → canonical_markers
        (put "head_observation_repair" (dict (marker_fields l)) (canonical_markers m))
      ≡ put "head_observation_repair" (dict (marker_fields l)) (canonical_markers m)
unfolding canonical_markers put get
canonical_put_head l m = simp migrate_marker_twice

pub placed_twice :
    (l : Value) (m : Dict)
    → canonical_markers (place_legacy_marker l (canonical_markers m))
      ≡ place_legacy_marker l (canonical_markers m)
unfolding place_legacy_marker
placed_twice (dict l) m = elim (Bool-cases (is_text "projection_failure" (get "kind" l))) [
  | inl e ↦ rw (e, if◌then◌else◌) (canonical_put_status l m)
  | inr e ↦ elim (Bool-cases (is_text "review_repair" (get "phase" l))) [
    | inl f ↦ rw (e, f, if◌then◌else◌) (canonical_put_review l m)
    | inr f ↦ elim (Bool-cases (is_text "head_observation_repair" (get "phase" l))) [
      | inl g ↦ rw (e, f, g, if◌then◌else◌) (canonical_put_head l m)
      | inr g ↦ rw (e, f, g, if◌then◌else◌) (canonical_twice m)
    ]
  ]
]
placed_twice null m = canonical_twice m
placed_twice (bool b) m = canonical_twice m
placed_twice (int n) m = canonical_twice m
placed_twice (str s) m = canonical_twice m
placed_twice (list vs) m = canonical_twice m
