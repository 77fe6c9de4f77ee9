-- ===== src/Persistence/Legacy.antt =====
-- The older shapes of an entry are migrated once: ensure_sidecar_subtree of
-- scripts/reviewer_bot_core/state_adapters.py.
use safety_critical_rust_cod.Common.{String, true, truthy, ◌≡◌, refl}
use safety_critical_rust_cod.Value.{Value, null, dict, Dict, empty, get, dict_laws}
use safety_critical_rust_cod.Persistence.{dict_or_empty}
use safety_critical_rust_cod.Persistence.Sidecars.{
  migrate_deferred_gaps, migrate_events, migrate_reconciled_source_events, first_dict, gaps_of,
  unless_none, canonical_markers, place_legacy_marker, fill_sidecars, ensure_sidecar_subtree,
}
use safety_critical_rust_cod.Persistence.Keys.{put_dict, remove_absent, has_key-remove}
use safety_critical_rust_cod.Persistence.Markers.{placed_twice}
use safety_critical_rust_cod.Persistence.Events.{migrate_reconciled_twice}

first_dict_cases : (a b : Value) → (d : Dict) × (first_dict a b ≡ dict d)
first_dict_cases (dict d) b = (d, refl)
first_dict_cases a (dict d) = (d, refl)
first_dict_cases a b = (empty, refl)

gaps_cases : (a b : Value) → (d : Dict) × (gaps_of a b ≡ dict d)
gaps_cases (dict d) b = (d, refl)
gaps_cases a b = (migrate_deferred_gaps b, refl)

module _ (python_str : Value → String)
    (some_text : (v : Value) → truthy (python_str v) ≡ true) where
  -- The five side cars are there, in the present shape.
  IsFilled : Dict → Type 0
  IsFilled s =
      ((d : Dict) × (get "pending_privileged_commands" s ≡ dict d))
      × ((d : Dict) × (get "deferred_gaps" s ≡ dict d))
      × ((d : Dict) × (get "observer_discovery_watermarks" s ≡ dict d))
      × ((d : Dict) × (get "reconciled_source_events" s ≡ dict d)
          × (migrate_events python_str d ≡ d))
      × ((d : Dict) × (get "repair_markers" s ≡ dict d) × (canonical_markers d ≡ d))

  fill_sidecars-IsFilled : (r s : Dict) → IsFilled (fill_sidecars python_str r s)
  unfolding IsFilled fill_sidecars
  fill_sidecars-IsFilled r s =
      let (p, hp) =
        first_dict_cases (get "pending_privileged_commands" s)
          (get "pending_privileged_commands" r) in
      let (g, hg) = gaps_cases (get "deferred_gaps" s) (get "deferred_gaps" r) in
      let (w, hw) =
        first_dict_cases (get "observer_discovery_watermarks" s)
          (get "observer_discovery_watermarks" r) in
      let events : Value =
        unless_none (get "reconciled_source_events" s) (get "reconciled_source_events" r) in
      let markers : Dict = dict_or_empty (get "repair_markers" s) in
      (
        (p, simp dict_laws hp),
        (g, simp dict_laws hg),
        (w, simp dict_laws hw),
        (
          migrate_reconciled_source_events python_str events,
          simp dict_laws,
          migrate_reconciled_twice python_str some_text events,
        ),
        (
          place_legacy_marker (get "repair_needed" r) (canonical_markers markers),
          simp dict_laws,
          placed_twice (get "repair_needed" r) markers,
        ),
      )

  -- Filling the side cars again changes nothing, if the entry has none of the older keys.
  fill_filled :
      (r s : Dict)
      → IsFilled s
      → get "pending_privileged_commands" r ≡ null
      → get "deferred_gaps" r ≡ null
      → get "observer_discovery_watermarks" r ≡ null
      → get "reconciled_source_events" r ≡ null
      → get "repair_needed" r ≡ null
      → fill_sidecars python_str r s ≡ s
  unfolding fill_sidecars IsFilled migrate_reconciled_source_events place_legacy_marker
  fill_filled r s ((p, hp), (g, hg), (w, hw), (e, he, es), (m, hm, ms)) rp rg rw' re rm =
      rw
        (
          hp,
          put_dict "pending_privileged_commands" s p hp,
          hg,
          put_dict "deferred_gaps" s g hg,
          hw,
          put_dict "observer_discovery_watermarks" s w hw,
          he,
          es,
          put_dict "reconciled_source_events" s e he,
          hm,
          rm,
          ms,
          put_dict "repair_markers" s m hm,
        )
        refl

  -- An entry that was brought into the present shape is in that shape: doing it again changes nothing.
  pub ensured_twice :
      (r : Dict)
      → ensure_sidecar_subtree python_str (ensure_sidecar_subtree python_str r)
        ≡ ensure_sidecar_subtree python_str r
  unfolding ensure_sidecar_subtree
  ensured_twice r =
      let s : Dict = fill_sidecars python_str r (dict_or_empty (get "sidecars" r)) in
      let e : Dict = ensure_sidecar_subtree python_str r in
      let same : fill_sidecars python_str e s ≡ s =
        fill_filled e s (fill_sidecars-IsFilled r (dict_or_empty (get "sidecars" r)))
          (simp dict_laws) (simp dict_laws) (simp dict_laws) (simp dict_laws) (simp dict_laws) in
      let there : get "sidecars" e ≡ dict s = simp dict_laws in
      rw (there, same, put_dict "sidecars" e s there)
        (rw
          (
            remove_absent "repair_needed" e (simp has_key-remove),
            remove_absent "pending_privileged_commands" e (simp has_key-remove),
            remove_absent "deferred_gaps" e (simp has_key-remove),
            remove_absent "observer_discovery_watermarks" e (simp has_key-remove),
            remove_absent "reconciled_source_events" e (simp has_key-remove),
          )
          refl)
