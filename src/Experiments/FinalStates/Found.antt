-- ===== src/Experiments/FinalStates/Found.antt =====
-- The latest final events: an expected final state that the events reach has one.
use trackrelay.Prelude.{
  if◌then◌else◌, Bool-cases, All, All-map_imp, All-member, is_subset-All, member-lookup,
  lookup_item, keys-All, All-and, ◌==◌, string_equality, nat_equality, option_equality,
  pair_equality, beq_refl, member, set_of, is_subset, Nodup, member-set_of, lookup, dict_of, keys,
  member-put, member-eq-lookup, ℕ, suc, String, ◌≡◌, refl, sym, ◌∙◌, inl, inr, true, ◌&&◌, some,
  List, [], ◌∷◌, map, arith, ok,
}
use trackrelay.Domain.Shipment.{ShipmentStatus, status_equality}
use trackrelay.Models.{Shipment}
use trackrelay.Experiments.Manifest.{InputManifest, ManifestEvent, require_consistent_expectations}
use trackrelay.Experiments.FinalStates.{
  FinalEvents, is_incorrect, keep_latest, latest_final_events, count_incorrect, compare_shipments,
}

abbrev pub reached : List ManifestEvent → List (String × ShipmentStatus)
reached events = map (λ e. (e.tracking_number, e.expected_status)) events

module _ (expected : List (String × ShipmentStatus)) where
  keep_latest-keeps :
      (number : String) (event : ManifestEvent) (finals : FinalEvents)
      → member number (keys finals) ≡ true
      → member number (keys (keep_latest expected event finals)) ≡ true
  keep_latest-keeps number event finals h =
      ground (arith, h, member-put number event.tracking_number event finals)

  keep_latest-adds :
      (event : ManifestEvent) (finals : FinalEvents)
      → lookup event.tracking_number expected ≡ some event.expected_status
      → member event.tracking_number (keys (keep_latest expected event finals)) ≡ true
  keep_latest-adds event finals h = ground (
    arith,
    h,
    member-put event.tracking_number event.tracking_number event finals,
    member-eq-lookup event.tracking_number finals,
    beq_refl event.tracking_number,
    beq_refl event.expected_status,
  )

  latest-keeps :
      (number : String) (finals : FinalEvents) (events : List ManifestEvent)
      → member number (keys finals) ≡ true
      → member number (keys (latest_final_events expected finals events)) ≡ true
  unfolding latest_final_events
  latest-keeps number finals [] h = h
  latest-keeps number finals (event ∷ events) h =
      latest-keeps number (keep_latest expected event finals) events
        (keep_latest-keeps number event finals h)

  -- An expected final state that an event reaches has a latest final event.
  latest-finds :
      (number : String) (status : ShipmentStatus) (finals : FinalEvents)
      (events : List ManifestEvent)
      → lookup number expected ≡ some status
      → member (number, status) (reached events) ≡ true
      → member number (keys (latest_final_events expected finals events)) ≡ true
  unfolding latest_final_events
  latest-finds number status finals [] final h = absurd (ground (arith, h))
  latest-finds number status finals (event ∷ events) final h =
      elim (Bool-cases (event.tracking_number == number && event.expected_status == status)) [
        | inl own ↦
            latest-keeps number (keep_latest expected event finals) events (reaches event own)
        | inr other ↦
            latest-finds number status (keep_latest expected event finals) events final
              (ground (arith, h, other))
      ]
    where
      reaches :
          (event : ManifestEvent)
          → (event.tracking_number == number && event.expected_status == status) ≡ true
          → member number (keys (keep_latest expected event finals)) ≡ true
      reaches event own = ground (
        arith,
        final,
        string_equality.equal_iff event.tracking_number number,
        status_equality.equal_iff event.expected_status status,
        own,
        keep_latest-adds event finals,
      )

-- The loop over the expected final states finds each in the latest final events.
pub count_incorrect_total :
    (shipments : List (String × Shipment)) (finals : FinalEvents)
    (expected : List (String × ShipmentStatus))
    → All (λ number. member number (keys finals) ≡ true) (keys expected)
    → (n : ℕ) × (count_incorrect shipments finals expected ≡ ok n)
unfolding count_incorrect
count_incorrect_total shipments finals [] h = (0, refl)
count_incorrect_total shipments finals ((number, status) ∷ expected) h =
    let found = member-lookup number finals h.0 in
    let rest = count_incorrect_total shipments finals expected h.1 in
    (
      if is_incorrect (lookup number shipments) status found.0 then suc rest.0 else rest.0,
      rw (found.1, rest.1) refl,
    )

module _ (expected : List (String × ShipmentStatus)) (events : List ManifestEvent) where
  -- Final states that are a dict, each of which an event reaches, have latest final events.
  latest-All :
      Nodup (keys expected)
      → is_subset expected (set_of (reached events)) ≡ true
      → All
          (λ number. member number (keys (latest_final_events expected [] events)) ≡ true)
          (keys expected)
  latest-All u sub =
      keys-All (λ number. member number (keys (latest_final_events expected [] events)) ≡ true)
        expected
        (All-map_imp
          (λ item. (member item expected ≡ true) × (member item (set_of (reached events)) ≡ true))
          (λ item. member item.0 (keys (latest_final_events expected [] events)) ≡ true) expected
          (λ item h.
            latest-finds expected item.0 item.1 [] events (lookup_item item.0 item.1 expected u h.0)
              (sym (member-set_of item (reached events)) ∙ h.1))
          (All-and (λ item. member item expected ≡ true)
            (λ item. member item (set_of (reached events)) ≡ true) expected (All-member expected)
            (is_subset-All expected (set_of (reached events)) sub)))

-- The comparison of the final states of a valid manifest raises no KeyError.
pub compare_shipments_total :
    (manifest : InputManifest) (shipments : List Shipment)
    → require_consistent_expectations manifest ≡ true
    → Nodup (keys manifest.expected_final_shipments)
    → (n : ℕ) × (compare_shipments manifest shipments ≡ ok n)
unfolding compare_shipments require_consistent_expectations
compare_shipments_total manifest shipments valid u =
    count_incorrect_total (dict_of (map (λ s. (s.tracking_number, s)) shipments))
      (latest_final_events manifest.expected_final_shipments [] manifest.expected_events)
      manifest.expected_final_shipments
      (latest-All manifest.expected_final_shipments manifest.expected_events u
        (ground (arith, valid)))
