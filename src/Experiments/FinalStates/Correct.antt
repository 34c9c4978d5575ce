-- ===== src/Experiments/FinalStates/Correct.antt =====
-- When no final state is counted as incorrect, each is that of its shipment.
use trackrelay.Prelude.{
  member, All-member, All-map_imp, All-and, lookup_item, Nodup, keys, Option-cases, Result-cases,
  All, string_equality, nat_equality, option_equality, pair_equality, lookup, dict_of, String, ◌≡◌,
  inl, inr, false, some, List, [], ◌∷◌, map, arith, ok, true,
}
use trackrelay.Domain.Timestamp.{instant_of}
use trackrelay.Domain.Shipment.{ShipmentStatus, status_equality}
use trackrelay.Models.{Shipment}
use trackrelay.Experiments.FinalStates.Latest.{IsNewest, latest-IsNewest}
use trackrelay.Experiments.Manifest.{InputManifest, ManifestEvent}
use trackrelay.Experiments.FinalStates.{
  FinalEvents, is_incorrect, latest_final_events, count_incorrect, compare_shipments, true,
}

-- The shipment of the number is there, with the status, and with the instant of the number's final
-- event.
abbrev IsFinalState : List (String × Shipment) → FinalEvents → String × ShipmentStatus → Type 0
IsFinalState shipments finals item =
    (shipment : Shipment) × (final : ManifestEvent) × (lookup item.0 shipments ≡ some shipment)
    × (lookup item.0 finals ≡ some final)
    × (shipment.current_status ≡ item.1)
    × (instant_of shipment.current_status_occurred_at ≡ final.expected_occurred_at.instant)

module _ (shipments : List (String × Shipment)) (finals : FinalEvents) where
  correct-IsFinalState :
      (number : String) (status : ShipmentStatus) (final : ManifestEvent)
      → lookup number finals ≡ some final
      → is_incorrect (lookup number shipments) status final ≡ false
      → IsFinalState shipments finals (number, status)
  correct-IsFinalState number status final found h = elim (Option-cases (lookup number shipments)) [
    | inl missing ↦ absurd (ground (arith, h, missing))
    | inr (shipment, there) ↦ (
      shipment,
      final,
      there,
      found,
      ground (arith, h, there, status_equality.equal_iff shipment.current_status status),
      ground (arith, h, there),
    )
  ]

  none_incorrect :
      (expected : List (String × ShipmentStatus))
      → count_incorrect shipments finals expected ≡ ok 0
      → All (IsFinalState shipments finals) expected
  unfolding count_incorrect
  none_incorrect [] h = tt
  none_incorrect ((number, status) ∷ expected) h = elim (Option-cases (lookup number finals)) [
    | inl missing ↦ absurd (ground (arith, h, missing))
    | inr (final, found) ↦ elim (Result-cases (count_incorrect shipments finals expected)) [
      | inr (raised, k) ↦ absurd (ground (arith, h, found, k))
      | inl (n, k) ↦ (
        correct-IsFinalState number status final found (ground (arith, h, found, k)),
        none_incorrect expected (ground (arith, h, found, k)),
      )
    ]
  ]

-- The shipment has the expected status, at the instant of the latest of the events that bring its
-- tracking number to that status.
abbrev pub IsReached :
    List (String × Shipment) → List ManifestEvent → String × ShipmentStatus → Type 0
IsReached shipments events item =
    (shipment : Shipment) × (final : ManifestEvent) × (lookup item.0 shipments ≡ some shipment)
    × IsNewest item.0 item.1 final events
    × (shipment.current_status ≡ item.1)
    × (instant_of shipment.current_status_occurred_at ≡ final.expected_occurred_at.instant)

module _ (shipments : List (String × Shipment)) (events : List ManifestEvent)
    (expected : List (String × ShipmentStatus)) where
  final-IsReached :
      (item : String × ShipmentStatus)
      → lookup item.0 expected ≡ some item.1
      → IsFinalState shipments (latest_final_events expected [] events) item
      → IsReached shipments events item
  final-IsReached item wanted (shipment, final, there, found, status, instant) = (
    shipment,
    final,
    there,
    latest-IsNewest item.0 item.1 expected wanted events final found,
    status,
    instant,
  )

-- When the comparison counts none, each expected final state has been reached.
pub compared-IsReached :
    (manifest : InputManifest) (shipments : List Shipment)
    → Nodup (keys manifest.expected_final_shipments)
    → compare_shipments manifest shipments ≡ ok 0
    → All
        (IsReached (dict_of (map (λ s. (s.tracking_number, s)) shipments)) manifest.expected_events)
        manifest.expected_final_shipments
unfolding compare_shipments
compared-IsReached manifest shipments unique h =
    let expected = manifest.expected_final_shipments in
    let shipments' = dict_of (map (λ s. (s.tracking_number, s)) shipments) in
    let finals = latest_final_events expected [] manifest.expected_events in
    All-map_imp _ _ expected
      (λ item both. final-IsReached shipments' manifest.expected_events expected item both.0 both.1)
      (All-and (λ item. lookup item.0 expected ≡ some item.1) (IsFinalState shipments' finals)
        expected
        (All-map_imp (λ item. member item expected ≡ true)
          (λ item. lookup item.0 expected ≡ some item.1) expected
          (λ item h. lookup_item item.0 item.1 expected unique h) (All-member expected))
        (none_incorrect _ _ expected h))
