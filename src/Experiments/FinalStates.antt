-- ===== src/Experiments/FinalStates.antt =====
-- experiments/reconciliation.py: the comparison of the manifest's final states with the shipments.
pub mod Found
pub mod Correct
pub mod Latest
use trackrelay.Prelude.{
  ltb, if◌then◌else◌, ◌>>=◌, Result, ◌==◌, string_equality, nat_equality, option_equality,
  pair_equality, lookup, put, dict_of, ℕ, suc, String, Bool, true, false, not, ◌&&◌, ◌||◌, Option,
  none, some, List, [], ◌∷◌, map, ok,
}
use trackrelay.Domain.Timestamp.{instant_of}
use trackrelay.Domain.Shipment.{ShipmentStatus, status_equality}
use trackrelay.Models.{Shipment}
use trackrelay.Experiments.Manifest.{InputManifest, ManifestEvent}
use trackrelay.Experiments.Deliveries.{item_of}

abbrev pub FinalEvents : Type 0
FinalEvents = List (String × ManifestEvent)

-- `(_as_utc(a.expected_occurred_at), a.sequence_number) > (…)`
abbrev pub is_later : ManifestEvent → ManifestEvent → Bool
is_later a b =
    let s = a.expected_occurred_at.instant in
    let t = b.expected_occurred_at.instant in
    ltb t s || (s == t && ltb b.sequence_number a.sequence_number)

-- One round of the loop over the manifest's events.
abbrev pub replaces : ManifestEvent → Option ManifestEvent → Bool
replaces event none = true
replaces event (some current) = is_later event current

abbrev pub is_expected : ManifestEvent → Option ShipmentStatus → Bool
is_expected event none = false
is_expected event (some status) = event.expected_status == status

abbrev pub keep_latest : List (String × ShipmentStatus) → ManifestEvent → FinalEvents → FinalEvents
keep_latest expected event finals =
    if is_expected event (lookup event.tracking_number expected)
      && replaces event (lookup event.tracking_number finals)
    then put event.tracking_number event finals
    else finals

-- `_latest_manifest_final_events_by_tracking_number`, from what the events before have left
unfoldable pub latest_final_events :
    List (String × ShipmentStatus) → FinalEvents → List ManifestEvent → FinalEvents
latest_final_events expected finals [] = finals
latest_final_events expected finals (event ∷ events) =
    latest_final_events expected (keep_latest expected event finals) events

abbrev pub is_incorrect : Option Shipment → ShipmentStatus → ManifestEvent → Bool
is_incorrect none status final = true
is_incorrect (some shipment) status final =
    not (shipment.current_status == status)
    || not (instant_of shipment.current_status_occurred_at == final.expected_occurred_at.instant)

-- the loop over the expected final states
unfoldable pub count_incorrect :
    List (String × Shipment) → FinalEvents → List (String × ShipmentStatus) → Result ℕ
count_incorrect shipments finals [] = ok 0
count_incorrect shipments finals ((number, status) ∷ expected) = do
  final ← item_of (lookup number finals)
  rest ← count_incorrect shipments finals expected
  ok (if is_incorrect (lookup number shipments) status final then suc rest else rest)

-- `_compare_manifest_with_database_shipments`
unfoldable pub compare_shipments : InputManifest → List Shipment → Result ℕ
unfolding latest_final_events count_incorrect
compare_shipments manifest shipments =
    count_incorrect (dict_of (map (λ s. (s.tracking_number, s)) shipments))
      (latest_final_events manifest.expected_final_shipments [] manifest.expected_events)
      manifest.expected_final_shipments
