-- ===== src/Experiments/Evidence.antt =====
-- experiments/reconciliation.py: the comparison of a manifest with the persisted events of its run. A
-- Counter is the list of what it has counted. `same_payload` is Python's `==` on JSON objects.
use trackrelay.Prelude.{
  ◌==◌, string_equality, nat_equality, option_equality, pair_equality, Equality, member, set_of,
  difference, lookup, dict_of, keys, values, select, count_rows, ℕ, Bool, true, false, not, ◌&&◌,
  none, some, List, map,
}
use trackrelay.Domain.Timestamp.{instant_of}
use trackrelay.Domain.Json.{Fields}
use trackrelay.Domain.Shipment.{status_equality}
use trackrelay.Domain.Event.{NormalizedEvent, EventProcessingStatus}
use trackrelay.Models.{Event}
use trackrelay.Experiments.Manifest.{
  InputManifest, ManifestEvent, BusinessEventIdentity, manifest_identity,
}

abbrev pub event_identity : Event → BusinessEventIdentity
event_identity e = (e.partner_id, e.partner_event_id)

abbrev pub receipt_identity : NormalizedEvent → BusinessEventIdentity
receipt_identity r = (r.partner_id, r.partner_event_id)

-- `counter[key]` and `counter.values()`
abbrev pub counted {ℓ} : {K : Type ℓ} ⦃e : Equality K⦄ → K → List K → ℕ
counted k c = count_rows (λ x. x == k) c

abbrev pub is_status : EventProcessingStatus → EventProcessingStatus → Bool
is_status EventProcessingStatus.received EventProcessingStatus.received = true
is_status EventProcessingStatus.processed EventProcessingStatus.processed = true
is_status EventProcessingStatus.failed EventProcessingStatus.failed = true
is_status _ _ = false

abbrev pub EventDict : Type 0
EventDict = List (BusinessEventIdentity × Event)

-- `{_business_event_identity(event): event for event in …}`
abbrev pub manifest_dict : InputManifest → List (BusinessEventIdentity × ManifestEvent)
manifest_dict manifest = dict_of (map (λ e. (manifest_identity e, e)) manifest.expected_events)

pub record DatabaseEventComparison : Type 0 where
  pub accepted : ℕ
  pub by_identity : EventDict
  pub matching : EventDict
  pub status_count : EventProcessingStatus → ℕ
  pub content_mismatches : List BusinessEventIdentity
  pub unexpected : List BusinessEventIdentity

module _ (same_payload : Fields → Fields → Bool) where
  unfoldable pub database_event_matches : Event → ManifestEvent → Bool
  database_event_matches e m =
      e.tracking_number == m.tracking_number
      && e.status == m.expected_status
      && instant_of e.occurred_at == m.expected_occurred_at.instant
      && same_payload e.raw_payload m.payload

  unfoldable pub simulator_receipt_matches : NormalizedEvent → ManifestEvent → Bool
  simulator_receipt_matches r m =
      r.tracking_number == m.tracking_number
      && r.status == m.expected_status
      && r.occurred_at.instant == m.expected_occurred_at.instant
      && same_payload r.raw_payload m.payload

  -- the test of the loop over the manifest's identities
  abbrev pub differs_in_database : EventDict → BusinessEventIdentity × ManifestEvent → Bool
  differs_in_database by_identity (identity, m) = elim (lookup identity by_identity) [
    | none ↦ false
    | some e ↦ not (database_event_matches e m)
  ]

  -- `_compare_manifest_with_database_events`; the rejected requests are those generated less those
  -- accepted.
  unfoldable pub compare_database_events : InputManifest → List Event → DatabaseEventComparison
  compare_database_events manifest database_events =
      let by_identity : EventDict = dict_of (map (λ e. (event_identity e, e)) database_events) in
      let identities = keys (manifest_dict manifest) in
      let matching = select (λ item. member item.0 identities) by_identity in
      record {
        accepted =
            count_rows (λ m. member (manifest_identity m) (keys by_identity))
              manifest.expected_events;
        by_identity = by_identity;
        matching = matching;
        status_count =
            λ status. count_rows (λ e. is_status e.processing_status status) (values matching);
        content_mismatches =
            set_of (keys (select (differs_in_database by_identity) (manifest_dict manifest)));
        unexpected = difference (keys by_identity) identities;
      }
