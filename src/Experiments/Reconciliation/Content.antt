-- ===== src/Experiments/Reconciliation/Content.antt =====
-- What it is that the reconciliation compares of an event and a receipt.
use trackrelay.Prelude.{
  string_equality, nat_equality, option_equality, pair_equality, ◌≡◌, Bool, true, arith,
}
use trackrelay.Domain.Json.{Fields}
use trackrelay.Domain.Timestamp.{instant_of}
use trackrelay.Domain.Shipment.{status_equality}
use trackrelay.Domain.Event.{NormalizedEvent}
use trackrelay.Models.{Event}
use trackrelay.Experiments.Manifest.{ManifestEvent}
use trackrelay.Experiments.Evidence.{database_event_matches, simulator_receipt_matches}

-- What a persisted event, and a receipt, must say of the manifest's event.
module _ (same_payload : Fields → Fields → Bool) where
  abbrev pub HasDatabaseContent : Event → ManifestEvent → Type 0
  HasDatabaseContent e m =
      (e.tracking_number ≡ m.tracking_number)
      × (e.status ≡ m.expected_status)
      × (instant_of e.occurred_at ≡ m.expected_occurred_at.instant)
      × (same_payload e.raw_payload m.payload ≡ true)

  abbrev pub HasReceiptContent : NormalizedEvent → ManifestEvent → Type 0
  HasReceiptContent r m =
      (r.tracking_number ≡ m.tracking_number)
      × (r.status ≡ m.expected_status)
      × (r.occurred_at.instant ≡ m.expected_occurred_at.instant)
      × (same_payload r.raw_payload m.payload ≡ true)

  pub database_content :
      (e : Event) (m : ManifestEvent)
      → database_event_matches same_payload e m ≡ true
      → HasDatabaseContent e m
  unfolding database_event_matches
  database_content e m h = (
    ground (arith, h, string_equality.equal_iff e.tracking_number m.tracking_number),
    ground (arith, h, status_equality.equal_iff e.status m.expected_status),
    ground (arith, h),
    ground (arith, h),
  )

  pub receipt_content :
      (r : NormalizedEvent) (m : ManifestEvent)
      → simulator_receipt_matches same_payload r m ≡ true
      → HasReceiptContent r m
  unfolding simulator_receipt_matches
  receipt_content r m h = (
    ground (arith, h, string_equality.equal_iff r.tracking_number m.tracking_number),
    ground (arith, h, status_equality.equal_iff r.status m.expected_status),
    ground (arith, h),
    ground (arith, h),
  )
