-- ===== src/Services/EventPersistence.antt =====
-- services/event_persistence.py. A transaction is a function on the database: its writes are kept
-- only if it returns. `new_id` stands for what `uuid4` draws for the event, `now` for the server's
-- clock, and `column` for the round trip of a datetime through the database.
pub mod Race
pub mod Outcomes
pub mod Retry
pub mod History
use trackrelay.Prelude.{
  ℕ, ◌≡◌, Bool, true, false, ◌&&◌, Option, none, some, List, [], ◌∷◌, ◌==◌, nat_equality,
  string_equality, String, if◌then◌else◌, scalar, update_rows, Result, ok, err, integrity_error,
  Error, ◌>>=◌,
}
use trackrelay.Domain.Timestamp.{TimestampColumn, as_aware, instant_of}
use trackrelay.Domain.Shipment.{
  ShipmentStatus, ShipmentTransitionDecision, evaluate_shipment_transition, reason_value,
}
use trackrelay.Domain.Event.{Uuid, NormalizedEvent, EventProcessingStatus}
use trackrelay.Models.{Shipment, Event, Database}
use trackrelay.Models.Insert.{insert_shipment, insert_event, insert_outbox_entry, same_identity}

pub record EventPersistenceResult : Type 0 where
  pub event_id : Uuid
  pub duplicate : Bool

-- What the shipment part of the transaction leaves for the event's row.
pub record ShipmentWrite : Type 0 where
  pub database : Database
  pub state_applied : Bool
  pub state_rejection_reason : Option String

abbrev pub reason_text : ShipmentTransitionDecision → Option String
unfolding reason_value
reason_text d = elim d.rejection_reason [ none ↦ none | some r ↦ some (reason_value r) ]

abbrev pub locked_shipment : NormalizedEvent → Database → Option Shipment
locked_shipment e db = scalar (λ s. s.tracking_number == e.tracking_number) db.shipments

-- The `except IntegrityError` branch, which reads in a transaction of its own.
unfoldable pub resolve_duplicate : NormalizedEvent → Database → Result EventPersistenceResult
resolve_duplicate e db = elim (scalar (same_identity e.partner_id e.partner_event_id) db.events) [
  | none ↦ err integrity_error
  | some original ↦ ok (record { event_id = original.id; duplicate = true })
]

abbrev finish_persistence :
    NormalizedEvent → Uuid → Database → Result Database → Result EventPersistenceResult × Database
unfolding resolve_duplicate
finish_persistence e new_id db (ok db') =
    (ok (record { event_id = new_id; duplicate = false }), db')
finish_persistence e new_id db (err integrity_error) = (resolve_duplicate e db, db)
finish_persistence e new_id db (err other) = (err other, db)

module _ (column : TimestampColumn) where
  -- `shipment` is the row that `SELECT … FOR UPDATE` found, and `db` the database at the flush.
  unfoldable pub write_shipment :
      NormalizedEvent → ℕ → Option Shipment → Database → Result ShipmentWrite
  unfolding insert_shipment
  write_shipment e now none db = do
    db' ←
        insert_shipment
          (record {
            tracking_number = e.tracking_number;
            current_status = e.status;
            current_status_occurred_at = column.stored e.occurred_at;
            created_at = now;
            updated_at = now;
          })
          db
    ok (record { database = db'; state_applied = true; state_rejection_reason = none })
  write_shipment e now (some shipment) db =
      let decision =
        evaluate_shipment_transition shipment.current_status
          (instant_of shipment.current_status_occurred_at) e.status e.occurred_at.instant in
      let rows =
        if decision.applied
        then update_rows (λ s. s.tracking_number == e.tracking_number)
            (λ s. record s {
              current_status = e.status;
              current_status_occurred_at = column.stored e.occurred_at;
              updated_at = now;
            })
            db.shipments
        else db.shipments in
      ok (record {
        database = record db { shipments = rows };
        state_applied = decision.applied;
        state_rejection_reason = reason_text decision;
      })

  -- The row that the transaction adds to `events`.
  abbrev pub persisted_event : NormalizedEvent → Uuid → ℕ → Bool → Option String → Event
  persisted_event e new_id now applied reason = record {
    id = new_id;
    partner_id = e.partner_id;
    partner_event_id = e.partner_event_id;
    tracking_number = e.tracking_number;
    status = e.status;
    occurred_at = column.stored e.occurred_at;
    received_at = column.stored e.received_at;
    raw_payload = e.raw_payload;
    test_run_id = e.test_run_id;
    processing_status = EventProcessingStatus.processed;
    state_applied = applied;
    state_rejection_reason = reason;
    created_at = now;
  }

  -- The three flushes, with the shipment row that was read before them.
  unfoldable pub persist_rows :
      NormalizedEvent → Uuid → ℕ → Option Shipment → Database → Result Database
  unfolding write_shipment insert_event insert_outbox_entry
  persist_rows e new_id now shipment db = do
    w ← write_shipment e now shipment db
    db' ←
        insert_event (persisted_event e new_id now w.state_applied w.state_rejection_reason)
          w.database
    insert_outbox_entry (record { event_id = new_id; created_at = now; published_at = none }) db'

  -- `SELECT ... FOR UPDATE` locks nothing where there is no row: `seen` is the shipment that it has
  -- found, and `db` is what has been committed when the first row is written.
  abbrev pub persist_after :
      NormalizedEvent
      → Uuid
      → ℕ
      → Option Shipment
      → Database
      → Result EventPersistenceResult × Database
  unfolding persist_rows resolve_duplicate
  persist_after e new_id now seen db =
      finish_persistence e new_id db (persist_rows e new_id now seen db)

  -- The call when no other transaction commits between the two.
  unfoldable pub persist_normalized_event :
      NormalizedEvent → Uuid → ℕ → Database → Result EventPersistenceResult × Database
  unfolding persist_rows resolve_duplicate
  persist_normalized_event e new_id now db = persist_after e new_id now (locked_shipment e db) db
