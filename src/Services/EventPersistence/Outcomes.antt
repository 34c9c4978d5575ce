-- ===== src/Services/EventPersistence/Outcomes.antt =====
-- The outcomes of `persist_normalized_event`: a new event, a duplicate, an error.
use trackrelay.Prelude.{
  ℕ, ◌≡◌, refl, Bool, true, false, Option, none, some, List, [], ◌∷◌, ◌++◌, ◌==◌, nat_equality,
  string_equality, String, if◌then◌else◌, update_rows, exists_row-append, exists_row-eq-scalar,
  exists_row-update_rows, ok, arith, beq_refl, err, integrity_error, ◌⊎◌, scalar, Option-cases, inl,
  inr,
}
use trackrelay.Domain.Timestamp.{TimestampColumn, instant_of}
use trackrelay.Domain.Shipment.{evaluate_shipment_transition}
use trackrelay.Domain.Event.{Uuid, NormalizedEvent}
use trackrelay.Models.{Shipment, DeliveryOutboxEntry, Database, Event}
use trackrelay.Models.Insert.{
  insert_shipment, insert_event, insert_outbox_entry, has_identity, has_event, has_outbox_entry,
  has_partner, has_shipment, test_run_exists, same_identity,
}
use trackrelay.Services.EventPersistence.{
  ShipmentWrite, write_shipment, persisted_event, persist_rows, locked_shipment, reason_text,
  persist_normalized_event, resolve_duplicate,
}

-- What an event must meet to be accepted as new: its identity is unused, its partner and its test
-- run are registered, and the drawn id is fresh.
pub record IsAcceptable (e : NormalizedEvent) (new_id : Uuid) (db : Database) : Type 0 where
  pub unused : has_identity e.partner_id e.partner_event_id db ≡ false
  pub known_partner : has_partner e.partner_id db ≡ true
  pub known_run : test_run_exists e.test_run_id db.test_runs ≡ true
  pub fresh_event : has_event new_id db ≡ false
  pub fresh_entry : has_outbox_entry new_id db ≡ false

module _ (column : TimestampColumn) (e : NormalizedEvent) (new_id : Uuid) (now : ℕ) where
  abbrev pub new_shipment : Shipment
  new_shipment = record {
    tracking_number = e.tracking_number;
    current_status = e.status;
    current_status_occurred_at = column.stored e.occurred_at;
    created_at = now;
    updated_at = now;
  }

  abbrev pub advanced_shipment : Shipment → Shipment
  advanced_shipment s = record s {
    current_status = e.status;
    current_status_occurred_at = column.stored e.occurred_at;
    updated_at = now;
  }

  abbrev pub applies_to : Shipment → Bool
  applies_to s =
      (evaluate_shipment_transition s.current_status (instant_of s.current_status_occurred_at)
        e.status e.occurred_at.instant).applied

  -- The shipment table, the flag and the reason that the first part of the transaction leaves.
  abbrev pub shipments_after : Option Shipment → List Shipment → List Shipment
  shipments_after none rows = rows ++ new_shipment ∷ []
  shipments_after (some s) rows =
      if applies_to s
      then update_rows (λ r. r.tracking_number == e.tracking_number) advanced_shipment rows
      else rows

  abbrev pub applied_after : Option Shipment → Bool
  applied_after none = true
  applied_after (some s) = applies_to s

  abbrev pub reason_after : Option Shipment → Option String
  reason_after none = none
  reason_after (some s) = reason_text (
      evaluate_shipment_transition s.current_status (instant_of s.current_status_occurred_at)
        e.status e.occurred_at.instant)

  abbrev written : Option Shipment → Database → ShipmentWrite
  written seen db = record {
    database = record db { shipments = shipments_after seen db.shipments };
    state_applied = applied_after seen;
    state_rejection_reason = reason_after seen;
  }

  write-eq-written :
      (seen : Option Shipment) (db : Database)
      → locked_shipment e db ≡ seen
      → write_shipment column e now seen db ≡ ok (written seen db)
  unfolding write_shipment insert_shipment
  write-eq-written none db h =
      rw (exists_row-eq-scalar (λ s. s.tracking_number == e.tracking_number) db.shipments) (rw h)
  write-eq-written (some s) db h = refl

  -- The row exists afterwards, and no other table has changed.
  has_shipment-written :
      (seen : Option Shipment) (db : Database)
      → locked_shipment e db ≡ seen
      → has_shipment e.tracking_number (written seen db).database ≡ true
  has_shipment-written none db h = ground (
    arith,
    exists_row-append (λ s. s.tracking_number == e.tracking_number) db.shipments
        (new_shipment ∷ []),
    beq_refl e.tracking_number,
  )
  has_shipment-written (some s) db h = ground (
    arith,
    h,
    exists_row-eq-scalar (λ r. r.tracking_number == e.tracking_number) db.shipments,
    exists_row-update_rows (λ r. r.tracking_number == e.tracking_number)
        (λ r. r.tracking_number == e.tracking_number) advanced_shipment db.shipments (λ r. refl),
  )

  -- The database after an accepted event.
  abbrev pub accepted : Database → Database
  accepted db =
      let seen = locked_shipment e db in
      record db {
        shipments = shipments_after seen db.shipments;
        events =
            db.events
            ++ persisted_event column e new_id now (applied_after seen) (reason_after seen) ∷ [];
        outbox =
            db.outbox ++ record { event_id = new_id; created_at = now; published_at = none } ∷ [];
      }

  insert_event_accepts :
      (seen : Option Shipment) (db : Database)
      → IsAcceptable e new_id db
      → locked_shipment e db ≡ seen
      → let w = written seen db in
        let row = persisted_event column e new_id now w.state_applied w.state_rejection_reason in
        insert_event row w.database ≡ ok (record w.database { events = db.events ++ row ∷ [] })
  unfolding insert_event
  insert_event_accepts seen db h q =
      rw (h.fresh_event, h.unused, h.known_partner, h.known_run, has_shipment-written seen db q)

  insert_entry_accepts :
      (o : DeliveryOutboxEntry) (db : Database)
      → has_outbox_entry o.event_id db ≡ false
      → has_event o.event_id db ≡ true
      → insert_outbox_entry o db ≡ ok (record db { outbox = db.outbox ++ o ∷ [] })
  unfolding insert_outbox_entry
  insert_entry_accepts o db h q = rw (h, q)

  persist_rows_accepts :
      (db : Database)
      → IsAcceptable e new_id db
      → persist_rows column e new_id now (locked_shipment e db) db ≡ ok (accepted db)
  unfolding persist_rows
  persist_rows_accepts db h =
      rw
        (
          write-eq-written (locked_shipment e db) db refl,
          insert_event_accepts (locked_shipment e db) db h refl,
        )
        (insert_entry_accepts _ _ h.fresh_entry (
          ground (
            arith,
            exists_row-append (λ x. x.id == new_id) db.events
                (persisted_event column e new_id now (applied_after (locked_shipment e db))
                    (reason_after (locked_shipment e db))
                  ∷ []),
            beq_refl new_id,
          )))

  -- A new event is accepted under its drawn id: the transaction leaves `accepted db`.
  pub persist_accepts :
      (db : Database)
      → IsAcceptable e new_id db
      → persist_normalized_event column e new_id now db
        ≡ (ok (record { event_id = new_id; duplicate = false }), accepted db)
  unfolding persist_normalized_event
  persist_accepts db h = rw (persist_rows_accepts db h)

  -- One of the constraints fails in every other case.
  abbrev pub IsRefused : Database → Type 0
  IsRefused db =
      (has_identity e.partner_id e.partner_event_id db ≡ true)
      ⊎ (has_partner e.partner_id db ≡ false)
      ⊎ (test_run_exists e.test_run_id db.test_runs ≡ false)
      ⊎ (has_event new_id db ≡ true)
      ⊎ (has_outbox_entry new_id db ≡ true)

  persist_rows_refuses :
      (db : Database)
      → IsRefused db
      → persist_rows column e new_id now (locked_shipment e db) db ≡ err integrity_error
  unfolding persist_rows insert_event insert_outbox_entry
  persist_rows_refuses db h = rw (write-eq-written (locked_shipment e db) db refl) (ground arith)

  -- An event whose identity is taken is a duplicate: the result names the first event with that
  -- identity, and the database is left as it was.
  pub persist_duplicate :
      (db : Database)
      → has_identity e.partner_id e.partner_event_id db ≡ true
      → (original : Event) × (scalar (same_identity e.partner_id e.partner_event_id) db.events
          ≡ some original)
        × (persist_normalized_event column e new_id now db
            ≡ (ok (record { event_id = original.id; duplicate = true }), db))
  unfolding persist_normalized_event resolve_duplicate
  persist_duplicate db h =
      elim (Option-cases (scalar (same_identity e.partner_id e.partner_event_id) db.events)) [
        | inl p ↦ ground (
          arith,
          h,
          p,
          exists_row-eq-scalar (same_identity e.partner_id e.partner_event_id) db.events,
        )
        | inr (o, p) ↦ (o, p, rw (persist_rows_refuses db (inl h)) (rw (p, resolve_duplicate)))
      ]

  -- An event that is no duplicate and breaks a constraint raises IntegrityError, and the database
  -- is left as it was.
  pub persist_refuses :
      (db : Database)
      → has_identity e.partner_id e.partner_event_id db ≡ false
      → IsRefused db
      → persist_normalized_event column e new_id now db ≡ (err integrity_error, db)
  unfolding persist_normalized_event resolve_duplicate
  persist_refuses db new h = ground (
    arith,
    persist_rows_refuses db h,
    new,
    exists_row-eq-scalar (same_identity e.partner_id e.partner_event_id) db.events,
  )
