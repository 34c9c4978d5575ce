-- ===== src/Services/EventPersistence/Race.antt =====
-- Two transactions on a new tracking number, neither of which finds a shipment row to lock.
use trackrelay.Prelude.{
  ◌≡◌, refl, true, none, ok, err, integrity_error, exists_row-eq-scalar, arith, string_equality,
  nat_equality, option_equality, pair_equality, ℕ, false,
}
use trackrelay.Domain.Timestamp.{TimestampColumn}
use trackrelay.Domain.Event.{Uuid, NormalizedEvent}
use trackrelay.Models.{Database}
use trackrelay.Models.Insert.{insert_shipment, has_shipment, same_identity}
use trackrelay.Services.EventPersistence.{
  write_shipment, persist_rows, persist_after, persist_normalized_event, resolve_duplicate,
}
use trackrelay.Services.EventPersistence.Outcomes.{IsAcceptable, accepted, persist_accepts}

module _ (column : TimestampColumn) (e : NormalizedEvent) (new_id : Uuid) (now : ℕ)
    (db : Database) where
  rows_raise :
      has_shipment e.tracking_number db ≡ true
      → persist_rows column e new_id now none db ≡ err integrity_error
  unfolding persist_rows write_shipment insert_shipment
  rows_raise there = rw there refl

  raced :
      IsAcceptable e new_id db
      → has_shipment e.tracking_number db ≡ true
      → persist_after column e new_id now none db ≡ (err integrity_error, db)
  unfolding resolve_duplicate persist_after
  raced h there = rw (rows_raise there) (
      let new = h.unused in
      ground (
        arith,
        new,
        exists_row-eq-scalar (same_identity e.partner_id e.partner_event_id) db.events,
      ))

-- An event that is no duplicate, and that every constraint on events admits, raises IntegrityError and
-- stores nothing when its transaction found no shipment to lock and another's shipment of its tracking
-- number has been committed since; yet the same call, made again on that database, accepts it.
pub persist_race :
    (column : TimestampColumn) (e : NormalizedEvent) (new_id : Uuid) (now : ℕ) (db : Database)
    → IsAcceptable e new_id db
    → has_shipment e.tracking_number db ≡ true
    → (persist_after column e new_id now none db ≡ (err integrity_error, db))
      × (persist_normalized_event column e new_id now db
          ≡ (ok (record { event_id = new_id; duplicate = false }), accepted column e new_id now db))
persist_race column e new_id now db h there =
    (raced column e new_id now db h there, persist_accepts column e new_id now db h)
