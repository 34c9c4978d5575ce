-- ===== src/Models/Insert.antt =====
-- Inserting a row: the primary keys, unique constraints and foreign keys that models/*.py declare,
-- a violation of which raises IntegrityError.
use trackrelay.Prelude.{
  String, Bool, true, not, ◌&&◌, ◌||◌, Option, none, some, [], ◌∷◌, ◌++◌, ◌==◌, nat_equality,
  string_equality, leb, if◌then◌else◌, exists_row, Result, ok, err, integrity_error, List,
}
use trackrelay.Models.{
  Partner, Shipment, Event, DeliveryOutboxEntry, DeliveryAttempt, TestRun, Database,
}
use trackrelay.Domain.Event.{Uuid}

abbrev pub has_partner : String → Database → Bool
has_partner id db = exists_row (λ p. p.id == id) db.partners

abbrev pub has_shipment : String → Database → Bool
has_shipment number db = exists_row (λ s. s.tracking_number == number) db.shipments

abbrev pub has_event : Uuid → Database → Bool
has_event id db = exists_row (λ e. e.id == id) db.events

-- The test of `uq_events_partner_event`, and of the query for the original of a duplicate.
abbrev pub same_identity : String → String → Event → Bool
same_identity partner_id partner_event_id e =
    e.partner_id == partner_id && e.partner_event_id == partner_event_id

abbrev pub has_identity : String → String → Database → Bool
has_identity partner_id partner_event_id db =
    exists_row (same_identity partner_id partner_event_id) db.events

abbrev pub has_outbox_entry : Uuid → Database → Bool
has_outbox_entry id db = exists_row (λ o. o.event_id == id) db.outbox

abbrev pub has_test_run : Uuid → Database → Bool
has_test_run id db = exists_row (λ r. r.id == id) db.test_runs

-- A nullable foreign key.
abbrev pub test_run_exists : Option Uuid → List TestRun → Bool
test_run_exists none runs = true
test_run_exists (some id) runs = exists_row (λ r. r.id == id) runs

unfoldable pub insert_shipment : Shipment → Database → Result Database
insert_shipment s db =
    if has_shipment s.tracking_number db
    then err integrity_error
    else ok (record db { shipments = db.shipments ++ s ∷ [] })

unfoldable pub insert_event : Event → Database → Result Database
insert_event e db =
    if has_event e.id db
      || has_identity e.partner_id e.partner_event_id db
      || not (has_partner e.partner_id db)
      || not (has_shipment e.tracking_number db)
      || not (test_run_exists e.test_run_id db.test_runs)
    then err integrity_error
    else ok (record db { events = db.events ++ e ∷ [] })

unfoldable pub insert_outbox_entry : DeliveryOutboxEntry → Database → Result Database
insert_outbox_entry o db =
    if has_outbox_entry o.event_id db || not (has_event o.event_id db)
    then err integrity_error
    else ok (record db { outbox = db.outbox ++ o ∷ [] })

unfoldable pub insert_attempt : DeliveryAttempt → Database → Result Database
insert_attempt a db =
    if exists_row (λ b. b.id == a.id) db.attempts
      || exists_row (λ b. b.event_id == a.event_id && b.attempt_number == a.attempt_number)
          db.attempts
      || not (has_event a.event_id db)
      || not (leb 1 a.attempt_number)
    then err integrity_error
    else ok (record db { attempts = db.attempts ++ a ∷ [] })

unfoldable pub insert_partner : Partner → Database → Result Database
insert_partner p db =
    if has_partner p.id db
    then err integrity_error
    else ok (record db { partners = db.partners ++ p ∷ [] })

unfoldable pub insert_test_run : TestRun → Database → Result Database
insert_test_run r db =
    if has_test_run r.id db
    then err integrity_error
    else ok (record db { test_runs = db.test_runs ++ r ∷ [] })
