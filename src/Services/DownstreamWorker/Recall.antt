-- ===== src/Services/DownstreamWorker/Recall.antt =====
-- What a later message of an event finds of an earlier attempt (services/downstream_delivery.py and
-- _load_recorded_delivery_result of services/downstream_worker.py).
use trackrelay.Prelude.{
  or_zero, Error, Result, ◌==◌, nat_equality, string_equality, option_equality, pair_equality,
  beq_refl, exists_row, ◌<◌, ◌≡◌, refl, true, false, Option, some, List, [], ◌∷◌, ◌++◌, arith, ok,
  err, recorded_delivery_inconsistent,
}
use trackrelay.Domain.Delivery.{is_delivered}
use trackrelay.Domain.Event.{Uuid, NormalizedEvent}
use trackrelay.Models.{DeliveryAttempt, Database}
use trackrelay.Models.Insert.{has_event}
use trackrelay.Services.DownstreamDelivery.{
  AttemptClock, DeliveryResult, HttpClient, attempt_outcome, delivery_of,
  deliver_and_record_normalized_event, deliver_normalized_event, max_attempt_number,
  record_delivery_attempt,
}
use trackrelay.Services.DownstreamDelivery.Records.{attempt_row, record_alone}
use trackrelay.Services.DownstreamWorker.{
  latest_delivered, load_recorded_delivery_result, recorded_delivery,
}

-- A delivered attempt with the largest number is the one that is found.
latest_delivered-append :
    (id : Uuid) (rows : List DeliveryAttempt) (a : DeliveryAttempt)
    → or_zero (max_attempt_number id rows) < a.attempt_number
    → (a.event_id == id) ≡ true
    → is_delivered a.result ≡ true
    → latest_delivered id (rows ++ a ∷ []) ≡ some a
unfolding latest_delivered max_attempt_number
latest_delivered-append id [] a larger own done = ground (arith, own, done)
latest_delivered-append id (b ∷ rows) a larger own done =
    ground (arith, larger, own, done, latest_delivered-append id rows a)

-- An attempt that was not delivered is not found.
latest_delivered-append_other :
    (id : Uuid) (rows : List DeliveryAttempt) (a : DeliveryAttempt)
    → is_delivered a.result ≡ false
    → latest_delivered id (rows ++ a ∷ []) ≡ latest_delivered id rows
unfolding latest_delivered
latest_delivered-append_other id [] a failed = ground (arith, failed)
latest_delivered-append_other id (b ∷ rows) a failed =
    ground (arith, failed, latest_delivered-append_other id rows a)

-- What a message of the event finds after an attempt with this outcome.
abbrev pub recalled :
    Result DeliveryResult → Result (Option DeliveryResult) → Result (Option DeliveryResult)
recalled (ok delivery) before = ok (some delivery)
recalled (err (Error.http_status_error code text)) before = before
recalled (err (Error.transport_error text)) before = before
recalled (err _) before = err recorded_delivery_inconsistent

module _ (clock : AttemptClock) (event_id : Uuid) (db : Database)
    (known : has_event event_id db ≡ true)
    (fresh : exists_row (λ b. b.id == clock.attempt_id) db.attempts ≡ false) where
  recorded :
      (delivery : Result DeliveryResult)
      → record_delivery_attempt event_id (attempt_outcome delivery) clock db
        ≡ ok (record db {
          attempts =
              db.attempts ++ attempt_row event_id (attempt_outcome delivery) clock db.attempts ∷ [];
        })
  recorded delivery =
      ground (arith, record_alone event_id (attempt_outcome delivery) clock db, known, fresh)

  found :
      (delivery : Result DeliveryResult)
      → recorded_delivery (
          latest_delivered event_id
            (db.attempts ++ attempt_row event_id (attempt_outcome delivery) clock db.attempts ∷ []))
        ≡ recalled delivery (recorded_delivery (latest_delivered event_id db.attempts))
  found delivery =
      let row : DeliveryAttempt =
        attempt_row event_id (attempt_outcome delivery) clock db.attempts in
      ground (
        arith,
        latest_delivered-append event_id db.attempts row (omega arith) (beq_refl event_id),
        latest_delivered-append_other event_id db.attempts row,
      )

  -- If the event exists and the drawn attempt id is fresh, a call returns or raises what the POST
  -- came to, and a later query for a recorded delivery finds what `recalled` says: a delivery,
  -- with its status code, if there was one; the same as before after an HTTP status or transport
  -- error; and after any other exception of the POST, an inconsistent record, for which it raises.
  pub deliver_and_record_recall :
      {S : Type 0} (client : HttpClient S) (event : NormalizedEvent) (s : S)
      → let (r, db', s') = deliver_and_record_normalized_event client clock event event_id db s in
        (r ≡ delivery_of (client.post event (some event_id) s).0)
        × (s' ≡ (client.post event (some event_id) s).1)
        × (load_recorded_delivery_result event_id db'
            ≡ recalled r (load_recorded_delivery_result event_id db))
  unfolding deliver_and_record_normalized_event deliver_normalized_event
      load_recorded_delivery_result
  deliver_and_record_recall client event s =
      let delivery : Result DeliveryResult = delivery_of (client.post event (some event_id) s).0 in
      rw (recorded delivery) (refl, refl, found delivery)
