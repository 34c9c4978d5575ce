-- ===== src/Services/DownstreamWorker.antt =====
-- services/downstream_worker.py. The three functions that a message is processed with are
-- parameters there; their database versions are below.
pub mod Recall
use trackrelay.Prelude.{
  leb, if◌then◌else◌, Exec, Result, ◌==◌, nat_equality, string_equality, option_equality,
  pair_equality, scalar, ◌&&◌, Option, none, some, List, [], ◌∷◌, ok, err,
  persisted_event_not_found, recorded_delivery_inconsistent,
}
use trackrelay.Prelude.Actions.{◌>>=◌}
use trackrelay.Domain.Timestamp.{as_aware}
use trackrelay.Domain.Delivery.{is_delivered}
use trackrelay.Domain.Event.{Uuid, NormalizedEvent}
use trackrelay.Models.{Event, DeliveryAttempt, Database}
use trackrelay.Services.DeliveryQueue.{DownstreamDeliveryMessage}
use trackrelay.Services.DownstreamDelivery.{DeliveryResult}

-- The event that a row stands for. Its fields were validated when the row was written.
abbrev pub normalized_of : Event → NormalizedEvent
unfolding as_aware
normalized_of event = record {
  partner_id = event.partner_id;
  partner_event_id = event.partner_event_id;
  tracking_number = event.tracking_number;
  status = event.status;
  occurred_at = as_aware event.occurred_at;
  received_at = as_aware event.received_at;
  raw_payload = event.raw_payload;
  test_run_id = event.test_run_id;
}

unfoldable pub load_persisted_normalized_event : Uuid → Database → Result NormalizedEvent
load_persisted_normalized_event event_id db = elim (scalar (λ e. e.id == event_id) db.events) [
  | none ↦ err persisted_event_not_found
  | some event ↦ ok (normalized_of event)
]

abbrev pub later_of : DeliveryAttempt → Option DeliveryAttempt → DeliveryAttempt
later_of a none = a
later_of a (some b) = if leb b.attempt_number a.attempt_number then a else b

-- `ORDER BY attempt_number DESC LIMIT 1` over the delivered attempts of the event
unfoldable pub latest_delivered : Uuid → List DeliveryAttempt → Option DeliveryAttempt
latest_delivered event_id [] = none
latest_delivered event_id (a ∷ as') =
    let rest = latest_delivered event_id as' in
    if a.event_id == event_id && is_delivered a.result then some (later_of a rest) else rest

abbrev pub recorded_delivery : Option DeliveryAttempt → Result (Option DeliveryResult)
recorded_delivery none = ok none
recorded_delivery (some attempt) = elim attempt.response_code [
  | none ↦ err recorded_delivery_inconsistent
  | some code ↦ ok (some (record { downstream_status_code = code }))
]

unfoldable pub load_recorded_delivery_result : Uuid → Database → Result (Option DeliveryResult)
unfolding latest_delivered
load_recorded_delivery_result event_id db =
    recorded_delivery (latest_delivered event_id db.attempts)

module _ {W : Type 0} (deliver_and_record_event : NormalizedEvent → Uuid → Exec W DeliveryResult)
    (load_event : Uuid → Exec W NormalizedEvent)
    (load_recorded_delivery : Uuid → Exec W (Option DeliveryResult)) where
  -- The acknowledgement comes last on both paths.
  abbrev pub acknowledge_with : DownstreamDeliveryMessage W → DeliveryResult → Exec W DeliveryResult
  acknowledge_with message result = do _ ← message.acknowledge; (λ w. (ok result, w))

  abbrev pub deliver_unless_recorded :
      DownstreamDeliveryMessage W → Uuid → Option DeliveryResult → Exec W DeliveryResult
  deliver_unless_recorded message event_id (some recorded) = acknowledge_with message recorded
  deliver_unless_recorded message event_id none = do
    normalized_event ← load_event event_id
    result ← deliver_and_record_event normalized_event event_id
    acknowledge_with message result

  unfoldable pub process_downstream_delivery_message :
      DownstreamDeliveryMessage W → Exec W DeliveryResult
  process_downstream_delivery_message message w = elim message.job [
    | err e ↦ (err e, w)
    | ok job ↦
        (do
          recorded ← load_recorded_delivery job.event_id
          deliver_unless_recorded message job.event_id recorded)
          w
  ]
