-- ===== src/Tests.antt =====
-- Concrete data on which the results are exercised.
pub mod Couriers
pub mod Service
pub mod Reconciliation
pub mod TestRuns
pub mod Sqs
pub mod Guardrails
pub mod Generator
use trackrelay.Prelude.{
  All, Done, Exec, ◌==◌, nat_equality, string_equality, option_equality, pair_equality, scalar,
  count_rows, ℕ, ◌+◌, ◌≤◌, ◌<◌, String, ◌≡◌, refl, ◌≢◌, ◌↔◌, ◌⊎◌, inl, inr, Bool, true, false, none,
  some, List, [], ◌∷◌, ◌++◌, ok, err, integrity_error, unexpected_error, message_decode_error,
  recorded_delivery_inconsistent, pos,
}
use trackrelay.Domain.Timestamp.{TimestampColumn, naive, instant_of-naive}
use trackrelay.Domain.Json.{end}
use trackrelay.Domain.Shipment.{
  ShipmentStatus, created, picked_up, delivered, evaluate_shipment_transition, status_order,
  stale_event, terminal_state, non_forward_transition,
}
use trackrelay.Domain.Shipment.Progress.{
  IsForward, Progress, advance_all, applied_count, progress_bounded, transition_exact,
}
use trackrelay.Domain.Event.{Uuid, NormalizedEvent}
use trackrelay.Models.{Partner, Event, Database}
use trackrelay.Models.Insert.{same_identity}
use trackrelay.Domain.Delivery.{is_delivered}
use trackrelay.Downstream.{has_key, SimulatorMode, record_event, empty_store}
use trackrelay.Downstream.Receipts.{record_event_replay}
use trackrelay.Services.EventPersistence.{persist_after, persist_normalized_event, persisted_event}
use trackrelay.Services.EventPersistence.Outcomes.{
  IsAcceptable, accepted, persist_duplicate, persist_refuses,
}
use trackrelay.Services.EventPersistence.Race.{persist_race}
use trackrelay.Services.EventPersistence.Retry.{persist_retry}
use trackrelay.Services.EventPersistence.History.{history, FollowsHistory, persist-FollowsHistory}
use trackrelay.Services.DeliveryQueue.{DownstreamDeliveryQueue, DownstreamDeliveryMessage, IsQueue}
use trackrelay.Services.DeliveryOutbox.{
  publish_delivery_outbox_entry, publish_pending_delivery_jobs,
}
use trackrelay.Services.DeliveryOutbox.Publication.{
  IsBacked, publish_entry-IsBacked, publish_pending-IsBacked,
}
use trackrelay.Services.DownstreamDelivery.{
  AttemptClock, AttemptOutcome, HttpClient, DeliveryResult, other_failure, attempt_outcome,
  record_attempt_after, record_delivery_attempt, deliver_and_record_normalized_event,
}
use trackrelay.Services.DownstreamDelivery.Records.{attempt_row, inserted, record_attempt_exact}
use trackrelay.Services.DownstreamWorker.{load_recorded_delivery_result}
use trackrelay.Services.DownstreamWorker.Recall.{deliver_and_record_recall}
use trackrelay.Worker.{process_worker_batch}
use trackrelay.Worker.Batches.{results, succeeded, raised, batch_exact}
use trackrelay.Pipeline.{
  World, Reachable, Holds, no_fault, deleted, process_message, persist, publish, process, here,
  next, world_message, world_deliver, world_load_event, world_load_recorded,
}
use trackrelay.Pipeline.Invariant.{
  has_key-append_self, has_key-append_mono, IsSound, Reaches, keys_of, AreReceipts,
}
use trackrelay.Pipeline.Soundness.{Step-IsSound}
use trackrelay.Pipeline.Guarantees.{
  IsPending, fresh_world, fresh-IsSound, no_event_lost, effects_once,
}

abbrev utc_naive : TimestampColumn
utc_naive = record { stored = λ t. naive t.instant }

abbrev event_at : ShipmentStatus → String → ℕ → NormalizedEvent
event_at status id instant = record {
  partner_id = "alpha";
  partner_event_id = id;
  tracking_number = "T1";
  status = status;
  occurred_at = record { instant = instant; utc_offset = pos 0 };
  received_at = record { instant = 50; utc_offset = pos 0 };
  raw_payload = end;
  test_run_id = none;
}

abbrev first_event : NormalizedEvent
first_event = event_at created "e1" 10

abbrev second_event : NormalizedEvent
second_event = event_at picked_up "e2" 20

abbrev alpha : Partner
alpha = record {
  id = "alpha";
  name = "Courier Alpha";
  adapter_type = "courier-alpha";
  is_active = true;
}

abbrev start : World
start = fresh_world (alpha ∷ []) [] SimulatorMode.healthy

abbrev clock : AttemptClock
clock = record { attempt_id = 70; started_at = 200; completed_at = 210; elapsed_ms = pos 1 }

-- A queue that accepts every job.
abbrev list_queue : DownstreamDeliveryQueue (List Uuid)
list_queue = record { enqueue = λ job q. (ok tt, q ++ job.event_id ∷ []) }

list_queue-IsQueue : IsQueue list_queue Holds
list_queue-IsQueue = record {
  accepts = λ job q _. has_key-append_self job.event_id q;
  keeps = λ job other q h. has_key-append_mono other.event_id q (job.event_id ∷ []) h;
}

abbrev none_locked : Uuid → Bool
none_locked _ = false

-- One event is accepted, published, delivered and acknowledged.
abbrev accepted_world : World
accepted_world = record start {
  database = (persist_normalized_event utc_naive first_event 7 100 start.database).1;
}

abbrev published_world : World
published_world =
    let (_, db, q) =
      publish_delivery_outbox_entry list_queue none_locked 110 (ok tt) 7 accepted_world.database
        accepted_world.queue in
    record accepted_world { database = db; queue = q }

abbrev delivered_world : World
delivered_world = (process_message clock no_fault deleted 1 7 published_world).1

one_delivery : Reachable utc_naive start delivered_world
one_delivery =
    next
      (next (next here (persist first_event 7 100))
        (publish list_queue list_queue-IsQueue none_locked 110 (ok tt) 7))
      (process clock no_fault deleted 1 7)

no_event_lost_example :
    All
      (λ e. IsPending delivered_world e.id ⊎ Reaches delivered_world e.id)
      delivered_world.database.events
no_event_lost_example = no_event_lost utc_naive (alpha ∷ []) [] SimulatorMode.healthy one_delivery

effects_once_example :
    ((id : Uuid) → count_rows (λ k. k == id) (keys_of delivered_world) ≤ 1)
    × AreReceipts delivered_world.database.events
        (keys_of delivered_world)
        delivered_world.simulator.store.events
    × All
        (λ a.
          (is_delivered a.result ≡ false)
          ⊎ (a.response_code ≡ none)
          ⊎ (has_key a.event_id (keys_of delivered_world) ≡ true))
        delivered_world.database.attempts
effects_once_example = effects_once utc_naive (alpha ∷ []) [] SimulatorMode.healthy one_delivery

Step-IsSound_example : IsSound accepted_world
Step-IsSound_example =
    Step-IsSound utc_naive (persist first_event 7 100)
      (fresh-IsSound (alpha ∷ []) [] SimulatorMode.healthy)

-- A database with one event, as the API leaves it.
abbrev one_event : Database
one_event = record start.database {
  shipments =
      record {
        tracking_number = "T1";
        current_status = created;
        current_status_occurred_at = naive 10;
        created_at = 100;
        updated_at = 100;
      }
      ∷ [];
  events = persisted_event utc_naive first_event 7 100 true none ∷ [];
  outbox = record { event_id = 7; created_at = 100; published_at = none } ∷ [];
}

persist_example :
    persist_normalized_event utc_naive first_event 7 100 start.database
    ≡ (ok (record { event_id = 7; duplicate = false }), one_event)
unfolding persist_normalized_event
persist_example = refl

first-IsAcceptable : IsAcceptable first_event 7 start.database
first-IsAcceptable = record {
  unused = refl;
  known_partner = refl;
  known_run = refl;
  fresh_event = refl;
  fresh_entry = refl;
}

persist_retry_example :
    let (r, db') = persist_normalized_event utc_naive first_event 7 100 start.database in
    (r ≡ ok (record { event_id = 7; duplicate = false }))
    × (persist_normalized_event utc_naive first_event 8 120 db'
        ≡ (ok (record { event_id = 7; duplicate = true }), db'))
persist_retry_example =
    persist_retry utc_naive first_event 7 100 start.database 8 120 first-IsAcceptable

persist_duplicate_example :
    (original : Event) × (scalar (same_identity "alpha" "e1") one_event.events ≡ some original)
    × (persist_normalized_event utc_naive first_event 8 120 one_event
        ≡ (ok (record { event_id = original.id; duplicate = true }), one_event))
persist_duplicate_example = persist_duplicate utc_naive first_event 8 120 one_event refl

persist_refuses_example :
    persist_normalized_event utc_naive second_event 7 120 one_event
    ≡ (err integrity_error, one_event)
persist_refuses_example =
    persist_refuses utc_naive second_event 7 120 one_event refl (inr (inr (inr (inl refl))))

second-IsAcceptable : IsAcceptable second_event 8 one_event
second-IsAcceptable = record {
  unused = refl;
  known_partner = refl;
  known_run = refl;
  fresh_event = refl;
  fresh_entry = refl;
}

persist_race_example :
    (persist_after utc_naive second_event 8 120 none one_event ≡ (err integrity_error, one_event))
    × (persist_normalized_event utc_naive second_event 8 120 one_event ≡ (
      ok (record { event_id = 8; duplicate = false }),
      accepted utc_naive second_event 8 120 one_event,
    ))
persist_race_example = persist_race utc_naive second_event 8 120 one_event second-IsAcceptable refl

start-FollowsHistory : FollowsHistory start.database
unfolding history
start-FollowsHistory number = refl

persist-FollowsHistory_example :
    FollowsHistory (persist_normalized_event utc_naive first_event 7 100 start.database).1
persist-FollowsHistory_example =
    persist-FollowsHistory utc_naive (λ t. instant_of-naive t.instant) first_event 7 100
      start.database start-FollowsHistory

publish_entry-IsBacked_example :
    let (_, db, q) =
      publish_delivery_outbox_entry list_queue none_locked 110 (ok tt) 7 one_event [] in
    IsBacked list_queue Holds list_queue-IsQueue db q
publish_entry-IsBacked_example =
    publish_entry-IsBacked list_queue Holds list_queue-IsQueue none_locked 110 (ok tt) 7 one_event
      [] (inl refl, tt)

publish_pending-IsBacked_example :
    let (_, db, q) =
      publish_pending_delivery_jobs list_queue none_locked 110 (ok tt) 10 one_event [] in
    IsBacked list_queue Holds list_queue-IsQueue db q
publish_pending-IsBacked_example =
    publish_pending-IsBacked list_queue Holds list_queue-IsQueue none_locked 110 (ok tt) 10
      one_event [] (inl refl, tt)

abbrev delivered_outcome : AttemptOutcome
delivered_outcome = attempt_outcome (ok (record { downstream_status_code = 202 }))

abbrev later_clock : AttemptClock
later_clock = record { attempt_id = 71; started_at = 201; completed_at = 211; elapsed_ms = pos 1 }

record_attempt_exact_example :
    (record_attempt_after 7 delivered_outcome clock [] one_event
      ≡ inserted 7 delivered_outcome clock [] one_event)
    × (record_delivery_attempt 7 delivered_outcome clock one_event
        ≡ ok (record one_event { attempts = attempt_row 7 delivered_outcome clock [] ∷ [] }))
    × (record_attempt_after 7 delivered_outcome later_clock []
          (record one_event { attempts = attempt_row 7 delivered_outcome clock [] ∷ [] })
        ≡ err integrity_error)
record_attempt_exact_example =
    record_attempt_exact 7 delivered_outcome clock delivered_outcome later_clock [] one_event

-- A client whose response cannot be decoded.
abbrev broken_client : HttpClient Done
broken_client = record { post = λ event key s. (other_failure "DecodingError", s) }

deliver_and_record_recall_example :
    let (r, db', s') =
      deliver_and_record_normalized_event broken_client clock first_event 7 one_event tt in
    (r ≡ err (unexpected_error "DecodingError"))
    × (s' ≡ tt)
    × (load_recorded_delivery_result 7 db' ≡ err recorded_delivery_inconsistent)
unfolding deliver_and_record_normalized_event
deliver_and_record_recall_example =
    deliver_and_record_recall clock 7 one_event refl refl broken_client first_event tt

transition_exact_example :
    let d = evaluate_shipment_transition created 10 picked_up 20 in
    ((d.applied ≡ true) ↔ IsForward created 10 picked_up 20)
    × ((d.applied ≡ true) ↔ (d.rejection_reason ≡ none))
    × ((d.rejection_reason ≡ some stale_event) ↔ (20 < 10))
    × ((d.rejection_reason ≡ some terminal_state) ↔ ((10 ≤ 20) × (created ≡ delivered)))
    × ((d.rejection_reason ≡ some non_forward_transition)
        ↔ ((10 ≤ 20) × (created ≢ delivered) × (status_order picked_up ≤ status_order created)))
transition_exact_example = transition_exact created 10 picked_up 20

abbrev arrivals : List Progress
arrivals = (picked_up, 20) ∷ (created, 30) ∷ (delivered, 25) ∷ []

progress_bounded_example :
    let q = advance_all (created, 10) arrivals in
    (10 ≤ q.1)
    × (status_order created + applied_count (created, 10) arrivals ≤ status_order q.0)
    × (applied_count (created, 10) arrivals ≤ 4)
progress_bounded_example = progress_bounded (created, 10) arrivals

record_event_replay_example :
    let (first, recorded) = record_event first_event (some 7) empty_store in
    record_event second_event (some 7) recorded
    ≡ (record { received_count = first.received_count; duplicate = true }, recorded)
record_event_replay_example = record_event_replay first_event second_event 7 empty_store

-- A batch of one message that is delivered, and one that cannot be decoded.
abbrev messages : List (DownstreamDeliveryMessage World)
messages =
    world_message 7 deleted 1
    ∷ record (world_message 7 deleted 1) { job = err message_decode_error }
    ∷ []

abbrev deliver : NormalizedEvent → Uuid → Exec World DeliveryResult
deliver = world_deliver clock no_fault

batch_exact_example :
    let (report, last) =
      process_worker_batch deliver world_load_event world_load_recorded messages published_world in
    let expected = results deliver world_load_event world_load_recorded messages published_world in
    (last ≡ expected.1)
    × (report.delivered_and_acknowledged
        ≡ succeeded deliver world_load_event world_load_recorded expected.0)
    × (report.failed_and_unacknowledged
        ≡ raised deliver world_load_event world_load_recorded expected.0)
    × (report.delivered_and_acknowledged + report.failed_and_unacknowledged ≡ report.received)
batch_exact_example =
    batch_exact deliver world_load_event world_load_recorded messages published_world
