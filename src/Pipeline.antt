-- ===== src/Pipeline.antt =====
-- The delivery pipeline as a whole: the API's database, the SQS queue with its dead-letter queue,
-- the workers and the order system, in any interleaving and with any failure between them. Each
-- step runs the program's own function; what may fail around it is chosen by the environment.
pub mod Invariant
pub mod Posting
pub mod Recording
pub mod Processing
pub mod Publishing
pub mod Soundness
pub mod Guarantees
use trackrelay.Prelude.{
  ltb, leb, nat_beq, if◌then◌else◌, nat_beq_iff, Bool-cases, Option-cases, is_none, or_zero, ◌>>=◌,
  ◌>>◌, length, take, length-append, length-map, All, All-append, All-map_imp, int_beq, ℤ, Done,
  Exec, Result-cases, Error, Result, ◌==◌, nat_equality, string_equality, option_beq,
  option_beq_iff, option_equality, pair_beq, pair_beq_iff, pair_equality, beq_refl, Equality,
  select, scalar, exists_row, update_rows, count_rows, exists_row-append, scalar-append,
  select-append, exists_row-eq-scalar, scalar_holds, length-update_rows, exists_row-update_rows,
  All-update_rows, scalar-update_rows, scalar-update_rows_ne, ℕ, zero, suc, ◌+◌, ◌-◌, ◌*◌, ◌/◌, ◌%◌,
  ◌≤◌, ◌<◌, min, max, String, ◌≡◌, refl, sym, ap, ◌∙◌, subst, ◌≢◌, ◌↔◌, ◌⊎◌, inl, inr, Bool, true,
  false, not, ◌&&◌, ◌||◌, Option, none, some, List, [], ◌∷◌, ◌++◌, map, arith, eq_iff, ok, err,
  integrity_error, sqlalchemy_error, http_status_error, transport_error, unexpected_error,
  queue_error, receive_error, message_decode_error, acknowledgement_error,
  persisted_event_not_found, recorded_delivery_inconsistent, outbox_entry_not_found,
  backlog_inspection_error, redrive_policy_error, value_error, pos, negsuc,
}
use trackrelay.Prelude.Actions.{lift}
use trackrelay.Domain.Timestamp.{TimestampColumn}
use trackrelay.Domain.Event.{Uuid, NormalizedEvent}
use trackrelay.Models.{Database}
use trackrelay.Downstream.{
  Simulator, SimulatorMode, Reply, reply_code, receive_event, set_mode, has_key,
}
use trackrelay.Services.EventPersistence.{persist_normalized_event}
use trackrelay.Services.DeliveryQueue.{
  DownstreamDeliveryJob, DownstreamDeliveryQueue, DownstreamDeliveryMessage, IsQueue, delivery_job,
}
use trackrelay.Services.DeliveryOutbox.{
  publish_delivery_outbox_entry, publish_pending_delivery_jobs,
}
use trackrelay.Services.DownstreamDelivery.{
  DeliveryResult, HttpOutcome, HttpClient, response, transport_failure, other_failure, AttemptClock,
  deliver_and_record_normalized_event,
}
use trackrelay.Services.DownstreamWorker.{
  load_persisted_normalized_event, load_recorded_delivery_result,
  process_downstream_delivery_message,
}

-- A message is known by the event that its job names; a queue may hold it several times.
pub record World : Type 0 where
  pub database : Database
  pub queue : List Uuid
  pub dead_letters : List Uuid
  pub simulator : Simulator

-- What the network does to one POST.
pub data NetworkFault : Type 0 where
  no_fault request_lost response_lost client_fault : NetworkFault

-- The order system behind the network, as the worker's HTTP client sees it.
abbrev pub answer : NetworkFault → Reply × Simulator → Simulator → HttpOutcome × Simulator
answer no_fault (reply, s') s = (response (reply_code reply) "", s')
answer request_lost (reply, s') s = (transport_failure "request lost", s)
answer response_lost (reply, s') s = (transport_failure "response lost", s')
answer client_fault (reply, s') s = (other_failure "client fault", s)

abbrev pub simulator_client : NetworkFault → HttpClient Simulator
simulator_client fault = record {
  post = λ event idempotency_key s. answer fault (receive_event event idempotency_key s) s;
}

-- What SQS does to one DeleteMessage: it may fail before or after the message is gone.
pub data DeleteFault : Type 0 where
  deleted delete_lost reply_lost : DeleteFault

abbrev pub remove_first : Uuid → List Uuid → List Uuid
remove_first id [] = []
remove_first id (k ∷ ks) = let rest = remove_first id ks in if k == id then ks else k ∷ rest

abbrev pub delete_message : Uuid → DeleteFault → Exec World Done
delete_message id deleted w = (ok tt, record w { queue = remove_first id w.queue })
delete_message id delete_lost w = (err acknowledgement_error, w)
delete_message id reply_lost w =
    (err acknowledgement_error, record w { queue = remove_first id w.queue })

abbrev pub world_message : Uuid → DeleteFault → ℕ → DownstreamDeliveryMessage World
world_message id fault receive_count = record {
  job = ok (delivery_job id);
  receive_count = receive_count;
  acknowledge = delete_message id fault;
}

abbrev pub world_load_event : Uuid → Exec World NormalizedEvent
world_load_event id w = (load_persisted_normalized_event id w.database, w)

abbrev pub world_load_recorded : Uuid → Exec World (Option DeliveryResult)
world_load_recorded id w = (load_recorded_delivery_result id w.database, w)

abbrev pub world_deliver :
    AttemptClock → NetworkFault → NormalizedEvent → Uuid → Exec World DeliveryResult
world_deliver clock fault event id w =
    let (result, db, s) =
      deliver_and_record_normalized_event (simulator_client fault) clock event id w.database
        w.simulator in
    (result, record w { database = db; simulator = s })

unfoldable pub process_message :
    AttemptClock → NetworkFault → DeleteFault → ℕ → Uuid → Exec World DeliveryResult
unfolding process_downstream_delivery_message
process_message clock network delete receive_count id =
    process_downstream_delivery_message (world_deliver clock network) world_load_event
      world_load_recorded (world_message id delete receive_count)

-- What a queue client may do to the source queue: it keeps every message that it has, and holds
-- that of a job whose call returned.
abbrev pub Holds : List Uuid → DownstreamDeliveryJob → Type 0
Holds queue job = has_key job.event_id queue ≡ true

-- The world after a call of an outbox function, whatever it returned or raised.
abbrev pub after_call : {A : Type 0} → World → Result A × Database × List Uuid → World
after_call w (r, db, q) = record w { database = db; queue = q }

module _ (column : TimestampColumn) where
  pub data Step (w : World) : World → Type 0 where
    -- the API persists an event
    persist :
        (e : NormalizedEvent) (new_id : Uuid) (now : ℕ)
        → Step w
            (record w { database = (persist_normalized_event column e new_id now w.database).1 })
    -- the API, or any other process, publishes one entry
    publish :
        (client : DownstreamDeliveryQueue (List Uuid))
        → IsQueue client Holds
        → (locked : Uuid → Bool) (now : ℕ) (commit : Result Done) (id : Uuid)
        → Step w (
            after_call w
              (publish_delivery_outbox_entry client locked now commit id w.database w.queue))
    -- a worker relays a batch
    relay :
        (client : DownstreamDeliveryQueue (List Uuid))
        → IsQueue client Holds
        → (locked : Uuid → Bool) (now : ℕ) (commit : Result Done) (batch_size : ℕ)
        → Step w (
            after_call w (
              publish_pending_delivery_jobs client locked now commit batch_size w.database w.queue))
    -- a worker processes a message of the queue
    process :
        (clock : AttemptClock) (network : NetworkFault) (delete : DeleteFault) (receive_count : ℕ)
        (id : Uuid)
        → Step w (process_message clock network delete receive_count id w).1
    -- a worker dies after its POST and before its record
    die :
        (network : NetworkFault) (id : Uuid) (event : NormalizedEvent)
        → load_persisted_normalized_event id w.database ≡ ok event
        → Step w (record w {
          simulator = ((simulator_client network).post event (some id) w.simulator).1;
        })
    -- SQS moves a message to the dead-letter queue
    redrive :
        (id : Uuid)
        → Step w
            (record w { queue = remove_first id w.queue; dead_letters = w.dead_letters ++ id ∷ [] })
    -- the operator switches the order system's behaviour
    switch :
        (mode : SimulatorMode) → Step w (record w { simulator = (set_mode mode w.simulator).1 })

  pub data Reachable (start : World) : World → Type 0 where
    here : Reachable start start
    next : {v w : World} → Reachable start v → Step v w → Reachable start w
