-- ===== src/Worker.antt =====
-- worker.py: one batch, and the polling loop. Logging is left out.
pub mod Batches
use trackrelay.Prelude.{
  ltb, leb, nat_beq, if◌then◌else◌, nat_beq_iff, Bool-cases, Option-cases, is_none, or_zero, ◌>>=◌,
  ◌>>◌, length, take, length-append, length-map, All, All-append, All-map_imp, int_beq, ℤ, Done,
  Exec, Result-cases, Error, Result, ◌==◌, nat_equality, string_equality, option_beq,
  option_beq_iff, option_equality, pair_beq, pair_beq_iff, pair_equality, beq_refl, Equality,
  select, scalar, exists_row, update_rows, count_rows, exists_row-append, scalar-append,
  select-append, exists_row-eq-scalar, scalar_holds, length-update_rows, exists_row-update_rows,
  All-update_rows, scalar-update_rows, scalar-update_rows_ne, ℕ, zero, suc, ◌+◌, ◌-◌, ◌*◌, ◌/◌, ◌%◌,
  ◌≤◌, ◌<◌, min, max, String, ◌≡◌, refl, sym, ap, ◌∙◌, subst, ◌≢◌, ◌↔◌, ◌⊎◌, inl, inr, Bool, true,
  false, not, ◌&&◌, ◌||◌, Option, none, some, List, [], ◌∷◌, ◌++◌, map, arith, eq_iff, ok, err,
  integrity_error, sqlalchemy_error, http_status_error, transport_error, unexpected_error,
  queue_error, receive_error, message_decode_error, acknowledgement_error,
  persisted_event_not_found, recorded_delivery_inconsistent, outbox_entry_not_found,
  backlog_inspection_error, redrive_policy_error, value_error, pos, negsuc,
}
use trackrelay.Domain.Event.{Uuid, NormalizedEvent}
use trackrelay.Services.DeliveryQueue.{DownstreamDeliveryMessage}
use trackrelay.Services.DownstreamDelivery.{DeliveryResult}
use trackrelay.Services.DownstreamWorker.{process_downstream_delivery_message}

pub record WorkerBatchResult : Type 0 where
  pub received : ℕ
  pub delivered_and_acknowledged : ℕ
  pub failed_and_unacknowledged : ℕ

-- `except Exception` and `else`, on the two counters
abbrev pub tally : Result DeliveryResult → ℕ × ℕ → ℕ × ℕ
tally (ok _) (delivered, failed) = (delivered + 1, failed)
tally (err _) (delivered, failed) = (delivered, failed + 1)

module _ {W : Type 0} (deliver_and_record_event : NormalizedEvent → Uuid → Exec W DeliveryResult)
    (load_event : Uuid → Exec W NormalizedEvent)
    (load_recorded_delivery : Uuid → Exec W (Option DeliveryResult)) where
  abbrev pub process : DownstreamDeliveryMessage W → Exec W DeliveryResult
  process =
      process_downstream_delivery_message deliver_and_record_event load_event load_recorded_delivery

  -- the loop over the messages, with the two counters
  unfoldable pub process_messages : List (DownstreamDeliveryMessage W) → ℕ × ℕ → W → (ℕ × ℕ) × W
  process_messages [] counts w = (counts, w)
  process_messages (message ∷ rest) counts w =
      let (result, w') = process message w in process_messages rest (tally result counts) w'

  unfoldable pub process_worker_batch :
      List (DownstreamDeliveryMessage W) → W → WorkerBatchResult × W
  unfolding process_messages
  process_worker_batch messages w =
      let (counts, w') = process_messages messages (0, 0) w in
      (
        record {
          received = length messages;
          delivered_and_acknowledged = counts.0;
          failed_and_unacknowledged = counts.1;
        },
        w',
      )

  module _ (publish_pending_deliveries : Option (Exec W ℕ))
      (receive : Exec W (List (DownstreamDeliveryMessage W))) where
    -- `except (DownstreamDeliveryQueueError, SQLAlchemyError)`: a relay failure waits for the next
    -- cycle. IntegrityError is a SQLAlchemyError.
    abbrev pub relay_failure : Result ℕ → Result Done
    relay_failure (ok _) = ok tt
    relay_failure (err queue_error) = ok tt
    relay_failure (err sqlalchemy_error) = ok tt
    relay_failure (err integrity_error) = ok tt
    relay_failure (err e) = err e

    abbrev pub relay : Exec W Done
    relay w = elim publish_pending_deliveries [
      | none ↦ (ok tt, w)
      | some publish ↦ let (r, w') = publish w in (relay_failure r, w')
    ]

    abbrev pub receive_and_process : Exec W Done
    receive_and_process w =
        let (r, w') = receive w in
        elim r [ err e ↦ (err e, w') | ok messages ↦ (ok tt, (process_worker_batch messages w').1) ]

    -- The body of the loop.
    abbrev pub run_cycle : Exec W Done
    run_cycle w =
        let (r, w') = relay w in elim r [ err e ↦ (err e, w') | ok _ ↦ receive_and_process w' ]

    -- `cycles` is how often `stop_requested` answers False before it answers True.
    unfoldable pub run_worker : ℕ → Exec W Done
    unfolding process_worker_batch
    run_worker zero w = (ok tt, w)
    run_worker (suc cycles) w =
        let (r, w') = run_cycle w in
        let rest = run_worker cycles w' in elim r [ err e ↦ (err e, w') | ok _ ↦ rest ]
