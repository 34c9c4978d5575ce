-- ===== src/Tests/Service.antt =====
-- Ingestion and resets on concrete data.
use trackrelay.Prelude.{
  length, ◌==◌, string_equality, nat_equality, option_equality, pair_equality, select, count_rows,
  ◌≡◌, refl, ◌⊎◌, Bool, true, false, none, some, List, [], ◌∷◌, arith, ok, err, queue_error,
  experiment_reset_error, pos,
}
use trackrelay.Domain.Timestamp.{TimestampColumn, naive}
use trackrelay.Domain.Json.{end}
use trackrelay.Domain.Event.{Uuid}
use trackrelay.Models.Insert.{has_shipment}
use trackrelay.Services.ShipmentHistory.{IsOrdered, list_shipment_events, list_shipment_events_lem}
use trackrelay.Models.{Event, Partner, TestRun, Database}
use trackrelay.Downstream.{SimulatorMode, Simulator, empty_store}
use trackrelay.Services.EventPersistence.{persist_normalized_event}
use trackrelay.Services.DeliveryQueue.{DownstreamDeliveryQueue}
use trackrelay.Services.DeliveryOutbox.{publish_delivery_outbox_entry}
use trackrelay.Services.ExperimentReset.{control_client, reset_experiment_state}
use trackrelay.Services.ExperimentReset.Outcomes.{
  IsFinished, evidence_of, partners_of, reset_finished, reset_all_or_nothing,
}
use trackrelay.Partners.{identifier_field, datetime_field, normalized_event}
use trackrelay.Partners.Alpha.{alpha_status_field, validate_alpha, normalize_alpha}
use trackrelay.Ingestion.{IngestionDraws, queued_event, ingest_partner_event, partner_adapters}
use trackrelay.Ingestion.Durability.{Promise, requested_event, ingest-Promise}
use trackrelay.Tests.Reconciliation.{evidence, receipt, run_of_manifest}
use trackrelay.Tests.Couriers.{unary, noon, alpha_body}

-- A test run that expects no event.
abbrev idle_run : TestRun
idle_run = record {
  id = 40;
  scenario_name = "idle";
  random_seed = pos 1;
  configuration = end;
  expected_event_count = 0;
  started_at = 10;
  completed_at = none;
}

abbrev courier : Partner
courier = record {
  id = "alpha";
  name = "Courier Alpha";
  adapter_type = "courier-alpha";
  is_active = true;
}

abbrev registered : Database
registered = record {
  partners = courier ∷ [];
  shipments = [];
  events = [];
  outbox = [];
  attempts = [];
  test_runs = idle_run ∷ [];
}

abbrev healthy_simulator : Simulator
healthy_simulator = record { mode = SimulatorMode.healthy; store = empty_store }

-- A run of one event, which was published and delivered.
abbrev finished : Database
finished = record evidence {
  partners = courier ∷ [];
  outbox = record { event_id = 7; created_at = 20; published_at = some 21 } ∷ [];
}

abbrev used_simulator : Simulator
used_simulator = record {
  mode = SimulatorMode.healthy;
  store = record { events = receipt ∷ []; idempotency_keys = 7 ∷ [] };
}

finished-IsFinished : IsFinished 90 1 finished used_simulator
finished-IsFinished = record {
  run = run_of_manifest;
  found = refl;
  run_expects = refl;
  one_run = refl;
  events = refl;
  entries = refl;
  shipments = refl;
  attempts = omega arith;
  own_events = refl;
  receipts = refl;
  healthy = refl;
}

reset_finished_example :
    reset_experiment_state control_client 90 1 (ok tt) (finished, used_simulator)
    ≡ (ok (evidence_of 90 1 finished), (partners_of finished, healthy_simulator))
reset_finished_example = reset_finished 90 1 finished used_simulator finished-IsFinished

reset_all_or_nothing_example :
    let reset = reset_experiment_state control_client 90 1 (ok tt) (finished, used_simulator) in
    (reset ≡ (err experiment_reset_error, (finished, used_simulator)))
    ⊎ ((reset.1 ≡ (partners_of finished, healthy_simulator))
        × (length finished.events ≡ 1)
        × (length finished.outbox ≡ 1)
        × (length finished.shipments ≡ 1)
        × (length finished.test_runs ≡ 1)
        × (length used_simulator.store.events ≡ 1)
        × (count_rows (λ e. e.test_run_id == some 90) finished.events ≡ 1))
reset_all_or_nothing_example = reset_all_or_nothing 90 1 finished used_simulator

abbrev naive_column : TimestampColumn
naive_column = record { stored = λ t. naive t.instant }

-- A queue that is out of service.
abbrev broken_queue : DownstreamDeliveryQueue (List Uuid)
broken_queue = record { enqueue = λ job q. (err queue_error, q) }

abbrev draws : IngestionDraws
draws = record {
  received_at = noon;
  event_id = 7;
  created_at = 100;
  published_at = 110;
  commit = ok tt;
}

abbrev nothing_locked : Uuid → Bool
nothing_locked _ = false

queued_answer :
    (ingest_partner_event unary naive_column broken_queue nothing_locked draws "alpha" alpha_body
      none registered []).0
    ≡ ok (queued_event 7)
unfolding ingest_partner_event partner_adapters validate_alpha normalize_alpha identifier_field
    datetime_field alpha_status_field normalized_event persist_normalized_event
    publish_delivery_outbox_entry
queued_answer = refl

ingest-Promise_example :
    let (r, db', q') =
      ingest_partner_event unary naive_column broken_queue nothing_locked draws "alpha" alpha_body
        none registered [] in
    Promise unary naive_column broken_queue nothing_locked draws
      (requested_event unary naive_column broken_queue nothing_locked draws "alpha" alpha_body none
        registered)
      registered
      []
      (queued_event 7)
      db'
      q'
ingest-Promise_example =
    ingest-Promise unary naive_column broken_queue nothing_locked draws "alpha" alpha_body none
      registered [] (queued_event 7) queued_answer

list_shipment_events_lem_example :
    ((has_shipment "T1" finished ≡ false) × (list_shipment_events "T1" finished ≡ none))
    ⊎ ((es : List Event) × (has_shipment "T1" finished ≡ true)
        × (list_shipment_events "T1" finished ≡ some es)
        × IsOrdered es
        × ((p : Event → Bool)
            → count_rows p es
              ≡ count_rows p (select (λ e. e.tracking_number == "T1") finished.events)))
list_shipment_events_lem_example = list_shipment_events_lem "T1" finished
