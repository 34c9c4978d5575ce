-- ===== src/Tests/Reconciliation.antt =====
-- A manifest of one event, the evidence of its run, and the reconciliation of both.
use trackrelay.Prelude.{
  All, sort_by, string_equality, nat_equality, option_equality, pair_equality, add_all, put_all,
  ◌≡◌, refl, Bool, true, none, some, List, [], ◌∷◌, ok, pos,
}
use trackrelay.Domain.Timestamp.{naive, as_aware}
use trackrelay.Domain.Json.{Fields, end}
use trackrelay.Domain.Shipment.{created}
use trackrelay.Domain.Delivery.{DeliveryAttemptResult}
use trackrelay.Domain.Event.{Pydantic, NormalizedEvent, EventProcessingStatus}
use trackrelay.Models.{Event, DeliveryAttempt, Shipment, TestRun, Database}
use trackrelay.Experiments.Manifest.{
  InputManifest, ManifestEvent, BusinessEventIdentity, ScenarioName, dump_configuration,
  require_consistent_expectations,
}
use trackrelay.Experiments.Evidence.{
  compare_database_events, database_event_matches, simulator_receipt_matches,
}
use trackrelay.Experiments.Deliveries.{
  count_attempts, compare_deliveries, identity_by_id, delivery_comparison,
}
use trackrelay.Experiments.FinalStates.{compare_shipments, latest_final_events, count_incorrect}
use trackrelay.Experiments.Report.{ReconciliationReport, require_accounting_invariants}
use trackrelay.Experiments.Reconciliation.{
  report_of, validated_report, reconcile_manifest, events_of_run, attempts_of_run, receipts_of_run,
}
use trackrelay.Experiments.Reconciliation.Accounting.{report-accounting}
use trackrelay.Experiments.Reconciliation.Totality.{reconcile_manifest_total}
use trackrelay.Experiments.FinalStates.Correct.{IsReached}
use trackrelay.Experiments.Reconciliation.Expected.{IsExpectedEvent, IsExpectedReceipt}
use trackrelay.Experiments.Reconciliation.Verdict.{
  IsReconciled, shipments_by_number, passed-IsReconciled,
}

abbrev pub pydantic : Pydantic
pydantic = record { strip = λ s. s; parse_datetime = λ _. none; dump_datetime = λ _. "2026-01-01" }

abbrev pub any_payload : Fields → Fields → Bool
any_payload _ _ = true

abbrev planned : ManifestEvent
planned = record {
  sequence_number = 1;
  test_run_id = 90;
  partner_id = "alpha";
  partner_event_id = "e1";
  tracking_number = "T1";
  expected_status = created;
  expected_occurred_at = record { instant = 10; utc_offset = pos 0 };
  payload = end;
}

abbrev pub manifest : InputManifest
manifest = record {
  test_run_id = 90;
  scenario_name = ScenarioName.normal;
  seed = pos 5;
  configuration = record {
    partner_id = "alpha";
    shipment_count = 1;
    start_at = record { instant = 10; utc_offset = pos 0 };
  };
  events_generated = 1;
  expected_unique_events = 1;
  expected_events = planned ∷ [];
  expected_final_shipments = ("T1", created) ∷ [];
}

abbrev pub run_of_manifest : TestRun
run_of_manifest = record {
  id = 90;
  scenario_name = "normal";
  random_seed = pos 5;
  configuration = dump_configuration pydantic manifest.configuration;
  expected_event_count = 1;
  started_at = 1;
  completed_at = none;
}

abbrev processed_event : Event
processed_event = record {
  id = 7;
  partner_id = "alpha";
  partner_event_id = "e1";
  tracking_number = "T1";
  status = created;
  occurred_at = naive 10;
  received_at = naive 20;
  raw_payload = end;
  test_run_id = some 90;
  processing_status = EventProcessingStatus.processed;
  state_applied = true;
  state_rejection_reason = none;
  created_at = 20;
}

abbrev delivery : DeliveryAttempt
delivery = record {
  id = 70;
  event_id = 7;
  attempt_number = 1;
  result = DeliveryAttemptResult.delivered;
  response_code = some 200;
  latency_ms = 1;
  error = none;
  started_at = 21;
  completed_at = 22;
}

abbrev pub receipt : NormalizedEvent
receipt = record {
  partner_id = "alpha";
  partner_event_id = "e1";
  tracking_number = "T1";
  status = created;
  occurred_at = record { instant = 10; utc_offset = pos 0 };
  received_at = record { instant = 20; utc_offset = pos 0 };
  raw_payload = end;
  test_run_id = some 90;
}

abbrev shipment : Shipment
shipment = record {
  tracking_number = "T1";
  current_status = created;
  current_status_occurred_at = naive 10;
  created_at = 20;
  updated_at = 20;
}

abbrev pub evidence : Database
evidence = record {
  partners = [];
  shipments = shipment ∷ [];
  events = processed_event ∷ [];
  outbox = [];
  attempts = delivery ∷ [];
  test_runs = run_of_manifest ∷ [];
}

manifest_valid : require_consistent_expectations manifest ≡ true
unfolding require_consistent_expectations add_all
manifest_valid = refl

report-accounting_example :
    (let events = compare_database_events any_payload manifest evidence.events in
      let deliveries =
        delivery_comparison any_payload manifest events.by_identity events.matching
          (receipt ∷ [])
          (("alpha", "e1") ∷ [])
          (("alpha", "e1") ∷ []) in
      validated_report
        (report_of events deliveries manifest 0 (("alpha", "e1") ∷ []) (("alpha", "e1") ∷ []))
      ≡ ok (report_of events deliveries manifest 0 (("alpha", "e1") ∷ []) (("alpha", "e1") ∷ [])))
report-accounting_example =
    report-accounting any_payload manifest evidence.events
      (let events = compare_database_events any_payload manifest evidence.events in
        delivery_comparison any_payload manifest events.by_identity events.matching (receipt ∷ [])
          (("alpha", "e1") ∷ []) (("alpha", "e1") ∷ []))
      0 (("alpha", "e1") ∷ []) (("alpha", "e1") ∷ []) manifest_valid

reconcile_manifest_total_example :
    (report : ReconciliationReport) × (reconcile_manifest pydantic any_payload manifest evidence
        (receipt ∷ [])
      ≡ ok report)
    × (report.test_run_id ≡ 90)
reconcile_manifest_total_example =
    reconcile_manifest_total pydantic any_payload manifest evidence (receipt ∷ []) run_of_manifest
      manifest_valid (refl, tt) (refl, tt) refl refl

-- The run passes.
abbrev pub passed_report : ReconciliationReport
passed_report = record {
  mismatches = some [];
  successful_retry_attempts = 0;
  test_run_id = 90;
  generated = 1;
  accepted = 1;
  rejected = 0;
  unique = 1;
  processed = 1;
  failed = 0;
  pending = 0;
  unaccounted = 0;
  simulator_receipts = 1;
  simulator_unique_events = 1;
  duplicate_business_effects = 0;
  incorrect_final_shipment_states = 0;
  invariants_passed = true;
}

run_passes :
    reconcile_manifest pydantic any_payload manifest evidence (receipt ∷ []) ≡ ok passed_report
unfolding as_aware add_all put_all sort_by reconcile_manifest compare_database_events
    compare_deliveries compare_shipments count_attempts latest_final_events count_incorrect
    require_accounting_invariants database_event_matches simulator_receipt_matches
run_passes = refl

passed-IsReconciled_example :
    (counters : List BusinessEventIdentity × List BusinessEventIdentity) × (count_attempts
        (identity_by_id
          (compare_database_events any_payload manifest (events_of_run 90 evidence)).by_identity)
        (attempts_of_run 90 evidence)
      ≡ ok counters)
    × IsReconciled any_payload manifest
        (compare_database_events any_payload manifest (events_of_run 90 evidence))
        (receipts_of_run 90 (receipt ∷ []))
        counters.0
        counters.1
    × All (IsExpectedEvent any_payload manifest) (events_of_run 90 evidence)
    × All (IsExpectedReceipt any_payload manifest) (receipts_of_run 90 (receipt ∷ []))
    × All
        (IsReached (shipments_by_number manifest evidence) manifest.expected_events)
        manifest.expected_final_shipments
passed-IsReconciled_example =
    passed-IsReconciled pydantic any_payload manifest evidence (receipt ∷ []) passed_report
      (refl, tt) (refl, tt) run_passes refl
