-- ===== src/Experiments/Reconciliation.antt =====
-- experiments/reconciliation.py: reconcile_manifest, from the run's definition to the report.
pub mod Content
pub mod Expected
pub mod Accounting
pub mod Totality
pub mod Verdict
use Prim.Native.Nat.{Ordering}
use Prim.Native.String
use trackrelay.Prelude.{
  ltb, leb, nat_beq, if◌then◌else◌, nat_beq_iff, Bool-cases, Option-cases, is_none, or_zero, length,
  take, length-append, length-map, All, All-append, All-map_imp, int_beq, ℤ, insert_by, sort_by,
  length-sort_by, member-sort_by, sort_by-Nodup, Done, ◌>>=◌, ◌>>◌, Exec, Result-cases, Error,
  Result, ◌==◌, string_equality, nat_equality, option_beq, option_beq_iff, option_equality,
  pair_beq, pair_beq_iff, pair_equality, beq_refl, Equality, member, add, add_all, set_of, union,
  difference, is_subset, same_set, Nodup, member-append, add_all-Nodup, member-add_all,
  length-le-count_rows, lookup, put, put_all, dict_of, keys, values, put_all-Nodup, member-put_all,
  lookup-put, member-eq-lookup, select, scalar, exists_row, update_rows, count_rows,
  exists_row-append, scalar-append, select-append, exists_row-eq-scalar, scalar_holds,
  length-update_rows, exists_row-update_rows, All-update_rows, scalar-update_rows,
  scalar-update_rows_ne, ℕ, zero, suc, ◌+◌, ◌-◌, ◌*◌, ◌/◌, ◌%◌, ◌≤◌, ◌<◌, min, max, String, ◌≡◌,
  refl, sym, ap, ◌∙◌, subst, ◌≢◌, ◌↔◌, ◌⊎◌, inl, inr, Bool, true, false, not, ◌&&◌, ◌||◌, Option,
  none, some, List, [], ◌∷◌, ◌++◌, map, arith, eq_iff, ok, err, integrity_error, sqlalchemy_error,
  http_status_error, transport_error, unexpected_error, queue_error, receive_error,
  message_decode_error, acknowledgement_error, persisted_event_not_found,
  recorded_delivery_inconsistent, outbox_entry_not_found, backlog_inspection_error,
  redrive_policy_error, validation_error, experiment_reset_error, test_run_not_found,
  test_run_definition_mismatch, key_error, value_error, pos, negsuc,
}
use trackrelay.Domain.Json.{Fields}
use trackrelay.Domain.Delivery.{is_delivered}
use trackrelay.Domain.Event.{Uuid, Pydantic, NormalizedEvent, EventProcessingStatus}
use trackrelay.Models.{Event, DeliveryAttempt, Shipment, TestRun, Database}
use trackrelay.Experiments.Manifest.{
  InputManifest, BusinessEventIdentity, scenario_text, dump_configuration,
}
use trackrelay.Experiments.Evidence.{
  DatabaseEventComparison, event_identity, receipt_identity, counted, compare_database_events,
}
use trackrelay.Experiments.Deliveries.{
  DownstreamDeliveryComparison, count_attempts, compare_deliveries, repeats,
}
use trackrelay.Experiments.FinalStates.{compare_shipments}
use trackrelay.Experiments.Report.{
  ReconciliationMismatch, ReconciliationReport, require_accounting_invariants,
}

-- Python's order on pairs of texts
abbrev pub text_leb : String → String → Bool
text_leb s t = elim (String.compare s t) [ Ordering.gt ↦ false | _ ↦ true ]

abbrev pub identity_leb : BusinessEventIdentity → BusinessEventIdentity → Bool
identity_leb (a, b) (c, d) = if a == c then text_leb b d else text_leb a c

-- `_require_database_test_run_matches_manifest`
abbrev pub matches_definition : Pydantic → (Fields → Fields → Bool) → InputManifest → TestRun → Bool
matches_definition p same_payload manifest run =
    run.scenario_name == scenario_text manifest.scenario_name
    && int_beq run.random_seed manifest.seed
    && same_payload run.configuration (dump_configuration p manifest.configuration)
    && run.expected_event_count == manifest.events_generated

abbrev pub check_definition :
    Pydantic → (Fields → Fields → Bool) → InputManifest → Option TestRun → Result Done
check_definition p same_payload manifest none = err test_run_not_found
check_definition p same_payload manifest (some run) =
    if matches_definition p same_payload manifest run
    then ok tt
    else err test_run_definition_mismatch

-- the four queries
module _ (run : Uuid) (db : Database) where
  abbrev pub events_of_run : List Event
  events_of_run = select (λ e. e.test_run_id == some run) db.events

  abbrev pub attempts_of_run : List DeliveryAttempt
  attempts_of_run =
      select (λ a. exists_row (λ e. e.id == a.event_id && e.test_run_id == some run) db.events)
        db.attempts

abbrev pub receipts_of_run : Uuid → List NormalizedEvent → List NormalizedEvent
receipts_of_run run receipts = select (λ r. r.test_run_id == some run) receipts

abbrev pub expected_shipments : InputManifest → Database → List Shipment
expected_shipments manifest db =
    select (λ s. member s.tracking_number (keys manifest.expected_final_shipments)) db.shipments

module _ (events : DatabaseEventComparison) (deliveries : DownstreamDeliveryComparison) where
  abbrev pub unaccounted_identities : List BusinessEventIdentity
  unaccounted_identities =
      union
        (union
          (union
            (union (union events.content_mismatches events.unexpected)
              deliveries.content_mismatches)
            deliveries.unexpected)
          deliveries.without_attempt)
        deliveries.evidence_mismatches

  -- `mismatch_categories`, and the names of those that an identity is in
  abbrev pub mismatch_categories : List (String × List BusinessEventIdentity)
  mismatch_categories =
      ("database_content_mismatch", events.content_mismatches)
      ∷ ("unexpected_database_event", events.unexpected)
      ∷ ("simulator_content_mismatch", deliveries.content_mismatches)
      ∷ ("unexpected_simulator_receipt", deliveries.unexpected)
      ∷ ("processed_without_delivery_attempt", deliveries.without_attempt)
      ∷ ("delivery_evidence_mismatch", deliveries.evidence_mismatches)
      ∷ []

  abbrev pub mismatch_of :
      List BusinessEventIdentity
      → List BusinessEventIdentity
      → BusinessEventIdentity
      → ReconciliationMismatch
  mismatch_of succeeded received identity = record {
    partner_id = identity.0;
    partner_event_id = identity.1;
    reasons = map (λ c. c.0) (select (λ c. member identity c.1) mismatch_categories);
    successful_attempts = counted identity succeeded;
    simulator_receipts = counted identity received;
  }

  abbrev pub report_of :
      InputManifest
      → ℕ
      → List BusinessEventIdentity
      → List BusinessEventIdentity
      → ReconciliationReport
  report_of manifest incorrect succeeded received = record {
    mismatches =
        some (map (mismatch_of succeeded received) (sort_by identity_leb unaccounted_identities));
    successful_retry_attempts = repeats succeeded;
    test_run_id = manifest.test_run_id;
    generated = manifest.events_generated;
    accepted = events.accepted;
    rejected = manifest.events_generated - events.accepted;
    unique = length events.matching;
    processed = events.status_count EventProcessingStatus.processed;
    failed = events.status_count EventProcessingStatus.failed;
    pending = events.status_count EventProcessingStatus.received;
    unaccounted = length unaccounted_identities;
    simulator_receipts = deliveries.receipt_count;
    simulator_unique_events = deliveries.unique_count;
    duplicate_business_effects = deliveries.duplicate_effects;
    incorrect_final_shipment_states = incorrect;
    invariants_passed =
        length unaccounted_identities == 0 && deliveries.duplicate_effects == 0 && incorrect == 0;
  }

-- `ReconciliationReport(…)`: the field `rejected` is not negative, and the validator returns.
abbrev pub validated_report : ReconciliationReport → Result ReconciliationReport
unfolding require_accounting_invariants
validated_report report =
    if ltb report.generated report.accepted
    then err validation_error
    else if require_accounting_invariants report
    then ok report
    else err validation_error

unfoldable pub reconcile_manifest :
    Pydantic
    → (Fields → Fields → Bool)
    → InputManifest
    → Database
    → List NormalizedEvent
    → Result ReconciliationReport
unfolding compare_database_events compare_deliveries compare_shipments count_attempts
reconcile_manifest p same_payload manifest db simulator_receipts = do
  let run = manifest.test_run_id
  _ ← check_definition p same_payload manifest (scalar (λ r. r.id == run) db.test_runs)
  let database_events = events_of_run run db
  let attempts = attempts_of_run run db
  let receipts = receipts_of_run run simulator_receipts
  let events = compare_database_events same_payload manifest database_events
  deliveries ←
      compare_deliveries same_payload manifest events.by_identity events.matching receipts attempts
  incorrect ← compare_shipments manifest (expected_shipments manifest db)
  successes ←
      count_attempts (dict_of (map (λ e. (e.id, event_identity e)) database_events))
        (select (λ a. is_delivered a.result) attempts)
  validated_report
      (report_of events deliveries manifest incorrect successes.0 (map receipt_identity receipts))
