-- ===== src/Experiments/Reconciliation/Verdict.antt =====
-- What a report whose invariants passed says of the run's events, attempts, receipts and shipments.
use trackrelay.Prelude.{
  Nodup-map-select, ◌==◌, Nodup, if◌then◌else◌, empty-set_of, empty-union, difference-All,
  empty-select, empty-length, empty-map, empty-keys, All, All-map_imp, Result-cases,
  string_equality, nat_equality, option_equality, pair_equality, member, set_of, lookup, dict_of,
  keys, select, ◌≤◌, min, ◌≡◌, refl, sym, ap, ◌∙◌, inl, inr, String, Bool, true, false, not, some,
  List, [], map, arith, ok,
}
use trackrelay.Domain.Json.{Fields}
use trackrelay.Domain.Event.{NormalizedEvent, EventProcessingStatus}
use trackrelay.Models.{Event}
use trackrelay.Experiments.Manifest.{InputManifest, ManifestEvent, BusinessEventIdentity}
use trackrelay.Experiments.Evidence.{
  DatabaseEventComparison, receipt_identity, is_status, counted, manifest_dict, differs_in_database,
  simulator_receipt_matches, compare_database_events, event_identity,
}
use trackrelay.Experiments.Deliveries.{
  DownstreamDeliveryComparison, delivery_comparison, lacks_attempt, lacks_evidence, receipt_differs,
}
use trackrelay.Domain.Event.{Pydantic}
use trackrelay.Models.{Database, Shipment}
use trackrelay.Experiments.Deliveries.{identity_by_id, count_attempts, compare_deliveries}
use trackrelay.Domain.Shipment.{status_equality}
use trackrelay.Experiments.FinalStates.{compare_shipments}
use trackrelay.Experiments.FinalStates.Correct.{IsReached, compared-IsReached}
use trackrelay.Experiments.Report.{ReconciliationReport, require_accounting_invariants}
use trackrelay.Experiments.Reconciliation.Expected.{
  IsExpectedEvent, IsExpectedReceipt, events_expected, receipts_expected,
}
use trackrelay.Experiments.Reconciliation.Content.{
  HasDatabaseContent, HasReceiptContent, database_content, receipt_content,
}
use trackrelay.Experiments.Reconciliation.{
  events_of_run, attempts_of_run, receipts_of_run, expected_shipments, unaccounted_identities,
  report_of, validated_report, reconcile_manifest, is_delivered,
}

-- What the run's evidence must be: every persisted event is one of the manifest's, with its content;
-- every receipt is of such an event, with the manifest's content; a processed event has an attempt,
-- and one receipt if an attempt of it succeeded, none otherwise; an event that is not processed has
-- no receipt and no successful attempt.
module _ (same_payload : Fields → Fields → Bool) (manifest : InputManifest)
    (events : DatabaseEventComparison) (receipts : List NormalizedEvent)
    (attempted succeeded : List BusinessEventIdentity) where
  pub record IsReconciled : Type 0 where
    pub persisted_expected :
        All (λ k. member k (keys (manifest_dict manifest)) ≡ true) (keys events.by_identity)
    pub persisted_content :
        All
          (λ item.
            (e : Event)
            → lookup item.0 events.by_identity ≡ some e
            → HasDatabaseContent same_payload e item.1)
          (manifest_dict manifest)
    pub received_expected :
        All (λ k. member k (keys events.matching) ≡ true) (set_of (map receipt_identity receipts))
    pub received_content :
        All
          (λ r.
            (m : ManifestEvent)
            → lookup (receipt_identity r) (manifest_dict manifest) ≡ some m
            → HasReceiptContent same_payload r m)
          receipts
    pub attempts_made :
        All
          (λ item.
            is_status item.1.processing_status EventProcessingStatus.processed ≡ true
            → 1 ≤ counted item.0 attempted)
          events.matching
    pub effects_once :
        All
          (λ item. counted item.0 (map receipt_identity receipts) ≡ (
            if is_status item.1.processing_status EventProcessingStatus.processed
            then min (counted item.0 succeeded) 1
            else 0))
          events.matching

holds_of_not : (b : Bool) → not b ≡ false → b ≡ true
holds_of_not b h = ground (arith, h)

module _ (same_payload : Fields → Fields → Bool) (manifest : InputManifest) (es : List Event)
    (receipts : List NormalizedEvent) (attempted succeeded : List BusinessEventIdentity) where
  abbrev events : DatabaseEventComparison
  unfolding compare_database_events
  events = compare_database_events same_payload manifest es

  abbrev deliveries : DownstreamDeliveryComparison
  deliveries =
      delivery_comparison same_payload manifest events.by_identity events.matching receipts
        attempted succeeded

  -- When no identity is left unaccounted for, none of the six lists has any.
  empty_unaccounted :
      unaccounted_identities events deliveries ≡ []
      → ((events.content_mismatches ≡ []) × (events.unexpected ≡ []))
        × ((deliveries.content_mismatches ≡ []) × (deliveries.unexpected ≡ []))
        × ((deliveries.without_attempt ≡ []) × (deliveries.evidence_mismatches ≡ []))
  empty_unaccounted h =
      let five = empty-union _ deliveries.evidence_mismatches h in
      let four = empty-union _ deliveries.without_attempt five.0 in
      let three = empty-union _ deliveries.unexpected four.0 in
      let two = empty-union _ deliveries.content_mismatches three.0 in
      let one = empty-union _ events.unexpected two.0 in (one, (two.1, three.1), (four.1, five.1))

  receipt_matches :
      (r : NormalizedEvent) (m : ManifestEvent)
      → lookup (receipt_identity r) (manifest_dict manifest) ≡ some m
      → receipt_differs same_payload manifest events.by_identity events.matching receipts r
        ≡ not (simulator_receipt_matches same_payload r m)
  unfolding simulator_receipt_matches
  receipt_matches r m found = rw (receipt_differs, found) refl

  unaccounted-IsReconciled :
      unaccounted_identities events deliveries ≡ []
      → IsReconciled same_payload manifest events receipts attempted succeeded
  unfolding compare_database_events
  unaccounted-IsReconciled h =
      let lists = empty_unaccounted h in
      record {
        persisted_expected = difference-All _ _ lists.0.1;
        persisted_content =
            All-map_imp _ _ (manifest_dict manifest)
              (λ item same e found.
                database_content same_payload e item.1 (ground (arith, same, found)))
              (empty-select (differs_in_database same_payload events.by_identity)
                (manifest_dict manifest) (empty-keys _ (empty-set_of _ lists.0.0)));
        received_expected = difference-All _ _ lists.1.1;
        received_content =
            All-map_imp _ _ receipts
              (λ r same m found.
                receipt_content same_payload r m
                  (holds_of_not _ (sym (receipt_matches r m found) ∙ same)))
              (empty-select
                (receipt_differs same_payload manifest events.by_identity events.matching receipts)
                receipts (empty-map receipt_identity _ (empty-set_of _ lists.1.0)));
        attempts_made =
            All-map_imp _ _ events.matching (λ item made done. ground (arith, made, done))
              (empty-select
                (lacks_attempt same_payload manifest events.by_identity events.matching receipts
                  attempted succeeded)
                events.matching (empty-keys _ (empty-set_of _ lists.2.0)));
        effects_once =
            All-map_imp _ _ events.matching (λ item made. ground (arith, made))
              (empty-select
                (lacks_evidence same_payload manifest events.by_identity events.matching receipts
                  attempted succeeded)
                events.matching (empty-keys _ (empty-set_of _ lists.2.1)));
      }

-- The shipments of the manifest's tracking numbers.
abbrev pub shipments_by_number : InputManifest → Database → List (String × Shipment)
shipments_by_number manifest db =
    dict_of (map (λ s. (s.tracking_number, s)) (expected_shipments manifest db))

validated_report-ok : (r s : ReconciliationReport) → validated_report r ≡ ok s → r ≡ s
unfolding require_accounting_invariants
validated_report-ok r s h = ground (arith, h)

reconciled :
    (p : Pydantic) (same_payload : Fields → Fields → Bool) (manifest : InputManifest)
    (db : Database) (simulator_receipts : List NormalizedEvent) (report : ReconciliationReport)
    → Nodup (keys manifest.expected_final_shipments)
    → reconcile_manifest p same_payload manifest db simulator_receipts ≡ ok report
    → report.invariants_passed ≡ true
    → (counters : List BusinessEventIdentity × List BusinessEventIdentity) × (count_attempts
          (identity_by_id
            (compare_database_events same_payload manifest
              (events_of_run manifest.test_run_id db)).by_identity)
          (attempts_of_run manifest.test_run_id db)
        ≡ ok counters)
      × IsReconciled same_payload manifest
          (compare_database_events same_payload manifest (events_of_run manifest.test_run_id db))
          (receipts_of_run manifest.test_run_id simulator_receipts)
          counters.0
          counters.1
      × All
          (IsReached (shipments_by_number manifest db) manifest.expected_events)
          manifest.expected_final_shipments
unfolding reconcile_manifest compare_deliveries
reconciled p same_payload manifest db simulator_receipts report unique returned passed =
    let id = manifest.test_run_id in
    let events' = compare_database_events same_payload manifest (events_of_run id db) in
    elim (Result-cases
      (count_attempts (identity_by_id events'.by_identity) (attempts_of_run id db))) [
        | inr (raised, h) ↦ absurd (ground (arith, returned, h))
        | inl (counters, h) ↦
            elim (Result-cases (compare_shipments manifest (expected_shipments manifest db))) [
              | inr (raised, g) ↦ absurd (ground (arith, returned, h, g))
              | inl (incorrect, g) ↦
                  elim (Result-cases (
                    count_attempts
                      (dict_of (map (λ e. (e.id, event_identity e)) (events_of_run id db)))
                      (select (λ a. is_delivered a.result) (attempts_of_run id db)))) [
                        | inr (raised, k) ↦ absurd (ground (arith, returned, h, g, k))
                        | inl (successes, k) ↦
                            let receipts = receipts_of_run id simulator_receipts in
                            let compared =
                              delivery_comparison same_payload manifest events'.by_identity
                                events'.matching receipts counters.0 counters.1 in
                            let same =
                              validated_report-ok
                                (report_of events' compared manifest incorrect successes.0
                                  (map receipt_identity receipts))
                                report (ground (arith, returned, h, g, k)) in
                            (
                              counters,
                              h,
                              unaccounted-IsReconciled same_payload manifest (events_of_run id db)
                                  receipts counters.0 counters.1
                                  (empty-length _ (ground (arith, passed, same))),
                              compared-IsReached manifest (expected_shipments manifest db) unique
                                  (g ∙ ap ok (ground (arith, passed, same))),
                            )
                      ]
            ]
      ]

pub passed-IsReconciled :
    (p : Pydantic) (same_payload : Fields → Fields → Bool) (manifest : InputManifest)
    (db : Database) (simulator_receipts : List NormalizedEvent) (report : ReconciliationReport)
    → Nodup (keys manifest.expected_final_shipments)
    → Nodup (map event_identity db.events)
    → reconcile_manifest p same_payload manifest db simulator_receipts ≡ ok report
    → report.invariants_passed ≡ true
    → (counters : List BusinessEventIdentity × List BusinessEventIdentity) × (count_attempts
          (identity_by_id
            (compare_database_events same_payload manifest
              (events_of_run manifest.test_run_id db)).by_identity)
          (attempts_of_run manifest.test_run_id db)
        ≡ ok counters)
      × IsReconciled same_payload manifest
          (compare_database_events same_payload manifest (events_of_run manifest.test_run_id db))
          (receipts_of_run manifest.test_run_id simulator_receipts)
          counters.0
          counters.1
      × All (IsExpectedEvent same_payload manifest) (events_of_run manifest.test_run_id db)
      × All
          (IsExpectedReceipt same_payload manifest)
          (receipts_of_run manifest.test_run_id simulator_receipts)
      × All
          (IsReached (shipments_by_number manifest db) manifest.expected_events)
          manifest.expected_final_shipments
unfolding compare_database_events
passed-IsReconciled p same_payload manifest db simulator_receipts report finals unique returned
      passed =
    let id = manifest.test_run_id in
    let es = events_of_run id db in
    let receipts = receipts_of_run id simulator_receipts in
    let (counters, counts, evidence, reached) =
      reconciled p same_payload manifest db simulator_receipts report finals returned passed in
    (
      counters,
      counts,
      evidence,
      events_expected same_payload manifest es
          (Nodup-map-select event_identity (λ e. e.test_run_id == some id) db.events unique)
          evidence.persisted_expected evidence.persisted_content,
      receipts_expected same_payload manifest es receipts evidence.received_expected
          evidence.received_content,
      reached,
    )
