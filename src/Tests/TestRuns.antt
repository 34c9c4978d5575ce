-- ===== src/Tests/TestRuns.antt =====
-- The run of a manifest of one event is registered, summarized and completed.
use trackrelay.Prelude.{
  is_none, ◌&&◌, ◌==◌, string_equality, nat_equality, option_equality, pair_equality, select,
  exists_row, count_rows, ◌≤◌, ◌≡◌, refl, ◌⊎◌, Bool, true, false, none, some, [], ok,
}
use trackrelay.Inspection.{EventInspectionResponse, IsNumbered, HasFields, get_event, get_event_lem}
use trackrelay.Models.{TestRun, DeliveryAttempt, Database}
use trackrelay.Models.Insert.{has_test_run}
use trackrelay.Experiments.Reconciliation.{check_definition}
use trackrelay.Domain.Event.{EventProcessingStatus}
use trackrelay.Domain.Delivery.{DeliveryAttemptResult}
use trackrelay.TestRuns.{
  http_exception, response, RunStatus, TestRunLifecycleResponse, run_of, find_run,
  register_test_run, complete_test_run,
}
use trackrelay.TestRuns.Summary.{TestRunSummaryResponse, get_test_run_summary}
use trackrelay.TestRuns.Summary.Counts.{
  get_test_run_summary_lem, is_of_run, with_status, with_result,
}
use trackrelay.TestRuns.Lifecycle.{IsPartnerReady, register-once, complete-once}
use trackrelay.Tests.Reconciliation.{pydantic, any_payload, manifest, run_of_manifest, evidence}

abbrev no_database : Database
no_database = record {
  partners = [];
  shipments = [];
  events = [];
  outbox = [];
  attempts = [];
  test_runs = [];
}

abbrev registered_run : TestRunLifecycleResponse
registered_run = record { test_run_id = 90; status = RunStatus.registered }

abbrev completed_run : TestRunLifecycleResponse
completed_run = record { test_run_id = 90; status = RunStatus.completed }

registers :
    (register_test_run pydantic 1 (ok tt) manifest no_database).0 ≡ ok (response registered_run)
unfolding register_test_run
registers = refl

register-once_example :
    let after = (register_test_run pydantic 1 (ok tt) manifest no_database).1 in
    (find_run 90 no_database ≡ none)
    × (find_run 90 after ≡ some (run_of pydantic 1 manifest))
    × (check_definition pydantic any_payload manifest (find_run 90 after) ≡ ok tt)
    × (has_test_run 90 after ≡ true)
    × IsPartnerReady manifest.configuration.partner_id after
    × (register_test_run pydantic 5 (ok tt) manifest after ≡ (ok (http_exception 409), after))
register-once_example =
    register-once pydantic any_payload 1 5 (ok tt) (ok tt) manifest no_database registered_run
      (λ f. refl) registers

completes : (complete_test_run 30 (ok tt) 90 evidence).0 ≡ ok (response completed_run)
unfolding complete_test_run
completes = refl

complete-once_example :
    let after = (complete_test_run 30 (ok tt) 90 evidence).1 in
    (run : TestRun) × (find_run 90 evidence ≡ some run)
    × (run.completed_at ≡ none)
    × (run.started_at ≤ 30)
    × (find_run 90 after
        ≡ some (record {
          id = run.id;
          scenario_name = run.scenario_name;
          random_seed = run.random_seed;
          configuration = run.configuration;
          expected_event_count = run.expected_event_count;
          started_at = run.started_at;
          completed_at = some 30;
        }))
    × (complete_test_run 40 (ok tt) 90 after ≡ (ok (http_exception 409), after))
complete-once_example = complete-once 30 40 (ok tt) (ok tt) 90 evidence completed_run completes

get_test_run_summary_lem_example :
    (s : TestRunSummaryResponse) × (get_test_run_summary 90 evidence ≡ response s)
    × (s.run ≡ run_of_manifest)
    × ((s.database_events.persisted ≡ count_rows (λ e. e.test_run_id == some 90) evidence.events)
        × (s.database_events.processed ≡ with_status 90 evidence EventProcessingStatus.processed)
        × (s.database_events.failed ≡ with_status 90 evidence EventProcessingStatus.failed)
        × (s.database_events.pending ≡ with_status 90 evidence EventProcessingStatus.received))
    × ((s.database_delivery_attempts.total
          ≡ count_rows (λ a. is_of_run 90 evidence a.event_id) evidence.attempts)
        × (s.database_delivery_attempts.delivered
            ≡ with_result 90 evidence DeliveryAttemptResult.delivered)
        × (s.database_delivery_attempts.http_error
            ≡ with_result 90 evidence DeliveryAttemptResult.http_error)
        × (s.database_delivery_attempts.transport_error
            ≡ with_result 90 evidence DeliveryAttemptResult.transport_error)
        × (s.database_delivery_attempts.delivered_unique_events
            ≤ with_result 90 evidence DeliveryAttemptResult.delivered))
    × ((s.database_outbox.durable
          ≡ count_rows (λ o. is_of_run 90 evidence o.event_id) evidence.outbox)
        × (s.database_outbox.pending_publication
            ≡ count_rows
                (λ o. is_of_run 90 evidence o.event_id && is_none o.published_at)
                evidence.outbox))
get_test_run_summary_lem_example = get_test_run_summary_lem 90 evidence run_of_manifest refl

get_event_lem_example :
    ((exists_row (λ e. e.id == 7) evidence.events ≡ false)
      × (get_event 7 evidence ≡ http_exception 404))
    ⊎ ((answer : EventInspectionResponse) × (get_event 7 evidence ≡ response answer)
        × HasFields 7 evidence answer
        × IsNumbered answer.delivery_attempts
        × ((p : DeliveryAttempt → Bool)
            → count_rows p answer.delivery_attempts
              ≡ count_rows p (select (λ a. a.event_id == 7) evidence.attempts)))
get_event_lem_example = get_event_lem 7 evidence
