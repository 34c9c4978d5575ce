-- ===== src/TestRuns/Summary.antt =====
-- main.py: get_test_run_summary, with the two GROUP BY queries as the dicts that it makes of them.
pub mod Counts
use trackrelay.Prelude.{
  ltb, leb, nat_beq, if◌then◌else◌, nat_beq_iff, Bool-cases, Option-cases, is_none, or_zero,
  empty-set_of, empty-union, difference-All, empty-select, empty-length, empty-map, All-of_map,
  empty-keys, length, take, length-append, length-map, All, All-append, All-map_imp, int_beq, ℤ,
  insert_by, sort_by, length-sort_by, member-sort_by, sort_by-Nodup, Done, ◌>>=◌, ◌>>◌, Exec,
  Result-cases, Error, Result, count_rows-le, count_rows_mono, count_rows-map, map-map, map_same,
  set_of-eq, select-Nodup, All-member, is_subset-All, Nodup-map-select, keys-map, member-lookup,
  dict_of-eq, member-keys-select, keys-select-Nodup, length-keys, length-values, keys-select-All,
  lookup_item, keys-All, All-and, ◌==◌, string_equality, nat_equality, option_beq, option_beq_iff,
  option_equality, pair_beq, pair_beq_iff, pair_equality, beq_refl, Equality, member, add, add_all,
  set_of, union, difference, is_subset, same_set, Nodup, member-append, add_all-Nodup,
  member-add_all, length-le-count_rows, set_of-Nodup, union-Nodup, member-set_of, member-union,
  lookup, put, put_all, dict_of, keys, values, member-put, put_all-Nodup, member-put_all,
  lookup-put, member-eq-lookup, dict_of-Nodup, member-dict_of, select, scalar, exists_row,
  update_rows, count_rows, exists_row-append, scalar-append, select-append, exists_row-eq-scalar,
  scalar_holds, length-update_rows, exists_row-update_rows, All-update_rows, scalar-update_rows,
  scalar-update_rows_ne, ℕ, zero, suc, ◌+◌, ◌-◌, ◌*◌, ◌/◌, ◌%◌, ◌≤◌, ◌<◌, min, max, String, ◌≡◌,
  refl, sym, ap, ◌∙◌, subst, ◌≢◌, ◌↔◌, ◌⊎◌, inl, inr, Bool, true, false, not, ◌&&◌, ◌||◌, Option,
  none, some, List, [], ◌∷◌, ◌++◌, map, arith, eq_iff, ok, err, integrity_error, sqlalchemy_error,
  http_status_error, unexpected_error, queue_error, receive_error, message_decode_error,
  acknowledgement_error, persisted_event_not_found, recorded_delivery_inconsistent,
  outbox_entry_not_found, backlog_inspection_error, redrive_policy_error, validation_error,
  experiment_reset_error, test_run_not_found, test_run_definition_mismatch, key_error, value_error,
  pos, negsuc,
}
use trackrelay.Domain.Delivery.{DeliveryAttemptResult, is_delivered}
use trackrelay.Domain.Event.{Uuid, EventProcessingStatus}
use trackrelay.Models.{DeliveryOutboxEntry, TestRun, Database}
use trackrelay.Experiments.Evidence.{is_status}
use trackrelay.Experiments.Reconciliation.{events_of_run, attempts_of_run}
use trackrelay.TestRuns.{Answer, http_exception, response, find_run}

pub record DatabaseEventSummary : Type 0 where
  pub persisted : ℕ
  pub processed : ℕ
  pub failed : ℕ
  pub pending : ℕ

pub record DatabaseDeliveryAttemptSummary : Type 0 where
  pub total : ℕ
  pub delivered : ℕ
  pub delivered_unique_events : ℕ
  pub http_error : ℕ
  pub transport_error : ℕ

pub record DatabaseOutboxSummary : Type 0 where
  pub durable : ℕ
  pub pending_publication : ℕ

pub record TestRunSummaryResponse : Type 0 where
  pub run : TestRun
  pub database_events : DatabaseEventSummary
  pub database_delivery_attempts : DatabaseDeliveryAttemptSummary
  pub database_outbox : DatabaseOutboxSummary

-- A GROUP BY with its counts, which has a row for each key that occurs; `d.get(key, 0)`, and the sum of
-- the values.
module _ {ℓ κ} {A : Type ℓ} {K : Type κ} ⦃e : Equality K⦄ where
  abbrev pub group_counts : (A → K) → List A → List (K × ℕ)
  group_counts key rows = map (λ k. (k, count_rows (λ x. key x == k) rows)) (set_of (map key rows))

module _ {κ} {K : Type κ} ⦃e : Equality K⦄ where
  abbrev pub get_count : K → List (K × ℕ) → ℕ
  get_count k d = or_zero (lookup k d)

  abbrev pub sum_values : List (K × ℕ) → ℕ
  sum_values [] = 0
  sum_values ((k, n) ∷ d) = n + sum_values d

abbrev pub outbox_of_run : Uuid → Database → List DeliveryOutboxEntry
outbox_of_run run db =
    select (λ o. exists_row (λ e. e.id == o.event_id && e.test_run_id == some run) db.events)
      db.outbox

pub is_status_iff : (a b : EventProcessingStatus) → (is_status a b ≡ true) ↔ (a ≡ b)
is_status_iff a b = ground arith

instance abbrev pub processing_status_equality : Equality EventProcessingStatus
processing_status_equality = record { equal = is_status; equal_iff = is_status_iff }

abbrev pub is_result : DeliveryAttemptResult → DeliveryAttemptResult → Bool
is_result DeliveryAttemptResult.delivered DeliveryAttemptResult.delivered = true
is_result DeliveryAttemptResult.http_error DeliveryAttemptResult.http_error = true
is_result DeliveryAttemptResult.transport_error DeliveryAttemptResult.transport_error = true
is_result _ _ = false

pub is_result_iff : (a b : DeliveryAttemptResult) → (is_result a b ≡ true) ↔ (a ≡ b)
is_result_iff a b = ground arith

instance abbrev pub attempt_result_equality : Equality DeliveryAttemptResult
attempt_result_equality = record { equal = is_result; equal_iff = is_result_iff }

module _ (run : Uuid) (db : Database) where
  abbrev pub events_by_status : List (EventProcessingStatus × ℕ)
  events_by_status = group_counts (λ e. e.processing_status) (events_of_run run db)

  abbrev pub attempts_by_result : List (DeliveryAttemptResult × ℕ)
  attempts_by_result = group_counts (λ a. a.result) (attempts_of_run run db)

  -- `count(distinct(DeliveryAttempt.event_id))`
  abbrev pub delivered_unique_events : ℕ
  delivered_unique_events = length (
      set_of (map (λ a. a.event_id) (select (λ a. is_delivered a.result) (attempts_of_run run db))))

  abbrev pub summary_of : TestRun → TestRunSummaryResponse
  summary_of database_test_run = record {
    run = database_test_run;
    database_events = record {
      persisted = sum_values events_by_status;
      processed = get_count EventProcessingStatus.processed events_by_status;
      failed = get_count EventProcessingStatus.failed events_by_status;
      pending = get_count EventProcessingStatus.received events_by_status;
    };
    database_delivery_attempts = record {
      total = sum_values attempts_by_result;
      delivered = get_count DeliveryAttemptResult.delivered attempts_by_result;
      delivered_unique_events = delivered_unique_events;
      http_error = get_count DeliveryAttemptResult.http_error attempts_by_result;
      transport_error = get_count DeliveryAttemptResult.transport_error attempts_by_result;
    };
    database_outbox = record {
      durable = length (outbox_of_run run db);
      pending_publication = count_rows (λ o. is_none o.published_at) (outbox_of_run run db);
    };
  }

  abbrev pub summarize : Option TestRun → Answer TestRunSummaryResponse
  summarize none = http_exception 404
  summarize (some database_test_run) = response (summary_of database_test_run)

  unfoldable pub get_test_run_summary : Answer TestRunSummaryResponse
  get_test_run_summary = summarize (find_run run db)
