-- ===== src/Experiments/Guardrails/Capture.antt =====
-- An observation of a database that keeps its keys is captured.
use trackrelay.Prelude.{
  is_none, length, length-map, All, All-map_imp, count_rows-le, Nodup-map-select, All-set_of, ◌==◌,
  string_equality, nat_equality, option_equality, pair_equality, member, set_of, Nodup,
  length-le-count_rows, set_of-Nodup, select, exists_row, ℕ, ◌≤◌, ◌≡◌, true, ◌&&◌, some, List, [],
  ◌∷◌, map, arith, ok,
}
use trackrelay.Domain.Timestamp.{AwareDatetime}
use trackrelay.Domain.Delivery.{is_delivered}
use trackrelay.Domain.Event.{Uuid}
use trackrelay.Models.{Database}
use trackrelay.Experiments.Reconciliation.{events_of_run, attempts_of_run}
use trackrelay.Experiments.Reconciliation.Totality.{
  select-All, All-select, member_of_exists, attempts_of_run-All,
}
use trackrelay.TestRuns.Summary.{outbox_of_run, delivered_unique_events}
use trackrelay.Experiments.Guardrails.{
  FloatArithmetic, has_possible_counts, observation_of, capture_database_processing_observation,
}

-- Distinct ids of the run's events are no more than its events.
ids-le-events :
    (run : Uuid) (db : Database) (ids : List Uuid)
    → Nodup ids
    → All (λ id. member id (map (λ e. e.id) (events_of_run run db)) ≡ true) ids
    → length ids ≤ length (events_of_run run db)
ids-le-events run db ids u h = omega (
  arith,
  length-le-count_rows ids (map (λ e. e.id) (events_of_run run db)) u h,
  count_rows-le (λ id. member id ids) (map (λ e. e.id) (events_of_run run db)),
  length-map (events_of_run run db) (λ e. e.id),
)

All-map {ℓ} :
    {A : Type ℓ} (P : Uuid → Type 0) (f : A → Uuid) (xs : List A)
    → All (λ x. P (f x)) xs
    → All P (map f xs)
All-map P f [] h = tt
All-map P f (x ∷ xs) h = (h.0, All-map P f xs h.1)

durable-le :
    (run : Uuid) (db : Database)
    → Nodup (map (λ o. o.event_id) db.outbox)
    → length (outbox_of_run run db) ≤ length (events_of_run run db)
durable-le run db unique = omega (
  arith,
  length-map (outbox_of_run run db) (λ o. o.event_id),
  ids-le-events run db (map (λ o. o.event_id) (outbox_of_run run db))
      (Nodup-map-select (λ o. o.event_id)
        (λ o. exists_row (λ e. e.id == o.event_id && e.test_run_id == some run) db.events) db.outbox
        unique)
      (All-map (λ id. member id (map (λ e. e.id) (events_of_run run db)) ≡ true) (λ o. o.event_id)
        (outbox_of_run run db)
        (All-map_imp
          (λ o. exists_row (λ e. e.id == o.event_id && e.test_run_id == some run) db.events ≡ true)
          (λ o. member o.event_id (map (λ e. e.id) (events_of_run run db)) ≡ true)
          (outbox_of_run run db) (λ o. member_of_exists run o.event_id db.events)
          (select-All
            (λ o. exists_row (λ e. e.id == o.event_id && e.test_run_id == some run) db.events)
            db.outbox))),
)

completed-le :
    (run : Uuid) (db : Database) → delivered_unique_events run db ≤ length (events_of_run run db)
completed-le run db =
    let ids =
      map (λ a. a.event_id) (select (λ a. is_delivered a.result) (attempts_of_run run db)) in
    ids-le-events run db (set_of ids) (set_of-Nodup ids) (
      All-set_of (λ id. member id (map (λ e. e.id) (events_of_run run db)) ≡ true) ids
        (All-map (λ id. member id (map (λ e. e.id) (events_of_run run db)) ≡ true) (λ a. a.event_id)
          (select (λ a. is_delivered a.result) (attempts_of_run run db))
          (All-select (λ a. member a.event_id (map (λ e. e.id) (events_of_run run db)) ≡ true)
            (λ a. is_delivered a.result) (attempts_of_run run db) (attempts_of_run-All run db))))

-- An observation at or after the end of the load, whose queries read one state of the database, is
-- captured, whatever the queues report, when no two outbox entries are for one event: the validator of possible counts does not raise.
pub capture_total :
    (float : FloatArithmetic) (run : Uuid) (load_ended_at observed_at : AwareDatetime)
    (visible in_flight delayed dead_letter : ℕ) (db : Database)
    → load_ended_at.instant ≤ observed_at.instant
    → Nodup (map (λ o. o.event_id) db.outbox)
    → capture_database_processing_observation float run load_ended_at observed_at visible in_flight
        delayed dead_letter db
      ≡ ok (
          observation_of float run load_ended_at observed_at visible in_flight delayed dead_letter
            db)
unfolding capture_database_processing_observation has_possible_counts
capture_total float run load_ended_at observed_at visible in_flight delayed dead_letter db after
      unique =
    ground (
      arith,
      after,
      durable-le run db unique,
      completed-le run db,
      count_rows-le (λ o. is_none o.published_at) (outbox_of_run run db),
    )
