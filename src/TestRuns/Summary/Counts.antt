-- ===== src/TestRuns/Summary/Counts.antt =====
-- The dict made of a GROUP BY counts what a query of one key counts.
use trackrelay.Prelude.{
  Bool, ℕ, exists_row, ◌&&◌, if◌then◌else◌, Bool-cases, is_none, All-of_map, length, length-map,
  All, All-map_imp, count_rows_mono, All-member, ◌==◌, string_equality, nat_equality,
  option_equality, pair_equality, Equality, member, set_of, Nodup, length-set_of, set_of-Nodup,
  member-set_of, lookup, select, count_rows, ◌+◌, ◌≤◌, ◌≡◌, refl, sym, ap, ◌∙◌, subst, inl, inr,
  true, false, none, some, List, [], ◌∷◌, map, arith,
}
use trackrelay.Domain.Delivery.{DeliveryAttemptResult, is_delivered}
use trackrelay.Domain.Event.{Uuid, EventProcessingStatus}
use trackrelay.Models.{Event, DeliveryAttempt, TestRun, Database}
use trackrelay.Experiments.Evidence.{is_status}
use trackrelay.Experiments.Reconciliation.{events_of_run, attempts_of_run}
use trackrelay.TestRuns.{response, find_run}
use trackrelay.TestRuns.Summary.{
  TestRunSummaryResponse, group_counts, get_count, sum_values, processing_status_equality,
  attempt_result_equality, is_result, events_by_status, attempts_by_result, delivered_unique_events,
  summary_of, get_test_run_summary,
}

module _ {ℓ κ} {A : Type ℓ} {K : Type κ} ⦃e : Equality K⦄ (key : A → K) where
  lookup-counts :
      (rows : List A) (k : K) (ks : List K)
      → lookup k (map (λ j. (j, count_rows (λ x. key x == j) rows)) ks)
        ≡ (if member k ks then some (count_rows (λ x. key x == k) rows) else none)
  lookup-counts rows k [] = refl
  lookup-counts rows k (j ∷ ks) = elim (Bool-cases (j == k)) [
    | inl own ↦
        rw own (ap (λ i. some (count_rows (λ x. key x == i) rows)) ((e.equal_iff j k).0 own))
    | inr other ↦ rw other (lookup-counts rows k ks)
  ]

  count_absent :
      (rows : List A) (k : K)
      → member k (map key rows) ≡ false
      → count_rows (λ x. key x == k) rows ≡ 0
  count_absent [] k h = refl
  count_absent (x ∷ rows) k h = ground (arith, h, count_absent rows k)

  -- The dict's count of a key, or 0, is the number of rows with the key.
  pub get_count-group_counts :
      (k : K) (rows : List A)
      → get_count k (group_counts key rows) ≡ count_rows (λ x. key x == k) rows
  get_count-group_counts k rows = ground (
    arith,
    lookup-counts rows k (set_of (map key rows)),
    member-set_of k (map key rows),
    count_absent rows k,
  )

  sum_zero : (ks : List K) → sum_values (map (λ k. (k, count_rows (λ x. key x == k) [])) ks) ≡ 0
  sum_zero [] = refl
  sum_zero (k ∷ ks) = omega (arith, sum_zero ks)

  sum_absent :
      (x : A) (rows : List A) (ks : List K)
      → member (key x) ks ≡ false
      → sum_values (map (λ k. (k, count_rows (λ y. key y == k) (x ∷ rows))) ks)
        ≡ sum_values (map (λ k. (k, count_rows (λ y. key y == k) rows)) ks)
  sum_absent x rows [] h = refl
  sum_absent x rows (k ∷ ks) h =
      ground (arith, h, sum_absent x rows ks, e.equal_iff k (key x), e.equal_iff (key x) k)

  sum_present :
      (x : A) (rows : List A) (ks : List K)
      → Nodup ks
      → member (key x) ks ≡ true
      → sum_values (map (λ k. (k, count_rows (λ y. key y == k) (x ∷ rows))) ks)
        ≡ 1 + sum_values (map (λ k. (k, count_rows (λ y. key y == k) rows)) ks)
  sum_present x rows [] u h = absurd (ground (arith, h))
  sum_present x rows (k ∷ ks) u h = elim (Bool-cases (key x == k)) [
    | inl own ↦ ground (
      arith,
      own,
      sum_absent x rows ks
          (subst (λ j. member j ks ≡ false) (sym ((e.equal_iff (key x) k).0 own)) u.0),
    )
    | inr other ↦ ground (
      arith,
      other,
      sum_present x rows ks u.1
          (ground (arith, h, other, e.equal_iff k (key x), e.equal_iff (key x) k)),
    )
  ]

  sum_covers :
      (rows : List A) (ks : List K)
      → Nodup ks
      → All (λ x. member (key x) ks ≡ true) rows
      → sum_values (map (λ k. (k, count_rows (λ y. key y == k) rows)) ks) ≡ length rows
  sum_covers [] ks u h = sum_zero ks
  sum_covers (x ∷ rows) ks u h =
      omega (arith, sum_present x rows ks u h.0, sum_covers rows ks u h.1)

  -- The dict's counts add up to the rows.
  pub sum-group_counts : (rows : List A) → sum_values (group_counts key rows) ≡ length rows
  sum-group_counts rows = sum_covers rows (set_of (map key rows)) (set_of-Nodup (map key rows)) (
      All-map_imp (λ x. member (key x) (map key rows) ≡ true)
        (λ x. member (key x) (set_of (map key rows)) ≡ true) rows
        (λ x h. member-set_of (key x) (map key rows) ∙ h)
        (All-of_map (λ k. member k (map key rows) ≡ true) key rows (All-member (map key rows))))

count-select :
    {A : Type 0} (p q : A → Bool) (rows : List A)
    → count_rows p (select q rows) ≡ count_rows (λ x. q x && p x) rows
count-select p q [] = refl
count-select p q (x ∷ rows) = ground (arith, count-select p q rows)

length-select :
    {A : Type 0} (q : A → Bool) (rows : List A) → length (select q rows) ≡ count_rows q rows
length-select q [] = refl
length-select q (x ∷ rows) = ground (arith, length-select q rows)

delivered-is_result :
    (r : DeliveryAttemptResult)
    → is_delivered r ≡ true
    → (r == DeliveryAttemptResult.delivered) ≡ true
delivered-is_result r h = ground (arith, h)

-- An attempt, or an entry, of an event of the run.
abbrev pub is_of_run : Uuid → Database → Uuid → Bool
is_of_run run db event_id =
    exists_row (λ e. e.id == event_id && e.test_run_id == some run) db.events

module _ (id : Uuid) (db : Database) where
  -- The events of the run with a status, and its attempts with a result.
  abbrev pub with_status : EventProcessingStatus → ℕ
  with_status status =
      count_rows (λ e. e.test_run_id == some id && is_status e.processing_status status) db.events

  abbrev pub with_result : DeliveryAttemptResult → ℕ
  with_result result =
      count_rows (λ a. is_of_run id db a.event_id && is_result a.result result) db.attempts

  events_with_status :
      (status : EventProcessingStatus)
      → get_count status (events_by_status id db) ≡ with_status status
  events_with_status status =
      get_count-group_counts (λ (e : Event). e.processing_status) status (events_of_run id db)
      ∙ count-select (λ e. is_status e.processing_status status) (λ e. e.test_run_id == some id)
          db.events

  attempts_with_result :
      (result : DeliveryAttemptResult)
      → get_count result (attempts_by_result id db) ≡ with_result result
  attempts_with_result result =
      get_count-group_counts (λ (a : DeliveryAttempt). a.result) result (attempts_of_run id db)
      ∙ count-select (λ a. is_result a.result result) (λ a. is_of_run id db a.event_id) db.attempts

  delivered_at_most : delivered_unique_events id db ≤ with_result DeliveryAttemptResult.delivered
  delivered_at_most =
      let attempts = attempts_of_run id db in
      omega (
        arith,
        count-select (λ a. is_result a.result DeliveryAttemptResult.delivered)
            (λ a. is_of_run id db a.event_id) db.attempts,
        length-set_of (map (λ a. a.event_id) (select (λ a. is_delivered a.result) attempts)),
        length-map (select (λ a. is_delivered a.result) attempts) (λ a. a.event_id),
        count_rows_mono (λ a. is_delivered a.result)
            (λ a. is_result a.result DeliveryAttemptResult.delivered) attempts
            (λ a h. delivered-is_result a.result h),
      )

-- The summary of a registered run counts rows of the tables directly: its persisted events, and those
-- of each status; the attempts of its events, and those of each result; the entries of its events, and
-- those that are not published. No more events than attempts were delivered.
pub get_test_run_summary_lem :
    (id : Uuid) (db : Database) (run : TestRun)
    → find_run id db ≡ some run
    → (s : TestRunSummaryResponse) × (get_test_run_summary id db ≡ response s)
      × (s.run ≡ run)
      × ((s.database_events.persisted ≡ count_rows (λ e. e.test_run_id == some id) db.events)
          × (s.database_events.processed ≡ with_status id db EventProcessingStatus.processed)
          × (s.database_events.failed ≡ with_status id db EventProcessingStatus.failed)
          × (s.database_events.pending ≡ with_status id db EventProcessingStatus.received))
      × ((s.database_delivery_attempts.total
            ≡ count_rows (λ a. is_of_run id db a.event_id) db.attempts)
          × (s.database_delivery_attempts.delivered
              ≡ with_result id db DeliveryAttemptResult.delivered)
          × (s.database_delivery_attempts.http_error
              ≡ with_result id db DeliveryAttemptResult.http_error)
          × (s.database_delivery_attempts.transport_error
              ≡ with_result id db DeliveryAttemptResult.transport_error)
          × (s.database_delivery_attempts.delivered_unique_events
              ≤ with_result id db DeliveryAttemptResult.delivered))
      × ((s.database_outbox.durable ≡ count_rows (λ o. is_of_run id db o.event_id) db.outbox)
          × (s.database_outbox.pending_publication
              ≡ count_rows (λ o. is_of_run id db o.event_id && is_none o.published_at) db.outbox))
unfolding get_test_run_summary
get_test_run_summary_lem id db run found = (
  summary_of id db run,
  rw found refl,
  refl,
  (
    sum-group_counts (λ (e : Event). e.processing_status) (events_of_run id db)
        ∙ length-select (λ e. e.test_run_id == some id) db.events,
    events_with_status id db EventProcessingStatus.processed,
    events_with_status id db EventProcessingStatus.failed,
    events_with_status id db EventProcessingStatus.received,
  ),
  (
    sum-group_counts (λ (a : DeliveryAttempt). a.result) (attempts_of_run id db)
        ∙ length-select (λ a. is_of_run id db a.event_id) db.attempts,
    attempts_with_result id db DeliveryAttemptResult.delivered,
    attempts_with_result id db DeliveryAttemptResult.http_error,
    attempts_with_result id db DeliveryAttemptResult.transport_error,
    delivered_at_most id db,
  ),
  (
    length-select (λ o. is_of_run id db o.event_id) db.outbox,
    count-select (λ o. is_none o.published_at) (λ o. is_of_run id db o.event_id) db.outbox,
  ),
)
