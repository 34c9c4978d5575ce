-- ===== src/Experiments/Reconciliation/Totality.antt =====
-- reconcile_manifest returns a report: no lookup of its dicts misses its key, and the report's
-- validator does not raise.
use trackrelay.Prelude.{
  if◌then◌else◌, Bool-cases, All, All-map_imp, map-map, Nodup-map-select, keys-map, member-lookup,
  dict_of-eq, ◌==◌, string_equality, nat_equality, option_equality, pair_equality, member, Nodup,
  dict_of, keys, member-dict_of, select, scalar, exists_row, ◌≡◌, refl, sym, ap, ◌∙◌, subst, inl,
  inr, Bool, true, ◌&&◌, some, List, [], ◌∷◌, map, arith, ok,
}
use trackrelay.Domain.Delivery.{is_delivered}
use trackrelay.Domain.Event.{Uuid, Pydantic, NormalizedEvent}
use trackrelay.Models.{Event, DeliveryAttempt, Database}
use trackrelay.Experiments.Manifest.{
  BusinessEventIdentity, InputManifest, require_consistent_expectations,
}
use trackrelay.Experiments.Deliveries.{
  delivery_comparison, identity_by_id, count_attempts, compare_deliveries,
}
use trackrelay.Experiments.Evidence.{event_identity, receipt_identity, compare_database_events}
use trackrelay.Experiments.FinalStates.Found.{compare_shipments_total}
use trackrelay.Experiments.Report.{ReconciliationReport}
use trackrelay.Experiments.Reconciliation.Accounting.{report-accounting}
use trackrelay.Experiments.Reconciliation.{
  matches_definition, events_of_run, attempts_of_run, receipts_of_run, expected_shipments,
  report_of, reconcile_manifest, Fields, TestRun,
}

-- The loop over the attempts returns when each attempt is for an event of the dict.
count_attempts_total :
    (ids : List (Uuid × BusinessEventIdentity)) (attempts : List DeliveryAttempt)
    → All (λ a. member a.event_id (keys ids) ≡ true) attempts
    → (counters : List BusinessEventIdentity × List BusinessEventIdentity) × (count_attempts ids
          attempts
        ≡ ok counters)
unfolding count_attempts
count_attempts_total ids [] h = (([], []), refl)
count_attempts_total ids (a ∷ attempts) h =
    let found = member-lookup a.event_id ids h.0 in
    let rest = count_attempts_total ids attempts h.1 in
    (
      (found.0 ∷ rest.0.0, if is_delivered a.result then found.0 ∷ rest.0.1 else rest.0.1),
      rw (found.1, rest.1) refl,
    )

pub select-All {ℓ} : {A : Type ℓ} (p : A → Bool) (xs : List A) → All (λ x. p x ≡ true) (select p xs)
select-All p [] = tt
select-All p (x ∷ xs) = elim (Bool-cases (p x)) [
  | inl taken ↦ rw taken (taken, select-All p xs)
  | inr left ↦ rw left (select-All p xs)
]

pub All-select {ℓ κ} :
    {A : Type ℓ} (P : A → Type κ) (p : A → Bool) (xs : List A) → All P xs → All P (select p xs)
All-select P p [] h = tt
All-select P p (x ∷ xs) h = elim (Bool-cases (p x)) [
  | inl taken ↦ rw taken (h.0, All-select P p xs h.1)
  | inr left ↦ rw left (All-select P p xs h.1)
]

module _ (run : Uuid) where
  pub member_of_exists :
      (id : Uuid) (es : List Event)
      → exists_row (λ e. e.id == id && e.test_run_id == some run) es ≡ true
      → member id (map (λ e. e.id) (select (λ e. e.test_run_id == some run) es)) ≡ true
  member_of_exists id [] h = absurd (ground (arith, h))
  member_of_exists id (e ∷ es) h = ground (arith, h, member_of_exists id es)

  -- Each attempt of the run is for an event of the run.
  pub attempts_of_run-All :
      (db : Database)
      → All
          (λ a. member a.event_id (map (λ e. e.id) (events_of_run run db)) ≡ true)
          (attempts_of_run run db)
  attempts_of_run-All db =
      All-map_imp
        (λ a. exists_row (λ e. e.id == a.event_id && e.test_run_id == some run) db.events ≡ true)
        (λ a. member a.event_id (map (λ e. e.id) (events_of_run run db)) ≡ true)
        (attempts_of_run run db) (λ a. member_of_exists a.event_id db.events)
        (select-All
          (λ a. exists_row (λ e. e.id == a.event_id && e.test_run_id == some run) db.events)
          db.attempts)

-- The dict from ids to identities has the ids of the events, when their identities differ.
ids-identity_by_id :
    (es : List Event)
    → Nodup (map event_identity es)
    → (id : Uuid)
    → member id (keys (identity_by_id (dict_of (map (λ e. (event_identity e, e)) es))))
      ≡ member id (map (λ e. e.id) es)
ids-identity_by_id es u id =
    member-dict_of id
      (map (λ item. (item.1.id, item.0)) (dict_of (map (λ e. (event_identity e, e)) es)))
    ∙ ap (λ d. member id (keys (map (λ item. (item.1.id, item.0)) d)))
        (dict_of-eq (map (λ e. (event_identity e, e)) es)
          (subst Nodup (sym (keys-map event_identity (λ e. e) es)) u))
    ∙ ap (λ d. member id d)
        (keys-map (λ item. item.1.id) (λ item. item.0) (map (λ e. (event_identity e, e)) es))
    ∙ ap (λ d. member id d) (map-map (λ item. item.1.id) (λ e. (event_identity e, e)) es)

-- Each attempt of the run is found in the dict of the comparison, and in that of the successes.
attempts_identified :
    (run : Uuid) (db : Database)
    → Nodup (map event_identity db.events)
    → All
        (λ a.
          member a.event_id (
            keys
              (identity_by_id (dict_of (map (λ e. (event_identity e, e)) (events_of_run run db)))))
          ≡ true)
        (attempts_of_run run db)
attempts_identified run db unique =
    let es = events_of_run run db in
    All-map_imp (λ a. member a.event_id (map (λ e. e.id) es) ≡ true)
      (λ a.
        member a.event_id (keys (identity_by_id (dict_of (map (λ e. (event_identity e, e)) es))))
        ≡ true)
      (attempts_of_run run db)
      (λ a h.
        ids-identity_by_id es
          (Nodup-map-select event_identity (λ e. e.test_run_id == some run) db.events unique)
          a.event_id
        ∙ h)
      (attempts_of_run-All run db)

successes_identified :
    (run : Uuid) (db : Database)
    → All
        (λ a.
          member a.event_id
            (keys (dict_of (map (λ e. (e.id, event_identity e)) (events_of_run run db))))
          ≡ true)
        (select (λ a. is_delivered a.result) (attempts_of_run run db))
successes_identified run db =
    let es = events_of_run run db in
    All-select
      (λ a. member a.event_id (keys (dict_of (map (λ e. (e.id, event_identity e)) es))) ≡ true)
      (λ a. is_delivered a.result) (attempts_of_run run db)
      (All-map_imp (λ a. member a.event_id (map (λ e. e.id) es) ≡ true)
        (λ a. member a.event_id (keys (dict_of (map (λ e. (e.id, event_identity e)) es))) ≡ true)
        (attempts_of_run run db)
        (λ a h.
          member-dict_of a.event_id (map (λ e. (e.id, event_identity e)) es)
          ∙ ap (member a.event_id) (keys-map (λ e. e.id) event_identity es)
          ∙ h)
        (attempts_of_run-All run db))

-- A manifest that passed its validator, whose final states are a dict, is reconciled to a report of
-- its own run when the run is registered with the manifest's definition and no two events of the
-- database have one business identity: no lookup raises KeyError, and the validator of the report
-- does not raise.
pub reconcile_manifest_total :
    (p : Pydantic) (same_payload : Fields → Fields → Bool) (manifest : InputManifest)
    (db : Database) (simulator_receipts : List NormalizedEvent) (run : TestRun)
    → require_consistent_expectations manifest ≡ true
    → Nodup (keys manifest.expected_final_shipments)
    → Nodup (map event_identity db.events)
    → scalar (λ r. r.id == manifest.test_run_id) db.test_runs ≡ some run
    → matches_definition p same_payload manifest run ≡ true
    → (report : ReconciliationReport) × (reconcile_manifest p same_payload manifest db
          simulator_receipts
        ≡ ok report)
      × (report.test_run_id ≡ manifest.test_run_id)
unfolding reconcile_manifest compare_deliveries compare_database_events
reconcile_manifest_total p same_payload manifest db simulator_receipts run valid finals unique found
      same =
    let id = manifest.test_run_id in
    let es = events_of_run id db in
    let attempts = attempts_of_run id db in
    let receipts = receipts_of_run id simulator_receipts in
    let events = compare_database_events same_payload manifest es in
    let counters =
      count_attempts_total (identity_by_id events.by_identity) attempts
        (attempts_identified id db unique) in
    let incorrect =
      compare_shipments_total manifest (expected_shipments manifest db) valid finals in
    let successes =
      count_attempts_total (dict_of (map (λ e. (e.id, event_identity e)) es))
        (select (λ a. is_delivered a.result) attempts) (successes_identified id db) in
    let deliveries =
      delivery_comparison same_payload manifest events.by_identity events.matching receipts
        counters.0.0 counters.0.1 in
    (
      report_of events deliveries manifest incorrect.0 successes.0.0
          (map receipt_identity receipts),
      (rw (found, same, counters.1, incorrect.1, successes.1)
          (report-accounting same_payload manifest es deliveries incorrect.0 successes.0.0
            (map receipt_identity receipts) valid)),
      refl,
    )
