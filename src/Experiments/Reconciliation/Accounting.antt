-- ===== src/Experiments/Reconciliation/Accounting.antt =====
-- The accounting that every report of reconcile_manifest satisfies.
use trackrelay.Prelude.{
  Bool-cases, length, length-map, All-map_imp, sort_by, length-sort_by, sort_by-Nodup,
  count_rows-le, count_rows_mono, count_rows-map, map-map, map_same, set_of-eq, keys-map,
  member-keys-select, keys-select-Nodup, length-keys, length-values, keys-select-All,
  string_equality, nat_equality, option_equality, pair_equality, member, set_of, Nodup,
  length-le-count_rows, set_of-Nodup, union-Nodup, dict_of, keys, values, dict_of-Nodup,
  member-dict_of, select, count_rows, ℕ, ◌+◌, ◌≤◌, ◌≡◌, refl, sym, ap, ◌∙◌, inl, inr, Bool, true,
  some, List, [], ◌∷◌, map, arith, ok,
}
use trackrelay.Domain.Json.{Fields}
use trackrelay.Domain.Event.{EventProcessingStatus}
use trackrelay.Models.{Event}
use trackrelay.Experiments.Manifest.{
  InputManifest, BusinessEventIdentity, manifest_identity, require_consistent_expectations,
}
use trackrelay.Experiments.Evidence.{
  DatabaseEventComparison, event_identity, is_status, EventDict, manifest_dict,
  compare_database_events,
}
use trackrelay.Experiments.Deliveries.{DownstreamDeliveryComparison}
use trackrelay.Experiments.Report.{
  covers_unaccounted, mismatch_identity, require_accounting_invariants,
}
use trackrelay.Experiments.Reconciliation.{
  identity_leb, unaccounted_identities, mismatch_of, report_of, validated_report,
}

-- An event is received, processed or failed.
length-eq-statuses :
    (es : List Event)
    → length es
      ≡ count_rows (λ e. is_status e.processing_status EventProcessingStatus.processed) es
        + count_rows (λ e. is_status e.processing_status EventProcessingStatus.failed) es
        + count_rows (λ e. is_status e.processing_status EventProcessingStatus.received) es
length-eq-statuses [] = omega arith
length-eq-statuses (e ∷ es) = ground (arith, length-eq-statuses es)

-- A key of a selected item is a key.
member_of_select :
    (p : BusinessEventIdentity × Event → Bool) (k : BusinessEventIdentity) (d : EventDict)
    → member k (keys (select p d)) ≡ true
    → member k (keys d) ≡ true
member_of_select p k d h = elim (Bool-cases (member k (keys d))) [
  | inl there ↦ there
  | inr absent ↦ absurd (cc (h, member-keys-select p k d absent))
]

module _ (same_payload : Fields → Fields → Bool) (manifest : InputManifest) (es : List Event) where
  abbrev by_identity : EventDict
  by_identity = dict_of (map (λ e. (event_identity e, e)) es)

  by_identity-Nodup : Nodup (keys by_identity)
  by_identity-Nodup = dict_of-Nodup (map (λ e. (event_identity e, e)) es)

  abbrev matching : EventDict
  matching = select (λ item. member item.0 (keys (manifest_dict manifest))) by_identity

  member-manifest_dict :
      (k : BusinessEventIdentity)
      → member k (keys (manifest_dict manifest))
        ≡ member k (map manifest_identity manifest.expected_events)
  member-manifest_dict k =
      member-dict_of k (map (λ e. (manifest_identity e, e)) manifest.expected_events)
      ∙ ap (member k) (keys-map manifest_identity (λ m. m) manifest.expected_events)

  -- The manifest's identities that were matched are no more than its events that were accepted.
  matching-le-accepted :
      length matching
      ≤ count_rows (λ m. member (manifest_identity m) (keys by_identity)) manifest.expected_events
  matching-le-accepted = omega (
    arith,
    length-keys matching,
    length-le-count_rows (keys matching) (map manifest_identity manifest.expected_events)
        (keys-select-Nodup (λ item. member item.0 (keys (manifest_dict manifest))) by_identity
          by_identity-Nodup)
        (All-map_imp (λ k. member k (keys (manifest_dict manifest)) ≡ true)
          (λ k. member k (map manifest_identity manifest.expected_events) ≡ true) (keys matching)
          (λ k h. sym (member-manifest_dict k) ∙ h)
          (keys-select-All (λ k. member k (keys (manifest_dict manifest))) by_identity)),
    count_rows-map (λ k. member k (keys matching)) manifest_identity manifest.expected_events,
    count_rows_mono (λ m. member (manifest_identity m) (keys matching))
        (λ m. member (manifest_identity m) (keys by_identity)) manifest.expected_events
        (λ m h.
          member_of_select (λ item. member item.0 (keys (manifest_dict manifest)))
            (manifest_identity m) by_identity h),
  )

module _ (events : DatabaseEventComparison) (deliveries : DownstreamDeliveryComparison) where
  unaccounted-Nodup :
      Nodup events.content_mismatches → Nodup (unaccounted_identities events deliveries)
  unaccounted-Nodup u = union-Nodup _ deliveries.evidence_mismatches (
      union-Nodup _ deliveries.without_attempt (
        union-Nodup _ deliveries.unexpected
          (union-Nodup _ deliveries.content_mismatches (union-Nodup _ events.unexpected u))))

  -- The mismatches name each identity that is not accounted for, once.
  identities-mismatches :
      (succeeded received : List BusinessEventIdentity)
      → map mismatch_identity (
          map
            (mismatch_of events deliveries succeeded received)
            (sort_by identity_leb (unaccounted_identities events deliveries)))
        ≡ sort_by identity_leb (unaccounted_identities events deliveries)
  identities-mismatches succeeded received =
      map-map mismatch_identity (mismatch_of events deliveries succeeded received)
        (sort_by identity_leb (unaccounted_identities events deliveries))
      ∙ map_same (λ k. (k.0, k.1)) (sort_by identity_leb (unaccounted_identities events deliveries))
          (λ k. refl)

valid-length :
    (manifest : InputManifest)
    → require_consistent_expectations manifest ≡ true
    → manifest.events_generated ≡ length manifest.expected_events
unfolding require_consistent_expectations
valid-length manifest valid = ground (arith, valid)

covers :
    (events : DatabaseEventComparison) (deliveries : DownstreamDeliveryComparison)
    (succeeded received : List BusinessEventIdentity)
    → Nodup events.content_mismatches
    → covers_unaccounted
        (some (
          map
            (mismatch_of events deliveries succeeded received)
            (sort_by identity_leb (unaccounted_identities events deliveries))))
        (length (unaccounted_identities events deliveries))
      ≡ true
covers events deliveries succeeded received u =
    let U = unaccounted_identities events deliveries in
    let S = sort_by identity_leb U in
    ground (
      arith,
      length-map S (mismatch_of events deliveries succeeded received),
      length-sort_by identity_leb U,
      ap (λ ks. length (set_of ks)) (identities-mismatches events deliveries succeeded received),
      ap length
          (set_of-eq S (sort_by-Nodup identity_leb U (unaccounted-Nodup events deliveries u))),
    )

-- The report assembled from a manifest that passed its validator passes the validator of reports,
-- whatever the database, the receipts and the final states are: the report's constructor does not
-- raise.
pub report-accounting :
    (same_payload : Fields → Fields → Bool) (manifest : InputManifest) (es : List Event)
    (deliveries : DownstreamDeliveryComparison) (incorrect : ℕ)
    (succeeded received : List BusinessEventIdentity)
    → require_consistent_expectations manifest ≡ true
    → validated_report (
        report_of
          (compare_database_events same_payload manifest es)
          deliveries
          manifest
          incorrect
          succeeded
          received)
      ≡ ok (
          report_of
            (compare_database_events same_payload manifest es)
            deliveries
            manifest
            incorrect
            succeeded
            received)
unfolding require_accounting_invariants compare_database_events
report-accounting same_payload manifest es deliveries incorrect succeeded received valid = ground (
  arith,
  valid-length manifest valid,
  count_rows-le (λ m. member (manifest_identity m) (keys (by_identity same_payload manifest es)))
      manifest.expected_events,
  matching-le-accepted same_payload manifest es,
  length-eq-statuses (values (matching same_payload manifest es)),
  length-values (matching same_payload manifest es),
  covers (compare_database_events same_payload manifest es) deliveries succeeded received
      (set_of-Nodup _),
)
