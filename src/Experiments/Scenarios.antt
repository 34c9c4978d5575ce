-- ===== src/Experiments/Scenarios.antt =====
-- experiments/scenarios.py: the manifests of the correctness scenarios, the rows that a local run
-- writes, and the status codes that its requests should have.
pub mod Shapes
pub mod Validity
use trackrelay.Prelude.{
  ltb, leb, nat_beq, if◌then◌else◌, nat_beq_iff, Bool-cases, Option-cases, is_none, or_zero,
  empty-set_of, empty-union, difference-All, empty-select, empty-length, empty-map, All-of_map,
  empty-keys, length, take, length-append, length-map, All, All-append, All-map_imp, int_beq,
  int_beq_refl, ℤ, insert_by, sort_by, length-sort_by, member-sort_by, sort_by-Nodup, Done, ◌>>=◌,
  ◌>>◌, Exec, Result-cases, Error, Result, count_rows-le, count_rows_mono, count_rows-map, map-map,
  map_same, set_of-eq, select-Nodup, All-member, is_subset-All, Nodup-map-select, keys-map,
  member-lookup, dict_of-eq, member-keys-select, keys-select-Nodup, length-keys, length-values,
  keys-select-All, lookup_item, keys-All, All-and, All-set_of, ◌==◌, string_equality, nat_equality,
  option_beq, option_beq_iff, option_equality, pair_beq, pair_beq_iff, pair_equality, beq_refl,
  Equality, member, add, add_all, set_of, union, difference, is_subset, same_set, Nodup,
  member-append, add_all-Nodup, member-add_all, length-le-count_rows, length-set_of, set_of-Nodup,
  union-Nodup, member-set_of, member-union, lookup, put, put_all, dict_of, keys, values, member-put,
  put-Nodup, put_all-Nodup, member-put_all, lookup-put, member-eq-lookup, dict_of-Nodup,
  member-dict_of, select, scalar, exists_row, update_rows, count_rows, exists_row-append,
  scalar-append, select-append, exists_row-eq-scalar, scalar_holds, length-update_rows,
  exists_row-update_rows, All-update_rows, scalar-update_rows, scalar-update_rows_ne, ℕ, zero, suc,
  ◌+◌, ◌-◌, ◌*◌, ◌/◌, ◌%◌, ◌≤◌, ◌<◌, min, max, String, ◌≡◌, refl, sym, ap, ◌∙◌, subst, ◌≢◌, ◌↔◌,
  ◌⊎◌, inl, inr, Bool, true, false, not, ◌&&◌, ◌||◌, Option, none, some, List, [], ◌∷◌, ◌++◌, map,
  arith, eq_iff, ok, err, integrity_error, sqlalchemy_error, http_status_error, transport_error,
  unexpected_error, queue_error, receive_error, message_decode_error, acknowledgement_error,
  persisted_event_not_found, recorded_delivery_inconsistent, outbox_entry_not_found,
  backlog_inspection_error, redrive_policy_error, validation_error, experiment_reset_error,
  test_run_not_found, test_run_definition_mismatch, key_error, client_error, overflow_error,
  value_error, pos, negsuc,
}
use trackrelay.Domain.Event.{Uuid, Pydantic}
use trackrelay.Models.{Database, TestRun}
use trackrelay.Experiments.Manifest.{
  ScenarioName, GeneratorConfiguration, ManifestEvent, InputManifest, BusinessEventIdentity,
  manifest_identity,
}
use trackrelay.Experiments.Generator.{Generation, generate_input_manifest}
use trackrelay.TestRuns.{usable, partner_of_run, run_of, add_run, find_run, complete_row}

pub data CorrectnessScenario : Type 0 where
  normal duplicate out_of_order downstream_outage : CorrectnessScenario

-- `scenario.value`
abbrev pub scenario_name : CorrectnessScenario → ScenarioName
scenario_name CorrectnessScenario.normal = ScenarioName.normal
scenario_name CorrectnessScenario.duplicate = ScenarioName.duplicate
scenario_name CorrectnessScenario.out_of_order = ScenarioName.out_of_order
scenario_name CorrectnessScenario.downstream_outage = ScenarioName.downstream_outage

-- `enumerate(manifest_events, start=…)` with the updated copies
unfoldable pub resequence_from : ℕ → List ManifestEvent → List ManifestEvent
resequence_from start [] = []
resequence_from start (e ∷ es) =
    record e { sequence_number = start } ∷ resequence_from (suc start) es

abbrev pub reversed {ℓ} : {A : Type ℓ} → List A → List A
reversed [] = []
reversed (x ∷ xs) = reversed xs ++ x ∷ []

-- One tracking number's events, last first, after another's
abbrev pub reversed_histories : List String → List ManifestEvent → List ManifestEvent
reversed_histories [] events = []
reversed_histories (number ∷ numbers) events =
    reversed (select (λ e. e.tracking_number == number) events) ++ reversed_histories numbers events

abbrev pub ordered_events : CorrectnessScenario → InputManifest → List ManifestEvent
ordered_events CorrectnessScenario.normal manifest = manifest.expected_events
ordered_events CorrectnessScenario.duplicate manifest =
    manifest.expected_events ++ manifest.expected_events
ordered_events CorrectnessScenario.out_of_order manifest =
    reversed_histories (keys manifest.expected_final_shipments) manifest.expected_events
ordered_events CorrectnessScenario.downstream_outage manifest = manifest.expected_events

-- The manifest of a scenario, from the normal one
abbrev pub shaped_manifest : CorrectnessScenario → InputManifest → InputManifest
unfolding resequence_from
shaped_manifest scenario normal_manifest =
    let events = resequence_from 1 (ordered_events scenario normal_manifest) in
    record {
      test_run_id = normal_manifest.test_run_id;
      scenario_name = scenario_name scenario;
      seed = normal_manifest.seed;
      configuration = normal_manifest.configuration;
      events_generated = length events;
      expected_unique_events = normal_manifest.expected_unique_events;
      expected_events = events;
      expected_final_shipments = normal_manifest.expected_final_shipments;
    }

unfoldable pub build_correctness_manifest :
    Pydantic → Generation → CorrectnessScenario → ℤ → GeneratorConfiguration → Uuid → InputManifest
unfolding generate_input_manifest resequence_from
build_correctness_manifest p generation scenario seed configuration run =
    shaped_manifest scenario (generate_input_manifest p generation run configuration seed)

-- `prepare_database_for_run`: a transaction that is rolled back when it raises
abbrev pub prepare_partner : Pydantic → ℕ → InputManifest → Database → Result Database
prepare_partner p now manifest db =
    elim (scalar (λ x. x.id == manifest.configuration.partner_id) db.partners) [
      | none ↦ ok (
          add_run (run_of p now manifest) (record db {
            partners = db.partners ++ partner_of_run manifest.configuration.partner_id ∷ [];
          }))
      | some partner ↦
          if not (usable partner) then err value_error else ok (add_run (run_of p now manifest) db)
    ]

unfoldable pub prepare_database_for_run : Pydantic → ℕ → InputManifest → Database → Result Database
prepare_database_for_run p now manifest db =
    if not (is_none (find_run manifest.test_run_id db))
    then err value_error
    else prepare_partner p now manifest db

-- `complete_database_run`: the completion of a run is set whether or not it is set already; the check
-- of the database refuses a time before the start.
unfoldable pub complete_database_run : ℕ → Uuid → Database → Result Database
complete_database_run now id db = elim (find_run id db) [
  | none ↦ err value_error
  | some run ↦
      if ltb now run.started_at
      then err integrity_error
      else ok
          (record db { test_runs = update_rows (λ r. r.id == id) (complete_row now) db.test_runs })
]

-- `_expected_http_status_codes`, from the identities seen
unfoldable pub status_codes_from : List BusinessEventIdentity → List ManifestEvent → List ℕ
status_codes_from seen [] = []
status_codes_from seen (e ∷ es) =
    (if member (manifest_identity e) seen then 200 else 201)
    ∷ status_codes_from (add (manifest_identity e) seen) es

abbrev pub expected_http_status_codes : InputManifest → List ℕ
unfolding status_codes_from
expected_http_status_codes manifest = status_codes_from [] manifest.expected_events
