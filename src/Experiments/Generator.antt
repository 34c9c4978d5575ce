-- ===== src/Experiments/Generator.antt =====
-- experiments/generator.py: generate_input_manifest. The UUID of the run, what Random(seed) draws for
-- each shipment, and the printing of the two identifiers are parameters; the identifiers have no
-- whitespace at their ends, which pydantic would strip. An instant is in microseconds.
pub mod Numbering
pub mod Validity
use trackrelay.Prelude.{
  ltb, leb, nat_beq, if◌then◌else◌, nat_beq_iff, Bool-cases, Option-cases, is_none, or_zero,
  empty-set_of, empty-union, difference-All, empty-select, empty-length, empty-map, All-of_map,
  empty-keys, length, take, length-append, length-map, All, All-append, All-map_imp, int_beq,
  int_beq_refl, ℤ, insert_by, sort_by, length-sort_by, member-sort_by, sort_by-Nodup, Done, ◌>>=◌,
  ◌>>◌, Exec, Result-cases, Error, Result, count_rows-le, count_rows_mono, count_rows-map, map-map,
  map_same, set_of-eq, select-Nodup, All-member, is_subset-All, Nodup-map-select, keys-map,
  member-lookup, dict_of-eq, member-keys-select, keys-select-Nodup, length-keys, length-values,
  keys-select-All, lookup_item, keys-All, All-and, All-set_of, ◌==◌, string_equality, nat_equality,
  option_beq, option_beq_iff, option_equality, pair_beq, pair_beq_iff, pair_equality, beq_refl,
  Equality, member, add, add_all, set_of, union, difference, is_subset, same_set, Nodup,
  member-append, add_all-Nodup, member-add_all, length-le-count_rows, length-set_of, set_of-Nodup,
  union-Nodup, member-set_of, member-union, lookup, put, put_all, dict_of, keys, values, member-put,
  put_all-Nodup, member-put_all, lookup-put, member-eq-lookup, dict_of-Nodup, member-dict_of,
  select, scalar, exists_row, update_rows, count_rows, exists_row-append, scalar-append,
  select-append, exists_row-eq-scalar, scalar_holds, length-update_rows, exists_row-update_rows,
  All-update_rows, scalar-update_rows, scalar-update_rows_ne, ℕ, zero, suc, ◌+◌, ◌-◌, ◌*◌, ◌/◌, ◌%◌,
  ◌≤◌, ◌<◌, min, max, String, ◌≡◌, refl, sym, ap, ◌∙◌, subst, ◌≢◌, ◌↔◌, ◌⊎◌, inl, inr, Bool, true,
  false, not, ◌&&◌, ◌||◌, Option, none, some, List, [], ◌∷◌, ◌++◌, map, arith, eq_iff, ok, err,
  integrity_error, sqlalchemy_error, http_status_error, transport_error, unexpected_error,
  queue_error, receive_error, message_decode_error, acknowledgement_error,
  persisted_event_not_found, recorded_delivery_inconsistent, outbox_entry_not_found,
  backlog_inspection_error, redrive_policy_error, validation_error, experiment_reset_error,
  test_run_not_found, test_run_definition_mismatch, key_error, client_error, overflow_error,
  value_error, pos, negsuc,
}
use trackrelay.Domain.Timestamp.{AwareDatetime}
use trackrelay.Domain.Json.{Fields}
use trackrelay.Domain.Shipment.{ShipmentStatus}
use trackrelay.Domain.Event.{Uuid, Pydantic}
use trackrelay.Partners.Alpha.{AlphaStatusCode, dump_alpha}
use trackrelay.Experiments.Manifest.{
  ScenarioName, GeneratorConfiguration, ManifestEvent, InputManifest,
}

-- `tuple(ShipmentStatus)`
abbrev pub normal_statuses : List ShipmentStatus
normal_statuses =
    ShipmentStatus.created ∷ ShipmentStatus.picked_up ∷ ShipmentStatus.in_transit
    ∷ ShipmentStatus.out_for_delivery ∷ ShipmentStatus.delivered ∷ []

-- `ALPHA_STATUS_FOR`
abbrev pub alpha_status_for : ShipmentStatus → AlphaStatusCode
alpha_status_for ShipmentStatus.created = AlphaStatusCode.created
alpha_status_for ShipmentStatus.picked_up = AlphaStatusCode.picked_up
alpha_status_for ShipmentStatus.in_transit = AlphaStatusCode.in_transit
alpha_status_for ShipmentStatus.out_for_delivery = AlphaStatusCode.out_for_delivery
alpha_status_for ShipmentStatus.delivered = AlphaStatusCode.delivered

-- `timedelta(minutes=m, seconds=s)` in microseconds
abbrev pub timedelta : ℕ → ℕ → ℕ
timedelta minutes seconds = (minutes * 60 + seconds) * 1000000

abbrev pub plus : AwareDatetime → ℕ → AwareDatetime
plus t delta = record t { instant = t.instant + delta }

-- What the generator is given besides the seed and the configuration: `getrandbits(32)` and
-- `randrange(60)` of each shipment, and the two f-strings of a run.
pub record Generation : Type 0 where
  pub random_suffix : ℕ → ℕ
  pub random_seconds : ℕ → ℕ
  pub tracking_text : ℕ → ℕ → String
  pub event_text : ℕ → String

module _ (p : Pydantic) (generation : Generation) (run : Uuid)
    (configuration : GeneratorConfiguration) where
  abbrev pub tracking_number : ℕ → String
  tracking_number number = generation.tracking_text number (generation.random_suffix number)

  abbrev pub shipment_start : ℕ → AwareDatetime
  shipment_start number =
      plus configuration.start_at
        (timedelta ((number - 1) * length normal_statuses) (generation.random_seconds number))

  abbrev pub generated_event : ℕ → ℕ → ℕ → ShipmentStatus → ManifestEvent
  generated_event number sequence_number status_offset status =
      let occurred_at = plus (shipment_start number) (timedelta status_offset 0) in
      record {
        sequence_number = sequence_number;
        test_run_id = run;
        partner_id = configuration.partner_id;
        partner_event_id = generation.event_text sequence_number;
        tracking_number = tracking_number number;
        expected_status = status;
        expected_occurred_at = occurred_at;
        payload = dump_alpha p (record {
          event_id = generation.event_text sequence_number;
          tracking_number = tracking_number number;
          status = alpha_status_for status;
          event_time = occurred_at;
        });
      }

  -- the inner loop
  abbrev pub shipment_events : ℕ → ℕ → ℕ → List ShipmentStatus → List ManifestEvent
  shipment_events number sequence_number status_offset [] = []
  shipment_events number sequence_number status_offset (status ∷ statuses) =
      generated_event number sequence_number status_offset status
      ∷ shipment_events number (suc sequence_number) (suc status_offset) statuses

  -- The outer loop, for so many shipments from a number on: their events, and the dict of their final
  -- statuses, on top of one. Each shipment takes five sequence numbers.
  unfoldable pub events_from : ℕ → ℕ → ℕ → List ManifestEvent
  events_from number sequence_number zero = []
  events_from number sequence_number (suc shipments) =
      shipment_events number sequence_number 0 normal_statuses
      ++ events_from (suc number) (suc (suc (suc (suc (suc sequence_number))))) shipments

  unfoldable pub finals_from :
      ℕ → ℕ → List (String × ShipmentStatus) → List (String × ShipmentStatus)
  finals_from number zero finals = finals
  finals_from number (suc shipments) finals =
      finals_from (suc number) shipments
        (put (tracking_number number) ShipmentStatus.delivered finals)

  unfoldable pub generate_input_manifest : ℤ → InputManifest
  unfolding events_from finals_from
  generate_input_manifest seed =
      let events = events_from 1 1 configuration.shipment_count in
      record {
        test_run_id = run;
        scenario_name = ScenarioName.normal;
        seed = seed;
        configuration = configuration;
        events_generated = length events;
        expected_unique_events = length events;
        expected_events = events;
        expected_final_shipments = finals_from 1 configuration.shipment_count [];
      }
