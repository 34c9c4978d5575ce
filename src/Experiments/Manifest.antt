-- ===== src/Experiments/Manifest.antt =====
-- experiments/generator.py: the input manifest, and the validator that every manifest has passed.
use trackrelay.Prelude.{
  if◌then◌else◌, length, ℤ, ◌==◌, string_equality, nat_equality, option_equality, pair_equality,
  set_of, is_subset, same_set, keys, exists_row, ℕ, zero, suc, String, Bool, true, false, not, ◌&&◌,
  List, [], ◌∷◌, map, pos,
}
use trackrelay.Domain.Timestamp.{AwareDatetime}
use trackrelay.Domain.Json.{Fields, field, end, str, int}
use trackrelay.Domain.Shipment.{ShipmentStatus, status_equality}
use trackrelay.Domain.Event.{Uuid, Pydantic}

-- `ScenarioName`
pub data ScenarioName : Type 0 where
  normal duplicate out_of_order downstream_outage healthy_baseline slow_under_load : ScenarioName
  outage_under_load elasticity_fixed_control elasticity_elastic_treatment : ScenarioName

abbrev pub scenario_text : ScenarioName → String
scenario_text normal = "normal"
scenario_text duplicate = "duplicate"
scenario_text out_of_order = "out-of-order"
scenario_text downstream_outage = "downstream-outage"
scenario_text healthy_baseline = "healthy-baseline"
scenario_text slow_under_load = "slow-under-load"
scenario_text outage_under_load = "outage-under-load"
scenario_text elasticity_fixed_control = "elasticity-fixed-control"
scenario_text elasticity_elastic_treatment = "elasticity-elastic-treatment"

pub record GeneratorConfiguration : Type 0 where
  pub partner_id : String
  pub shipment_count : ℕ
  pub start_at : AwareDatetime

pub record ManifestEvent : Type 0 where
  pub sequence_number : ℕ
  pub test_run_id : Uuid
  pub partner_id : String
  pub partner_event_id : String
  pub tracking_number : String
  pub expected_status : ShipmentStatus
  pub expected_occurred_at : AwareDatetime
  pub payload : Fields

pub record InputManifest : Type 0 where
  pub test_run_id : Uuid
  pub scenario_name : ScenarioName
  pub seed : ℤ
  pub configuration : GeneratorConfiguration
  pub events_generated : ℕ
  pub expected_unique_events : ℕ
  pub expected_events : List ManifestEvent
  -- a dict
  pub expected_final_shipments : List (String × ShipmentStatus)

-- `configuration.model_dump(mode="json")`
abbrev pub dump_configuration : Pydantic → GeneratorConfiguration → Fields
dump_configuration p c = field "partner_id" (str c.partner_id) (
    field "shipment_count" (int (pos c.shipment_count))
      (field "start_at" (str (p.dump_datetime c.start_at)) end))

abbrev pub BusinessEventIdentity : Type 0
BusinessEventIdentity = String × String

abbrev pub manifest_identity : ManifestEvent → BusinessEventIdentity
manifest_identity event = (event.partner_id, event.partner_event_id)

-- `range(start, start + count)`
abbrev pub range : ℕ → ℕ → List ℕ
range start zero = []
range start (suc count) = start ∷ range (suc start) count

abbrev pub same_numbers : List ℕ → List ℕ → Bool
same_numbers [] [] = true
same_numbers [] (b ∷ bs) = false
same_numbers (a ∷ as') [] = false
same_numbers (a ∷ as') (b ∷ bs) = a == b && same_numbers as' bs

-- Whether the validator returns.
unfoldable pub require_consistent_expectations : InputManifest → Bool
require_consistent_expectations self =
    if not (self.events_generated == length self.expected_events)
    then false
    else if not (
        self.expected_unique_events == length (set_of (map manifest_identity self.expected_events)))
    then false
    else if not (
        same_numbers (map (λ e. e.sequence_number) self.expected_events)
          (range 1 self.events_generated))
    then false
    else if exists_row (λ e. not (e.test_run_id == self.test_run_id)) self.expected_events
    then false
    else if not (
        same_set (set_of (map (λ e. e.tracking_number) self.expected_events))
          (keys self.expected_final_shipments))
    then false
    else is_subset self.expected_final_shipments
        (set_of (map (λ e. (e.tracking_number, e.expected_status)) self.expected_events))
