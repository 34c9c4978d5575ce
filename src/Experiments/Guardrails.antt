-- ===== src/Experiments/Guardrails.antt =====
-- experiments/async_guardrails.py: the observations of a drain, their validators, and the evaluation.
-- A number of seconds is a double that is not negative, given by its bit pattern: such patterns have
-- the order of their doubles. What the arithmetic of floats makes of them is a parameter.
pub mod Drain
pub mod Search
pub mod Evaluation
pub mod Capture
use trackrelay.Prelude.{
  ltb, leb, nat_beq, if◌then◌else◌, nat_beq_iff, Bool-cases, Option-cases, is_none, or_zero,
  empty-set_of, empty-union, difference-All, empty-select, empty-length, empty-map, All-of_map,
  empty-keys, length, take, length-append, length-map, All, All-append, All-map_imp, int_beq,
  int_beq_refl, ℤ, insert_by, sort_by, length-sort_by, member-sort_by, sort_by-Nodup, Done, ◌>>=◌,
  ◌>>◌, Exec, Result-cases, Error, Result, count_rows-le, count_rows_mono, count_rows-map, map-map,
  map_same, set_of-eq, select-Nodup, All-member, is_subset-All, Nodup-map-select, keys-map,
  member-lookup, dict_of-eq, member-keys-select, keys-select-Nodup, length-keys, length-values,
  keys-select-All, lookup_item, keys-All, All-and, ◌==◌, string_equality, nat_equality, option_beq,
  option_beq_iff, option_equality, pair_beq, pair_beq_iff, pair_equality, beq_refl, Equality,
  member, add, add_all, set_of, union, difference, is_subset, same_set, Nodup, member-append,
  add_all-Nodup, member-add_all, length-le-count_rows, length-set_of, set_of-Nodup, union-Nodup,
  member-set_of, member-union, lookup, put, put_all, dict_of, keys, values, member-put,
  put_all-Nodup, member-put_all, lookup-put, member-eq-lookup, dict_of-Nodup, member-dict_of,
  select, scalar, exists_row, update_rows, count_rows, exists_row-append, scalar-append,
  select-append, exists_row-eq-scalar, scalar_holds, length-update_rows, exists_row-update_rows,
  All-update_rows, scalar-update_rows, scalar-update_rows_ne, ℕ, zero, suc, ◌+◌, ◌-◌, ◌*◌, ◌/◌, ◌%◌,
  ◌≤◌, ◌<◌, min, max, String, ◌≡◌, refl, sym, ap, ◌∙◌, subst, ◌≢◌, ◌↔◌, ◌⊎◌, inl, inr, Bool, true,
  false, not, ◌&&◌, ◌||◌, Option, none, some, List, [], ◌∷◌, ◌++◌, map, arith, eq_iff, ok, err,
  integrity_error, sqlalchemy_error, http_status_error, transport_error, unexpected_error,
  queue_error, receive_error, message_decode_error, acknowledgement_error,
  persisted_event_not_found, recorded_delivery_inconsistent, outbox_entry_not_found,
  backlog_inspection_error, redrive_policy_error, validation_error, experiment_reset_error,
  test_run_not_found, test_run_definition_mismatch, key_error, client_error, overflow_error,
  value_error, pos, negsuc,
}
use trackrelay.Domain.Timestamp.{AwareDatetime}
use trackrelay.Domain.Event.{Uuid}
use trackrelay.Models.{Database}
use trackrelay.Experiments.Report.{ReconciliationReport}
use trackrelay.Experiments.Reconciliation.{events_of_run}
use trackrelay.TestRuns.Summary.{outbox_of_run, delivered_unique_events}

-- `a - b` of two doubles, or 0 if `b` is the larger; `(b - a).total_seconds()` of two instants, the
-- first no later; and whether two instants and two doubles differ by the same, up to 1e-6.
pub record FloatArithmetic : Type 0 where
  pub minus : ℕ → ℕ → ℕ
  pub total_seconds : ℕ → ℕ → ℕ
  pub same_difference : ℕ → ℕ → ℕ → ℕ → Bool

pub record AsyncProcessingGuardrailDefinition : Type 0 where
  pub drain_deadline : ℕ
  pub empty_stability : ℕ
  pub maximum_observation_gap : ℕ

-- `PositiveSeconds`, and the validator
unfoldable pub definition_is_valid : AsyncProcessingGuardrailDefinition → Bool
definition_is_valid d =
    ltb 0 d.drain_deadline
    && ltb 0 d.empty_stability
    && ltb 0 d.maximum_observation_gap
    && leb d.maximum_observation_gap d.empty_stability

-- `ASYNC_PROCESSING_GUARDRAILS`: 120.0, 180.0 and 20.0
abbrev pub async_processing_guardrails : AsyncProcessingGuardrailDefinition
async_processing_guardrails = record {
  drain_deadline = 4638144666238189568;
  empty_stability = 4640537203540230144;
  maximum_observation_gap = 4626322717216342016;
}

pub record AsyncProcessingObservation : Type 0 where
  pub observed_at : AwareDatetime
  pub after_load_ended : ℕ
  pub accepted_unique_events : ℕ
  pub durable_outbox_entries : ℕ
  pub completed_delivery_events : ℕ
  pub pending_outbox_entries : ℕ
  pub source_queue_visible_messages : ℕ
  pub source_queue_in_flight_messages : ℕ
  pub source_queue_delayed_messages : ℕ
  pub dead_letter_queue_messages : ℕ

-- Whether the validator returns.
unfoldable pub has_possible_counts : AsyncProcessingObservation → Bool
has_possible_counts self =
    if ltb self.accepted_unique_events self.durable_outbox_entries
    then false
    else if ltb self.accepted_unique_events self.completed_delivery_events
    then false
    else not (ltb self.durable_outbox_entries self.pending_outbox_entries)

abbrev pub incomplete_delivery_events : AsyncProcessingObservation → ℕ
incomplete_delivery_events self = self.accepted_unique_events - self.completed_delivery_events

abbrev pub processing_drained : AsyncProcessingObservation → Bool
processing_drained self =
    self.durable_outbox_entries == self.accepted_unique_events
    && incomplete_delivery_events self == 0
    && self.pending_outbox_entries == 0
    && self.source_queue_visible_messages == 0
    && self.source_queue_in_flight_messages == 0
    && self.source_queue_delayed_messages == 0
    && self.dead_letter_queue_messages == 0

pub record AsyncProcessingEvidence : Type 0 where
  pub test_run_id : Uuid
  pub reconciliation : ReconciliationReport
  pub observations : List AsyncProcessingObservation

-- `all(p(earlier, later) for earlier, later in pairwise(xs))`, from the element before
abbrev pub all_pairs_from {ℓ} : {A : Type ℓ} → (A → A → Bool) → A → List A → Bool
all_pairs_from p earlier [] = true
all_pairs_from p earlier (later ∷ xs) = p earlier later && all_pairs_from p later xs

abbrev pub all_pairs {ℓ} : {A : Type ℓ} → (A → A → Bool) → List A → Bool
all_pairs p [] = true
all_pairs p (x ∷ xs) = all_pairs_from p x xs

abbrev pub same_delta :
    FloatArithmetic → AsyncProcessingObservation → AsyncProcessingObservation → Bool
same_delta float earlier later =
    float.same_difference earlier.observed_at.instant later.observed_at.instant
      earlier.after_load_ended later.after_load_ended

-- Whether the validator returns.
unfoldable pub has_one_consistent_timeline : FloatArithmetic → AsyncProcessingEvidence → Bool
has_one_consistent_timeline float self =
    if not (self.test_run_id == self.reconciliation.test_run_id)
    then false
    else if length self.observations == 0
    then false
    else if not (all_pairs (λ a b. ltb a.after_load_ended b.after_load_ended) self.observations)
    then false
    else if not (all_pairs (same_delta float) self.observations)
    then false
    else if not (
        length (set_of (map (λ o. o.accepted_unique_events) self.observations)) == 1
        && length (set_of (map (λ o. o.durable_outbox_entries) self.observations)) == 1)
    then false
    else all_pairs (λ a b. leb a.completed_delivery_events b.completed_delivery_events)
        self.observations

module _ (float : FloatArithmetic) (definition : AsyncProcessingGuardrailDefinition) where
  abbrev pub gap_exceeded : Option ℕ → AsyncProcessingObservation → Bool
  gap_exceeded none observation = false
  gap_exceeded (some previous) observation =
      ltb definition.maximum_observation_gap (float.minus observation.after_load_ended previous)

  -- `stable_since`, before the observation is looked at, and after it was drained
  abbrev pub kept : Option ℕ → Option ℕ → AsyncProcessingObservation → Option ℕ
  kept stable previous observation = if gap_exceeded previous observation then none else stable

  abbrev pub since : Option ℕ → AsyncProcessingObservation → ℕ
  since none observation = observation.after_load_ended
  since (some t) observation = t

  -- The loop of `_drain_window`, from its two variables
  unfoldable pub drain_window_from :
      Option ℕ → Option ℕ → List AsyncProcessingObservation → Option (ℕ × ℕ)
  drain_window_from stable previous [] = none
  drain_window_from stable previous (o ∷ os) =
      let stable' = kept stable previous o in
      let unstable = drain_window_from none (some o.after_load_ended) os in
      let later = drain_window_from (some (since stable' o)) (some o.after_load_ended) os in
      if not (processing_drained o)
      then unstable
      else if leb definition.empty_stability (float.minus o.after_load_ended (since stable' o))
      then some (since stable' o, o.after_load_ended)
      else later

  abbrev pub drain_window : AsyncProcessingEvidence → Option (ℕ × ℕ)
  unfolding drain_window_from
  drain_window evidence = drain_window_from none none evidence.observations

-- The last observation's counts; the validator refuses an empty timeline.
abbrev pub final_counts : List AsyncProcessingObservation → ReconciliationReport → Bool
final_counts [] reconciliation = false
final_counts (o ∷ []) reconciliation =
    o.accepted_unique_events == reconciliation.unique
    && o.durable_outbox_entries == reconciliation.unique
    && o.completed_delivery_events == reconciliation.unique
    && reconciliation.simulator_unique_events == reconciliation.unique
    && reconciliation.unaccounted == 0
final_counts (o ∷ p ∷ os) reconciliation = final_counts (p ∷ os) reconciliation

abbrev pub accepted_events_accounted_for : AsyncProcessingEvidence → Bool
accepted_events_accounted_for evidence = final_counts evidence.observations evidence.reconciliation

abbrev pub dead_letter_guardrail_passed : AsyncProcessingEvidence → Bool
dead_letter_guardrail_passed evidence =
    not (exists_row (λ o. not (o.dead_letter_queue_messages == 0)) evidence.observations)

abbrev pub window_in_time : AsyncProcessingGuardrailDefinition → Option (ℕ × ℕ) → Bool
window_in_time definition none = false
window_in_time definition (some (reached, confirmed)) = leb reached definition.drain_deadline

unfoldable pub guardrails_passed :
    FloatArithmetic → AsyncProcessingGuardrailDefinition → AsyncProcessingEvidence → Bool
unfolding drain_window_from
guardrails_passed float definition evidence =
    evidence.reconciliation.invariants_passed
    && accepted_events_accounted_for evidence
    && evidence.reconciliation.duplicate_business_effects == 0
    && evidence.reconciliation.incorrect_final_shipment_states == 0
    && dead_letter_guardrail_passed evidence
    && window_in_time definition (drain_window float definition evidence)

-- capture_database_processing_observation, for aware datetimes: the observation, whose constructor
-- runs the validator. The four queries of one call read one state of the database.
module _ (float : FloatArithmetic) (run : Uuid) (load_ended_at observed_at : AwareDatetime)
    (visible in_flight delayed dead_letter : ℕ) where
  abbrev pub observation_of : Database → AsyncProcessingObservation
  observation_of db = record {
    observed_at = observed_at;
    after_load_ended = float.total_seconds load_ended_at.instant observed_at.instant;
    accepted_unique_events = length (events_of_run run db);
    durable_outbox_entries = length (outbox_of_run run db);
    completed_delivery_events = delivered_unique_events run db;
    pending_outbox_entries = count_rows (λ o. is_none o.published_at) (outbox_of_run run db);
    source_queue_visible_messages = visible;
    source_queue_in_flight_messages = in_flight;
    source_queue_delayed_messages = delayed;
    dead_letter_queue_messages = dead_letter;
  }

  unfoldable pub capture_database_processing_observation :
      Database → Result AsyncProcessingObservation
  unfolding has_possible_counts
  capture_database_processing_observation db =
      if ltb observed_at.instant load_ended_at.instant
      then err value_error
      else if has_possible_counts (observation_of db)
      then ok (observation_of db)
      else err validation_error
