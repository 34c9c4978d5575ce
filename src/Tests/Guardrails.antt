-- ===== src/Tests/Guardrails.antt =====
-- A timeline of two drained observations, and its evaluation.
use trackrelay.Prelude.{
  is_none, ◌==◌, string_equality, nat_equality, option_equality, pair_equality, add_all, exists_row,
  ℕ, ◌-◌, ◌+◌, ◌≤◌, ◌≡◌, refl, true, false, not, some, [], ◌∷◌, arith, ok, pos,
}
use trackrelay.Domain.Timestamp.{AwareDatetime}
use trackrelay.Experiments.Guardrails.{
  FloatArithmetic, AsyncProcessingGuardrailDefinition, AsyncProcessingObservation,
  AsyncProcessingEvidence, drain_window_from, drain_window, has_one_consistent_timeline,
  guardrails_passed, observation_of, capture_database_processing_observation,
}
use trackrelay.Experiments.Guardrails.Drain.{single, longer, IsWindow}
use trackrelay.Experiments.Guardrails.Evaluation.{
  drain_window_sound, drain_window_complete, passed-IsWindow,
}
use trackrelay.Experiments.Guardrails.Capture.{capture_total}
use trackrelay.Tests.Reconciliation.{passed_report, evidence}

-- Numbers that need no rounding.
abbrev exact : FloatArithmetic
exact = record {
  minus = λ a b. a - b;
  total_seconds = λ a b. b - a;
  same_difference = λ a b s t. (b + s) == (t + a);
}

exact_antitone : (a b c : ℕ) → a ≤ b → exact.minus c b ≤ exact.minus c a
exact_antitone a b c h = omega (arith, h)

abbrev short_definition : AsyncProcessingGuardrailDefinition
short_definition = record { drain_deadline = 5; empty_stability = 3; maximum_observation_gap = 3 }

abbrev observed : ℕ → AsyncProcessingObservation
observed t = record {
  observed_at = record { instant = 100 + t; utc_offset = pos 0 };
  after_load_ended = t;
  accepted_unique_events = 1;
  durable_outbox_entries = 1;
  completed_delivery_events = 1;
  pending_outbox_entries = 0;
  source_queue_visible_messages = 0;
  source_queue_in_flight_messages = 0;
  source_queue_delayed_messages = 0;
  dead_letter_queue_messages = 0;
}

abbrev timeline : AsyncProcessingEvidence
timeline = record {
  test_run_id = 90;
  reconciliation = passed_report;
  observations = observed 2 ∷ observed 5 ∷ [];
}

window_found : drain_window exact short_definition timeline ≡ some (2, 5)
unfolding drain_window_from
window_found = refl

drain_window_sound_example : IsWindow exact short_definition timeline.observations 2 5
drain_window_sound_example = drain_window_sound exact short_definition timeline 2 5 window_found

timeline_valid : has_one_consistent_timeline exact timeline ≡ true
unfolding has_one_consistent_timeline add_all
timeline_valid = refl

timeline-IsWindow : IsWindow exact short_definition timeline.observations 2 5
timeline-IsWindow = (
  [],
  timeline.observations,
  [],
  refl,
  longer (observed 2) refl (omega arith) (single (observed 5) refl),
  omega arith,
)

drain_window_complete_example : is_none (drain_window exact short_definition timeline) ≡ false
drain_window_complete_example =
    drain_window_complete exact short_definition timeline 2 5 exact_antitone timeline_valid
      timeline-IsWindow

timeline_passes : guardrails_passed exact short_definition timeline ≡ true
unfolding guardrails_passed drain_window_from
timeline_passes = refl

passed-IsWindow_example :
    (s : ℕ) × (e : ℕ) × IsWindow exact short_definition timeline.observations s e
    × (s ≤ 5)
    × (passed_report.duplicate_business_effects ≡ 0)
    × (passed_report.incorrect_final_shipment_states ≡ 0)
    × (exists_row (λ o. not (o.dead_letter_queue_messages == 0)) timeline.observations ≡ false)
passed-IsWindow_example = passed-IsWindow exact short_definition timeline timeline_passes

abbrev load_end : AwareDatetime
load_end = record { instant = 100; utc_offset = pos 0 }

abbrev later_instant : AwareDatetime
later_instant = record { instant = 103; utc_offset = pos 60 }

capture_total_example :
    capture_database_processing_observation exact 90 load_end later_instant 1 0 0 0 evidence
    ≡ ok (observation_of exact 90 load_end later_instant 1 0 0 0 evidence)
capture_total_example =
    capture_total exact 90 load_end later_instant 1 0 0 0 evidence (omega arith) tt
