-- ===== src/Experiments/Guardrails/Evaluation.antt =====
-- What the drain window and a passed evaluation say of the timeline.
use trackrelay.Prelude.{
  ltb, Option-cases, is_none, ◌==◌, string_equality, nat_equality, option_equality, pair_equality,
  exists_row, ℕ, ◌≤◌, ◌≡◌, sym, subst, inl, inr, true, false, not, none, some, [], arith,
}
use trackrelay.Experiments.Guardrails.{
  FloatArithmetic, AsyncProcessingGuardrailDefinition, AsyncProcessingEvidence, drain_window_from,
  drain_window, has_one_consistent_timeline, guardrails_passed, all_pairs,
}
use trackrelay.Experiments.Guardrails.Drain.{IsWindow, drain_from_sound}
use trackrelay.Experiments.Guardrails.Search.{IsAhead, search_finds, timeline-IsAhead}

-- A drain window that is returned is one of the timeline: from its first time to its second there are
-- consecutive observations, all drained, none later than the maximal gap after the one before, over at
-- least the time of stability; both are compared with the differences that the floats come to.
pub drain_window_sound :
    (float : FloatArithmetic) (definition : AsyncProcessingGuardrailDefinition)
    (evidence : AsyncProcessingEvidence) (s e : ℕ)
    → drain_window float definition evidence ≡ some (s, e)
    → IsWindow float definition evidence.observations s e
unfolding drain_window_from
drain_window_sound float definition evidence s e found =
    drain_from_sound float definition none none [] evidence.observations s e tt found

ahead_of_timeline :
    (float : FloatArithmetic) (evidence : AsyncProcessingEvidence)
    → has_one_consistent_timeline float evidence ≡ true
    → all_pairs (λ a b. ltb a.after_load_ended b.after_load_ended) evidence.observations ≡ true
unfolding has_one_consistent_timeline
ahead_of_timeline float evidence valid = ground (arith, valid)

-- When the subtraction of floats does not grow as the subtrahend does, as with any correct rounding,
-- the evidence has passed its validator, and its timeline has a window by the differences that the
-- floats come to, a window is returned.
pub drain_window_complete :
    (float : FloatArithmetic) (definition : AsyncProcessingGuardrailDefinition)
    (evidence : AsyncProcessingEvidence) (s e : ℕ)
    → ((a b c : ℕ) → a ≤ b → float.minus c b ≤ float.minus c a)
    → has_one_consistent_timeline float evidence ≡ true
    → IsWindow float definition evidence.observations s e
    → is_none (drain_window float definition evidence) ≡ false
unfolding drain_window_from
drain_window_complete float definition evidence s e antitone valid
      (before, run, after, split, r, long) =
    let ahead =
      timeline-IsAhead float definition antitone evidence.observations
        (ahead_of_timeline float evidence valid) in
    subst (λ os. is_none (drain_window_from float definition none none os) ≡ false) (sym split)
      (search_finds float definition antitone none none 0 s e before run after tt
        (subst (IsAhead float definition antitone 0) split ahead) r long)

-- An evaluation that passes has a drain window that begins within the deadline, no duplicate business
-- effect, no incorrect final shipment state, and no dead-letter message at any observation.
pub passed-IsWindow :
    (float : FloatArithmetic) (definition : AsyncProcessingGuardrailDefinition)
    (evidence : AsyncProcessingEvidence)
    → guardrails_passed float definition evidence ≡ true
    → (s : ℕ) × (e : ℕ) × IsWindow float definition evidence.observations s e
      × (s ≤ definition.drain_deadline)
      × (evidence.reconciliation.duplicate_business_effects ≡ 0)
      × (evidence.reconciliation.incorrect_final_shipment_states ≡ 0)
      × (exists_row (λ o. not (o.dead_letter_queue_messages == 0)) evidence.observations ≡ false)
unfolding guardrails_passed drain_window_from
passed-IsWindow float definition evidence passed =
    elim (Option-cases (drain_window float definition evidence)) [
      | inl missing ↦ absurd (ground (arith, passed, missing))
      | inr ((s, e), found) ↦ (
        s,
        e,
        drain_window_sound float definition evidence s e found,
        ground (arith, passed, found),
        ground (arith, passed),
        ground (arith, passed),
        ground (arith, passed),
      )
    ]
