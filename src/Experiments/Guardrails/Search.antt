-- ===== src/Experiments/Guardrails/Search.antt =====
-- A long enough run of drained observations is found.
use trackrelay.Prelude.{
  ltb, Bool-cases, is_none, string_equality, nat_equality, option_equality, pair_equality, ℕ, ◌≤◌,
  ◌≡◌, sym, subst, inl, inr, true, false, Option, none, some, List, [], ◌∷◌, ◌++◌, arith,
}
use trackrelay.Experiments.Guardrails.{
  FloatArithmetic, AsyncProcessingGuardrailDefinition, AsyncProcessingObservation,
  processing_drained, kept, since, all_pairs_from, all_pairs, drain_window_from,
}
use trackrelay.Experiments.Guardrails.Drain.{DrainedRun, single, longer}

module _ (float : FloatArithmetic) (definition : AsyncProcessingGuardrailDefinition)
    (antitone : (a b c : ℕ) → a ≤ b → float.minus c b ≤ float.minus c a) where
  -- Each observation is no earlier than the one before, the first no earlier than the time.
  abbrev pub IsAhead : ℕ → List AsyncProcessingObservation → Type 0
  IsAhead t [] = Unit
  IsAhead t (o ∷ os) = (t ≤ o.after_load_ended) × IsAhead o.after_load_ended os

  abbrev pub IsStableBy : Option ℕ → ℕ → Type 0
  IsStableBy none t = Unit
  IsStableBy (some s) t = s ≤ t

  since_bounded :
      (stable previous : Option ℕ) (o : AsyncProcessingObservation)
      → IsStableBy stable o.after_load_ended
      → since float definition (kept float definition stable previous o) o ≤ o.after_load_ended
  since_bounded none previous o h = ground arith
  since_bounded (some s) previous o h = ground (arith, h)

  -- One drained observation ends the search, or passes on its state.
  search_ends :
      (stable previous : Option ℕ) (o : AsyncProcessingObservation)
      (os : List AsyncProcessingObservation)
      → processing_drained o ≡ true
      → definition.empty_stability
        ≤ float.minus o.after_load_ended
            (since float definition (kept float definition stable previous o) o)
      → is_none (drain_window_from float definition stable previous (o ∷ os)) ≡ false
  unfolding drain_window_from
  search_ends stable previous o os drained long = ground (arith, drained, long)

  search_passes :
      (stable previous : Option ℕ) (o : AsyncProcessingObservation)
      (os : List AsyncProcessingObservation)
      → processing_drained o ≡ true
      → is_none (
          drain_window_from float definition
            (some (since float definition (kept float definition stable previous o) o))
            (some o.after_load_ended)
            os)
        ≡ false
      → is_none (drain_window_from float definition stable previous (o ∷ os)) ≡ false
  unfolding drain_window_from
  search_passes stable previous o os drained later = ground (arith, drained, later)

  since-kept :
      (first last : ℕ) (o : AsyncProcessingObservation)
      → float.minus o.after_load_ended last ≤ definition.maximum_observation_gap
      → since float definition (kept float definition (some first) (some last) o) o ≡ first
  since-kept first last o near = ground (arith, near)

  within_run :
      (first p e last : ℕ) (run after : List AsyncProcessingObservation)
      → DrainedRun float definition p e run
      → float.minus p last ≤ definition.maximum_observation_gap
      → definition.empty_stability ≤ float.minus e first
      → is_none (drain_window_from float definition (some first) (some last) (run ++ after)) ≡ false
  within_run first p e last run after (single o drained) near long =
      search_ends (some first) (some last) o after drained (
        subst (λ t. definition.empty_stability ≤ float.minus o.after_load_ended t)
          (sym (since-kept first last o near)) long)
  within_run first p e last run after (longer o {os = os} drained gap r) near long =
      search_passes (some first) (some last) o (os ++ after) drained (
        subst
          (λ t.
            is_none
              (drain_window_from float definition (some t) (some o.after_load_ended) (os ++ after))
            ≡ false)
          (sym (since-kept first last o near))
          (within_run first _ e o.after_load_ended os after r gap long))

  from_start :
      (stable previous : Option ℕ) (p e : ℕ) (run after : List AsyncProcessingObservation)
      → IsStableBy stable p
      → DrainedRun float definition p e run
      → definition.empty_stability ≤ float.minus e p
      → is_none (drain_window_from float definition stable previous (run ++ after)) ≡ false
  from_start stable previous p e run after by (single o drained) long =
      search_ends stable previous o after drained (
        omega (
          arith,
          long,
          antitone (since float definition (kept float definition stable previous o) o)
              o.after_load_ended o.after_load_ended (since_bounded stable previous o by),
        ))
  from_start stable previous p e run after by (longer o {os = os} drained gap r) long =
      search_passes stable previous o (os ++ after) drained (
        within_run (since float definition (kept float definition stable previous o) o) _ e
          o.after_load_ended os after r gap
          (omega (
            arith,
            long,
            antitone (since float definition (kept float definition stable previous o) o)
                o.after_load_ended e (since_bounded stable previous o by),
          )))

  search_moves :
      (stable previous : Option ℕ) (o : AsyncProcessingObservation)
      (os : List AsyncProcessingObservation)
      → IsStableBy stable o.after_load_ended
      → ((stable' : Option ℕ)
          → IsStableBy stable' o.after_load_ended
          → is_none (drain_window_from float definition stable' (some o.after_load_ended) os)
            ≡ false)
      → is_none (drain_window_from float definition stable previous (o ∷ os)) ≡ false
  unfolding drain_window_from
  search_moves stable previous o os by later = elim (Bool-cases (processing_drained o)) [
    | inl drained ↦ search_passes stable previous o os drained (
        later (some (since float definition (kept float definition stable previous o) o))
          (since_bounded stable previous o by))
    | inr busy ↦ (let rest = later none tt in ground (arith, busy, rest))
  ]

  stable_weaken : (stable : Option ℕ) (t u : ℕ) → IsStableBy stable t → t ≤ u → IsStableBy stable u
  stable_weaken none t u h le = tt
  stable_weaken (some s) t u h le = omega (arith, h, le)

  -- The search, at any time, finds a run that is ahead.
  pub search_finds :
      (stable previous : Option ℕ) (t s e : ℕ) (before run after : List AsyncProcessingObservation)
      → IsStableBy stable t
      → IsAhead t (before ++ run ++ after)
      → DrainedRun float definition s e run
      → definition.empty_stability ≤ float.minus e s
      → is_none (drain_window_from float definition stable previous (before ++ run ++ after))
        ≡ false
  search_finds stable previous t s e [] run after by ahead (single o drained) long =
      from_start stable previous s e run after (stable_weaken stable t s by ahead.0)
        (single o drained) long
  search_finds stable previous t s e [] run after by ahead (longer o drained gap r) long =
      from_start stable previous s e run after (stable_weaken stable t s by ahead.0)
        (longer o drained gap r) long
  search_finds stable previous t s e (o ∷ before) run after by ahead r long =
      search_moves stable previous o (before ++ run ++ after)
        (stable_weaken stable t o.after_load_ended by ahead.0)
        (λ stable' by'.
          search_finds stable' (some o.after_load_ended) o.after_load_ended s e before run after by'
            ahead.1 r long)

  increasing-IsAhead :
      (t : ℕ) (o : AsyncProcessingObservation) (os : List AsyncProcessingObservation)
      → t ≤ o.after_load_ended
      → all_pairs_from (λ a b. ltb a.after_load_ended b.after_load_ended) o os ≡ true
      → IsAhead t (o ∷ os)
  increasing-IsAhead t o [] le h = (le, tt)
  increasing-IsAhead t o (x ∷ os) le h =
      (le, increasing-IsAhead o.after_load_ended x os (ground (arith, h)) (ground (arith, h)))

  pub timeline-IsAhead :
      (os : List AsyncProcessingObservation)
      → all_pairs (λ a b. ltb a.after_load_ended b.after_load_ended) os ≡ true
      → IsAhead 0 os
  timeline-IsAhead [] h = tt
  timeline-IsAhead (o ∷ os) h = increasing-IsAhead 0 o os (omega arith) h
