-- ===== src/Experiments/Guardrails/Drain.antt =====
-- The drain window is a run of drained observations that lasts long enough, and is found if there is one.
use trackrelay.Prelude.{
  leb, Bool-cases, string_equality, nat_equality, option_equality, pair_equality, ℕ, ◌≤◌, ◌≡◌, refl,
  sym, ap, ◌∙◌, subst, inl, inr, true, Option, none, some, List, [], ◌∷◌, ◌++◌, arith,
}
use mathlib.Core.List.{append_assoc}
use trackrelay.Experiments.Guardrails.{
  FloatArithmetic, AsyncProcessingGuardrailDefinition, AsyncProcessingObservation,
  processing_drained, gap_exceeded, kept, since, drain_window_from,
}

leb_holds : (a b : ℕ) → leb a b ≡ true → a ≤ b
leb_holds a b h = ground (arith, h)

module _ (float : FloatArithmetic) (definition : AsyncProcessingGuardrailDefinition) where
  -- Consecutive observations, the first at the first time and the last at the second, all drained, and
  -- none too long after the one before.
  pub data DrainedRun : ℕ → ℕ → List AsyncProcessingObservation → Type 0 where
    single :
        (o : AsyncProcessingObservation)
        → processing_drained o ≡ true
        → DrainedRun o.after_load_ended o.after_load_ended (o ∷ [])
    longer :
        (o : AsyncProcessingObservation) {s e : ℕ} {os : List AsyncProcessingObservation}
        → processing_drained o ≡ true
        → float.minus s o.after_load_ended ≤ definition.maximum_observation_gap
        → DrainedRun s e os
        → DrainedRun o.after_load_ended e (o ∷ os)

  run-snoc :
      {s e : ℕ} {os : List AsyncProcessingObservation} (o : AsyncProcessingObservation)
      → DrainedRun s e os
      → processing_drained o ≡ true
      → float.minus o.after_load_ended e ≤ definition.maximum_observation_gap
      → DrainedRun s o.after_load_ended (os ++ o ∷ [])
  run-snoc o (single p d) drained near = longer p d near (single o drained)
  run-snoc o (longer p d n r) drained near = longer p d n (run-snoc o r drained near)

  -- What the two variables say of the observations seen: a time since which they were drained is the
  -- start of a run that ends with the last of them.
  abbrev pub IsLoopState : Option ℕ → Option ℕ → List AsyncProcessingObservation → Type 0
  IsLoopState none previous seen = Unit
  IsLoopState (some s) previous seen =
      (p : ℕ) × (before : List AsyncProcessingObservation) × (run : List AsyncProcessingObservation)
      × (previous ≡ some p)
      × (seen ≡ before ++ run)
      × DrainedRun s p run

  -- A window found in the observations.
  abbrev pub IsWindow : List AsyncProcessingObservation → ℕ → ℕ → Type 0
  IsWindow observations s e =
      (before : List AsyncProcessingObservation) × (run : List AsyncProcessingObservation)
      × (after : List AsyncProcessingObservation) × (observations ≡ before ++ run ++ after)
      × DrainedRun s e run
      × (definition.empty_stability ≤ float.minus e s)

  -- One drained observation extends the run, or starts one.
  state_extended :
      (stable previous : Option ℕ) (seen : List AsyncProcessingObservation)
      (o : AsyncProcessingObservation)
      → processing_drained o ≡ true
      → IsLoopState stable previous seen
      → (before : List AsyncProcessingObservation) × (run : List AsyncProcessingObservation) × (seen
            ++ o ∷ []
          ≡ before ++ run)
        × DrainedRun
            (since float definition (kept float definition stable previous o) o)
            o.after_load_ended
            run
  state_extended none previous seen o drained state = (
    seen,
    o ∷ [],
    refl,
    subst (λ t. DrainedRun t o.after_load_ended (o ∷ [])) (ground arith) (single o drained),
  )
  state_extended (some s) previous seen o drained (p, before, run, last, split, r) =
      elim (Bool-cases (gap_exceeded float definition previous o)) [
        | inl far ↦ (seen, o ∷ [], refl, rw (far) (single o drained))
        | inr near ↦ (
          before,
          run ++ o ∷ [],
          ap (λ xs. xs ++ o ∷ []) split ∙ append_assoc before run (o ∷ []),
          rw (near) (run-snoc o r drained (ground (arith, near, last))),
        )
      ]

  -- The loop, from a state that the observations seen bear out, returns a window only if the
  -- observations have it.
  pub drain_from_sound :
      (stable previous : Option ℕ) (seen os : List AsyncProcessingObservation) (s e : ℕ)
      → IsLoopState stable previous seen
      → drain_window_from float definition stable previous os ≡ some (s, e)
      → IsWindow (seen ++ os) s e
  unfolding drain_window_from
  drain_from_sound stable previous seen [] s e state found = absurd (ground (arith, found))
  drain_from_sound stable previous seen (o ∷ os) s e state found =
      elim (Bool-cases (processing_drained o)) [
        | inr busy ↦
            subst (λ xs. IsWindow xs s e) (append_assoc seen (o ∷ []) os)
              (drain_from_sound none (some o.after_load_ended) (seen ++ o ∷ []) os s e tt
                (ground (arith, found, busy)))
        | inl drained ↦
            let (before, run, split, r) = state_extended stable previous seen o drained state in
            elim (Bool-cases (
              leb definition.empty_stability (
                float.minus o.after_load_ended
                  (since float definition (kept float definition stable previous o) o)))) [
                    | inl long ↦
                        let t =
                          since float definition (kept float definition stable previous o) o in
                        subst (λ x. IsWindow (seen ++ o ∷ os) x e)
                          (ground (arith, found, drained, long))
                          (subst (λ x. IsWindow (seen ++ o ∷ os) t x)
                            (ground (arith, found, drained, long))
                            (
                              before,
                              run,
                              os,
                              sym (append_assoc seen (o ∷ []) os) ∙ ap (λ xs. xs ++ os) split,
                              r,
                              leb_holds definition.empty_stability
                                  (float.minus o.after_load_ended t) long,
                            ))
                    | inr short ↦
                        subst (λ xs. IsWindow xs s e) (append_assoc seen (o ∷ []) os)
                          (drain_from_sound
                            (some
                              (since float definition (kept float definition stable previous o) o))
                            (some o.after_load_ended) (seen ++ o ∷ []) os s e
                            (o.after_load_ended, before, run, refl, split, r)
                            (ground (arith, found, drained, short)))
                  ]
      ]
