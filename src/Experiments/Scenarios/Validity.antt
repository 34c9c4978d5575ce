-- ===== src/Experiments/Scenarios/Validity.antt =====
-- The manifest of every correctness scenario passes the validator of manifests.
use trackrelay.Prelude.{
  Bool-cases, All-of_map, length, All, All-map_imp, ℤ, count_rows-le, All-member, is_subset-All,
  ◌==◌, string_equality, nat_equality, option_equality, pair_equality, beq_refl, Equality, member,
  set_of, is_subset, same_set, Nodup, length-le-count_rows, set_of-Nodup, member-set_of, keys,
  exists_row, exists_row-append, ℕ, suc, ◌≤◌, ◌≡◌, refl, sym, ap, ◌∙◌, subst, inl, inr, true, false,
  not, List, [], ◌∷◌, map, arith,
}
use trackrelay.Domain.Shipment.{status_equality}
use trackrelay.Domain.Event.{Uuid}
use trackrelay.Experiments.Manifest.{
  GeneratorConfiguration, InputManifest, ManifestEvent, manifest_identity, range, same_numbers,
  require_consistent_expectations,
}
use trackrelay.Experiments.Generator.Numbering.{same_numbers_refl}
use trackrelay.Domain.Event.{Pydantic}
use trackrelay.Experiments.Generator.{Generation, generate_input_manifest}
use trackrelay.Experiments.Generator.Validity.{subset_of_members, generate-valid}
use trackrelay.Experiments.Scenarios.{
  CorrectnessScenario, resequence_from, ordered_events, shaped_manifest, build_correctness_manifest,
}
use trackrelay.Experiments.Scenarios.Shapes.{SameEvents, histories-SameEvents, member-map}

module _ {ℓ} {K : Type ℓ} ⦃e : Equality K⦄ where
  member-subset :
      (k : K) (s t : List K) → is_subset s t ≡ true → member k s ≡ true → member k t ≡ true
  member-subset k [] t h there = absurd (ground (arith, there))
  member-subset k (x ∷ s) t h there = elim (Bool-cases (x == k)) [
    | inl own ↦ subst (λ j. member j t ≡ true) ((e.equal_iff x k).0 own) (ground (arith, h))
    | inr other ↦ member-subset k s t (ground (arith, h)) (ground (arith, there, other))
  ]

  -- Sets with the same elements are of one size, and subsets alike.
  module _ (xs ys : List K) (same : (k : K) → member k xs ≡ member k ys) where
    same_elements : (k : K) → member k (set_of xs) ≡ member k (set_of ys)
    same_elements k = member-set_of k xs ∙ same k ∙ sym (member-set_of k ys)

    set_of-le : length (set_of xs) ≤ length (set_of ys)
    set_of-le = omega (
      arith,
      length-le-count_rows (set_of xs) (set_of ys) (set_of-Nodup xs) (
          All-map_imp (λ k. member k (set_of xs) ≡ true) (λ k. member k (set_of ys) ≡ true)
            (set_of xs) (λ k h. sym (same_elements k) ∙ h) (All-member (set_of xs))),
      count_rows-le (λ k. member k (set_of xs)) (set_of ys),
    )

    subset-left : (t : List K) → is_subset (set_of ys) t ≡ true → is_subset (set_of xs) t ≡ true
    subset-left t h = subset_of_members (set_of xs) t (
        All-map_imp (λ k. member k (set_of xs) ≡ true) (λ k. member k t ≡ true) (set_of xs)
          (λ k there. member-subset k (set_of ys) t h (sym (same_elements k) ∙ there))
          (All-member (set_of xs)))

    subset-right : (t : List K) → is_subset t (set_of ys) ≡ true → is_subset t (set_of xs) ≡ true
    subset-right t h = subset_of_members t (set_of xs) (
        All-map_imp (λ k. member k (set_of ys) ≡ true) (λ k. member k (set_of xs) ≡ true) t
          (λ k there. same_elements k ∙ there) (is_subset-All t (set_of ys) h))

-- The copies differ in their numbers only.
map-resequence {ℓ} :
    {B : Type ℓ} (f : ManifestEvent → B) (start : ℕ) (es : List ManifestEvent)
    → ((e : ManifestEvent) (n : ℕ) → f (record e { sequence_number = n }) ≡ f e)
    → map f (resequence_from start es) ≡ map f es
unfolding resequence_from
map-resequence f start [] keeps = refl
map-resequence f start (e ∷ es) keeps = cc (keeps e start, map-resequence f (suc start) es keeps)

numbers-resequence :
    (start : ℕ) (es : List ManifestEvent)
    → map (λ e. e.sequence_number) (resequence_from start es)
      ≡ range start (length (resequence_from start es))
unfolding resequence_from
numbers-resequence start [] = refl
numbers-resequence start (e ∷ es) = ap (λ ns. start ∷ ns) (numbers-resequence (suc start) es)

runs-resequence :
    (run : Uuid) (start : ℕ) (es : List ManifestEvent)
    → exists_row (λ e. not (e.test_run_id == run)) (resequence_from start es)
      ≡ exists_row (λ e. not (e.test_run_id == run)) es
unfolding resequence_from
runs-resequence run start [] = refl
runs-resequence run start (e ∷ es) = ground (arith, runs-resequence run (suc start) es)

module _ (manifest : InputManifest) (valid : require_consistent_expectations manifest ≡ true) where
  same_trackings :
      same_set
        (set_of (map (λ e. e.tracking_number) manifest.expected_events))
        (keys manifest.expected_final_shipments)
      ≡ true
  unfolding require_consistent_expectations
  same_trackings = ground (arith, valid)

  trackings-All :
      All
        (λ e. member e.tracking_number (keys manifest.expected_final_shipments) ≡ true)
        manifest.expected_events
  trackings-All =
      All-of_map (λ k. member k (keys manifest.expected_final_shipments) ≡ true)
        (λ e. e.tracking_number) manifest.expected_events
        (All-map_imp (λ k. member k (map (λ e. e.tracking_number) manifest.expected_events) ≡ true)
          (λ k. member k (keys manifest.expected_final_shipments) ≡ true)
          (map (λ e. e.tracking_number) manifest.expected_events)
          (λ k h.
            member-subset k (set_of (map (λ e. e.tracking_number) manifest.expected_events))
              (keys manifest.expected_final_shipments) (ground (arith, same_trackings))
              (member-set_of k (map (λ e. e.tracking_number) manifest.expected_events) ∙ h))
          (All-member (map (λ e. e.tracking_number) manifest.expected_events)))

  -- A scenario orders and repeats the events of the normal manifest, and loses none.
  ordered-SameEvents :
      (scenario : CorrectnessScenario)
      → SameEvents (ordered_events scenario manifest) manifest.expected_events
  ordered-SameEvents CorrectnessScenario.normal q = refl
  ordered-SameEvents CorrectnessScenario.duplicate q =
      ground (arith, exists_row-append q manifest.expected_events manifest.expected_events)
  ordered-SameEvents CorrectnessScenario.out_of_order q =
      histories-SameEvents (keys manifest.expected_final_shipments) manifest.expected_events
        trackings-All q
  ordered-SameEvents CorrectnessScenario.downstream_outage q = refl

  counted_unique :
      manifest.expected_unique_events
      ≡ length (set_of (map manifest_identity manifest.expected_events))
  unfolding require_consistent_expectations
  counted_unique = ground (arith, valid)

  module _ (scenario : CorrectnessScenario) where
    abbrev shaped : List ManifestEvent
    unfolding resequence_from
    shaped = resequence_from 1 (ordered_events scenario manifest)

    same_images :
        {K : Type 0} ⦃eq : Equality K⦄ (f : ManifestEvent → K)
        → ((e : ManifestEvent) (n : ℕ) → f (record e { sequence_number = n }) ≡ f e)
        → (k : K) → member k (map f shaped) ≡ member k (map f manifest.expected_events)
    unfolding resequence_from
    same_images f keeps k =
        ap (member k) (map-resequence f 1 (ordered_events scenario manifest) keeps)
        ∙ member-map f k (ordered_events scenario manifest)
        ∙ ordered-SameEvents scenario (λ x. f x == k)
        ∙ sym (member-map f k manifest.expected_events)

    unique_count :
        (manifest.expected_unique_events == length (set_of (map manifest_identity shaped))) ≡ true
    unique_count =
        (nat_equality.equal_iff manifest.expected_unique_events
            (length (set_of (map manifest_identity shaped)))).1
          (omega (
            arith,
            set_of-le (map manifest_identity shaped)
                (map manifest_identity manifest.expected_events)
                (same_images manifest_identity (λ e n. refl)),
            set_of-le (map manifest_identity manifest.expected_events)
                (map manifest_identity shaped)
                (λ k. sym (same_images manifest_identity (λ e n. refl) k)),
            counted_unique,
          ))

    runs_of : exists_row (λ e. not (e.test_run_id == manifest.test_run_id)) shaped ≡ false
    unfolding require_consistent_expectations resequence_from
    runs_of =
        runs-resequence manifest.test_run_id 1 (ordered_events scenario manifest)
        ∙ ordered-SameEvents scenario (λ e. not (e.test_run_id == manifest.test_run_id))
        ∙ ground (arith, valid)

    trackings_of :
        same_set
          (set_of (map (λ e. e.tracking_number) shaped))
          (keys manifest.expected_final_shipments)
        ≡ true
    trackings_of = ground (
      arith,
      subset-left (map (λ e. e.tracking_number) shaped)
          (map (λ e. e.tracking_number) manifest.expected_events)
          (same_images (λ e. e.tracking_number) (λ e n. refl))
          (keys manifest.expected_final_shipments) (ground (arith, same_trackings)),
      subset-right (map (λ e. e.tracking_number) shaped)
          (map (λ e. e.tracking_number) manifest.expected_events)
          (same_images (λ e. e.tracking_number) (λ e n. refl))
          (keys manifest.expected_final_shipments) (ground (arith, same_trackings)),
    )

    finals_of :
        is_subset manifest.expected_final_shipments
          (set_of (map (λ e. (e.tracking_number, e.expected_status)) shaped))
        ≡ true
    unfolding require_consistent_expectations
    finals_of =
        subset-right (map (λ e. (e.tracking_number, e.expected_status)) shaped)
          (map (λ e. (e.tracking_number, e.expected_status)) manifest.expected_events)
          (same_images (λ e. (e.tracking_number, e.expected_status)) (λ e n. refl))
          manifest.expected_final_shipments (ground (arith, valid))

-- The manifest that a scenario makes of one that passed the validator passes it too: with every event
-- sent twice, with each shipment's history sent backwards, or with the events as they were, the counts,
-- the sequence, the run, the tracking numbers and the final states stay consistent.
pub shaped-valid :
    (scenario : CorrectnessScenario) (manifest : InputManifest)
    → require_consistent_expectations manifest ≡ true
    → require_consistent_expectations (shaped_manifest scenario manifest) ≡ true
unfolding require_consistent_expectations resequence_from
shaped-valid scenario manifest valid =
    rw
      (
        require_consistent_expectations,
        beq_refl (length (shaped manifest valid scenario)),
        unique_count manifest valid scenario,
        ap (λ ns. same_numbers ns (range 1 (length (shaped manifest valid scenario))))
              (numbers-resequence 1 (ordered_events scenario manifest))
            ∙ same_numbers_refl (range 1 (length (shaped manifest valid scenario))),
        runs_of manifest valid scenario,
        trackings_of manifest valid scenario,
      )
      (finals_of manifest valid scenario)

-- The manifest built for any correctness scenario passes the validator of manifests, and its final
-- states are a dict, whatever the seed draws, when the printed event identifiers of a run differ from
-- number to number.
pub build-valid :
    (p : Pydantic) (generation : Generation) (scenario : CorrectnessScenario) (seed : ℤ)
    (configuration : GeneratorConfiguration) (run : Uuid)
    → ((m n : ℕ) → generation.event_text m ≡ generation.event_text n → m ≡ n)
    → (require_consistent_expectations
          (build_correctness_manifest p generation scenario seed configuration run)
        ≡ true)
      × Nodup (
          keys
            (build_correctness_manifest p generation scenario seed configuration
              run).expected_final_shipments)
unfolding build_correctness_manifest
build-valid p generation scenario seed configuration run injective =
    let generated = generate-valid p generation run configuration seed injective in
    (
      shaped-valid scenario (generate_input_manifest p generation run configuration seed)
          generated.0,
      generated.1,
    )
