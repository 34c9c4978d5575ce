-- ===== src/Experiments/Generator/Validity.antt =====
-- A generated manifest passes the validator of manifests.
use trackrelay.Prelude.{
  Bool-cases, length, All, All-map_imp, ℤ, All-member, All-and, ◌==◌, string_equality, nat_equality,
  option_equality, pair_equality, beq_refl, Equality, member, set_of, is_subset, same_set, Nodup,
  member-set_of, put, keys, member-put, put-Nodup, ℕ, zero, suc, String, ◌≡◌, refl, sym, ap, ◌∙◌,
  inl, inr, true, ◌||◌, List, [], ◌∷◌, map, arith,
}
use trackrelay.Domain.Shipment.{ShipmentStatus, status_equality}
use trackrelay.Domain.Event.{Uuid, Pydantic}
use trackrelay.Experiments.Manifest.{
  GeneratorConfiguration, ManifestEvent, range, require_consistent_expectations,
}
use trackrelay.Experiments.Generator.{Generation, events_from, finals_from, generate_input_manifest}
use trackrelay.Experiments.Generator.Numbering.{
  events, finals, text_of_number, runs-events, unique_count, contiguous,
}

module _ {ℓ} {K : Type ℓ} ⦃e : Equality K⦄ where
  pub subset_of_members : (s t : List K) → All (λ k. member k t ≡ true) s → is_subset s t ≡ true
  subset_of_members [] t h = refl
  subset_of_members (k ∷ s) t h = ground (arith, h.0, subset_of_members s t h.1)

module _ (p : Pydantic) (generation : Generation) (run : Uuid)
    (configuration : GeneratorConfiguration) where
  abbrev es : ℕ → ℕ → ℕ → List ManifestEvent
  es = events p generation run configuration

  abbrev fs : ℕ → ℕ → List (String × ShipmentStatus) → List (String × ShipmentStatus)
  fs = finals p generation run configuration

  abbrev text : ℕ → String
  text = text_of_number p generation run configuration

  -- A tracking number of the shipments' is one of the events', and one of the final states'.
  member-tracking :
      (k : String) (number sequence shipments : ℕ)
      → member k (map (λ e. e.tracking_number) (es number sequence shipments))
        ≡ member k (map text (range number shipments))
  unfolding events_from
  member-tracking k number sequence zero = refl
  member-tracking k number sequence (suc shipments) =
      ground
        (arith, member-tracking k (suc number) (suc (suc (suc (suc (suc sequence))))) shipments)

  member-finals :
      (k : String) (number shipments : ℕ) (d : List (String × ShipmentStatus))
      → member k (keys (fs number shipments d))
        ≡ (member k (keys d) || member k (map text (range number shipments)))
  unfolding finals_from
  member-finals k number zero d = ground arith
  member-finals k number (suc shipments) d = ground (
    arith,
    member-finals k (suc number) shipments (put (text number) ShipmentStatus.delivered d),
    member-put k (text number) ShipmentStatus.delivered d,
  )

  abbrev reached : List ManifestEvent → List (String × ShipmentStatus)
  reached es = map (λ e. (e.tracking_number, e.expected_status)) es

  -- Every shipment's events end with its delivery.
  member-delivered :
      (k : String) (number sequence shipments : ℕ)
      → member (k, ShipmentStatus.delivered) (reached (es number sequence shipments))
        ≡ member k (map text (range number shipments))
  unfolding events_from
  member-delivered k number sequence zero = refl
  member-delivered k number sequence (suc shipments) =
      ground
        (arith, member-delivered k (suc number) (suc (suc (suc (suc (suc sequence))))) shipments)

  put_delivered :
      (k : String) (d : List (String × ShipmentStatus))
      → All (λ item. item.1 ≡ ShipmentStatus.delivered) d
      → All (λ item. item.1 ≡ ShipmentStatus.delivered) (put k ShipmentStatus.delivered d)
  put_delivered k [] h = (refl, tt)
  put_delivered k ((j, w) ∷ d) h = elim (Bool-cases (j == k)) [
    | inl own ↦ rw (own) (refl, h.1)
    | inr other ↦ rw (other) (h.0, put_delivered k d h.1)
  ]

  finals_delivered :
      (number shipments : ℕ) (d : List (String × ShipmentStatus))
      → All (λ item. item.1 ≡ ShipmentStatus.delivered) d
      → All (λ item. item.1 ≡ ShipmentStatus.delivered) (fs number shipments d)
  unfolding finals_from
  finals_delivered number zero d h = h
  finals_delivered number (suc shipments) d h =
      finals_delivered (suc number) shipments (put (text number) ShipmentStatus.delivered d)
        (put_delivered (text number) d h)

  finals-Nodup :
      (number shipments : ℕ) (d : List (String × ShipmentStatus))
      → Nodup (keys d)
      → Nodup (keys (fs number shipments d))
  unfolding finals_from
  finals-Nodup number zero d u = u
  finals-Nodup number (suc shipments) d u =
      finals-Nodup (suc number) shipments (put (text number) ShipmentStatus.delivered d)
        (put-Nodup (text number) ShipmentStatus.delivered d u)

  All-of_keys :
      (P : String → Type 0) (d : List (String × ShipmentStatus))
      → All P (keys d)
      → All (λ item. P item.0) d
  All-of_keys P [] h = tt
  All-of_keys P ((k, v) ∷ d) h = (h.0, All-of_keys P d h.1)

  -- The final states are states that the events reach.
  finals_reached :
      (shipments : ℕ) → is_subset (fs 1 shipments []) (set_of (reached (es 1 1 shipments))) ≡ true
  finals_reached shipments =
      subset_of_members (fs 1 shipments []) (set_of (reached (es 1 1 shipments))) (
        All-map_imp
          (λ item.
            (member item.0 (keys (fs 1 shipments [])) ≡ true) × (item.1 ≡ ShipmentStatus.delivered))
          (λ item. member item (set_of (reached (es 1 1 shipments))) ≡ true) (fs 1 shipments [])
          (λ item h.
            member-set_of item (reached (es 1 1 shipments))
            ∙ ap (λ s. member (item.0, s) (reached (es 1 1 shipments))) h.1
            ∙ member-delivered item.0 1 1 shipments
            ∙ sym (member-finals item.0 1 shipments [])
            ∙ h.0)
          (All-and (λ item. member item.0 (keys (fs 1 shipments [])) ≡ true)
            (λ item. item.1 ≡ ShipmentStatus.delivered) (fs 1 shipments [])
            (All-of_keys (λ k. member k (keys (fs 1 shipments [])) ≡ true) (fs 1 shipments [])
              (All-member (keys (fs 1 shipments []))))
            (finals_delivered 1 shipments [] tt)))

  -- The events and the final states have the same tracking numbers.
  same_trackings :
      (shipments : ℕ)
      → same_set
          (set_of (map (λ e. e.tracking_number) (es 1 1 shipments)))
          (keys (fs 1 shipments []))
        ≡ true
  same_trackings shipments =
      let ts = set_of (map (λ e. e.tracking_number) (es 1 1 shipments)) in
      let ks = keys (fs 1 shipments []) in
      let same = λ (k : String).
        member-set_of k (map (λ e. e.tracking_number) (es 1 1 shipments))
        ∙ member-tracking k 1 1 shipments
        ∙ sym (member-finals k 1 shipments []) in
      ground (
        arith,
        subset_of_members ts ks (
            All-map_imp (λ k. member k ts ≡ true) (λ k. member k ks ≡ true) ts
              (λ k h. sym (same k) ∙ h) (All-member ts)),
        subset_of_members ks ts (
            All-map_imp (λ k. member k ks ≡ true) (λ k. member k ts ≡ true) ks (λ k h. same k ∙ h)
              (All-member ks)),
      )

-- A generated manifest passes the validator of manifests, and its final states are a dict, whatever
-- the seed draws, when the printed event identifiers of a run differ from number to number.
pub generate-valid :
    (p : Pydantic) (generation : Generation) (run : Uuid) (configuration : GeneratorConfiguration)
    (seed : ℤ)
    → ((m n : ℕ) → generation.event_text m ≡ generation.event_text n → m ≡ n)
    → (require_consistent_expectations (generate_input_manifest p generation run configuration seed)
        ≡ true)
      × Nodup (
          keys
            (generate_input_manifest p generation run configuration seed).expected_final_shipments)
unfolding generate_input_manifest require_consistent_expectations
generate-valid p generation run configuration seed injective =
    let shipments = configuration.shipment_count in
    (
      rw
          (
            require_consistent_expectations,
            beq_refl (length (events p generation run configuration 1 1 shipments)),
            unique_count p generation run configuration shipments injective,
            contiguous p generation run configuration shipments,
            runs-events p generation run configuration 1 1 shipments,
            same_trackings p generation run configuration shipments,
          )
          (finals_reached p generation run configuration shipments),
      finals-Nodup p generation run configuration 1 shipments [] tt,
    )
