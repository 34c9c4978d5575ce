-- ===== src/Experiments/Generator/Numbering.antt =====
-- The events of a generated manifest are numbered from 1, and their identities differ.
use trackrelay.Prelude.{
  length, length-map, set_of-eq, ◌==◌, string_equality, nat_equality, option_equality,
  pair_equality, beq_refl, Equality, member, set_of, Nodup, exists_row, ℕ, zero, suc, ◌+◌, ◌≤◌,
  String, ◌≡◌, refl, sym, ap, ◌∙◌, subst, true, false, not, List, [], ◌∷◌, map, arith,
}
use trackrelay.Domain.Shipment.{ShipmentStatus, status_equality}
use trackrelay.Domain.Event.{Uuid, Pydantic}
use trackrelay.Experiments.Manifest.{
  GeneratorConfiguration, ManifestEvent, BusinessEventIdentity, manifest_identity, range,
  same_numbers,
}
use trackrelay.Experiments.Generator.{Generation, tracking_number, events_from, finals_from}

-- A list of the images of consecutive numbers has no repeats.
module _ {ℓ} {K : Type ℓ} ⦃e : Equality K⦄ (f : ℕ → K)
    (injective : (m n : ℕ) → f m ≡ f n → m ≡ n) where
  range_after :
      (k start count : ℕ) → k + 1 ≤ start → member (f k) (map f (range start count)) ≡ false
  range_after k start zero h = refl
  range_after k start (suc count) h = ground (
    arith,
    range_after k (suc start) count (omega (arith, h)),
    e.equal_iff (f start) (f k),
    injective start k,
    h,
  )

  range-Nodup : (start count : ℕ) → Nodup (map f (range start count))
  range-Nodup start zero = tt
  range-Nodup start (suc count) =
      (range_after start (suc start) count (omega arith), range-Nodup (suc start) count)

pub same_numbers_refl : (ns : List ℕ) → same_numbers ns ns ≡ true
same_numbers_refl [] = refl
same_numbers_refl (n ∷ ns) = ground (arith, same_numbers_refl ns, beq_refl n)

module _ (p : Pydantic) (generation : Generation) (run : Uuid)
    (configuration : GeneratorConfiguration) where
  abbrev pub events : ℕ → ℕ → ℕ → List ManifestEvent
  unfolding events_from
  events = events_from p generation run configuration

  abbrev pub finals : ℕ → ℕ → List (String × ShipmentStatus) → List (String × ShipmentStatus)
  unfolding finals_from
  finals = finals_from p generation run configuration

  abbrev pub text_of_number : ℕ → String
  text_of_number = tracking_number p generation run configuration

  -- Five events a shipment, numbered from the first on.
  abbrev event_total : ℕ → ℕ
  event_total zero = 0
  event_total (suc shipments) = suc (suc (suc (suc (suc (event_total shipments)))))

  length-events :
      (number sequence shipments : ℕ)
      → length (events number sequence shipments) ≡ event_total shipments
  unfolding events_from
  length-events number sequence zero = refl
  length-events number sequence (suc shipments) =
      ap (λ n. suc (suc (suc (suc (suc n)))))
        (length-events (suc number) (suc (suc (suc (suc (suc sequence))))) shipments)

  numbers-events :
      (number sequence shipments : ℕ)
      → map (λ e. e.sequence_number) (events number sequence shipments)
        ≡ range sequence (event_total shipments)
  unfolding events_from
  numbers-events number sequence zero = refl
  numbers-events number sequence (suc shipments) =
      ap
        (λ ns.
          sequence
          ∷ suc sequence
          ∷ suc (suc sequence)
          ∷ suc (suc (suc sequence))
          ∷ suc (suc (suc (suc sequence)))
          ∷ ns)
        (numbers-events (suc number) (suc (suc (suc (suc (suc sequence))))) shipments)

  abbrev identity_of : ℕ → BusinessEventIdentity
  identity_of n = (configuration.partner_id, generation.event_text n)

  identities-events :
      (number sequence shipments : ℕ)
      → map manifest_identity (events number sequence shipments)
        ≡ map identity_of (range sequence (event_total shipments))
  unfolding events_from
  identities-events number sequence zero = refl
  identities-events number sequence (suc shipments) =
      ap
        (λ ns.
          identity_of sequence
          ∷ identity_of (suc sequence)
          ∷ identity_of (suc (suc sequence))
          ∷ identity_of (suc (suc (suc sequence)))
          ∷ identity_of (suc (suc (suc (suc sequence))))
          ∷ ns)
        (identities-events (suc number) (suc (suc (suc (suc (suc sequence))))) shipments)

  pub runs-events :
      (number sequence shipments : ℕ)
      → exists_row (λ e. not (e.test_run_id == run)) (events number sequence shipments) ≡ false
  unfolding events_from
  runs-events number sequence zero = refl
  runs-events number sequence (suc shipments) = ground (
    arith,
    beq_refl run,
    runs-events (suc number) (suc (suc (suc (suc (suc sequence))))) shipments,
  )

  pub unique_count :
      (shipments : ℕ)
      → ((m n : ℕ) → generation.event_text m ≡ generation.event_text n → m ≡ n)
      → (length (events 1 1 shipments)
          == length (set_of (map manifest_identity (events 1 1 shipments))))
        ≡ true
  unique_count shipments injective =
      let es = events 1 1 shipments in
      let unique : Nodup (map manifest_identity es) =
        subst Nodup (sym (identities-events 1 1 shipments)) (
          range-Nodup identity_of (λ m n h. injective m n (ap (λ k. k.1) h)) 1
            (event_total shipments)) in
      (nat_equality.equal_iff (length es) (length (set_of (map manifest_identity es)))).1 (
        sym (
          ap length (set_of-eq (map manifest_identity es) unique)
          ∙ length-map es manifest_identity))

  pub contiguous :
      (shipments : ℕ)
      → same_numbers
          (map (λ e. e.sequence_number) (events 1 1 shipments))
          (range 1 (length (events 1 1 shipments)))
        ≡ true
  contiguous shipments =
      ap (λ ns. same_numbers ns (range 1 (length (events 1 1 shipments))))
        (numbers-events 1 1 shipments)
      ∙ ap (λ n. same_numbers (range 1 (event_total shipments)) (range 1 n))
          (length-events 1 1 shipments)
      ∙ same_numbers_refl (range 1 (event_total shipments))
