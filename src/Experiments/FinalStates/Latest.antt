-- ===== src/Experiments/FinalStates/Latest.antt =====
-- The latest final events are the latest of the manifest's events that reach the expected final states.
use trackrelay.Prelude.{
  if◌then◌else◌, Bool-cases, All, All-append, All-map_imp, ◌==◌, string_equality, nat_equality,
  option_equality, pair_equality, lookup, lookup-put, ◌≤◌, ◌<◌, String, ◌≡◌, refl, sym, ap, ◌∙◌,
  subst, ◌⊎◌, inl, inr, Bool, true, false, ◌&&◌, Option, none, some, List, [], ◌∷◌, ◌++◌, arith,
}
use mathlib.Core.List.{append_assoc, append-nil}
use trackrelay.Domain.Shipment.{ShipmentStatus, status_equality}
use trackrelay.Experiments.Manifest.{ManifestEvent}
use trackrelay.Experiments.FinalStates.{
  FinalEvents, is_later, replaces, keep_latest, latest_final_events,
}

-- By instant, and by sequence number where the instants agree.
abbrev pub IsNoLater : ManifestEvent → ManifestEvent → Type 0
IsNoLater e f =
    (e.expected_occurred_at.instant < f.expected_occurred_at.instant)
    ⊎ ((e.expected_occurred_at.instant ≡ f.expected_occurred_at.instant)
        × (e.sequence_number ≤ f.sequence_number))

IsNoLater-self : (e : ManifestEvent) → IsNoLater e e
IsNoLater-self e = inr (refl, omega arith)

IsNoLater-of : (e f : ManifestEvent) → is_later e f ≡ false → IsNoLater e f
IsNoLater-of e f h = ground (arith, h)

IsNoLater-before : (e f g : ManifestEvent) → IsNoLater e f → is_later g f ≡ true → IsNoLater e g
IsNoLater-before e f g h k = ground (arith, h, k)

module _ (number : String) (status : ShipmentStatus) where
  abbrev pub reaches : ManifestEvent → Bool
  reaches e = e.tracking_number == number && e.expected_status == status

  -- One of the events, which brings the shipment to the status, and no other that does is later.
  abbrev pub IsNewest : ManifestEvent → List ManifestEvent → Type 0
  IsNewest f events =
      (before : List ManifestEvent) × (after : List ManifestEvent) × (events ≡ before ++ f ∷ after)
      × (reaches f ≡ true)
      × All (λ e. (reaches e ≡ false) ⊎ IsNoLater e f) events

  abbrev IsSeen : Option ManifestEvent → List ManifestEvent → Type 0
  IsSeen none events = All (λ e. reaches e ≡ false) events
  IsSeen (some f) events = IsNewest f events

  module _ (event : ManifestEvent) (seen : List ManifestEvent) where
    IsSeen-other :
        (o : Option ManifestEvent)
        → reaches event ≡ false
        → IsSeen o seen
        → IsSeen o (seen ++ event ∷ [])
    IsSeen-other none other h = All-append _ seen _ h (other, tt)
    IsSeen-other (some f) other (before, after, split, own, h) = (
      before,
      after ++ event ∷ [],
      ap (λ xs. xs ++ event ∷ []) split ∙ append_assoc before (f ∷ after) (event ∷ []),
      own,
      All-append _ seen _ h (inl other, tt),
    )

    IsSeen-own :
        (o : Option ManifestEvent)
        → reaches event ≡ true
        → IsSeen o seen
        → IsSeen (if replaces event o then some event else o) (seen ++ event ∷ [])
    IsSeen-own none own h = (
      seen,
      [],
      refl,
      own,
      All-append _ seen _ (All-map_imp _ _ seen (λ e other. inl other) h)
          (inr (IsNoLater-self event), tt),
    )
    IsSeen-own (some f) own (before, after, split, reached, h) =
        elim (Bool-cases (is_later event f)) [
          | inl later ↦ rw later (
            seen,
            [],
            refl,
            own,
            All-append _ seen _
                (All-map_imp _ _ seen
                  (λ e k. elim k [
                    | inl other ↦ inl other
                    | inr le ↦ inr (IsNoLater-before e f event le later)
                  ])
                  h)
                (inr (IsNoLater-self event), tt),
          )
          | inr not_later ↦ rw not_later (
            before,
            after ++ event ∷ [],
            ap (λ xs. xs ++ event ∷ []) split ∙ append_assoc before (f ∷ after) (event ∷ []),
            reached,
            All-append _ seen _ h (inr (IsNoLater-of event f not_later), tt),
          )
        ]

  module _ (expected : List (String × ShipmentStatus))
      (wanted : lookup number expected ≡ some status) where
    keep_own :
        (event : ManifestEvent) (finals : FinalEvents)
        → reaches event ≡ true
        → lookup number (keep_latest expected event finals)
          ≡ (if replaces event (lookup number finals) then some event else lookup number finals)
    keep_own event finals own = ground (
      arith,
      own,
      wanted,
      string_equality.equal_iff event.tracking_number number,
      lookup-put number event.tracking_number event finals,
    )

    keep_other :
        (event : ManifestEvent) (finals : FinalEvents)
        → reaches event ≡ false
        → lookup number (keep_latest expected event finals) ≡ lookup number finals
    keep_other event finals other = ground (
      arith,
      other,
      wanted,
      string_equality.equal_iff event.tracking_number number,
      lookup-put number event.tracking_number event finals,
    )

    IsSeen-step :
        (event : ManifestEvent) (finals : FinalEvents) (seen : List ManifestEvent)
        → IsSeen (lookup number finals) seen
        → IsSeen (lookup number (keep_latest expected event finals)) (seen ++ event ∷ [])
    IsSeen-step event finals seen h = elim (Bool-cases (reaches event)) [
      | inl own ↦
          subst (λ o. IsSeen o (seen ++ event ∷ [])) (sym (keep_own event finals own))
            (IsSeen-own event seen (lookup number finals) own h)
      | inr other ↦
          subst (λ o. IsSeen o (seen ++ event ∷ [])) (sym (keep_other event finals other))
            (IsSeen-other event seen (lookup number finals) other h)
    ]

    IsSeen-all :
        (finals : FinalEvents) (seen events : List ManifestEvent)
        → IsSeen (lookup number finals) seen
        → IsSeen (lookup number (latest_final_events expected finals events)) (seen ++ events)
    unfolding latest_final_events
    IsSeen-all finals seen [] h = subst (IsSeen (lookup number finals)) (sym (append-nil seen)) h
    IsSeen-all finals seen (event ∷ events) h =
        subst
          (IsSeen (
            lookup number
              (latest_final_events expected (keep_latest expected event finals) events)))
          (append_assoc seen (event ∷ []) events)
          (IsSeen-all (keep_latest expected event finals) (seen ++ event ∷ []) events
            (IsSeen-step event finals seen h))

    -- What the loop leaves for the number is the latest of the events.
    pub latest-IsNewest :
        (events : List ManifestEvent) (final : ManifestEvent)
        → lookup number (latest_final_events expected [] events) ≡ some final
        → IsNewest final events
    latest-IsNewest events final found =
        subst (λ o. IsSeen o events) found (IsSeen-all [] [] events tt)
