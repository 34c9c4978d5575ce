-- ===== src/Experiments/Reconciliation/Expected.antt =====
-- What a reconciled run says of each of its rows and receipts.
use trackrelay.Prelude.{
  All, Bool, Bool-cases, All-of_map, All-map_imp, All-and, All-member, member-lookup, keys-map,
  dict_of-eq, ◌==◌, string_equality, nat_equality, option_equality, pair_equality, beq_refl,
  Equality, member, member-set_of, set_of, Nodup, lookup, dict_of, keys, select, ◌≡◌, refl, sym,
  subst, ◌∙◌, inl, inr, true, false, some, List, [], ◌∷◌, map, arith,
}
use trackrelay.Domain.Json.{Fields}
use trackrelay.Domain.Event.{NormalizedEvent}
use trackrelay.Models.{Event}
use trackrelay.Experiments.Manifest.{InputManifest, ManifestEvent, BusinessEventIdentity}
use trackrelay.Experiments.Evidence.{event_identity, receipt_identity, manifest_dict}
use trackrelay.Experiments.Reconciliation.Content.{HasDatabaseContent, HasReceiptContent}

module _ {ℓ κ} {K : Type ℓ} {A : Type κ} ⦃e : Equality K⦄ (key : A → K) where
  absent-All :
      (k : K) (xs : List A) → member k (map key xs) ≡ false → All (λ x. (k == key x) ≡ false) xs
  absent-All k [] h = tt
  absent-All k (x ∷ xs) h = (
    ground (arith, h, e.equal_iff k (key x), e.equal_iff (key x) k),
    absent-All k xs (ground (arith, h)),
  )

  -- With distinct keys, each item is found under its own.
  lookup_own :
      (xs : List A)
      → Nodup (map key xs)
      → All (λ x. lookup (key x) (map (λ y. (key y, y)) xs) ≡ some x) xs
  lookup_own [] u = tt
  lookup_own (x ∷ xs) u = (
    rw (beq_refl (key x)) refl,
    All-map_imp _ _ xs (λ y both. rw (both.0) both.1)
        (All-and (λ y. (key x == key y) ≡ false)
          (λ y. lookup (key y) (map (λ z. (key z, z)) xs) ≡ some y) xs (absent-All (key x) xs u.0)
          (lookup_own xs u.1)),
  )

module _ {ℓ} {K : Type ℓ} ⦃e : Equality K⦄ where
  All-at : (P : K → Type 0) (k : K) (xs : List K) → All P xs → member k xs ≡ true → P k
  All-at P k [] h there = absurd (cc)
  All-at P k (x ∷ xs) h there = elim (Bool-cases (x == k)) [
    | inl own ↦ subst P ((e.equal_iff x k).0 own) h.0
    | inr other ↦ All-at P k xs h.1 (ground (arith, there, other, e.equal_iff x k, e.equal_iff k x))
  ]

  -- What holds of the elements of the set holds of the list's.
  All-of_set : (P : K → Type 0) (xs : List K) → All P (set_of xs) → All P xs
  All-of_set P xs h =
      All-map_imp _ _ xs (λ k there. All-at P k (set_of xs) h (member-set_of k xs ∙ there))
        (All-member xs)

module _ {ℓ κ} {K : Type ℓ} {V : Type κ} ⦃e : Equality K⦄ where
  All-lookup :
      (P : K × V → Type 0) (k : K) (v : V) (d : List (K × V))
      → All P d
      → lookup k d ≡ some v
      → P (k, v)
  All-lookup P k v [] h found = absurd (cc)
  All-lookup P k v ((j, w) ∷ d) h found = elim (Bool-cases (j == k)) [
    | inl own ↦
        subst (λ x. P (k, x)) (ground (arith, own, found))
          (subst (λ i. P (i, w)) ((e.equal_iff j k).0 own) h.0)
    | inr other ↦ All-lookup P k v d h.1 (ground (arith, other, found))
  ]

  member-keys_selected :
      (ids : List K) (k : K) (d : List (K × V))
      → member k (keys (select (λ item. member item.0 ids) d)) ≡ true
      → member k ids ≡ true
  member-keys_selected ids k [] h = absurd (cc)
  member-keys_selected ids k ((j, v) ∷ d) h = elim (Bool-cases (member j ids)) [
    | inr left ↦ member-keys_selected ids k d (rw left at h)
    | inl taken ↦ elim (Bool-cases (j == k)) [
      | inl own ↦ subst (λ i. member i ids ≡ true) ((e.equal_iff j k).0 own) taken
      | inr other ↦
          member-keys_selected ids k d
            (ground (arith, h, taken, other, e.equal_iff k j, e.equal_iff j k))
    ]
  ]

module _ (same_payload : Fields → Fields → Bool) (manifest : InputManifest) where
  -- The manifest has an event of the same identity, tracking number, status, instant and payload.
  abbrev pub IsExpectedEvent : Event → Type 0
  IsExpectedEvent e =
      (m : ManifestEvent) × (lookup (event_identity e) (manifest_dict manifest) ≡ some m)
      × HasDatabaseContent same_payload e m

  abbrev pub IsExpectedReceipt : NormalizedEvent → Type 0
  IsExpectedReceipt r =
      (m : ManifestEvent) × (lookup (receipt_identity r) (manifest_dict manifest) ≡ some m)
      × HasReceiptContent same_payload r m

  module _ (es : List Event) where
    abbrev by_identity : List (BusinessEventIdentity × Event)
    by_identity = dict_of (map (λ e. (event_identity e, e)) es)

    plain_dict : Nodup (map event_identity es) → by_identity ≡ map (λ e. (event_identity e, e)) es
    plain_dict unique =
        dict_of-eq (map (λ e. (event_identity e, e)) es)
          (subst Nodup (sym (keys-map event_identity (λ e. e) es)) unique)

    pub events_expected :
        Nodup (map event_identity es)
        → All (λ k. member k (keys (manifest_dict manifest)) ≡ true) (keys by_identity)
        → All
            (λ item.
              (e : Event)
              → lookup item.0 by_identity ≡ some e
              → HasDatabaseContent same_payload e item.1)
            (manifest_dict manifest)
        → All IsExpectedEvent es
    events_expected unique expected content =
        let plain = plain_dict unique in
        let known =
          All-of_map (λ k. member k (keys (manifest_dict manifest)) ≡ true) event_identity es
            (subst (All (λ k. member k (keys (manifest_dict manifest)) ≡ true))
              (keys-map event_identity (λ e. e) es)
              (subst (λ d. All (λ k. member k (keys (manifest_dict manifest)) ≡ true) (keys d))
                plain expected)) in
        All-map_imp _ _ es
          (λ e both.
            let (m, found) = member-lookup (event_identity e) (manifest_dict manifest) both.0 in
            (
              m,
              found,
              All-lookup
                  (λ item.
                    (x : Event)
                    → lookup item.0 by_identity ≡ some x
                    → HasDatabaseContent same_payload x item.1)
                  (event_identity e) m (manifest_dict manifest) content found e
                  (subst (λ d. lookup (event_identity e) d ≡ some e) (sym plain) both.1),
            ))
          (All-and (λ e. member (event_identity e) (keys (manifest_dict manifest)) ≡ true)
            (λ e. lookup (event_identity e) (map (λ x. (event_identity x, x)) es) ≡ some e) es known
            (lookup_own event_identity es unique))

    pub receipts_expected :
        (receipts : List NormalizedEvent)
        → All
            (λ k.
              member k
                (keys (select (λ item. member item.0 (keys (manifest_dict manifest))) by_identity))
              ≡ true)
            (set_of (map receipt_identity receipts))
        → All
            (λ r.
              (m : ManifestEvent)
              → lookup (receipt_identity r) (manifest_dict manifest) ≡ some m
              → HasReceiptContent same_payload r m)
            receipts
        → All IsExpectedReceipt receipts
    receipts_expected receipts expected content =
        let ids = keys (manifest_dict manifest) in
        let known =
          All-of_set (λ k. member k ids ≡ true) (map receipt_identity receipts)
            (All-map_imp _ _ (set_of (map receipt_identity receipts))
              (λ k h. member-keys_selected ids k by_identity h) expected) in
        All-map_imp _ _ receipts
          (λ r both.
            let (m, found) = member-lookup (receipt_identity r) (manifest_dict manifest) both.0 in
            (m, found, both.1 m found))
          (All-and (λ r. member (receipt_identity r) ids ≡ true)
            (λ r.
              (m : ManifestEvent)
              → lookup (receipt_identity r) (manifest_dict manifest) ≡ some m
              → HasReceiptContent same_payload r m)
            receipts (All-of_map (λ k. member k ids ≡ true) receipt_identity receipts known)
            content)
