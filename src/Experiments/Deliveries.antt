-- ===== src/Experiments/Deliveries.antt =====
-- experiments/reconciliation.py: the comparison of delivery attempts with the simulator's receipts.
use trackrelay.Prelude.{
  ltb, if◌then◌else◌, length, ◌>>=◌, Result, ◌==◌, string_equality, nat_equality, option_equality,
  pair_equality, set_of, difference, lookup, dict_of, keys, select, ℕ, ◌+◌, ◌-◌, min, Bool, false,
  not, ◌&&◌, ◌||◌, Option, none, some, List, [], ◌∷◌, map, ok, err, key_error,
}
use trackrelay.Domain.Json.{Fields}
use trackrelay.Domain.Delivery.{is_delivered}
use trackrelay.Domain.Event.{Uuid, NormalizedEvent, EventProcessingStatus}
use trackrelay.Models.{Event, DeliveryAttempt}
use trackrelay.Experiments.Manifest.{InputManifest, BusinessEventIdentity}
use trackrelay.Experiments.Evidence.{
  EventDict, counted, is_status, manifest_dict, receipt_identity, simulator_receipt_matches,
}

pub record DownstreamDeliveryComparison : Type 0 where
  pub receipt_count : ℕ
  pub unique_count : ℕ
  pub duplicate_effects : ℕ
  pub content_mismatches : List BusinessEventIdentity
  pub unexpected : List BusinessEventIdentity
  pub without_attempt : List BusinessEventIdentity
  pub evidence_mismatches : List BusinessEventIdentity

-- `d[key]`
abbrev pub item_of {ℓ} : {A : Type ℓ} → Option A → Result A
item_of none = err key_error
item_of (some a) = ok a

-- `{database_event.id: identity for identity, database_event in …}`
abbrev pub identity_by_id : EventDict → List (Uuid × BusinessEventIdentity)
identity_by_id events = dict_of (map (λ item. (item.1.id, item.0)) events)

-- The loop over the attempts, with its two counters: all of them, and those delivered.
unfoldable pub count_attempts :
    List (Uuid × BusinessEventIdentity)
    → List DeliveryAttempt
    → Result (List BusinessEventIdentity × List BusinessEventIdentity)
count_attempts ids [] = ok ([], [])
count_attempts ids (a ∷ as') = do
  identity ← item_of (lookup a.event_id ids)
  rest ← count_attempts ids as'
  ok (identity ∷ rest.0, if is_delivered a.result then identity ∷ rest.1 else rest.1)

-- `sum(max(0, count - 1) for count in counter.values())`
abbrev pub sum_repeats : List BusinessEventIdentity → List BusinessEventIdentity → ℕ
sum_repeats counter [] = 0
sum_repeats counter (k ∷ ks) = (counted k counter - 1) + sum_repeats counter ks

abbrev pub repeats : List BusinessEventIdentity → ℕ
repeats counter = sum_repeats counter (set_of counter)

-- `_compare_delivery_attempts_with_simulator_receipts`
module _ (same_payload : Fields → Fields → Bool) (manifest : InputManifest)
    (by_identity matching : EventDict) (receipts : List NormalizedEvent) where
  -- the test of the loop over the receipts
  abbrev pub receipt_differs : NormalizedEvent → Bool
  unfolding simulator_receipt_matches
  receipt_differs r = elim (lookup (receipt_identity r) (manifest_dict manifest)) [
    | none ↦ false
    | some m ↦ not (simulator_receipt_matches same_payload r m)
  ]

  module _ (attempted succeeded : List BusinessEventIdentity) where
    -- the two tests of the loop over the matched events
    abbrev pub lacks_attempt : BusinessEventIdentity × Event → Bool
    lacks_attempt (identity, e) =
        is_status e.processing_status EventProcessingStatus.processed
        && counted identity attempted == 0

    abbrev pub lacks_evidence : BusinessEventIdentity × Event → Bool
    lacks_evidence (identity, e) =
        let received = counted identity (map receipt_identity receipts) in
        if is_status e.processing_status EventProcessingStatus.processed
        then not (received == min (counted identity succeeded) 1)
        else ltb 0 received || ltb 0 (counted identity succeeded)

    abbrev pub delivery_comparison : DownstreamDeliveryComparison
    delivery_comparison = record {
      receipt_count = length receipts;
      unique_count = length (set_of (map receipt_identity receipts));
      duplicate_effects = repeats (map receipt_identity receipts);
      content_mismatches = set_of (map receipt_identity (select receipt_differs receipts));
      unexpected = difference (set_of (map receipt_identity receipts)) (keys matching);
      without_attempt = set_of (keys (select lacks_attempt matching));
      evidence_mismatches = set_of (keys (select lacks_evidence matching));
    }

  unfoldable pub compare_deliveries : List DeliveryAttempt → Result DownstreamDeliveryComparison
  unfolding count_attempts
  compare_deliveries attempts = do
    counters ← count_attempts (identity_by_id by_identity) attempts
    ok (delivery_comparison counters.0 counters.1)
