-- ===== src/Pipeline/Posting.antt =====
-- What one POST of a persisted event does to the order system, whatever the network does to it.
use trackrelay.Prelude.{
  Bool-cases, nat_equality, string_equality, option_equality, pair_equality, ℕ, String, ◌≡◌, inl,
  inr, true, some, List, [], ◌∷◌, ok,
}
use trackrelay.Domain.Event.{Uuid, NormalizedEvent}
use trackrelay.Models.{Event}
use trackrelay.Models.Constraints.{Unique, Unique-append}
use trackrelay.Downstream.{
  Simulator, SimulatorMode, healthy, return_500, slow, timeout, unavailable, DownstreamEventStore,
  Reply, reply_code, record_event, receive_in_mode, receive_event, has_key,
}
use trackrelay.Services.DownstreamDelivery.{
  DeliveryResult, HttpOutcome, response, delivery_of, is_success,
}
use trackrelay.Pipeline.{
  NetworkFault, no_fault, request_lost, response_lost, client_fault, answer, simulator_client,
}
use trackrelay.Pipeline.Invariant.{
  event_of, AreReceipts, AreReceipts-append, has_key-append_mono, has_key-append_self,
}

-- The receipts of a store are persisted events, one for each key, and no key stands twice.
pub record IsFaithful (events : List Event) (store : DownstreamEventStore) : Type 0 where
  pub receipts : AreReceipts events store.idempotency_keys store.events
  pub unique : Unique (λ (k : Uuid). k) store.idempotency_keys

-- A call keeps the store faithful and takes back no receipt.
pub record IsExtended (events : List Event) (before after : DownstreamEventStore) : Type 0 where
  pub faithful : IsFaithful events after
  pub grows :
      (k : Uuid)
      → has_key k before.idempotency_keys ≡ true
      → has_key k after.idempotency_keys ≡ true

module _ (events : List Event) (id : Uuid) (event : NormalizedEvent)
    (found : event_of id events ≡ some event) where
  unchanged :
      (store : DownstreamEventStore) → IsFaithful events store → IsExtended events store store
  unchanged store h = record { faithful = h; grows = λ k held. held }

  record_event_lem :
      (store : DownstreamEventStore)
      → IsFaithful events store
      → IsExtended events store (record_event event (some id) store).1
        × (has_key id (record_event event (some id) store).1.idempotency_keys ≡ true)
  unfolding record_event
  record_event_lem store h = elim (Bool-cases (has_key id store.idempotency_keys)) [
    | inl replay ↦ rw replay (unchanged store h, replay)
    | inr new ↦ rw new (
      record {
        faithful = record {
          receipts =
              AreReceipts-append events store.idempotency_keys store.events id event h.receipts
                found;
          unique = Unique-append (λ (k : Uuid). k) store.idempotency_keys id h.unique new;
        };
        grows = λ k held. has_key-append_mono k store.idempotency_keys (id ∷ []) held;
      },
      has_key-append_self id store.idempotency_keys,
    )
  ]

  abbrev IsReceived : Simulator → Reply × Simulator → Type 0
  IsReceived s (reply, s') =
      IsExtended events s.store s'.store
      × (is_success (reply_code reply) ≡ true → has_key id s'.store.idempotency_keys ≡ true)

  receive_lem :
      (mode : SimulatorMode) (s : Simulator)
      → IsFaithful events s.store
      → IsReceived s (receive_in_mode mode event (some id) s)
  receive_lem return_500 s h = (unchanged s.store h, λ e. cc)
  receive_lem unavailable s h = (unchanged s.store h, λ e. cc)
  receive_lem healthy s h = let (x, y) = record_event_lem s.store h in (x, λ _. y)
  receive_lem slow s h = let (x, y) = record_event_lem s.store h in (x, λ _. y)
  receive_lem timeout s h = let (x, y) = record_event_lem s.store h in (x, λ _. y)

  abbrev pub IsPosted : Simulator → HttpOutcome × Simulator → Type 0
  IsPosted s (outcome, s') =
      IsExtended events s.store s'.store
      × ((delivery : DeliveryResult)
          → delivery_of outcome ≡ ok delivery
          → has_key id s'.store.idempotency_keys ≡ true)

  delivery_of-ok :
      (code : ℕ) (text : String) (d : DeliveryResult)
      → delivery_of (response code text) ≡ ok d
      → is_success code ≡ true
  delivery_of-ok code text d h = elim (Bool-cases (is_success code)) [
    | inl success ↦ success
    | inr failure ↦ absurd (cc (rw failure at h))
  ]

  answer_lem :
      (fault : NetworkFault) (s : Simulator) (t : Reply × Simulator)
      → IsFaithful events s.store
      → IsReceived s t
      → IsPosted s (answer fault t s)
  answer_lem no_fault s (reply, s') h (kept, got) =
      (kept, λ d done. got (delivery_of-ok (reply_code reply) "" d done))
  answer_lem request_lost s (reply, s') h (kept, got) = (unchanged s.store h, λ d done. cc)
  answer_lem response_lost s (reply, s') h (kept, got) = (kept, λ d done. cc)
  answer_lem client_fault s (reply, s') h (kept, got) = (unchanged s.store h, λ d done. cc)

  -- A POST adds at most the receipt of this event, and returns a success only if it is there.
  pub post_lem :
      (fault : NetworkFault) (s : Simulator)
      → IsFaithful events s.store
      → IsPosted s ((simulator_client fault).post event (some id) s)
  unfolding receive_event
  post_lem fault s h =
      answer_lem fault s (receive_event event (some id) s) h (receive_lem s.mode s h)
