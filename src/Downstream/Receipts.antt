-- ===== src/Downstream/Receipts.antt =====
-- Idempotence of the receipts (src/trackrelay/downstream/store.py, receive_event of main.py).
use trackrelay.Prelude.{
  Bool-cases, length-append, ◌==◌, nat_equality, string_equality, option_equality, pair_equality,
  beq_refl, exists_row-append, ◌≡◌, inl, inr, true, some, List, [], ◌∷◌, ◌++◌, arith,
}
use trackrelay.Domain.Event.{Uuid, NormalizedEvent}
use trackrelay.Downstream.{DownstreamEventStore, record_event, has_key}

has_key-added : (key : Uuid) (keys : List Uuid) → has_key key (keys ++ key ∷ []) ≡ true
has_key-added key keys =
    ground (arith, exists_row-append (λ k. k == key) keys (key ∷ []), beq_refl key)

-- A request with a key is recorded once: a second request with the same key, whatever its event,
-- leaves the store of the first and is told that it is a duplicate, with the same count.
pub record_event_replay :
    (event replayed : NormalizedEvent) (key : Uuid) (store : DownstreamEventStore)
    → (let (first, recorded) = record_event event (some key) store in
        record_event replayed (some key) recorded
        ≡ (record { received_count = first.received_count; duplicate = true }, recorded))
unfolding record_event
record_event_replay event replayed key store =
    elim (Bool-cases (has_key key store.idempotency_keys)) [
      | inl seen ↦ rw (seen, seen)
      | inr fresh ↦
          rw (
            fresh,
            has_key-added key store.idempotency_keys,
            length-append store.events (event ∷ []),
          )
    ]
