-- ===== src/Pipeline/Invariant.antt =====
-- What holds of the pipeline between any two steps.
use trackrelay.Prelude.{
  All, ◌==◌, nat_equality, string_equality, option_equality, pair_equality, scalar,
  exists_row-append, scalar-append, ℕ, ◌≡◌, ◌⊎◌, true, false, Option, none, some, List, [], ◌∷◌,
  ◌++◌, arith, ok,
}
use trackrelay.Domain.Delivery.{is_delivered}
use trackrelay.Domain.Event.{Uuid, NormalizedEvent}
use trackrelay.Models.{Event, DeliveryAttempt, Database}
use trackrelay.Models.Insert.{has_outbox_entry}
use trackrelay.Models.Constraints.{Unique}
use trackrelay.Downstream.{has_key}
use trackrelay.Services.DownstreamWorker.{normalized_of, load_persisted_normalized_event}
use trackrelay.Pipeline.{World, remove_first, ok}

abbrev pub keys_of : World → List Uuid
keys_of w = w.simulator.store.idempotency_keys

-- An event's message is in the source queue or in the dead-letter queue, or its receipt is in the
-- order system.
abbrev pub Reaches : World → Uuid → Type 0
Reaches w id =
    (has_key id w.queue ≡ true)
    ⊎ (has_key id w.dead_letters ≡ true)
    ⊎ (has_key id (keys_of w) ≡ true)

abbrev pub event_of : Uuid → List Event → Option NormalizedEvent
event_of id events = elim (scalar (λ e. e.id == id) events) [
  | none ↦ none
  | some row ↦ some (normalized_of row)
]

-- The i-th receipt is the persisted event whose id is the i-th key.
abbrev pub AreReceipts : List Event → List Uuid → List NormalizedEvent → Type 0
AreReceipts events [] [] = Unit
AreReceipts events [] (r ∷ rs) = ⊥
AreReceipts events (k ∷ ks) [] = ⊥
AreReceipts events (k ∷ ks) (r ∷ rs) = (event_of k events ≡ some r) × AreReceipts events ks rs

-- A delivered attempt with a response code has its receipt.
abbrev pub IsRecorded : List Uuid → DeliveryAttempt → Type 0
IsRecorded keys a =
    is_delivered a.result ≡ true
    → (code : ℕ) → a.response_code ≡ some code
    → has_key a.event_id keys ≡ true

pub record IsSound (w : World) : Type 0 where
  pub entries : All (λ e. has_outbox_entry e.id w.database ≡ true) w.database.events
  pub backed : All (λ o. (o.published_at ≡ none) ⊎ Reaches w o.event_id) w.database.outbox
  pub receipts : AreReceipts w.database.events (keys_of w) w.simulator.store.events
  pub unique_keys : Unique (λ (k : Uuid). k) (keys_of w)
  pub recorded : All (IsRecorded (keys_of w)) w.database.attempts

-- Keys and receipts under an append at both ends.
has_key-append :
    (id : Uuid) (ks : List Uuid) (k : Uuid)
    → has_key id ks ≡ true
    → has_key id (ks ++ k ∷ []) ≡ true
has_key-append id ks k h = ground (arith, h, exists_row-append (λ j. j == id) ks (k ∷ []))

pub has_key-append_mono :
    (id : Uuid) (ks ls : List Uuid) → has_key id ks ≡ true → has_key id (ks ++ ls) ≡ true
has_key-append_mono id ks ls h = ground (arith, h, exists_row-append (λ j. j == id) ks ls)

pub has_key-append_self : (id : Uuid) (ks : List Uuid) → has_key id (ks ++ id ∷ []) ≡ true
has_key-append_self id ks = ground (arith, exists_row-append (λ j. j == id) ks (id ∷ []))

pub has_key-remove_ne :
    (id other : Uuid) (ks : List Uuid)
    → (id == other) ≡ false
    → has_key other ks ≡ true
    → has_key other (remove_first id ks) ≡ true
has_key-remove_ne id other [] ne h = h
has_key-remove_ne id other (k ∷ ks) ne h = ground (arith, ne, h, has_key-remove_ne id other ks ne)

pub AreReceipts-append :
    (events : List Event) (ks : List Uuid) (rs : List NormalizedEvent) (k : Uuid)
    (r : NormalizedEvent)
    → AreReceipts events ks rs
    → event_of k events ≡ some r
    → AreReceipts events (ks ++ k ∷ []) (rs ++ r ∷ [])
AreReceipts-append events [] [] k r h found = (found, tt)
AreReceipts-append events [] (x ∷ xs) k r h found = absurd h
AreReceipts-append events (l ∷ ls) [] k r h found = absurd h
AreReceipts-append events (l ∷ ls) (x ∷ xs) k r h found =
    (h.0, AreReceipts-append events ls xs k r h.1 found)

-- A new event hides no other.
event_of-append :
    (id : Uuid) (events : List Event) (row : Event) (e : NormalizedEvent)
    → event_of id events ≡ some e
    → event_of id (events ++ row ∷ []) ≡ some e
event_of-append id events row e h =
    ground (arith, h, scalar-append (λ x. x.id == id) events (row ∷ []))

pub AreReceipts-event :
    (events : List Event) (row : Event) (ks : List Uuid) (rs : List NormalizedEvent)
    → AreReceipts events ks rs
    → AreReceipts (events ++ row ∷ []) ks rs
AreReceipts-event events row [] [] h = h
AreReceipts-event events row [] (x ∷ xs) h = h
AreReceipts-event events row (l ∷ ls) [] h = h
AreReceipts-event events row (l ∷ ls) (x ∷ xs) h =
    (event_of-append l events row x h.0, AreReceipts-event events row ls xs h.1)

pub event_of_loaded :
    (id : Uuid) (db : Database) (event : NormalizedEvent)
    → load_persisted_normalized_event id db ≡ ok event
    → event_of id db.events ≡ some event
unfolding load_persisted_normalized_event
event_of_loaded id db event h = ground arith
