-- ===== src/Pipeline/Recording.antt =====
-- What a delivery and its record leave: a delivery is on record only with its receipt.
use trackrelay.Prelude.{
  if◌then◌else◌, All, All-append, All-map_imp, Result, nat_equality, string_equality,
  option_equality, pair_equality, ◌≡◌, refl, subst, ◌≢◌, ◌⊎◌, inl, inr, Bool, true, false, Option,
  none, some, List, [], ◌∷◌, ◌++◌, arith, ok, err, integrity_error,
}
use trackrelay.Domain.Delivery.{is_delivered}
use trackrelay.Domain.Event.{Uuid, NormalizedEvent}
use trackrelay.Models.{DeliveryAttempt}
use trackrelay.Downstream.{Simulator, has_key}
use trackrelay.Services.DownstreamDelivery.{
  DeliveryResult, AttemptClock, delivery_of, attempt_outcome, finish_attempt,
  deliver_and_record_normalized_event,
}
use trackrelay.Services.DownstreamDelivery.Records.{attempt_row, record_alone, outcome-code}
use trackrelay.Services.DownstreamWorker.{
  latest_delivered, recorded_delivery, load_recorded_delivery_result,
}
use trackrelay.Pipeline.{World, NetworkFault, simulator_client, world_deliver}
use trackrelay.Pipeline.Invariant.{keys_of, event_of, IsRecorded, IsSound}
use trackrelay.Pipeline.Posting.{IsExtended, post_lem}

-- The latest delivered attempt of a longer table is its first row or that of the rest.
latest_delivered-cases :
    (id : Uuid) (b : DeliveryAttempt) (rows : List DeliveryAttempt) (a : DeliveryAttempt)
    → latest_delivered id (b ∷ rows) ≡ some a
    → ((b ≡ a) × (b.event_id ≡ id) × (is_delivered b.result ≡ true))
      ⊎ (latest_delivered id rows ≡ some a)
unfolding latest_delivered
latest_delivered-cases id b rows a e = ground arith

none_delivered : (id : Uuid) (a : DeliveryAttempt) → latest_delivered id [] ≢ some a
unfolding latest_delivered
none_delivered id a e = cc

-- The latest delivered attempt of an event is one of the rows.
latest_delivered_holds :
    (P : DeliveryAttempt → Type 0) (id : Uuid) (rows : List DeliveryAttempt) (a : DeliveryAttempt)
    → All P rows
    → latest_delivered id rows ≡ some a
    → P a × (a.event_id ≡ id) × (is_delivered a.result ≡ true)
latest_delivered_holds P id [] a h e = absurd (none_delivered id a e)
latest_delivered_holds P id (b ∷ rows) a h e = elim (latest_delivered-cases id b rows a e) [
  | inl (same, own, done) ↦ (subst P same h.0, rw (← same) own, rw (← same) done)
  | inr later ↦ latest_delivered_holds P id rows a h.1 later
]

recorded_delivery-code :
    (o : Option DeliveryAttempt) (d : DeliveryResult)
    → recorded_delivery o ≡ ok (some d)
    → (a : DeliveryAttempt) × (o ≡ some a) × (a.response_code ≡ some d.downstream_status_code)
recorded_delivery-code none d e = absurd (cc)
recorded_delivery-code (some a) d e = (a, refl, ground arith)

-- A delivery that is on record has its receipt.
pub recorded_held :
    (id : Uuid) (w : World) (d : DeliveryResult)
    → IsSound w
    → load_recorded_delivery_result id w.database ≡ ok (some d)
    → has_key id (keys_of w) ≡ true
unfolding load_recorded_delivery_result
recorded_held id w d h e =
    let (a, found, code) = recorded_delivery-code (latest_delivered id w.database.attempts) d e in
    let (kept, own, done) =
      latest_delivered_holds (IsRecorded (keys_of w)) id w.database.attempts a h.recorded found in
    subst (λ k. has_key k (keys_of w) ≡ true) own (kept done d.downstream_status_code code)

-- The row of an attempt that was just made.
new_row_IsRecorded :
    (id : Uuid) (delivery : Result DeliveryResult) (clock : AttemptClock) (keys : List Uuid)
    (rows : List DeliveryAttempt)
    → ((d : DeliveryResult) → delivery ≡ ok d → has_key id keys ≡ true)
    → IsRecorded keys (attempt_row id (attempt_outcome delivery) clock rows)
new_row_IsRecorded id delivery clock keys rows held done code c =
    held (record { downstream_status_code = code }) (outcome-code delivery code done c)

-- The order system and the attempts after a POST and its record.
pub delivered_IsSound :
    (w : World) (s' : Simulator) (rows : List DeliveryAttempt)
    → IsSound w
    → IsExtended w.database.events w.simulator.store s'.store
    → All (IsRecorded s'.store.idempotency_keys) rows
    → IsSound (record w { database = record w.database { attempts = rows }; simulator = s' })
delivered_IsSound w s' rows h x recorded = record {
  entries = h.entries;
  backed =
      All-map_imp _ _ w.database.outbox
        (λ o b. elim b [
          | inl pending ↦ inl pending
          | inr (inl queued) ↦ inr (inl queued)
          | inr (inr (inl dead)) ↦ inr (inr (inl dead))
          | inr (inr (inr held)) ↦ inr (inr (inr (x.grows o.event_id held)))
        ])
        h.backed;
  receipts = x.faithful.receipts;
  unique_keys = x.faithful.unique;
  recorded = recorded;
}

-- Attempts on record stay on record when the order system grows.
pub old_rows_IsRecorded :
    (w : World) (s' : Simulator)
    → IsSound w
    → IsExtended w.database.events w.simulator.store s'.store
    → All (IsRecorded s'.store.idempotency_keys) w.database.attempts
old_rows_IsRecorded w s' h x =
    All-map_imp _ _ w.database.attempts
      (λ a kept done code c. x.grows a.event_id (kept done code c)) h.recorded

abbrev pub WasDelivered : Uuid → Result DeliveryResult × World → Type 0
WasDelivered id (r, w) =
    IsSound w × ((d : DeliveryResult) → r ≡ ok d → has_key id (keys_of w) ≡ true)

finish_IsSound :
    (id : Uuid) (delivery : Result DeliveryResult) (clock : AttemptClock) (w : World)
    (s' : Simulator) (recording : Bool)
    → IsSound w
    → IsExtended w.database.events w.simulator.store s'.store
    → ((d : DeliveryResult) → delivery ≡ ok d → has_key id s'.store.idempotency_keys ≡ true)
    → let (r, db, s) =
        finish_attempt delivery
          (if recording
            then ok (record w.database {
              attempts =
                  w.database.attempts
                  ++ attempt_row id (attempt_outcome delivery) clock w.database.attempts ∷ [];
            })
            else err integrity_error)
          w.database
          s' in
      WasDelivered id (r, record w { database = db; simulator = s })
finish_IsSound id delivery clock w s' true h x held = (
  delivered_IsSound w s'
      (w.database.attempts
        ++ attempt_row id (attempt_outcome delivery) clock w.database.attempts ∷ [])
      h x
      (All-append _ w.database.attempts _ (old_rows_IsRecorded w s' h x) (
        new_row_IsRecorded id delivery clock s'.store.idempotency_keys w.database.attempts held,
        tt,
      )),
  held,
)
finish_IsSound id delivery clock w s' false h x held = (
  delivered_IsSound w s' w.database.attempts h x (old_rows_IsRecorded w s' h x),
  λ d done. absurd (cc),
)

-- A delivery of a persisted event, whatever fails, keeps the pipeline sound and returns only if the
-- receipt is there.
pub world_deliver-IsSound :
    (clock : AttemptClock) (fault : NetworkFault) (event : NormalizedEvent) (id : Uuid) (w : World)
    → IsSound w
    → event_of id w.database.events ≡ some event
    → WasDelivered id (world_deliver clock fault event id w)
unfolding deliver_and_record_normalized_event
world_deliver-IsSound clock fault event id w h found =
    let posted = (simulator_client fault).post event (some id) w.simulator in
    let (x, held) =
      post_lem w.database.events id event found fault w.simulator
        (record { receipts = h.receipts; unique = h.unique_keys }) in
    let delivery = delivery_of posted.0 in
    rw (record_alone id (attempt_outcome delivery) clock w.database)
      (finish_IsSound id delivery clock w posted.1 _ h x held)
