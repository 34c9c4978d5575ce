-- ===== src/Inspection.antt =====
-- main.py: the endpoints that read a shipment, its history, an event with its attempts, and the
-- experiment's state, and the endpoint that resets it.
use trackrelay.Prelude.{
  ℕ, leb, if◌then◌else◌, Bool-cases, Option-cases, All, All-map_imp, insert_by, sort_by, Result,
  ◌==◌, string_equality, nat_equality, option_equality, pair_equality, select, scalar, exists_row,
  count_rows, exists_row-eq-scalar, ◌≤◌, String, ◌≡◌, refl, ◌⊎◌, inl, inr, Bool, false, not, Option,
  none, some, List, [], ◌∷◌, arith, ok, err, http_status_error, transport_error,
  experiment_reset_error,
}
use trackrelay.Domain.Event.{Uuid, EventProcessingStatus}
use trackrelay.Domain.Timestamp.{DatabaseDatetime}
use trackrelay.Domain.Json.{Fields}
use trackrelay.Domain.Shipment.{ShipmentStatus}
use trackrelay.Models.{Shipment, Event, DeliveryAttempt, Database}
use trackrelay.Services.ShipmentHistory.{list_shipment_events}
use trackrelay.TestRuns.{Answer, http_exception, response}

-- `raise HTTPException(404)` for what is missing
abbrev pub found_or_404 {ℓ} : {A : Type ℓ} → Option A → Answer A
found_or_404 none = http_exception 404
found_or_404 (some a) = response a

unfoldable pub get_shipment : String → Database → Answer Shipment
get_shipment tracking_number db =
    found_or_404 (scalar (λ s. s.tracking_number == tracking_number) db.shipments)

abbrev pub shipment_history : String → Database → Answer (List Event)
shipment_history tracking_number db = found_or_404 (list_shipment_events tracking_number db)

pub record EventInspectionResponse : Type 0 where
  pub id : Uuid
  pub partner_id : String
  pub partner_event_id : String
  pub tracking_number : String
  pub status : ShipmentStatus
  pub occurred_at : DatabaseDatetime
  pub received_at : DatabaseDatetime
  pub raw_payload : Fields
  pub test_run_id : Option Uuid
  pub processing_status : EventProcessingStatus
  pub state_applied : Bool
  pub state_rejection_reason : Option String
  pub created_at : ℕ
  pub delivery_attempts : List DeliveryAttempt

-- `ORDER BY attempt_number ASC`
abbrev pub by_number : DeliveryAttempt → DeliveryAttempt → Bool
by_number a b = leb a.attempt_number b.attempt_number

abbrev pub attempts_of_event : Uuid → Database → List DeliveryAttempt
unfolding sort_by
attempts_of_event id db = sort_by by_number (select (λ a. a.event_id == id) db.attempts)

unfoldable pub get_event : Uuid → Database → Answer EventInspectionResponse
unfolding sort_by
get_event id db = elim (scalar (λ e. e.id == id) db.events) [
  | none ↦ http_exception 404
  | some event ↦ response (record {
    id = event.id;
    partner_id = event.partner_id;
    partner_event_id = event.partner_event_id;
    tracking_number = event.tracking_number;
    status = event.status;
    occurred_at = event.occurred_at;
    received_at = event.received_at;
    raw_payload = event.raw_payload;
    test_run_id = event.test_run_id;
    processing_status = event.processing_status;
    state_applied = event.state_applied;
    state_rejection_reason = event.state_rejection_reason;
    created_at = event.created_at;
    delivery_attempts = attempts_of_event id db;
  })
]

abbrev pub readiness : Bool → Answer String
readiness database_ready = if not database_ready then http_exception 503 else response "ready"

-- `except (httpx.HTTPError, ExperimentResetError)` of get_experiment_state
abbrev pub state_answer {ℓ} : {A : Type ℓ} → Result A → Result (Answer A)
state_answer (ok a) = ok (response a)
state_answer (err (http_status_error _ _)) = ok (http_exception 503)
state_answer (err (transport_error _)) = ok (http_exception 503)
state_answer (err experiment_reset_error) = ok (http_exception 503)
state_answer (err raised) = err raised

-- the two `except` clauses of reset_experiment
abbrev pub reset_answer {ℓ} : {A : Type ℓ} → Result A → Result (Answer A)
reset_answer (ok a) = ok (response a)
reset_answer (err experiment_reset_error) = ok (http_exception 409)
reset_answer (err (http_status_error _ _)) = ok (http_exception 503)
reset_answer (err (transport_error _)) = ok (http_exception 503)
reset_answer (err raised) = err raised

-- The fields of the answer are those of the row with the id.
abbrev pub HasFields : Uuid → Database → EventInspectionResponse → Type 0
HasFields id db answer =
    (row : Event) × (scalar (λ e. e.id == id) db.events ≡ some row)
    × (answer.id ≡ row.id)
    × (answer.partner_id ≡ row.partner_id)
    × (answer.partner_event_id ≡ row.partner_event_id)
    × (answer.tracking_number ≡ row.tracking_number)
    × (answer.status ≡ row.status)
    × (answer.occurred_at ≡ row.occurred_at)
    × (answer.received_at ≡ row.received_at)
    × (answer.raw_payload ≡ row.raw_payload)
    × (answer.test_run_id ≡ row.test_run_id)
    × (answer.processing_status ≡ row.processing_status)
    × (answer.state_applied ≡ row.state_applied)
    × (answer.state_rejection_reason ≡ row.state_rejection_reason)
    × (answer.created_at ≡ row.created_at)

-- Each attempt has a number that is not above those after it.
abbrev pub IsNumbered : List DeliveryAttempt → Type 0
IsNumbered [] = Unit
IsNumbered (a ∷ xs) = All (λ b. a.attempt_number ≤ b.attempt_number) xs × IsNumbered xs

All-insert :
    (P : DeliveryAttempt → Type 0) (a : DeliveryAttempt) (xs : List DeliveryAttempt)
    → P a
    → All P xs
    → All P (insert_by by_number a xs)
All-insert P a [] h hs = (h, tt)
All-insert P a (x ∷ xs) h hs = elim (Bool-cases (by_number a x)) [
  | inl first ↦ rw (first) (h, hs)
  | inr later ↦ rw (later) (hs.0, All-insert P a xs h hs.1)
]

insert-IsNumbered :
    (a : DeliveryAttempt) (xs : List DeliveryAttempt)
    → IsNumbered xs
    → IsNumbered (insert_by by_number a xs)
insert-IsNumbered a [] h = (tt, tt)
insert-IsNumbered a (x ∷ xs) h = elim (Bool-cases (by_number a x)) [
  | inl first ↦ rw (first) (
    (
      ground (arith, first),
      All-map_imp (λ b. x.attempt_number ≤ b.attempt_number)
          (λ b. a.attempt_number ≤ b.attempt_number) xs (λ b le. ground (arith, first, le)) h.0,
    ),
    h,
  )
  | inr later ↦ rw (later) (
    All-insert (λ b. x.attempt_number ≤ b.attempt_number) a xs (ground (arith, later)) h.0,
    insert-IsNumbered a xs h.1,
  )
]

sort-IsNumbered : (xs : List DeliveryAttempt) → IsNumbered (sort_by by_number xs)
unfolding sort_by
sort-IsNumbered [] = tt
sort-IsNumbered (x ∷ xs) = insert-IsNumbered x (sort_by by_number xs) (sort-IsNumbered xs)

count-insert :
    (p : DeliveryAttempt → Bool) (a : DeliveryAttempt) (xs : List DeliveryAttempt)
    → count_rows p (insert_by by_number a xs) ≡ count_rows p (a ∷ xs)
count-insert p a [] = refl
count-insert p a (x ∷ xs) = ground (arith, count-insert p a xs)

count-sort :
    (p : DeliveryAttempt → Bool) (xs : List DeliveryAttempt)
    → count_rows p (sort_by by_number xs) ≡ count_rows p xs
unfolding sort_by
count-sort p [] = refl
count-sort p (x ∷ xs) = ground (arith, count-insert p x (sort_by by_number xs), count-sort p xs)

-- An event is answered 404 when it is not stored; otherwise the answer has each field of the event's
-- row, and all of its attempts and no other, each as often as it is stored, in the order of their
-- numbers.
pub get_event_lem :
    (id : Uuid) (db : Database)
    → ((exists_row (λ e. e.id == id) db.events ≡ false) × (get_event id db ≡ http_exception 404))
      ⊎ ((answer : EventInspectionResponse) × (get_event id db ≡ response answer)
          × HasFields id db answer
          × IsNumbered answer.delivery_attempts
          × ((p : DeliveryAttempt → Bool)
              → count_rows p answer.delivery_attempts
                ≡ count_rows p (select (λ a. a.event_id == id) db.attempts)))
unfolding get_event sort_by
get_event_lem id db = elim (Option-cases (scalar (λ e. e.id == id) db.events)) [
  | inl missing ↦ inl (
    ground (arith, missing, exists_row-eq-scalar (λ e. e.id == id) db.events),
    rw (get_event, missing) refl,
  )
  | inr (event, found) ↦ inr (
    record {
      id = event.id;
      partner_id = event.partner_id;
      partner_event_id = event.partner_event_id;
      tracking_number = event.tracking_number;
      status = event.status;
      occurred_at = event.occurred_at;
      received_at = event.received_at;
      raw_payload = event.raw_payload;
      test_run_id = event.test_run_id;
      processing_status = event.processing_status;
      state_applied = event.state_applied;
      state_rejection_reason = event.state_rejection_reason;
      created_at = event.created_at;
      delivery_attempts = attempts_of_event id db;
    },
    rw (get_event, found) refl,
    (event, found, refl, refl, refl, refl, refl, refl, refl, refl, refl, refl, refl, refl, refl),
    sort-IsNumbered (select (λ a. a.event_id == id) db.attempts),
    λ p. count-sort p (select (λ a. a.event_id == id) db.attempts),
  )
]
