-- ===== src/Services/DownstreamDelivery.antt =====
-- services/downstream_delivery.py. `post` stands for httpx and the system behind it, over a state
-- `S`; the request's address and body are a function of the event.
pub mod Records
use Prim.Native.String
use trackrelay.Prelude.{
  ltb, leb, nat_beq, if◌then◌else◌, nat_beq_iff, Bool-cases, Option-cases, is_none, or_zero, ◌>>=◌,
  ◌>>◌, length, take, length-append, length-map, All, All-append, All-map_imp, int_beq, ℤ, Done,
  Exec, Result-cases, Error, Result, ◌==◌, nat_equality, string_equality, option_beq,
  option_beq_iff, option_equality, pair_beq, pair_beq_iff, pair_equality, beq_refl, Equality,
  select, scalar, exists_row, update_rows, count_rows, exists_row-append, scalar-append,
  select-append, exists_row-eq-scalar, scalar_holds, length-update_rows, exists_row-update_rows,
  All-update_rows, scalar-update_rows, scalar-update_rows_ne, ℕ, zero, suc, ◌+◌, ◌-◌, ◌*◌, ◌/◌, ◌%◌,
  ◌≤◌, ◌<◌, min, max, String, ◌≡◌, refl, sym, ap, ◌∙◌, subst, ◌≢◌, ◌↔◌, ◌⊎◌, inl, inr, Bool, true,
  false, not, ◌&&◌, ◌||◌, Option, none, some, List, [], ◌∷◌, ◌++◌, map, arith, eq_iff, ok, err,
  integrity_error, sqlalchemy_error, http_status_error, unexpected_error, queue_error,
  receive_error, message_decode_error, acknowledgement_error, persisted_event_not_found,
  recorded_delivery_inconsistent, outbox_entry_not_found, backlog_inspection_error,
  redrive_policy_error, value_error, pos, negsuc,
}
use trackrelay.Domain.Delivery.{DeliveryAttemptResult, transport_error}
use trackrelay.Domain.Event.{Uuid, NormalizedEvent}
use trackrelay.Models.{DeliveryAttempt, Database}
use trackrelay.Models.Insert.{insert_attempt}

pub record DeliveryResult : Type 0 where
  pub downstream_status_code : ℕ

-- What a POST comes to: a response with its status and the text of its HTTPStatusError, a
-- TransportError, or any other exception of the call (a decoding error, a bad URL, an interrupt).
pub data HttpOutcome : Type 0 where
  response : ℕ → String → HttpOutcome
  transport_failure : String → HttpOutcome
  other_failure : String → HttpOutcome

pub record HttpClient (S : Type 0) : Type 0 where
  pub post : NormalizedEvent → Option Uuid → S → HttpOutcome × S

-- `str(error)[:1000]`
unfoldable pub truncated : ℕ → String → String
truncated zero s = String.[]
truncated (suc n) String.[] = String.[]
truncated (suc n) (String.◌∷◌ c s) = String.◌∷◌ c (truncated n s)

-- The largest attempt number of an event, if there is one.
unfoldable pub max_attempt_number : Uuid → List DeliveryAttempt → Option ℕ
max_attempt_number event_id [] = none
max_attempt_number event_id (a ∷ as') =
    let rest = max_attempt_number event_id as' in
    if a.event_id == event_id then some (max a.attempt_number (or_zero rest)) else rest

-- What one call writes to its row.
pub record AttemptOutcome : Type 0 where
  pub result : DeliveryAttemptResult
  pub response_code : Option ℕ
  pub error : Option String

-- What the clocks and `uuid4` give to one call. The elapsed time is already rounded.
pub record AttemptClock : Type 0 where
  pub attempt_id : Uuid
  pub started_at : ℕ
  pub completed_at : ℕ
  pub elapsed_ms : ℤ

abbrev pub max_zero : ℤ → ℕ
max_zero (pos n) = n
max_zero (negsuc _) = 0

-- The SELECT takes no lock: `seen` are the attempts that it reads, and `db` is what has been committed
-- when the flush inserts the row.
abbrev pub record_attempt_after :
    Uuid → AttemptOutcome → AttemptClock → List DeliveryAttempt → Database → Result Database
record_attempt_after event_id outcome clock seen db =
    insert_attempt
      (record {
        id = clock.attempt_id;
        event_id = event_id;
        attempt_number = or_zero (max_attempt_number event_id seen) + 1;
        result = outcome.result;
        response_code = outcome.response_code;
        latency_ms = max_zero clock.elapsed_ms;
        error = outcome.error;
        started_at = clock.started_at;
        completed_at = clock.completed_at;
      })
      db

-- The call when no other transaction commits an attempt of the event between the two.
unfoldable pub record_delivery_attempt :
    Uuid → AttemptOutcome → AttemptClock → Database → Result Database
unfolding insert_attempt max_attempt_number
record_delivery_attempt event_id outcome clock db =
    record_attempt_after event_id outcome clock db.attempts db

-- `raise_for_status`: httpx raises for every status outside 2xx.
abbrev pub is_success : ℕ → Bool
is_success code = leb 200 code && ltb code 300

abbrev pub delivery_of : HttpOutcome → Result DeliveryResult
delivery_of (response code text) =
    if is_success code
    then ok (record { downstream_status_code = code })
    else err (http_status_error code text)
delivery_of (transport_failure text) = err (Error.transport_error text)
delivery_of (other_failure text) = err (unexpected_error text)

-- The `except` clauses. Any other exception leaves the three variables as they were initialised.
abbrev pub attempt_outcome : Result DeliveryResult → AttemptOutcome
attempt_outcome (ok delivery) = record {
  result = DeliveryAttemptResult.delivered;
  response_code = some delivery.downstream_status_code;
  error = none;
}
attempt_outcome (err (http_status_error code text)) = record {
  result = DeliveryAttemptResult.http_error;
  response_code = some code;
  error = some (truncated 1000 text);
}
attempt_outcome (err (Error.transport_error text)) = record {
  result = DeliveryAttemptResult.transport_error;
  response_code = none;
  error = some (truncated 1000 text);
}
attempt_outcome (err _) = record {
  result = DeliveryAttemptResult.delivered;
  response_code = none;
  error = none;
}

-- The `finally` clause: an exception of the record replaces what the call returns or raises.
abbrev pub finish_attempt :
    {S : Type 0}
    → Result DeliveryResult
    → Result Database
    → Database
    → S
    → Result DeliveryResult × Database × S
finish_attempt delivery (ok db') db s = (delivery, db', s)
finish_attempt delivery (err e) db s = (err e, db, s)

module _ {S : Type 0} (client : HttpClient S) where
  unfoldable pub deliver_normalized_event :
      NormalizedEvent → Option Uuid → S → Result DeliveryResult × S
  deliver_normalized_event event idempotency_key s =
      let (outcome, s') = client.post event idempotency_key s in (delivery_of outcome, s')

  unfoldable pub deliver_and_record_normalized_event :
      AttemptClock → NormalizedEvent → Uuid → Database → S → Result DeliveryResult × Database × S
  unfolding deliver_normalized_event record_delivery_attempt truncated
  deliver_and_record_normalized_event clock event event_id db s =
      let (delivery, s') = deliver_normalized_event event (some event_id) s in
      finish_attempt delivery (record_delivery_attempt event_id (attempt_outcome delivery) clock db)
        db s'
