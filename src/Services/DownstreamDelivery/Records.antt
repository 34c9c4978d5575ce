-- ===== src/Services/DownstreamDelivery/Records.antt =====
-- The durable record of an attempt: when it succeeds, how it is numbered, and what it says.
use trackrelay.Prelude.{
  ◌∙◌, exists_row-append, beq_refl, if◌then◌else◌, or_zero, Result, ◌==◌, nat_equality,
  string_equality, option_equality, pair_equality, exists_row, ℕ, ◌+◌, ◌<◌, ◌≡◌, refl, true, false,
  not, ◌&&◌, some, List, [], ◌∷◌, ◌++◌, arith, ok, err, integrity_error,
}
use trackrelay.Domain.Delivery.{is_delivered}
use trackrelay.Domain.Event.{Uuid}
use trackrelay.Models.{DeliveryAttempt, Database}
use trackrelay.Models.Insert.{insert_attempt, has_event}
use trackrelay.Services.DownstreamDelivery.{
  AttemptOutcome, AttemptClock, DeliveryResult, attempt_outcome, max_attempt_number, max_zero,
  record_attempt_after, record_delivery_attempt,
}

module _ (event_id : Uuid) (outcome : AttemptOutcome) (clock : AttemptClock) where
  -- The number that the next attempt of the event gets.
  abbrev pub next_number : List DeliveryAttempt → ℕ
  next_number rows = or_zero (max_attempt_number event_id rows) + 1

  abbrev pub attempt_row : List DeliveryAttempt → DeliveryAttempt
  attempt_row rows = record {
    id = clock.attempt_id;
    event_id = event_id;
    attempt_number = next_number rows;
    result = outcome.result;
    response_code = outcome.response_code;
    latency_ms = max_zero clock.elapsed_ms;
    error = outcome.error;
    started_at = clock.started_at;
    completed_at = clock.completed_at;
  }

  -- Every attempt of the event has a smaller number.
  all_smaller :
      (rows : List DeliveryAttempt) (n : ℕ)
      → or_zero (max_attempt_number event_id rows) < n
      → exists_row (λ b. b.event_id == event_id && b.attempt_number == n) rows ≡ false
  unfolding max_attempt_number
  all_smaller [] n h = refl
  all_smaller (b ∷ rows) n h = ground (arith, all_smaller rows n)

  -- What the flush comes to, for whatever attempts the SELECT has seen.
  abbrev pub inserted : List DeliveryAttempt → Database → Result Database
  inserted seen db =
      if has_event event_id db
        && not (exists_row (λ b. b.id == clock.attempt_id) db.attempts)
        && not (
            exists_row (λ b. b.event_id == event_id && b.attempt_number == next_number seen)
              db.attempts)
      then ok (record db { attempts = db.attempts ++ attempt_row seen ∷ [] })
      else err integrity_error

  insert-eq-inserted :
      (seen : List DeliveryAttempt) (db : Database)
      → record_attempt_after event_id outcome clock seen db ≡ inserted seen db
  unfolding insert_attempt
  insert-eq-inserted seen db = ground arith

  pub record_alone :
      (db : Database)
      → record_delivery_attempt event_id outcome clock db ≡ (
          if has_event event_id db && not (exists_row (λ b. b.id == clock.attempt_id) db.attempts)
          then ok (record db { attempts = db.attempts ++ attempt_row db.attempts ∷ [] })
          else err integrity_error)
  unfolding record_delivery_attempt insert_attempt
  record_alone db = ground (arith, all_smaller db.attempts (next_number db.attempts))

number_taken :
    (event_id : Uuid) (rows : List DeliveryAttempt) (row : DeliveryAttempt)
    → row.event_id ≡ event_id
    → exists_row
        (λ b. b.event_id == event_id && b.attempt_number == row.attempt_number)
        (rows ++ row ∷ [])
      ≡ true
number_taken event_id rows row own = ground (
  arith,
  exists_row-append (λ b. b.event_id == event_id && b.attempt_number == row.attempt_number) rows
      (row ∷ []),
  own,
  nat_equality.equal_iff row.event_id event_id,
  beq_refl row.attempt_number,
)

pub record_attempt_exact :
    (event_id : Uuid) (outcome : AttemptOutcome) (clock : AttemptClock)
    (other_outcome : AttemptOutcome) (other_clock : AttemptClock) (seen : List DeliveryAttempt)
    (db : Database)
    → (record_attempt_after event_id outcome clock seen db
        ≡ inserted event_id outcome clock seen db)
      × (record_delivery_attempt event_id outcome clock db ≡ (
          if has_event event_id db && not (exists_row (λ b. b.id == clock.attempt_id) db.attempts)
          then ok (record db {
            attempts = db.attempts ++ attempt_row event_id outcome clock db.attempts ∷ [];
          })
          else err integrity_error))
      × (record_attempt_after event_id other_outcome other_clock seen
            (record db { attempts = db.attempts ++ attempt_row event_id outcome clock seen ∷ [] })
          ≡ err integrity_error)
record_attempt_exact event_id outcome clock other_outcome other_clock seen db = (
  insert-eq-inserted event_id outcome clock seen db,
  record_alone event_id outcome clock db,
  insert-eq-inserted event_id other_outcome other_clock seen
        (record db { attempts = db.attempts ++ attempt_row event_id outcome clock seen ∷ [] })
      ∙ ground
          (arith, number_taken event_id db.attempts (attempt_row event_id outcome clock seen) refl),
)

-- The outcome of a call that an exception other than the two of httpx ended is that of a delivery
-- without a response code.
pub outcome-code :
    (delivery : Result DeliveryResult) (code : ℕ)
    → is_delivered (attempt_outcome delivery).result ≡ true
    → (attempt_outcome delivery).response_code ≡ some code
    → delivery ≡ ok (record { downstream_status_code = code })
outcome-code delivery code h c = ground arith
