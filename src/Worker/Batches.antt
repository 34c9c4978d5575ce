-- ===== src/Worker/Batches.antt =====
-- A failed message neither stops nor spoils the rest of its batch.
use trackrelay.Prelude.{
  length, Exec, Result, nat_equality, string_equality, option_equality, pair_equality, count_rows,
  ℕ, suc, ◌+◌, ◌≡◌, refl, ap, ◌∙◌, Bool, true, false, not, Option, List, [], ◌∷◌, arith, ok, err,
}
use trackrelay.Domain.Event.{Uuid, NormalizedEvent}
use trackrelay.Services.DeliveryQueue.{DownstreamDeliveryMessage}
use trackrelay.Services.DownstreamDelivery.{DeliveryResult}
use trackrelay.Worker.{tally, process, process_messages, process_worker_batch}

module _ {W : Type 0} (deliver_and_record_event : NormalizedEvent → Uuid → Exec W DeliveryResult)
    (load_event : Uuid → Exec W NormalizedEvent)
    (load_recorded_delivery : Uuid → Exec W (Option DeliveryResult)) where
  abbrev step : DownstreamDeliveryMessage W → Exec W DeliveryResult
  step = process deliver_and_record_event load_event load_recorded_delivery

  -- Each message processed on its own, from the state that those before it left.
  abbrev pub results : List (DownstreamDeliveryMessage W) → W → List (Result DeliveryResult) × W
  results [] w = ([], w)
  results (m ∷ ms) w = let (r, w') = step m w in let (rs, last) = results ms w' in (r ∷ rs, last)

  abbrev pub is_ok : Result DeliveryResult → Bool
  is_ok (ok _) = true
  is_ok (err _) = false

  -- the two counts of a list of results
  abbrev pub succeeded : List (Result DeliveryResult) → ℕ
  succeeded = count_rows is_ok

  abbrev pub raised : List (Result DeliveryResult) → ℕ
  raised = count_rows (λ r. not (is_ok r))

  tally-count :
      (r : Result DeliveryResult) (counts : ℕ × ℕ) (rs : List (Result DeliveryResult))
      → ((tally r counts).0 + succeeded rs ≡ counts.0 + succeeded (r ∷ rs))
        × ((tally r counts).1 + raised rs ≡ counts.1 + raised (r ∷ rs))
  tally-count (ok d) counts rs = omega arith
  tally-count (err e) counts rs = omega arith

  process_messages-results :
      (ms : List (DownstreamDeliveryMessage W)) (counts : ℕ × ℕ) (w : W)
      → process_messages deliver_and_record_event load_event load_recorded_delivery ms counts w
        ≡ (let (rs, last) = results ms w in ((counts.0 + succeeded rs, counts.1 + raised rs), last))
  unfolding process_messages
  process_messages-results [] counts w = ground arith
  process_messages-results (m ∷ ms) counts w =
      let (r, w') = step m w in
      let (sums0, sums1) = tally-count r counts (results ms w').0 in
      process_messages-results ms (tally r counts) w'
      ∙ (λ i. ((sums0 i, sums1 i), (results ms w').1))

  succeeded_or_raised : (rs : List (Result DeliveryResult)) → succeeded rs + raised rs ≡ length rs
  succeeded_or_raised [] = omega arith
  succeeded_or_raised (ok d ∷ rs) = omega (arith, succeeded_or_raised rs)
  succeeded_or_raised (err e ∷ rs) = omega (arith, succeeded_or_raised rs)

  length-results :
      (ms : List (DownstreamDeliveryMessage W)) (w : W) → length (results ms w).0 ≡ length ms
  length-results [] w = refl
  length-results (m ∷ ms) w = ap suc (length-results ms (step m w).1)

  -- A batch processes every message once, in order, each from the state that those before it left,
  -- whether they succeeded or raised. Its report counts the successes and the failures, and the two
  -- add up to the messages received.
  pub batch_exact :
      (ms : List (DownstreamDeliveryMessage W)) (w : W)
      → let (report, last) =
          process_worker_batch deliver_and_record_event load_event load_recorded_delivery ms w in
        (last ≡ (results ms w).1)
        × (report.delivered_and_acknowledged ≡ succeeded (results ms w).0)
        × (report.failed_and_unacknowledged ≡ raised (results ms w).0)
        × (report.delivered_and_acknowledged + report.failed_and_unacknowledged ≡ report.received)
  unfolding process_worker_batch
  batch_exact ms w = ground (
    arith,
    process_messages-results ms (0, 0) w,
    succeeded_or_raised (results ms w).0,
    length-results ms w,
  )
