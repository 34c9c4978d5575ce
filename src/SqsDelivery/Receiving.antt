-- ===== src/SqsDelivery/Receiving.antt =====
-- What the receiver makes of a response of SQS.
use trackrelay.Prelude.{
  All, string_equality, nat_equality, option_equality, pair_equality, ℕ, zero, suc, ◌≤◌, String,
  ◌≡◌, refl, ap, some, List, [], ◌∷◌, map, arith, ok, pos,
}
use trackrelay.Domain.Event.{Uuid}
use trackrelay.Domain.Json.{Json, Items, str, arr, obj, nil, cons, end, field}
use trackrelay.Services.DeliveryQueue.{delivery_job, DownstreamDeliveryMessage}
use trackrelay.SqsDelivery.{
  SqsClient, Python, int_of, JobJson, raise_for_decoding, positive, sqs_acknowledge, sqs_message,
  SqsReceiver, wrap_message, wrap_messages, sqs_receive,
}

positive-pos : (n : ℕ) → 1 ≤ n → positive (pos n) ≡ some n
positive-pos zero h = absurd (omega (arith, h))
positive-pos (suc n) h = refl

-- A job in flight, and the form in which SQS delivers it.
pub record InFlight : Type 0 where
  pub event_id : Uuid
  pub receipt_handle : String
  pub receive_count : ℕ

module _ (json : JobJson) (show : ℕ → String) where
  abbrev pub wire : InFlight → Json
  wire d = obj (
      field "Body" (str (json.dump_json (delivery_job d.event_id))) (
        field "ReceiptHandle" (str d.receipt_handle) (
          field "Attributes"
            (obj (field "ApproximateReceiveCount" (str (show d.receive_count)) end)) end)))

  abbrev pub wire_items : List InFlight → Items
  wire_items [] = nil
  wire_items (d ∷ ds) = cons (wire d) (wire_items ds)

module _ (python : Python) (json : JobJson) (show : ℕ → String) {W : Type 0} (client : SqsClient W)
    (queue_url : String) where
  abbrev pub message_of : InFlight → DownstreamDeliveryMessage W
  message_of d = record {
    job = ok (delivery_job d.event_id);
    receive_count = d.receive_count;
    acknowledge = sqs_acknowledge json client queue_url d.receipt_handle;
  }

  module _
      (decodes : (id : Uuid)
        → json.validate_json (json.dump_json (delivery_job id)) ≡ ok (delivery_job id))
      (reads : (n : ℕ) → python.int_of_text (show n) ≡ some (pos n)) where
    wrapped :
        (d : InFlight)
        → 1 ≤ d.receive_count
        → sqs_message json client queue_url
            (json.dump_json (delivery_job d.event_id))
            d.receipt_handle
            (pos d.receive_count)
          ≡ ok (message_of d)
    unfolding sqs_message
    wrapped d h =
        rw (sqs_message, positive-pos d.receive_count h)
          (ap
            (λ job. ok (record {
              job = raise_for_decoding job;
              receive_count = d.receive_count;
              acknowledge = sqs_acknowledge json client queue_url d.receipt_handle;
            }))
            (decodes d.event_id))

    wrap-wire :
        (d : InFlight)
        → 1 ≤ d.receive_count
        → wrap_message python json client queue_url (wire json show d) ≡ ok (message_of d)
    unfolding wrap_message
    wrap-wire d h = rw (int_of, reads d.receive_count, positive-pos d.receive_count h) (wrapped d h)

    wrap-wire_items :
        (ds : List InFlight)
        → All (λ d. 1 ≤ d.receive_count) ds
        → wrap_messages python json client queue_url (wire_items json show ds)
          ≡ ok (map message_of ds)
    unfolding wrap_messages
    wrap-wire_items [] h = refl
    wrap-wire_items (d ∷ ds) h = rw (wrap-wire d h.0, wrap-wire_items ds h.1) refl

-- Jobs that SQS delivers in its form, each received at least once, are received as they were sent and
-- in order, each with its count and with the acknowledgement of its receipt handle, when pydantic reads
-- the jobs that it printed and int() reads the counts that SQS prints.
pub receive-wire :
    (python : Python) (json : JobJson) (show : ℕ → String) {W : Type 0} (client : SqsClient W)
    (queue_url : String) (receiver : SqsReceiver) (ds : List InFlight) (w : W)
    → ((id : Uuid) → json.validate_json (json.dump_json (delivery_job id)) ≡ ok (delivery_job id))
    → ((n : ℕ) → python.int_of_text (show n) ≡ some (pos n))
    → All (λ d. 1 ≤ d.receive_count) ds
    → (client.receive_message queue_url receiver.max_messages receiver.wait_time_seconds
        receiver.visibility_timeout_seconds w).0
      ≡ ok (field "Messages" (arr (wire_items json show ds)) end)
    → (sqs_receive python json client queue_url receiver w).0
      ≡ ok (map (message_of python json show client queue_url) ds)
unfolding sqs_receive
receive-wire python json show client queue_url receiver ds w decodes reads counts answered =
    rw (answered) (wrap-wire_items python json show client queue_url decodes reads ds counts)
