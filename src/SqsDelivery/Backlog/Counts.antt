-- ===== src/SqsDelivery/Backlog/Counts.antt =====
-- The backlog that is inspected is what the two queues report.
use trackrelay.Prelude.{
  string_equality, nat_equality, option_equality, pair_equality, ℕ, String, ◌≡◌, refl, some, [],
  ◌∷◌, ok, pos,
}
use trackrelay.Domain.Json.{Fields, str, obj, end, field}
use trackrelay.SqsDelivery.{SqsClient, Python, int_of}
use trackrelay.SqsDelivery.Backlog.{
  SqsDeliveryBacklog, ask_dead_letter, inspect_sqs_delivery_backlog,
}

-- The answers of the two queues, in the form of SQS: every count is a text.
abbrev pub source_answer : (ℕ → String) → SqsDeliveryBacklog → Fields
source_answer show b =
    field "Attributes"
      (obj (
        field "ApproximateNumberOfMessages" (str (show b.source_visible_messages)) (
          field "ApproximateNumberOfMessagesNotVisible" (str (show b.source_in_flight_messages)) (
            field "ApproximateNumberOfMessagesDelayed" (str (show b.source_delayed_messages))
              end))))
      end

abbrev pub dead_letter_answer : (ℕ → String) → SqsDeliveryBacklog → Fields
dead_letter_answer show b =
    field "Attributes"
      (obj (field "ApproximateNumberOfMessages" (str (show b.dead_letter_queue_messages)) end)) end

-- When both queues answer in the form of SQS and int() reads the counts that SQS prints, the inspection
-- returns exactly the four counts, the first three of the source queue and the last of the dead-letter
-- queue, asked in this order.
pub inspect-answers :
    (python : Python) (show : ℕ → String) {W : Type 0} (client : SqsClient W)
    (source dead_letter : String) (b : SqsDeliveryBacklog) (w w' w'' : W)
    → ((n : ℕ) → python.int_of_text (show n) ≡ some (pos n))
    → client.get_queue_attributes source
        ("ApproximateNumberOfMessages" ∷ "ApproximateNumberOfMessagesNotVisible"
          ∷ "ApproximateNumberOfMessagesDelayed" ∷ [])
        w
      ≡ (ok (source_answer show b), w')
    → client.get_queue_attributes dead_letter ("ApproximateNumberOfMessages" ∷ []) w'
      ≡ (ok (dead_letter_answer show b), w'')
    → inspect_sqs_delivery_backlog python client source dead_letter w ≡ (ok b, w'')
unfolding inspect_sqs_delivery_backlog
inspect-answers python show client source dead_letter b w w' w'' reads first second =
    rw
      (
        first,
        ask_dead_letter,
        second,
        int_of,
        reads b.source_visible_messages,
        reads b.source_in_flight_messages,
        reads b.source_delayed_messages,
        reads b.dead_letter_queue_messages,
      )
      refl
