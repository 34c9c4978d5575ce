-- ===== src/SqsDelivery/Backlog.antt =====
-- sqs_delivery.py: inspect_sqs_delivery_backlog, the counts by which a drain is judged.
pub mod Counts
use trackrelay.Prelude.{
  ℤ, ◌>>=◌, Exec, Result, string_equality, nat_equality, option_equality, pair_equality, ℕ, String,
  Option, some, [], ◌∷◌, ok, err, backlog_inspection_error, pos, negsuc,
}
use trackrelay.Domain.Json.{Fields, get}
use trackrelay.SqsDelivery.{
  SqsClient, Python, int_of, raise_for_client, raise_for_value, mapping_of,
}

pub record SqsDeliveryBacklog : Type 0 where
  pub source_visible_messages : ℕ
  pub source_in_flight_messages : ℕ
  pub source_delayed_messages : ℕ
  pub dead_letter_queue_messages : ℕ

-- `if count < 0: raise`
abbrev pub not_negative : ℤ → Result ℕ
not_negative (pos n) = ok n
not_negative (negsuc n) = err backlog_inspection_error

abbrev pub queue_count : Python → Fields → String → Result ℕ
queue_count python attributes attribute_name = do
  count ← raise_for_value backlog_inspection_error (int_of python (get attribute_name attributes))
  not_negative count

-- Either response without its attributes is refused before a count is read.
abbrev pub both_mappings : Option Fields → Option Fields → Result (Fields × Fields)
both_mappings (some source) (some dead_letter) = ok (source, dead_letter)
both_mappings _ _ = err backlog_inspection_error

abbrev pub backlog_of : Python → Fields → Fields → Result SqsDeliveryBacklog
backlog_of python source_response dead_letter_response = do
  attributes ←
      both_mappings (mapping_of (get "Attributes" source_response))
        (mapping_of (get "Attributes" dead_letter_response))
  visible ← queue_count python attributes.0 "ApproximateNumberOfMessages"
  in_flight ← queue_count python attributes.0 "ApproximateNumberOfMessagesNotVisible"
  delayed ← queue_count python attributes.0 "ApproximateNumberOfMessagesDelayed"
  dead_letter ← queue_count python attributes.1 "ApproximateNumberOfMessages"
  ok (record {
    source_visible_messages = visible;
    source_in_flight_messages = in_flight;
    source_delayed_messages = delayed;
    dead_letter_queue_messages = dead_letter;
  })

module _ (python : Python) {W : Type 0} (client : SqsClient W)
    (source_queue_url dead_letter_queue_url : String) where
  -- The second queue is asked when the first has answered.
  abbrev pub ask_dead_letter : Result Fields → Exec W SqsDeliveryBacklog
  ask_dead_letter (err raised) w = (raise_for_client backlog_inspection_error (err raised), w)
  ask_dead_letter (ok source_response) w =
      let (answered, w') =
        client.get_queue_attributes dead_letter_queue_url ("ApproximateNumberOfMessages" ∷ []) w in
      (raise_for_client backlog_inspection_error answered >>= backlog_of python source_response, w')

  unfoldable pub inspect_sqs_delivery_backlog : Exec W SqsDeliveryBacklog
  inspect_sqs_delivery_backlog w =
      let (answered, w') =
        client.get_queue_attributes source_queue_url
          ("ApproximateNumberOfMessages" ∷ "ApproximateNumberOfMessagesNotVisible"
            ∷ "ApproximateNumberOfMessagesDelayed" ∷ [])
          w in
      ask_dead_letter answered w'
