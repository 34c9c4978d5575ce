-- ===== src/SqsDelivery.antt =====
-- sqs_delivery.py: the queue, the messages and the receiver over SQS. boto3's client, json.loads, the
-- JSON form of a job and Python's int() of a text or a float are parameters; what the client answers
-- is made of JSON values. TypeError and ValueError, which the code catches together, are one error.
pub mod Backlog
pub mod Redrive
pub mod Receiving
pub mod Outcomes
use trackrelay.Prelude.{
  ltb, leb, nat_beq, if◌then◌else◌, nat_beq_iff, Bool-cases, Option-cases, is_none, or_zero,
  empty-set_of, empty-union, difference-All, empty-select, empty-length, empty-map, All-of_map,
  empty-keys, length, take, length-append, length-map, All, All-append, All-map_imp, int_beq,
  int_beq_refl, ℤ, insert_by, sort_by, length-sort_by, member-sort_by, sort_by-Nodup, Done, ◌>>=◌,
  ◌>>◌, Exec, Result-cases, Error, Result, count_rows-le, count_rows_mono, count_rows-map, map-map,
  map_same, set_of-eq, select-Nodup, All-member, is_subset-All, Nodup-map-select, keys-map,
  member-lookup, dict_of-eq, member-keys-select, keys-select-Nodup, length-keys, length-values,
  keys-select-All, lookup_item, keys-All, All-and, ◌==◌, string_equality, nat_equality, option_beq,
  option_beq_iff, option_equality, pair_beq, pair_beq_iff, pair_equality, beq_refl, Equality,
  member, add, add_all, set_of, union, difference, is_subset, same_set, Nodup, member-append,
  add_all-Nodup, member-add_all, length-le-count_rows, length-set_of, set_of-Nodup, union-Nodup,
  member-set_of, member-union, lookup, put, put_all, dict_of, keys, values, member-put,
  put_all-Nodup, member-put_all, lookup-put, member-eq-lookup, dict_of-Nodup, member-dict_of,
  select, scalar, exists_row, update_rows, count_rows, exists_row-append, scalar-append,
  select-append, exists_row-eq-scalar, scalar_holds, length-update_rows, exists_row-update_rows,
  All-update_rows, scalar-update_rows, scalar-update_rows_ne, ℕ, zero, suc, ◌+◌, ◌-◌, ◌*◌, ◌/◌, ◌%◌,
  ◌≤◌, ◌<◌, min, max, String, ◌≡◌, refl, sym, ap, ◌∙◌, subst, ◌≢◌, ◌↔◌, ◌⊎◌, inl, inr, Bool, true,
  false, not, ◌&&◌, ◌||◌, Option, none, some, List, [], ◌∷◌, ◌++◌, map, arith, eq_iff, ok, err,
  integrity_error, sqlalchemy_error, http_status_error, transport_error, unexpected_error,
  queue_error, receive_error, message_decode_error, acknowledgement_error,
  persisted_event_not_found, recorded_delivery_inconsistent, outbox_entry_not_found,
  backlog_inspection_error, redrive_policy_error, validation_error, experiment_reset_error,
  test_run_not_found, test_run_definition_mismatch, key_error, client_error, overflow_error,
  value_error, pos, negsuc,
}
use trackrelay.Domain.Json.{
  Json, Items, Fields, get, null, bool, int, float, str, arr, obj, nil, cons,
}
use trackrelay.Services.DeliveryQueue.{
  DownstreamDeliveryJob, DownstreamDeliveryQueue, DownstreamDeliveryMessage,
}

-- `SqsClient`: an answer that the code does not read is left out.
pub record SqsClient (W : Type 0) : Type 0 where
  pub send_message : String → String → Exec W Done
  -- the queue's URL, MaxNumberOfMessages, WaitTimeSeconds and VisibilityTimeout
  pub receive_message : String → ℤ → ℤ → ℤ → Exec W Fields
  pub delete_message : String → String → Exec W Done
  pub get_queue_attributes : String → List String → Exec W Fields

-- Python's `int` on a text and on a float, and json.loads.
pub record Python : Type 0 where
  pub int_of_text : String → Option ℤ
  pub int_of_float : ℕ → Result ℤ
  pub loads : String → Result Json

-- `int(value)`, where the value may be `None`
abbrev pub int_of : Python → Option Json → Result ℤ
int_of python none = err value_error
int_of python (some null) = err value_error
int_of python (some (bool b)) = ok (if b then pos 1 else pos 0)
int_of python (some (int z)) = ok z
int_of python (some (float bits)) = python.int_of_float bits
int_of python (some (str s)) = elim (python.int_of_text s) [
  | none ↦ err value_error
  | some z ↦ ok z
]
int_of python (some (arr _)) = err value_error
int_of python (some (obj _)) = err value_error

-- pydantic's JSON form of a job: `model_dump_json` and `model_validate_json`
pub record JobJson : Type 0 where
  pub dump_json : DownstreamDeliveryJob → String
  pub validate_json : String → Result DownstreamDeliveryJob

-- `except (BotoCoreError, ClientError) as error: raise …` and `except (TypeError, ValueError) …`
module _ {ℓ} {A : Type ℓ} where
  abbrev pub raise_for_client : Error → Result A → Result A
  raise_for_client instead (ok a) = ok a
  raise_for_client instead (err client_error) = err instead
  raise_for_client instead (err raised) = err raised

  abbrev pub raise_for_value : Error → Result A → Result A
  raise_for_value instead (ok a) = ok a
  raise_for_value instead (err value_error) = err instead
  raise_for_value instead (err raised) = err raised

-- `except (ValidationError, ValueError)`: ValidationError is a ValueError.
abbrev pub raise_for_decoding : Result DownstreamDeliveryJob → Result DownstreamDeliveryJob
raise_for_decoding (ok job) = ok job
raise_for_decoding (err validation_error) = err message_decode_error
raise_for_decoding (err value_error) = err message_decode_error
raise_for_decoding (err raised) = err raised

-- `isinstance(value, str)` and `isinstance(value, Mapping)`, with the value
abbrev pub text_of : Option Json → Option String
text_of (some (str s)) = some s
text_of _ = none

abbrev pub mapping_of : Option Json → Option Fields
mapping_of (some (obj fields)) = some fields
mapping_of _ = none

-- `low <= z <= high`
abbrev pub between : ℕ → ℕ → ℤ → Bool
between low high (pos n) = leb low n && leb n high
between low high (negsuc n) = false

-- `n if n >= 1`
abbrev pub positive : ℤ → Option ℕ
positive (negsuc n) = none
positive (pos zero) = none
positive (pos (suc n)) = some (suc n)

module _ (json : JobJson) {W : Type 0} (client : SqsClient W) (queue_url : String) where
  -- `SqsDownstreamDeliveryQueue.enqueue`
  unfoldable pub sqs_enqueue : DownstreamDeliveryJob → Exec W Done
  sqs_enqueue job w =
      let (sent, w') = client.send_message queue_url (json.dump_json job) w in
      (raise_for_client queue_error sent, w')

  abbrev pub sqs_queue : DownstreamDeliveryQueue W
  unfolding sqs_enqueue
  sqs_queue = record { enqueue = sqs_enqueue }

  -- `SqsDownstreamDeliveryMessage.acknowledge`
  abbrev pub sqs_acknowledge : String → Exec W Done
  sqs_acknowledge receipt_handle w =
      let (deleted, w') = client.delete_message queue_url receipt_handle w in
      (raise_for_client acknowledgement_error deleted, w')

  -- `SqsDownstreamDeliveryMessage`
  unfoldable pub sqs_message : String → String → ℤ → Result (DownstreamDeliveryMessage W)
  sqs_message body receipt_handle receive_count = elim (positive receive_count) [
    | none ↦ err value_error
    | some n ↦ ok (record {
      job = raise_for_decoding (json.validate_json body);
      receive_count = n;
      acknowledge = sqs_acknowledge receipt_handle;
    })
  ]

-- `SqsDownstreamDeliveryReceiver`
pub record SqsReceiver : Type 0 where
  pub wait_time_seconds : ℤ
  pub visibility_timeout_seconds : ℤ
  pub max_messages : ℤ

unfoldable pub sqs_receiver : ℤ → ℤ → ℤ → Result SqsReceiver
sqs_receiver wait_time_seconds visibility_timeout_seconds max_messages =
    if not (between 0 20 wait_time_seconds)
    then err value_error
    else if not (between 1 43200 visibility_timeout_seconds)
    then err value_error
    else if not (between 1 10 max_messages)
    then err value_error
    else ok (record {
      wait_time_seconds = wait_time_seconds;
      visibility_timeout_seconds = visibility_timeout_seconds;
      max_messages = max_messages;
    })

-- `response.get("Messages", ())`, when it is a list
abbrev pub raw_messages : Option Json → Result Items
raw_messages none = ok nil
raw_messages (some (arr items)) = ok items
raw_messages (some _) = err receive_error

-- `raise DownstreamDeliveryReceiveError` when a field is not of its type
abbrev pub required {ℓ} : {A : Type ℓ} → Option A → Result A
required none = err receive_error
required (some a) = ok a

module _ (python : Python) (json : JobJson) {W : Type 0} (client : SqsClient W)
    (queue_url : String) where
  -- One round of the loop over the raw messages, and the loop.
  unfoldable pub wrap_message : Json → Result (DownstreamDeliveryMessage W)
  unfolding sqs_message
  wrap_message raw = do
    fields ← required (mapping_of (some raw))
    body ← required (text_of (get "Body" fields))
    receipt_handle ← required (text_of (get "ReceiptHandle" fields))
    attributes ← required (mapping_of (get "Attributes" fields))
    count ← raise_for_value receive_error (int_of python (get "ApproximateReceiveCount" attributes))
    n ← required (positive count)
    sqs_message json client queue_url body receipt_handle (pos n)

  unfoldable pub wrap_messages : Items → Result (List (DownstreamDeliveryMessage W))
  unfolding wrap_message
  wrap_messages nil = ok []
  wrap_messages (cons raw items) = do
    message ← wrap_message raw
    rest ← wrap_messages items
    ok (message ∷ rest)

  abbrev pub unpack : Result Fields → Result (List (DownstreamDeliveryMessage W))
  unfolding wrap_messages
  unpack answered = do
    response ← raise_for_client receive_error answered
    items ← raw_messages (get "Messages" response)
    wrap_messages items

  -- `SqsDownstreamDeliveryReceiver.receive`
  unfoldable pub sqs_receive : SqsReceiver → Exec W (List (DownstreamDeliveryMessage W))
  unfolding wrap_messages
  sqs_receive receiver w =
      let (answered, w') =
        client.receive_message queue_url receiver.max_messages receiver.wait_time_seconds
          receiver.visibility_timeout_seconds w in
      (unpack answered, w')
