-- ===== src/Tests/Sqs.antt =====
-- One SQS queue that holds the bodies sent to it, and what its worker reads.
use trackrelay.Prelude.{
  if◌then◌else◌, All, ◌==◌, string_equality, nat_equality, option_equality, pair_equality, ℕ, zero,
  suc, ◌≤◌, String, ◌≡◌, refl, ap, inr, some, List, [], ◌∷◌, ◌++◌, map, arith, ok, err,
  overflow_error, pos,
}
use trackrelay.Domain.Json.{Fields, str, int, obj, arr, end, field}
use trackrelay.Services.DeliveryQueue.{delivery_job}
use trackrelay.SqsDelivery.{SqsClient, Python, JobJson, SqsReceiver, sqs_receive}
use trackrelay.SqsDelivery.Receiving.{InFlight, wire_items, message_of, receive-wire}
use trackrelay.SqsDelivery.Outcomes.{RaisesKnown, IsUsable, Outcome, receive-Outcome}
use trackrelay.SqsDelivery.Backlog.{SqsDeliveryBacklog, inspect_sqs_delivery_backlog}
use trackrelay.SqsDelivery.Backlog.Counts.{source_answer, dead_letter_answer, inspect-answers}
use trackrelay.SqsDelivery.Redrive.{SqsRedrivePolicy, verify_sqs_redrive_policy}
use trackrelay.SqsDelivery.Redrive.Acceptance.{verify_expected, verify_accepts}

-- Numbers printed as so many strokes, and read back.
abbrev pub strokes : ℕ → String
strokes zero = ""
strokes (suc n) = String.◌∷◌ "|" (strokes n)

abbrev pub count_strokes : String → ℕ
count_strokes String.[] = 0
count_strokes (String.◌∷◌ c s) = suc (count_strokes s)

pub count-strokes : (n : ℕ) → count_strokes (strokes n) ≡ n
count-strokes zero = refl
count-strokes (suc n) = ap suc (count-strokes n)

abbrev job_json : JobJson
job_json = record {
  dump_json = λ job. strokes job.event_id;
  validate_json = λ body. ok (delivery_job (count_strokes body));
}

abbrev policy_fields : Fields
policy_fields =
    field "deadLetterTargetArn" (str "arn:dlq") (field "maxReceiveCount" (int (pos 5)) end)

abbrev python : Python
python = record {
  int_of_text = λ s. some (pos (count_strokes s));
  int_of_float = λ bits. err overflow_error;
  loads = λ s. ok (obj policy_fields);
}

abbrev in_flight : InFlight
in_flight = record { event_id = 7; receipt_handle = "handle"; receive_count = 2 }

-- A client of one queue, which delivers one job and keeps what is sent to it.
abbrev list_client : SqsClient (List String)
list_client = record {
  send_message = λ url body w. (ok tt, w ++ body ∷ []);
  receive_message = λ url most wait visibility w.
      (ok (field "Messages" (arr (wire_items job_json strokes (in_flight ∷ []))) end), w);
  delete_message = λ url handle w. (ok tt, w);
  get_queue_attributes = λ url names w.
      (ok (field "Attributes" (obj (field "RedrivePolicy" (str "policy") end)) end), w);
}

abbrev receiver : SqsReceiver
receiver = record {
  wait_time_seconds = pos 20;
  visibility_timeout_seconds = pos 30;
  max_messages = pos 10;
}

receive-wire_example :
    (sqs_receive python job_json list_client "url" receiver []).0
    ≡ ok (map (message_of python job_json strokes list_client "url") (in_flight ∷ []))
receive-wire_example =
    receive-wire python job_json strokes list_client "url" receiver (in_flight ∷ []) []
      (λ id. ap (λ n. ok (delivery_job n)) (count-strokes id))
      (λ n. ap (λ m. some (pos m)) (count-strokes n)) (omega arith, tt) refl

client_known : RaisesKnown python job_json list_client
client_known = record {
  receiving = λ url most wait visibility w e h. absurd (ground (arith, h));
  decoding = λ body e h. absurd (ground (arith, h));
  rounding = λ bits e h. inr (ground (arith, h));
}

receive-Outcome_example :
    Outcome (All IsUsable) (sqs_receive python job_json list_client "url" receiver []).0
receive-Outcome_example = receive-Outcome python job_json list_client "url" receiver [] client_known

abbrev expected : SqsRedrivePolicy
expected = record { dead_letter_target_arn = "arn:dlq"; max_receive_count = pos 5 }

verifies : (verify_sqs_redrive_policy python list_client "url" "arn:dlq" (pos 5) []).0 ≡ ok expected
unfolding verify_sqs_redrive_policy
verifies = refl

verify_expected_example :
    ((n : ℕ) × (pos 5 ≡ pos n) × (1 ≤ n))
    × (expected ≡ record { dead_letter_target_arn = "arn:dlq"; max_receive_count = pos 5 })
verify_expected_example =
    verify_expected python list_client "url" "arn:dlq" (pos 5) expected [] verifies

accepts_policy :
    (verify_sqs_redrive_policy python list_client "url" "arn:dlq" (pos 5) []).0
    ≡ ok (record { dead_letter_target_arn = "arn:dlq"; max_receive_count = pos 5 })
accepts_policy =
    verify_accepts python list_client "url" "arn:dlq" "policy" 5 [] (omega arith) refl refl refl

-- Two queues that report their counts.
abbrev some_backlog : SqsDeliveryBacklog
some_backlog = record {
  source_visible_messages = 4;
  source_in_flight_messages = 1;
  source_delayed_messages = 0;
  dead_letter_queue_messages = 2;
}

abbrev counting_client : SqsClient (List String)
counting_client = record list_client {
  get_queue_attributes = λ url names w. (
    ok (
        if url == "dead-letter"
        then dead_letter_answer strokes some_backlog
        else source_answer strokes some_backlog),
    w,
  );
}

inspect-answers_example :
    inspect_sqs_delivery_backlog python counting_client "source" "dead-letter" []
    ≡ (ok some_backlog, [])
inspect-answers_example =
    inspect-answers python strokes counting_client "source" "dead-letter" some_backlog [] [] []
      (λ n. ap (λ m. some (pos m)) (count-strokes n)) refl refl
