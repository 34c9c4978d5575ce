-- ===== src/SqsDelivery/Redrive.antt =====
-- sqs_delivery.py: verify_sqs_redrive_policy, without which a worker does not start.
pub mod Acceptance
use trackrelay.Prelude.{
  ltb, if◌then◌else◌, int_beq, ℤ, ◌>>=◌, Exec, Result, ◌==◌, string_equality, nat_equality,
  option_equality, pair_equality, String, Bool, true, not, Option, none, some, [], ◌∷◌, ok, err,
  redrive_policy_error, key_error, value_error, pos, negsuc,
}
use trackrelay.Domain.Json.{Json, Fields, get, obj}
use trackrelay.SqsDelivery.{SqsClient, Python, int_of, raise_for_client, mapping_of, text_of}

pub record SqsRedrivePolicy : Type 0 where
  pub dead_letter_target_arn : String
  pub max_receive_count : ℤ

-- `decoded_policy[key]`: a missing key is a KeyError, and anything but an object a TypeError.
abbrev pub subscript : String → Json → Result Json
subscript key (obj fields) = elim (get key fields) [ none ↦ err key_error | some v ↦ ok v ]
subscript key _ = err value_error

-- `except (KeyError, TypeError, ValueError, json.JSONDecodeError)`
module _ {ℓ} {A : Type ℓ} where
  abbrev pub raise_for_policy : Result A → Result A
  raise_for_policy (ok a) = ok a
  raise_for_policy (err key_error) = err redrive_policy_error
  raise_for_policy (err value_error) = err redrive_policy_error
  raise_for_policy (err raised) = err raised

  abbrev pub present : Option A → Result A
  present none = err redrive_policy_error
  present (some a) = ok a

abbrev pub nonempty_text : Option String → Option String
nonempty_text none = none
nonempty_text (some s) = if s == "" then none else some s

-- The `try` that decodes the policy.
abbrev pub decode_policy : Python → String → Result (Json × ℤ)
decode_policy python raw_policy = raise_for_policy (do
  decoded_policy ← python.loads raw_policy
  dead_letter_target_arn ← subscript "deadLetterTargetArn" decoded_policy
  raw_count ← subscript "maxReceiveCount" decoded_policy
  max_receive_count ← int_of python (some raw_count)
  ok (dead_letter_target_arn, max_receive_count))

-- The two comparisons with what the worker expects.
abbrev pub expect_policy : String → ℤ → SqsRedrivePolicy → Result SqsRedrivePolicy
expect_policy expected_arn expected_count policy =
    if not (policy.dead_letter_target_arn == expected_arn)
    then err redrive_policy_error
    else if not (int_beq policy.max_receive_count expected_count)
    then err redrive_policy_error
    else ok policy

abbrev pub policy_of : Python → String → ℤ → Result Fields → Result SqsRedrivePolicy
policy_of python expected_arn expected_count answered = do
  response ← raise_for_client redrive_policy_error answered
  attributes ← present (mapping_of (get "Attributes" response))
  raw_policy ← present (text_of (get "RedrivePolicy" attributes))
  decoded ← decode_policy python raw_policy
  arn ← present (nonempty_text (text_of (some decoded.0)))
  expect_policy expected_arn expected_count
      (record { dead_letter_target_arn = arn; max_receive_count = decoded.1 })

-- `expected_max_receive_count < 1`
abbrev pub below_one : ℤ → Bool
below_one (pos n) = ltb n 1
below_one (negsuc n) = true

module _ (python : Python) {W : Type 0} (client : SqsClient W)
    (queue_url expected_dead_letter_target_arn : String) (expected_max_receive_count : ℤ) where
  unfoldable pub verify_sqs_redrive_policy : Exec W SqsRedrivePolicy
  verify_sqs_redrive_policy w =
      let (answered, w') = client.get_queue_attributes queue_url ("RedrivePolicy" ∷ []) w in
      if below_one expected_max_receive_count then (err value_error, w) else (
        policy_of python expected_dead_letter_target_arn expected_max_receive_count answered,
        w',
      )
