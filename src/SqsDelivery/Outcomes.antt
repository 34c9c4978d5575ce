-- ===== src/SqsDelivery/Outcomes.antt =====
-- What the receiver comes to on every response of SQS, however it is formed.
use trackrelay.Prelude.{
  length, All, ℤ, ◌>>=◌, Error, Result, string_equality, nat_equality, option_equality,
  pair_equality, ℕ, zero, suc, ◌≤◌, String, ◌≡◌, refl, ap, ◌⊎◌, inl, inr, Option, none, some, arith,
  ok, err, receive_error, message_decode_error, validation_error, client_error, overflow_error,
  value_error, pos, negsuc,
}
use trackrelay.Domain.Json.{
  Json, Items, Fields, get, null, bool, int, float, str, arr, obj, nil, cons,
}
use trackrelay.Services.DeliveryQueue.{DownstreamDeliveryJob, DownstreamDeliveryMessage}
use trackrelay.SqsDelivery.{
  SqsClient, Python, int_of, JobJson, raise_for_client, raise_for_value, raise_for_decoding,
  raw_messages, required, positive, mapping_of, text_of, sqs_message, SqsReceiver, wrap_message,
  wrap_messages, sqs_receive,
}

-- What the three parameters raise: boto3's call its two classes, pydantic's reading ValidationError or
-- ValueError, and int() of a float ValueError or OverflowError.
pub record RaisesKnown (python : Python) (json : JobJson) {W : Type 0} (client : SqsClient W)
    : Type 0 where
  pub receiving :
      (url : String) (most wait visibility : ℤ) (w : W) (e : Error)
      → (client.receive_message url most wait visibility w).0 ≡ err e
      → e ≡ client_error
  pub decoding :
      (body : String) (e : Error)
      → json.validate_json body ≡ err e
      → (e ≡ validation_error) ⊎ (e ≡ value_error)
  pub rounding :
      (bits : ℕ) (e : Error)
      → python.int_of_float bits ≡ err e
      → (e ≡ value_error) ⊎ (e ≡ overflow_error)

-- A value as `P` says, or DownstreamDeliveryReceiveError, or the OverflowError of an infinite count.
abbrev pub Outcome {ℓ} : {A : Type ℓ} → (A → Type 0) → Result A → Type 0
Outcome P (ok a) = P a
Outcome P (err e) = (e ≡ receive_error) ⊎ (e ≡ overflow_error)

Outcome-bind {ℓ} :
    {A B : Type ℓ} (P : A → Type 0) (Q : B → Type 0) (r : Result A) (f : A → Result B)
    → Outcome P r
    → ((a : A) → P a → Outcome Q (f a))
    → Outcome Q (r >>= f)
Outcome-bind P Q (ok a) f h next = next a h
Outcome-bind P Q (err e) f h next = h

Outcome-imp {ℓ} :
    {A : Type ℓ} (P Q : A → Type 0) (r : Result A)
    → ((a : A) → P a → Q a)
    → Outcome P r
    → Outcome Q r
Outcome-imp P Q (ok a) f h = f a h
Outcome-imp P Q (err e) f h = h

-- A job that cannot be read raises what the worker expects of a message.
abbrev pub IsReadable : Result DownstreamDeliveryJob → Type 0
IsReadable (ok _) = Unit
IsReadable (err e) = e ≡ message_decode_error

abbrev pub IsUsable : {W : Type 0} → DownstreamDeliveryMessage W → Type 0
IsUsable m = (1 ≤ m.receive_count) × IsReadable m.job

required-Outcome {ℓ} : {A : Type ℓ} (o : Option A) → Outcome (λ _. Unit) (required o)
required-Outcome none = inl refl
required-Outcome (some a) = tt

positive-Outcome : (z : ℤ) → Outcome (λ n. 1 ≤ n) (required (positive z))
positive-Outcome (negsuc n) = inl refl
positive-Outcome (pos zero) = inl refl
positive-Outcome (pos (suc n)) = omega arith

abbrev item_count : Items → ℕ
item_count nil = 0
item_count (cons raw items) = suc (item_count items)

module _ (python : Python) (json : JobJson) {W : Type 0} (client : SqsClient W) (queue_url : String)
    (known : RaisesKnown python json client) where
  decoded :
      (r : Result DownstreamDeliveryJob)
      → ((e : Error) → r ≡ err e → (e ≡ validation_error) ⊎ (e ≡ value_error))
      → IsReadable (raise_for_decoding r)
  decoded (ok job) h = tt
  decoded (err e) h = elim (h e refl) [ inl invalid ↦ rw (invalid) refl | inr bad ↦ rw (bad) refl ]

  int_of_raises :
      (o : Option Json) (e : Error)
      → int_of python o ≡ err e
      → (e ≡ value_error) ⊎ (e ≡ overflow_error)
  int_of_raises none e h = inl (ground (arith, h))
  int_of_raises (some null) e h = inl (ground (arith, h))
  int_of_raises (some (bool b)) e h = absurd (ground (arith, h))
  int_of_raises (some (int z)) e h = absurd (ground (arith, h))
  int_of_raises (some (float bits)) e h = known.rounding bits e h
  int_of_raises (some (str s)) e h = inl (ground (arith, h))
  int_of_raises (some (arr items)) e h = inl (ground (arith, h))
  int_of_raises (some (obj fields)) e h = inl (ground (arith, h))

  value-Outcome :
      (r : Result ℤ)
      → ((e : Error) → r ≡ err e → (e ≡ value_error) ⊎ (e ≡ overflow_error))
      → Outcome (λ _. Unit) (raise_for_value receive_error r)
  value-Outcome (ok z) h = tt
  value-Outcome (err e) h = elim (h e refl) [
    | inl bad ↦ rw (bad) (inl refl)
    | inr infinite ↦ rw (infinite) (inr refl)
  ]

  message-Outcome :
      (body handle : String) (n : ℕ)
      → 1 ≤ n
      → Outcome IsUsable (sqs_message json client queue_url body handle (pos n))
  unfolding sqs_message
  message-Outcome body handle zero h = absurd (omega (arith, h))
  message-Outcome body handle (suc n) h =
      (h, decoded (json.validate_json body) (known.decoding body))

  wrap-Outcome : (raw : Json) → Outcome IsUsable (wrap_message python json client queue_url raw)
  unfolding wrap_message
  wrap-Outcome raw =
      Outcome-bind (λ _. Unit) IsUsable _ _ (required-Outcome (mapping_of (some raw)))
        (λ fields _.
          Outcome-bind (λ _. Unit) IsUsable _ _ (required-Outcome (text_of (get "Body" fields)))
            (λ body _.
              Outcome-bind (λ _. Unit) IsUsable _ _
                (required-Outcome (text_of (get "ReceiptHandle" fields)))
                (λ handle _.
                  Outcome-bind (λ _. Unit) IsUsable _ _
                    (required-Outcome (mapping_of (get "Attributes" fields)))
                    (λ attributes _.
                      Outcome-bind (λ _. Unit) IsUsable _ _
                        (value-Outcome _ (int_of_raises (get "ApproximateReceiveCount" attributes)))
                        (λ count _.
                          Outcome-bind (λ n. 1 ≤ n) IsUsable _ _ (positive-Outcome count)
                            (λ n h. message-Outcome body handle n h))))))

  wrap_all-Outcome :
      (items : Items)
      → Outcome
          (λ ms. All IsUsable ms × (length ms ≡ item_count items))
          (wrap_messages python json client queue_url items)
  unfolding wrap_messages
  wrap_all-Outcome nil = (tt, refl)
  wrap_all-Outcome (cons raw items) = Outcome-bind IsUsable _ _ _ (wrap-Outcome raw) (λ m usable.
      Outcome-bind (λ ms. All IsUsable ms × (length ms ≡ item_count items)) _ _ _
        (wrap_all-Outcome items) (λ ms rest. ((usable, rest.0), ap suc rest.1)))

  client-Outcome :
      (r : Result Fields)
      → ((e : Error) → r ≡ err e → e ≡ client_error)
      → Outcome (λ _. Unit) (raise_for_client receive_error r)
  client-Outcome (ok fields) h = tt
  client-Outcome (err e) h = rw (h e refl) (inl refl)

  raw-Outcome : (o : Option Json) → Outcome (λ _. Unit) (raw_messages o)
  raw-Outcome none = tt
  raw-Outcome (some null) = inl refl
  raw-Outcome (some (bool b)) = inl refl
  raw-Outcome (some (int z)) = inl refl
  raw-Outcome (some (float bits)) = inl refl
  raw-Outcome (some (str s)) = inl refl
  raw-Outcome (some (arr items)) = tt
  raw-Outcome (some (obj fields)) = inl refl

-- On every answer of SQS, well formed or not, the receiver returns messages of which each has a
-- positive receive count and a job that can be read or raises DownstreamDeliveryMessageDecodeError; or
-- it raises DownstreamDeliveryReceiveError, or the
-- OverflowError of int(), when boto3, pydantic and int() raise only what they document.
pub receive-Outcome :
    (python : Python) (json : JobJson) {W : Type 0} (client : SqsClient W) (queue_url : String)
    (receiver : SqsReceiver) (w : W)
    → RaisesKnown python json client
    → Outcome (All IsUsable) (sqs_receive python json client queue_url receiver w).0
unfolding sqs_receive
receive-Outcome python json client queue_url receiver w known =
    Outcome-bind (λ _. Unit) (All IsUsable) _ _
      (client-Outcome python json client queue_url known _ (
        known.receiving queue_url receiver.max_messages receiver.wait_time_seconds
          receiver.visibility_timeout_seconds w))
      (λ response _.
        Outcome-bind (λ _. Unit) (All IsUsable) _ _
          (raw-Outcome python json client queue_url known (get "Messages" response))
          (λ items _.
            Outcome-imp (λ ms. All IsUsable ms × (length ms ≡ item_count items)) (All IsUsable) _
              (λ ms h. h.0) (wrap_all-Outcome python json client queue_url known items)))
