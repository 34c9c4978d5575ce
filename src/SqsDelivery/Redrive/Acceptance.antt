-- ===== src/SqsDelivery/Redrive/Acceptance.antt =====
-- What a verified redrive policy is, and that the expected one is accepted.
use trackrelay.Prelude.{
  ltb, Bool-cases, int_beq, int_beq_refl, ℤ, ◌>>=◌, Result, ◌==◌, string_equality, nat_equality,
  option_equality, pair_equality, beq_refl, ℕ, ◌≤◌, String, ◌≡◌, refl, ap, subst, inl, inr, true,
  false, some, [], ◌∷◌, arith, ok, err, redrive_policy_error, pos, negsuc,
}
use trackrelay.Domain.Json.{Fields, get, str, int, obj, end, field}
use trackrelay.SqsDelivery.{SqsClient, Python, raise_for_client, mapping_of, text_of}
use trackrelay.SqsDelivery.Redrive.{
  SqsRedrivePolicy, present, nonempty_text, decode_policy, expect_policy, below_one, policy_of,
  verify_sqs_redrive_policy,
}

abbrev Returns {ℓ} : {A : Type ℓ} → (A → Type 0) → Result A → Type 0
Returns P (ok a) = P a
Returns P (err e) = Unit

Returns-bind {ℓ} :
    {A B : Type ℓ} (P : B → Type 0) (r : Result A) (f : A → Result B)
    → ((a : A) → Returns P (f a))
    → Returns P (r >>= f)
Returns-bind P (ok a) f next = next a
Returns-bind P (err e) f next = tt

int_beq_sound : (a b : ℤ) → int_beq a b ≡ true → a ≡ b
int_beq_sound (pos a) (pos b) h = ap pos ((nat_equality.equal_iff a b).0 h)
int_beq_sound (pos a) (negsuc b) h = absurd (ground (arith, h))
int_beq_sound (negsuc a) (pos b) h = absurd (ground (arith, h))
int_beq_sound (negsuc a) (negsuc b) h = ap negsuc ((nat_equality.equal_iff a b).0 h)

module _ (python : Python) (expected_arn : String) (expected_count : ℤ) where
  abbrev expected_policy : SqsRedrivePolicy
  expected_policy = record {
    dead_letter_target_arn = expected_arn;
    max_receive_count = expected_count;
  }

  expect-Returns :
      (policy : SqsRedrivePolicy)
      → Returns (λ p. p ≡ expected_policy) (expect_policy expected_arn expected_count policy)
  expect-Returns policy = ground (
    arith,
    string_equality.equal_iff policy.dead_letter_target_arn expected_arn,
    int_beq_sound policy.max_receive_count expected_count,
  )

  policy-Returns :
      (answered : Result Fields)
      → Returns (λ p. p ≡ expected_policy) (policy_of python expected_arn expected_count answered)
  policy-Returns answered =
      Returns-bind _ (raise_for_client redrive_policy_error answered) _ (λ response.
        Returns-bind _ (present (mapping_of (get "Attributes" response))) _ (λ attributes.
          Returns-bind _ (present (text_of (get "RedrivePolicy" attributes))) _ (λ raw.
            Returns-bind _ (decode_policy python raw) _ (λ decoded.
              Returns-bind _ (present (nonempty_text (text_of (some decoded.0)))) _ (λ arn.
                expect-Returns
                  (record { dead_letter_target_arn = arn; max_receive_count = decoded.1 }))))))

returned :
    (P : SqsRedrivePolicy → Type 0) (r : Result SqsRedrivePolicy) (policy : SqsRedrivePolicy)
    → Returns P r
    → r ≡ ok policy
    → P policy
returned P (ok a) policy h same = subst P (ground (arith, same)) h
returned P (err e) policy h same = absurd (ground (arith, same))

natural_of : (z : ℤ) → below_one z ≡ false → (n : ℕ) × (z ≡ pos n) × (1 ≤ n)
natural_of (pos n) h = (n, refl, ground (arith, h))
natural_of (negsuc n) h = absurd (cc)

-- The verification accepts only the policy that it expects: when it returns, the policy is the
-- expected one, and the expected count, any integer, is at least 1.
pub verify_expected :
    (python : Python) {W : Type 0} (client : SqsClient W) (queue_url expected_arn : String)
    (expected_count : ℤ) (policy : SqsRedrivePolicy) (w : W)
    → (verify_sqs_redrive_policy python client queue_url expected_arn expected_count w).0
      ≡ ok policy
    → ((n : ℕ) × (expected_count ≡ pos n) × (1 ≤ n))
      × (policy
          ≡ record { dead_letter_target_arn = expected_arn; max_receive_count = expected_count })
unfolding verify_sqs_redrive_policy
verify_expected python client queue_url expected_arn expected_count policy w h =
    elim (Bool-cases (below_one expected_count)) [
      | inl below ↦ absurd (ground (arith, h, below))
      | inr enough ↦ (
        natural_of expected_count enough,
        returned (λ p. p ≡ expected_policy python expected_arn expected_count) _ policy
            (policy-Returns python expected_arn expected_count
              (client.get_queue_attributes queue_url ("RedrivePolicy" ∷ []) w).0)
            (ground (arith, h, enough)),
      )
    ]

ltb_none : (n : ℕ) → 1 ≤ n → ltb n 1 ≡ false
ltb_none n h = ground (arith, h)

-- A queue whose policy is the expected one, with a named dead-letter queue and a positive count, is
-- accepted.
pub verify_accepts :
    (python : Python) {W : Type 0} (client : SqsClient W) (queue_url expected_arn text : String)
    (expected_count : ℕ) (w : W)
    → 1 ≤ expected_count
    → (expected_arn == "") ≡ false
    → (client.get_queue_attributes queue_url ("RedrivePolicy" ∷ []) w).0
      ≡ ok (field "Attributes" (obj (field "RedrivePolicy" (str text) end)) end)
    → python.loads text
      ≡ ok (
          obj (
            field "deadLetterTargetArn"
              (str expected_arn)
              (field "maxReceiveCount" (int (pos expected_count)) end)))
    → (verify_sqs_redrive_policy python client queue_url expected_arn (pos expected_count) w).0
      ≡ ok
          (record { dead_letter_target_arn = expected_arn; max_receive_count = pos expected_count })
unfolding verify_sqs_redrive_policy
verify_accepts python client queue_url expected_arn text expected_count w most named answered
      loaded =
    rw
      (
        below_one,
        ltb_none expected_count most,
        answered,
        decode_policy,
        loaded,
        named,
        beq_refl expected_arn,
        int_beq_refl (pos expected_count),
      )
      refl
