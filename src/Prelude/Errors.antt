-- ===== src/Prelude/Errors.antt =====
-- Python's exceptions as values: the classes that the program raises or catches.
use Prim.Native.Nat.{ℕ}
use Prim.Native.String.{String}
use mathlib.Core.Path.{◌≡◌, refl}
use mathlib.Core.Logic.{◌⊎◌, inl, inr}

pub data Error : Type 0 where
  -- SQLAlchemy
  integrity_error sqlalchemy_error : Error
  -- httpx: a response outside 2xx, a failed exchange, and any other exception of a call
  http_status_error : ℕ → String → Error
  transport_error : String → Error
  unexpected_error : String → Error
  -- services/delivery_queue.py
  queue_error receive_error message_decode_error acknowledgement_error : Error
  -- services/downstream_worker.py
  persisted_event_not_found recorded_delivery_inconsistent : Error
  -- services/delivery_outbox.py
  outbox_entry_not_found : Error
  -- sqs_delivery.py
  backlog_inspection_error redrive_policy_error : Error
  -- services/experiment_reset.py
  experiment_reset_error : Error
  -- experiments/reconciliation.py
  test_run_not_found test_run_definition_mismatch : Error
  -- botocore: BotoCoreError and ClientError
  client_error : Error
  -- builtins.KeyError
  key_error : Error
  -- pydantic.ValidationError
  validation_error : Error
  -- builtins.OverflowError
  overflow_error : Error
  -- builtins.ValueError
  value_error : Error

-- What a call comes to: it raises, or it returns.
pub data Result {ℓ} (Value : Type ℓ) : Type ℓ where
  err : Error → Result Value
  ok : Value → Result Value

-- what a function that returns `None` returns
abbrev pub Done : Type 0
Done = Unit

module _ {ℓ κ} {A : Type ℓ} {B : Type κ} where
  infixl 5 ◌>>=◌
  abbrev pub ◌>>=◌ : Result A → (A → Result B) → Result B
  err raised >>= next = err raised
  ok value >>= next = next value

module _ {ℓ} {B : Type ℓ} where
  infixl 5 ◌>>◌
  abbrev pub ◌>>◌ : Result Done → Result B → Result B
  first >> second = first >>= (λ _. second)

-- An action that may write to `S` before it raises.
abbrev pub Exec {ℓ} : Type ℓ → Type ℓ → Type ℓ
Exec S A = S → Result A × S

pub Result-cases {ℓ} :
    {A : Type ℓ} (r : Result A) → ((a : A) × (r ≡ ok a)) ⊎ ((e : Error) × (r ≡ err e))
Result-cases (ok a) = inl (a, refl)
Result-cases (err e) = inr (e, refl)
