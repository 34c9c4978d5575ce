-- ===== src/Domain/Delivery.antt =====
-- domain/delivery.py
use trackrelay.Prelude.{Bool, true, false}

pub data DeliveryAttemptResult : Type 0 where
  delivered http_error transport_error : DeliveryAttemptResult

-- `result is DeliveryAttemptResult.DELIVERED`
abbrev pub is_delivered : DeliveryAttemptResult → Bool
is_delivered delivered = true
is_delivered http_error = false
is_delivered transport_error = false
