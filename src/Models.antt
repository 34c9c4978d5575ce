-- ===== src/Models.antt =====
-- The rows of models/*.py and the database that holds them. Each table is a list in insertion
-- order; what the declared constraints refuse is in Models/Insert.antt. The length limits of the
-- `String(n)` columns are not modelled: SQLite ignores them, and PostgreSQL's refusal is no
-- IntegrityError.
pub mod Insert
pub mod Constraints
use trackrelay.Prelude.{ℕ, ℤ, String, Bool, Option, List}
use trackrelay.Domain.Timestamp.{DatabaseDatetime}
use trackrelay.Domain.Json.{Fields}
use trackrelay.Domain.Shipment.{ShipmentStatus}
use trackrelay.Domain.Event.{Uuid, EventProcessingStatus}
use trackrelay.Domain.Delivery.{DeliveryAttemptResult}

-- models/partner.py
pub record Partner : Type 0 where
  pub id : String
  pub name : String
  pub adapter_type : String
  pub is_active : Bool

-- models/shipment.py; the server's own clock is a number of microseconds.
pub record Shipment : Type 0 where
  pub tracking_number : String
  pub current_status : ShipmentStatus
  pub current_status_occurred_at : DatabaseDatetime
  pub created_at : ℕ
  pub updated_at : ℕ

-- models/event.py
pub record Event : Type 0 where
  pub id : Uuid
  pub partner_id : String
  pub partner_event_id : String
  pub tracking_number : String
  pub status : ShipmentStatus
  pub occurred_at : DatabaseDatetime
  pub received_at : DatabaseDatetime
  pub raw_payload : Fields
  pub test_run_id : Option Uuid
  pub processing_status : EventProcessingStatus
  pub state_applied : Bool
  pub state_rejection_reason : Option String
  pub created_at : ℕ

-- models/delivery_outbox.py
pub record DeliveryOutboxEntry : Type 0 where
  pub event_id : Uuid
  pub created_at : ℕ
  pub published_at : Option ℕ

-- models/delivery_attempt.py
pub record DeliveryAttempt : Type 0 where
  pub id : Uuid
  pub event_id : Uuid
  pub attempt_number : ℕ
  pub result : DeliveryAttemptResult
  pub response_code : Option ℕ
  pub latency_ms : ℕ
  pub error : Option String
  pub started_at : ℕ
  pub completed_at : ℕ

-- models/test_run.py
pub record TestRun : Type 0 where
  pub id : Uuid
  pub scenario_name : String
  pub random_seed : ℤ
  pub configuration : Fields
  pub expected_event_count : ℕ
  pub started_at : ℕ
  pub completed_at : Option ℕ

pub record Database : Type 0 where
  pub partners : List Partner
  pub shipments : List Shipment
  pub events : List Event
  pub outbox : List DeliveryOutboxEntry
  pub attempts : List DeliveryAttempt
  pub test_runs : List TestRun
