-- ===== src/Domain/Event.antt =====
-- domain/event.py, with the part of pydantic that the program's models rely on as parameters.
use trackrelay.Prelude.{ℕ, String, ◌≡◌, Option, none, some, ◌==◌, string_equality, if◌then◌else◌}
use trackrelay.Domain.Timestamp.{AwareDatetime}
use trackrelay.Domain.Json.{Json, str, Fields}
use trackrelay.Domain.Shipment.{ShipmentStatus}

-- A UUID is its 128-bit number.
abbrev pub Uuid : Type 0
Uuid = ℕ

pub data EventProcessingStatus : Type 0 where
  received processed failed : EventProcessingStatus

pub record NormalizedEvent : Type 0 where
  pub partner_id : String
  pub partner_event_id : String
  pub tracking_number : String
  pub status : ShipmentStatus
  pub occurred_at : AwareDatetime
  pub received_at : AwareDatetime
  pub raw_payload : Fields
  pub test_run_id : Option Uuid

-- pydantic: `strip_whitespace`, and the reading and printing of an aware datetime.
pub record Pydantic : Type 0 where
  pub strip : String → String
  pub parse_datetime : Json → Option AwareDatetime
  pub dump_datetime : AwareDatetime → String

-- What pydantic documents of these.
pub record PydanticLaws (p : Pydantic) : Type 0 where
  pub strip-strip : (s : String) → p.strip (p.strip s) ≡ p.strip s
  pub parse-dump : (t : AwareDatetime) → p.parse_datetime (str (p.dump_datetime t)) ≡ some t

module _ (p : Pydantic) where
  -- `Identifier`: a string, stripped, and then not empty.
  unfoldable pub identifier : String → Option String
  identifier s = let t = p.strip s in if t == "" then none else some t
