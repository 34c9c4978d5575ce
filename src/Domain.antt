-- ===== src/Domain.antt =====
-- The shared domain types (src/trackrelay/domain/*.py), with the rule that lets an event advance a
-- shipment, the timestamps, and the JSON values of raw payloads.
pub mod Timestamp
pub mod Json
pub mod Shipment
pub mod Event
pub mod Delivery
