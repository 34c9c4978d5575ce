-- ===== src/Services.antt =====
-- The application services (src/trackrelay/services/*.py).
pub mod EventPersistence
pub mod DeliveryQueue
pub mod DeliveryOutbox
pub mod DownstreamDelivery
pub mod DownstreamWorker
pub mod ExperimentReset
pub mod ShipmentHistory
