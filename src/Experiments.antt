-- ===== src/Experiments.antt =====
-- The experiments (src/trackrelay/experiments/*.py): manifests, and what is computed from evidence.
pub mod Manifest
pub mod Generator
pub mod Scenarios
pub mod Evidence
pub mod Deliveries
pub mod FinalStates
pub mod Report
pub mod Reconciliation
pub mod Guardrails
