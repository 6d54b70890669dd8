-- ===== src/Sidecar.antt =====
-- The sidecar of services/pixelflow-agent-harness: the event store and the run service.
pub mod Rows
pub mod EventStore
pub mod RunService
mod Tests
