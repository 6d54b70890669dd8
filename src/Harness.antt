-- ===== src/Harness.antt =====
-- backend/pixelflow/agent_harness: what the gateways share about the sidecar.
pub mod Admission
