-- ===== src/Memory.antt =====
-- backend/pixelflow/long_term_memory: the durable queue of memory writes and its worker.
pub mod Outbox
