-- ===== src/Consumers.antt =====
-- server/src/consumers.
pub mod EventRecorder
