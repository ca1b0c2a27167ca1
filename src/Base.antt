-- ===== src/Base.antt =====
-- server/src/base: providers and consumers of frames.
pub mod Feed
pub mod Controller
