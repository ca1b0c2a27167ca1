-- ===== src/Processors.antt =====
-- server/src/processors.
pub mod DelayBuffer
pub mod RateLimiter
pub mod InputFallback
