-- ===== src/Libgen.antt =====
-- server/src/libgen: the general support library.
pub mod Outcome
pub mod Bytes
pub mod Buffer
pub mod Base64
pub mod Progress
pub mod Text
pub mod TextMap
pub mod Time
