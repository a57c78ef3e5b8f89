-- ===== src/Util.antt =====
-- src/util: containers, checksums, text.
pub mod CappedQueue
pub mod SmallVector
pub mod Adler32
pub mod Format
