-- ===== src/Data.antt =====
-- src/data: the wire format.
pub mod Words
pub mod Buffer
pub mod Serial
pub mod Bits
pub mod Types
