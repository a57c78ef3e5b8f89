-- ===== src/Packets.antt =====
-- src/data/packets: packet classes.
pub mod Base
pub mod Crypto
pub mod Client
pub mod Server
pub mod RoundTrip
