-- ===== src/Crypto.antt =====
-- src/crypto: boxes over libsodium.
pub mod Box
pub mod InPlace
pub mod Fresh
