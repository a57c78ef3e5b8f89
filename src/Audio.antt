-- ===== src/Audio.antt =====
-- src/audio: voice frames and queues.
pub mod Frame
pub mod Stream
pub mod Voices
pub mod Recording
