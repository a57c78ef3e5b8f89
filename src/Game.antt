-- ===== src/Game.antt =====
-- src/game: what is known of the players in a level.
pub mod PlayerStore
pub mod PlayerStates
pub mod Interpolator
