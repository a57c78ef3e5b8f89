-- ===== src/Data/Types.antt =====
-- src/data/types: the structs that packets carry.
pub mod Misc
pub mod User
pub mod Gd
pub mod Room
pub mod Game
