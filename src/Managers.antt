-- ===== src/Managers.antt =====
-- src/managers: the objects that keep the game's state beside the network.
pub mod BlockList
pub mod CentralServers
pub mod GameServers
pub mod Roles
pub mod Accounts
pub mod Profiles
pub mod Session
pub mod ErrorQueues
