-- ===== src/Examples.antt =====
-- Concrete runs: inputs at which the theorems' hypotheses hold.
pub mod Toys
mod Wire
mod Sockets
mod Machines
mod Stores
mod Tools
mod Services
mod Players
mod Records
