-- ===== src/Pbft/Invariants.antt =====
-- What every sequence of moves keeps.
pub mod Execution
pub mod Certs
pub mod Quorums
pub mod Agreement
pub mod Stores
pub mod Liveness
pub mod Handovers
mod Tests
