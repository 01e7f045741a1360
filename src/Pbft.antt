-- ===== src/Pbft.antt =====
-- The package pbft: one replica of the protocol.
pub mod Messages
pub mod Core
pub mod Quorum
pub mod Cert
pub mod Timers
pub mod PqSets
pub mod Persist
pub mod Calls
pub mod Watermarks
pub mod Transfer
pub mod Select
pub mod Views
pub mod Normal
pub mod NewView
pub mod Checkpoints
pub mod Execution
pub mod Replica
pub mod Wire
pub mod Steps
pub mod Invariants
pub mod Hashes
pub mod Ends
pub mod Init
pub mod Node
pub mod Server
pub mod Transaction
pub mod Running
pub mod Fixtures
mod Tests
