-- ===== src/Tests.antt =====
-- Runs of the definitions at concrete inputs, and the theorems at such inputs.
pub mod Memory
mod Queries
mod Documents
mod Locks
mod LockServer
mod Exclusion
mod Holding
mod Connections
mod Closing
mod Checks
mod Transactions
mod Scenarios
mod Sessions
mod Retries
mod Handles
mod Timing
mod Purging
mod Phrases
