-- ===== src/Worker.antt =====
-- internal/worker: handler processes, their in-flight messages, and the pool.
pub mod State
pub mod Messages
pub mod Process
pub mod Steps
pub mod Cases
pub mod Table
pub mod Invariant
pub mod Keeps
pub mod Moves
pub mod Turns
pub mod Runs
pub mod Settlement
pub mod Ledger
pub mod Drain
pub mod Stdin
pub mod Flows
pub mod Queues
pub mod Feeding
pub mod Pool
pub mod Quiet
pub mod Picked
pub mod Taken
pub mod Crash
pub mod Relayed
pub mod Flags
pub mod Shutdown
