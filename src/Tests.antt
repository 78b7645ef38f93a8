-- ===== src/Tests.antt =====
-- Runs of the model on concrete inputs: sample data, and each theorem at work on them.
pub mod Samples
mod Workers
mod Notes
mod Routes
mod Admission
mod Engine
mod Knobs
mod Pools
mod Crashes
mod Systems
mod Emits
mod Runs
mod Mains
