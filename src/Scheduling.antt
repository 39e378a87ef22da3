-- ===== src/Scheduling.antt =====
-- src/scheduling_policy.rs and src/scheduling.rs: the in-memory scheduler of live requests.
pub mod Int
pub mod Policy
pub mod Types
pub mod Quota
pub mod Windows
pub mod Rolling
pub mod Readiness
pub mod Priority
pub mod Pacing
pub mod Dispatch
pub mod Scheduler
pub mod Paces
pub mod Room
pub mod Choice
pub mod Termination
pub mod Concurrency
pub mod InFlight
pub mod Steps
pub mod Validation
