-- ===== src/Driver.antt =====
-- src/driver.rs: the worker of a batch job.
pub mod Output
pub mod Records
pub mod World
pub mod Advance
pub mod Turn
pub mod Soundness
pub mod Submission
pub mod History
