-- ===== src/Db.antt =====
-- src/db.rs and src/job_store.rs over the tables of migrations/.
pub mod Rows
pub mod Table
pub mod Transitions
pub mod Statements
pub mod Requests
pub mod Enqueue
pub mod Decoding
pub mod Machine
pub mod Moves
pub mod Refinement
pub mod Safety
pub mod Operations
