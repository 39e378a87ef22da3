-- ===== src/Request.antt =====
-- src/request.rs: what the proxy reads of a request, and the durable identity that it gives it.
pub mod Headers
pub mod Bytes
pub mod Inputs
pub mod Normalize
pub mod Identity
pub mod Agreement
pub mod Injective
pub mod Labels
pub mod Batch
