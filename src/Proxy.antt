-- ===== src/Proxy.antt =====
-- src/proxy.rs: the handlers of the proxy.
pub mod Usage
pub mod BatchStream
pub mod Answers
pub mod Retry
pub mod Route
pub mod Handlers
