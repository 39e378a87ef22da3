-- ===== src/Tests.antt =====
-- Runs of the model, and each result at an input that meets its hypotheses.
mod Samples
mod Jobs
mod Proxy
mod Handlers
mod Streams
mod Usage
mod Scheduling
