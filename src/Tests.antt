-- ===== src/Tests.antt =====
-- Runs of the model at concrete inputs, and the theorems applied there.
pub mod Calendar
pub mod Sorts
pub mod Values
pub mod Searches
pub mod Tables
pub mod Requests
pub mod Serving
pub mod Metrics
pub mod Finding
