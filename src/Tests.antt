-- ===== src/Tests.antt =====
-- The theorems at concrete inputs.
pub mod Hex
pub mod Json
pub mod Events
pub mod Requests
pub mod Subscriptions
pub mod Numbers
pub mod Registry
pub mod Serving
pub mod Batches
pub mod Files
pub mod Generated
pub mod Sessions
