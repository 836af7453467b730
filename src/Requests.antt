-- ===== src/Requests.antt =====
-- infra/requests: what a handler reads of its request, and the reply it gives.
pub mod Response
pub mod Request
pub mod Answered
mod Tests
