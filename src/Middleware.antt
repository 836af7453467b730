-- ===== src/Middleware.antt =====
-- The handlers of middleware/.
pub mod Authentication
pub mod BusFilter
