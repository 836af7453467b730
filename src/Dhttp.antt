-- ===== src/Dhttp.antt =====
-- The http client of infra/dhttp.
pub mod Cookies
pub mod Request
pub mod Chain
pub mod Results
