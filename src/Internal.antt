-- ===== src/Internal.antt =====
-- internal/: the parts of the framework that the infrastructure components work on.
pub mod Memstore
pub mod Entity
pub mod Services
pub mod EventBus
pub mod Headers
pub mod Injection
pub mod Infras
pub mod Application
