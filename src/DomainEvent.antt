-- ===== src/DomainEvent.antt =====
-- infra/domainevent: events that are stored in the transaction of their entity, pushed after it has
-- committed, and retried until a push succeeds.
pub mod Publish
pub mod Save
pub mod Push
pub mod Retry
pub mod Commit
mod Tests
