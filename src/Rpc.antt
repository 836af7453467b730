-- ===== src/Rpc.antt =====
-- infra/rpc: the pool of thrift clients and the agent that runs calls on it.
pub mod Client
pub mod Pool
pub mod Agent
mod Tests
