-- ===== src/Riak.antt =====
-- internal/riak: the executor that runs riak-admin, and the manager.
pub mod Executor
pub mod Manager
