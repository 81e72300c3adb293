-- ===== src/Riak/Manager.antt =====
-- internal/riak/manager.go: what the operator has riak-admin do on a cluster.
pub mod Membership
pub mod Grants
pub mod Commands
