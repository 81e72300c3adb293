-- ===== src/Rollout.antt =====
-- internal/controller/rollout.go: the rolling restart of a cluster's nodes, one at a time.
pub mod Partition
pub mod Settled
pub mod Next
pub mod Budget
pub mod Reconcile
