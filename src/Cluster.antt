-- ===== src/Cluster.antt =====
-- internal/controller/riakcluster_controller.go: what a RiakCluster is turned into. Env is the
-- environment of the Riak container, Pod the rest of the pod template, Workload reconcileStatefulSet.
pub mod Env
pub mod Pod
pub mod Workload
pub mod Certificate
pub mod Service
pub mod Wired
pub mod Refs
pub mod Nodes
pub mod Readiness
pub mod Status
pub mod Reconcile
