-- ===== src/User.antt =====
-- internal/controller/riakuser_controller.go: the controller of RiakUser.
pub mod Status
pub mod Deletion
pub mod Certificate
pub mod Reconcile
