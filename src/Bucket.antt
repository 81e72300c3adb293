-- ===== src/Bucket.antt =====
-- internal/controller/riakbucket_controller.go: the controller of RiakBucket.
pub mod Properties
pub mod Reconcile
