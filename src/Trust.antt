-- ===== src/Trust.antt =====
-- internal/controller/trust.go: the CA bundle of a cluster, and the check of externally issued client
-- certificates. Pem reads certificates.
pub mod Pem
pub mod Bundle
pub mod Secret
pub mod External
