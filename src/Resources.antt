-- ===== src/Resources.antt =====
-- The custom resources of api/v1.
mod Cluster
mod User
mod Bucket
pub use Cluster.{
  RolloutConfig, CertManagerConfig, KeySelector, TrustedCaSource, TlsConfig, MonitoringConfig,
  MetricsConfigSource, PodDisruptionBudgetConfig, ClusterSpec, TlsStatus, MonitoringStatus,
  RiakBucketRef, RiakUserRef, RiakNodeMember, NodeCondition, ClusterPhase, no_phase, creating,
  ready, updating, failed, is_phase_ready, phase_text, ClusterStatus, RiakCluster,
}
pub use User.{Grant, CertIssuerRef, UserCertificateRef, UserSpec, UserStatus, RiakUser}
pub use Bucket.{BucketNodeRef, BucketSpec, BucketStatus, RiakBucket}
